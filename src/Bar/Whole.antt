-- ===== src/Bar/Whole.antt =====
-- src/bar/BarMaker.cpp, generateVecBar: that the loops end, and what the bars look like.
use nat_framework.Prelude.{
  ℤ, pos, ◌+ℤ◌, ◌≤ℤ◌, ltb_ℤ, ◌≡◌, refl, arith, int_laws, Bool, true, false, if◌then◌else◌, some,
  List, [], ◌∷◌, ◌++◌, Bool-cases, inl, inr,
}
use nat_framework.Double.{Double}
use nat_framework.TradeBase.{InstrumentInfo}
use nat_framework.Bar.Spans.{
  TimeSpan, Ascending, IsDay, six_pm, get_trading_timespan, get_trading_timespan-IsDay,
}
use nat_framework.Bar.Bar2.{Bar2, new_bar}
use nat_framework.Bar.Generate.{
  Cursor, trade_span, span_bars, auction_bar, last_bars, adjust, adjust_all, cycle_bars,
  generate_vec_bar,
}
use nat_framework.Bar.Cut.{
  IsPlaced, AllProper, AllProper-++, IsTraded, trade_span-IsTraded, later-IsPlaced, begin-IsPlaced,
  Ascending-end,
}

module _ {D : Type 0} where
  -- All the spans.
  auction_or_trade :
      (cycle lo : ℤ) (bar : Bar2 D) (ts : TimeSpan) (c : Cursor)
      → pos 1 ≤ℤ cycle
      → IsPlaced cycle lo c
      → pos 0 ≤ℤ lo
      → lo ≤ℤ ts.bgn_sec
      → ts.bgn_sec +ℤ pos 1 ≤ℤ ts.end_sec
      → ts.end_sec ≤ℤ pos 86400
      → IsTraded cycle ts.end_sec (
          if ts.is_auction
          then some (auction_bar bar ts ∷ [], c)
          else trade_span 86402 cycle bar ts c)
  unfolding trade_span
  auction_or_trade cycle lo bar ts c hc pl h0 hlo hts hend = elim (Bool-cases ts.is_auction) [
    | inl a ↦
        rw (a) (_, c, refl, (hts, tt), later-IsPlaced cycle lo ts.end_sec c (omega int_laws) pl)
    | inr t ↦ rw (t) (trade_span-IsTraded cycle lo bar ts c hc pl h0 hlo hts hend)
  ]

  span_bars-IsTraded :
      (cycle lo : ℤ) (bar : Bar2 D) (spans : List TimeSpan) (c : Cursor)
      → pos 1 ≤ℤ cycle
      → IsPlaced cycle lo c
      → pos 0 ≤ℤ lo
      → Ascending lo spans
      → (hi : ℤ) × IsTraded cycle hi (span_bars 86402 cycle bar spans c)
  span_bars-IsTraded cycle lo bar [] c hc pl h0 asc = (lo, ([], c, refl, tt, pl))
  span_bars-IsTraded cycle lo bar (ts ∷ spans) c hc pl h0 (a1, a2, a3) =
      let (bars, c1, e1, p1, pl1) =
        auction_or_trade cycle lo bar ts c hc pl h0 a1 a2 (Ascending-end ts.end_sec spans a3) in
      let (hi, (more, c2, e2, p2, pl2)) =
        span_bars-IsTraded cycle ts.end_sec bar spans c1 hc pl1 (omega int_laws) a3 in
      (hi, (bars ++ more, c2, ground arith, AllProper-++ bars more p1 p2, pl2))

  adjust-times :
      (spans : List TimeSpan) (first : Bool) (b : Bar2 D)
      → ((adjust spans first b).bob ≡ b.bob) × ((adjust spans first b).eob ≡ b.eob)
  unfolding adjust
  adjust-times spans first b = ground arith

  adjust_all-AllProper :
      (spans : List TimeSpan) (first : Bool) (bars : List (Bar2 D))
      → AllProper bars
      → AllProper (adjust_all spans first bars)
  adjust_all-AllProper spans first [] p = tt
  adjust_all-AllProper spans first (b ∷ bars) p =
      let (e1, e2) = adjust-times spans first b in
      (rw (e1, e2) p.0, adjust_all-AllProper spans false bars p.1)

  last_bars-AllProper :
      (cycle hi : ℤ) (bar : Bar2 D) (c : Cursor) → IsPlaced cycle hi c → AllProper (last_bars bar c)
  last_bars-AllProper cycle hi bar c pl = elim (Bool-cases (ltb_ℤ (pos 0) c.leave)) [
    | inl more ↦
        let h : c.bob +ℤ pos 1 +ℤ c.leave ≤ℤ c.eob = ground (arith, pl.proper) in
        rw (more) (omega int_laws, tt)
    | inr none_left ↦ rw (none_left) tt
  ]

  cycle_bars-AllProper :
      (cycle : ℤ) (bar : Bar2 D) (spans : List TimeSpan)
      → pos 1 ≤ℤ cycle
      → IsDay spans
      → (bars : List (Bar2 D)) × (cycle_bars 86402 cycle bar spans ≡ some bars) × AllProper bars
  unfolding cycle_bars
  cycle_bars-AllProper cycle bar spans hc day =
      let (hi, (bars, c, e, p, pl)) =
        span_bars-IsTraded cycle (pos 0) bar spans
          (record { bob = pos 0; eob = pos 0; leave = pos 0 }) hc (begin-IsPlaced cycle hc)
          (omega arith) day.ascending in
      (
        adjust_all spans true (bars ++ last_bars bar c),
        ground arith,
        adjust_all-AllProper spans true (bars ++ last_bars bar c)
            (AllProper-++ bars (last_bars bar c) p (last_bars-AllProper cycle hi bar c pl)),
      )

module _ {D : Type 0} ⦃F : Double D⦄ where
  -- With the default base of the day, for every instrument and every cycle of at least one
  -- second, the loops that make the bars end, with no more than 86402 turns of the inner one for
  -- a span, and every bar that they make ends after it begins.
  pub generate_vec_bar-AllProper :
      (info : InstrumentInfo) (cycle : ℤ)
      → pos 1 ≤ℤ cycle
      → (bars : List (Bar2 D)) × (generate_vec_bar 86402 six_pm info cycle ≡ some bars)
        × AllProper bars
  unfolding generate_vec_bar
  generate_vec_bar-AllProper info cycle hc =
      let (bars, e, p) =
        cycle_bars-AllProper cycle (new_bar info.instr_hash info.instr cycle)
          (get_trading_timespan six_pm info.product) hc (get_trading_timespan-IsDay info.product) in
      (bars, ground arith, p)

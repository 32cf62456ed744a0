-- ===== src/Bar/Maker.antt =====
-- src/bar/BarMaker.cpp: the bars of an instrument as ticks come in. The counters begin at -1. The
-- exchange's last time is kept by its code; nothing here reads it.
use nat_framework.Prelude.{
  ℕ, zero, suc, ℤ, pos, negsuc, ◌+ℤ◌, ltb, ltb_ℤ, ◌==ℤ◌, ◌==◌, Bool, true, false, ◌&&◌, not,
  if◌then◌else◌, Option, none, some, List, [], ◌∷◌, map, ◌++◌, ◌+◌, ◌-ℤ◌,
}
use nat_framework.Prelude.Int.{pos_part}
use nat_framework.Prelude.Lists.{length, get_elem?, take, drop}
use nat_framework.Double.{Double, nil}
use nat_framework.TradeBase.{InstrumentInfo}
use nat_framework.Bar.Generate.{generate_vec_bar}
use nat_framework.Bar.Time.{get_base_interval_from_nano}
use nat_framework.Bar.Bar2.{
  Bar2, UnitedMarketData, is_in_cur_bar, is_nil, is_need_update_open, is_need_update_pre,
  is_need_update_ohlc, is_need_settle, update_open, update_bar, update_pre, settle,
}

pub record BarMaker (D : Type 0) : Type 0 where
  pub instr_hash : ℕ
  pub vec_bar : List (Bar2 D)
  pub bar_idx : ℤ
  pub rtn_bar_idx : ℤ
  pub last_umd : UnitedMarketData D
  pub exch_nano : ℤ

-- The counter once it is used as an index.
abbrev pub index_of : ℤ → ℕ
index_of (pos n) = n
index_of (negsuc n) = 0

module _ {D : Type 0} ⦃F : Double D⦄ (base : ℤ) where
  -- A tick within the current bar, up to the test whether it settles the bar.
  unfoldable pub update_cur : UnitedMarketData D → Bar2 D → Bar2 D
  update_cur umd b0 =
      let b1 = if is_need_update_open base umd b0 then update_open base umd b0 else b0 in
      let b2 = if is_need_update_pre base umd b1 then update_pre base umd b1 else b1 in
      if is_need_update_ohlc base umd b2 then update_bar base umd b2 else b2

  -- The next bar takes over the last prices, if there is a next bar.
  abbrev pub open_next : UnitedMarketData D → List (Bar2 D) → List (Bar2 D)
  open_next umd [] = []
  open_next umd (b ∷ bars) = update_pre base umd b ∷ bars

  -- The loop, on the bars from the current one on: what they become, and by how many the index
  -- moves on. `last` is the tick before, whose prices a bar takes over that the loop has moved on
  -- to.
  unfoldable pub walk :
      UnitedMarketData D → UnitedMarketData D → Bool → List (Bar2 D) → List (Bar2 D) × ℕ
  walk last umd moved [] = ([], 0)
  walk last umd moved (b0 ∷ bars) =
      let rest = walk last umd true bars in
      let b = if moved && not (last.instr_hash == 0) then update_pre base last b0 else b0 in
      let p = is_in_cur_bar (get_base_interval_from_nano base umd.exch_time) b in
      if p ==ℤ pos 0
      then (let b1 = update_cur umd b in
          if is_need_settle base umd b1
          then (settle base umd b1 ∷ open_next umd bars, 1)
          else (b1 ∷ bars, 0))
      else if p ==ℤ pos 1
      then (if length bars == 0
          then (settle base umd b ∷ bars, 0)
          else (settle base umd b ∷ rest.0, suc rest.1))
      else (update_pre base umd b ∷ bars, 0)

  unfoldable pub on_tick : UnitedMarketData D → BarMaker D → BarMaker D
  on_tick umd m =
      let idx = index_of m.bar_idx in
      let walked = walk m.last_umd umd false (drop idx m.vec_bar) in
      let exch_nano = if ltb_ℤ m.exch_nano umd.exch_time then umd.exch_time else m.exch_nano in
      if not (umd.instr_hash == m.instr_hash)
      then m
      else if not (ltb idx (length m.vec_bar))
      then record m { exch_nano = exch_nano; bar_idx = pos idx }
      else record m {
        exch_nano = exch_nano;
        vec_bar = take idx m.vec_bar ++ walked.0;
        bar_idx = pos (idx + walked.1);
        last_umd = umd;
      }

  unfoldable pub on_finish : BarMaker D → BarMaker D
  on_finish m =
      let idx = index_of m.bar_idx in
      record m {
        vec_bar = take idx m.vec_bar ++ map (settle base m.last_umd) (drop idx m.vec_bar);
        bar_idx = pos (if ltb idx (length m.vec_bar) then length m.vec_bar else idx);
      }

module _ {D : Type 0} ⦃F : Double D⦄ where
  -- A bar that is returned has a price.
  abbrev pub priced : Option (Bar2 D) → Option (Bar2 D)
  priced none = none
  priced (some b) = if is_nil b.open_px then none else some b

  abbrev pub bar_before : List (Bar2 D) → ℤ → Option (Bar2 D) → Option (Bar2 D)
  bar_before bars (pos n) p = priced (get_elem? bars n)
  bar_before bars (negsuc n) p = p

  -- The loop of `GetBar` for `n` turns.
  abbrev pub seek : List (Bar2 D) → ℕ → ℤ → Option (Bar2 D) → Option (Bar2 D) × ℤ
  seek bars zero rtn p = (p, rtn)
  seek bars (suc n) rtn p = seek bars n (rtn +ℤ pos 1) (bar_before bars rtn p)

  unfoldable pub get_bar : BarMaker D → Option (Bar2 D) × BarMaker D
  get_bar m =
      let turns =
        if ltb_ℤ m.rtn_bar_idx m.bar_idx then pos_part (m.bar_idx -ℤ m.rtn_bar_idx) else 0 in
      let (p, rtn) = seek m.vec_bar turns m.rtn_bar_idx none in (p, record m { rtn_bar_idx = rtn })

  abbrev pub no_umd : UnitedMarketData D
  no_umd = record {
    instr_hash = 0;
    last_px = nil;
    cum_vol = pos 0;
    cum_turnover = nil;
    open_interest = nil;
    exch_time = pos 0;
  }

  -- The constructor, with what its exchange's time is.
  unfoldable pub new_maker : ℕ → ℤ → ℤ → InstrumentInfo → ℤ → Option (BarMaker D)
  new_maker fuel base exch_nano info cycle = elim (generate_vec_bar fuel base info cycle) [
    | none ↦ none
    | some bars ↦ some (record {
      instr_hash = info.instr_hash;
      vec_bar = bars;
      bar_idx = negsuc 0;
      rtn_bar_idx = negsuc 0;
      last_umd = no_umd;
      exch_nano = exch_nano;
    })
  ]

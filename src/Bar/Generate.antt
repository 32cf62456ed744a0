-- ===== src/Bar/Generate.antt =====
-- src/bar/BarMaker.cpp, generateVecBar: the bars of a day.
use nat_framework.Prelude.{
  ℕ, zero, suc, ℤ, pos, negsuc, ◌+ℤ◌, ◌-ℤ◌, leb_ℤ, ltb_ℤ, ◌==ℤ◌, ◌==◌, Bool, true, false, ◌&&◌,
  ◌||◌, not, if◌then◌else◌, Option, none, some, List, [], ◌∷◌, ◌++◌,
}
use nat_framework.Double.{Double}
use nat_framework.TradeBase.{InstrumentInfo}
use nat_framework.Bar.Spans.{TimeSpan, get_trading_timespan}
use nat_framework.Bar.Bar2.{Bar2, new_bar}

-- AT_INT_DAILY_CYCLE, AT_INT_SESSION_CYCLE, EXCHANGEID_CZCE
abbrev pub daily_cycle : ℤ
daily_cycle = negsuc 9

abbrev pub session_cycle : ℤ
session_cycle = negsuc 19

abbrev pub exchange_czce : ℕ
exchange_czce = 105

abbrev pub settle_of : ℕ → ℤ → ℤ
settle_of exch eob = if exch == exchange_czce then eob -ℤ pos 1 else eob

-- The next bar's times, and how much of it is left after the spans so far.
pub record Cursor : Type 0 where
  pub bob : ℤ
  pub eob : ℤ
  pub leave : ℤ

-- Where a span's first bar begins and ends.
abbrev pub enter : ℤ → TimeSpan → Cursor → ℤ × ℤ
enter cycle ts c =
    if c.leave ==ℤ pos 0 then (ts.bgn_sec, ts.bgn_sec +ℤ cycle) else (c.bob, ts.bgn_sec +ℤ c.leave)

abbrev pub leave_span : TimeSpan → ℤ → ℤ → ℤ → Cursor
leave_span ts leave bob eob = record {
  bob = bob;
  eob = eob;
  leave = if not (bob ==ℤ ts.end_sec) then eob -ℤ ts.end_sec else leave;
}

abbrev pub is_eob_overlap : ℤ → List TimeSpan → Bool
is_eob_overlap end_sec [] = false
is_eob_overlap end_sec (ts ∷ spans) = (ts.end_sec ==ℤ end_sec) || is_eob_overlap end_sec spans

module _ {D : Type 0} where
  -- One bar for the day.
  abbrev pub close_day : ℕ → List TimeSpan → Bar2 D → Bar2 D
  close_day exch [] bar = bar
  close_day exch (ts ∷ spans) bar = close_day exch spans (record bar {
    eob = ts.end_sec;
    adjust_eob = ts.end_sec +ℤ pos 1;
    settle_sec = settle_of exch ts.end_sec;
  })

  unfoldable pub daily_bar : ℕ → List TimeSpan → Bar2 D → Bar2 D
  daily_bar exch [] bar = record bar { is_auction = false }
  daily_bar exch (ts ∷ spans) bar =
      record (close_day exch (ts ∷ spans) (record bar { bob = ts.bgn_sec; adjust_bob = pos 0 })) {
        is_auction = false;
      }

  -- One bar for each span; `first` is true at the first.
  abbrev pub session_bar : ℕ → Bool → TimeSpan → Bar2 D → Bar2 D
  session_bar exch first ts bar = record bar {
    bob = ts.bgn_sec;
    adjust_bob = if first then pos 0 else ts.bgn_sec;
    eob = ts.end_sec;
    adjust_eob = if ts.is_auction then ts.end_sec else ts.end_sec +ℤ pos 1;
    settle_sec = settle_of exch ts.end_sec;
    is_auction = ts.is_auction;
  }

  abbrev pub session_bars : ℕ → Bool → List TimeSpan → Bar2 D → List (Bar2 D)
  session_bars exch first [] bar = []
  session_bars exch first (ts ∷ spans) bar =
      session_bar exch first ts bar ∷ session_bars exch false spans bar

  abbrev pub bar_at : Bar2 D → ℤ → ℤ → Bar2 D
  bar_at bar bob eob = record bar { bob = bob; eob = eob; is_auction = false }

  -- The inner loop, on fuel: the bars that end within the span, and the next bar's times.
  unfoldable pub cut : ℕ → ℤ → Bar2 D → ℤ → ℤ → ℤ → Option (List (Bar2 D) × ℤ × ℤ)
  cut zero cycle bar end_sec bob eob = none
  cut (suc fuel) cycle bar end_sec bob eob = elim (ltb_ℤ bob end_sec && leb_ℤ eob end_sec) [
    | false ↦ some ([], bob, eob)
    | true ↦ elim (cut fuel cycle bar end_sec eob (eob +ℤ cycle)) [
      | none ↦ none
      | some (bars, bob', eob') ↦ some (bar_at bar bob eob ∷ bars, bob', eob')
    ]
  ]

  unfoldable pub trade_span : ℕ → ℤ → Bar2 D → TimeSpan → Cursor → Option (List (Bar2 D) × Cursor)
  trade_span fuel cycle bar ts c =
      let (bob1, eob1) = enter cycle ts c in
      elim (cut fuel cycle bar ts.end_sec bob1 eob1) [
        | none ↦ none
        | some (bars, bob2, eob2) ↦ some (bars, leave_span ts c.leave bob2 eob2)
      ]

  abbrev pub auction_bar : Bar2 D → TimeSpan → Bar2 D
  auction_bar bar ts = record bar { bob = ts.bgn_sec; eob = ts.end_sec; is_auction = true }

  -- The loop over the spans.
  abbrev pub span_bars : ℕ → ℤ → Bar2 D → List TimeSpan → Cursor → Option (List (Bar2 D) × Cursor)
  span_bars fuel cycle bar [] c = some ([], c)
  span_bars fuel cycle bar (ts ∷ spans) c =
      elim (if ts.is_auction
        then some (auction_bar bar ts ∷ [], c)
        else trade_span fuel cycle bar ts c) [
          | none ↦ none
          | some (bars, c1) ↦ elim (span_bars fuel cycle bar spans c1) [
            | none ↦ none
            | some (more, c2) ↦ some (bars ++ more, c2)
          ]
        ]

  -- What is left of the last cycle becomes a shorter bar.
  abbrev pub last_bars : Bar2 D → Cursor → List (Bar2 D)
  last_bars bar c = if ltb_ℤ (pos 0) c.leave then bar_at bar c.bob (c.eob -ℤ c.leave) ∷ [] else []

  unfoldable pub adjust : List TimeSpan → Bool → Bar2 D → Bar2 D
  adjust spans first b =
      if b.is_auction
      then record b {
        adjust_bob = if first then pos 0 else b.bob -ℤ pos 7200;
        adjust_eob = b.eob;
        settle_sec = b.eob;
      }
      else if is_eob_overlap b.eob spans
      then record b { adjust_bob = b.bob; adjust_eob = b.eob +ℤ pos 1; settle_sec = b.eob }
      else record b { adjust_bob = b.bob; adjust_eob = b.eob }

  abbrev pub adjust_all : List TimeSpan → Bool → List (Bar2 D) → List (Bar2 D)
  adjust_all spans first [] = []
  adjust_all spans first (b ∷ bars) = adjust spans first b ∷ adjust_all spans false bars

  unfoldable pub cycle_bars : ℕ → ℤ → Bar2 D → List TimeSpan → Option (List (Bar2 D))
  cycle_bars fuel cycle bar spans =
      elim (span_bars fuel cycle bar spans (record { bob = pos 0; eob = pos 0; leave = pos 0 })) [
        | none ↦ none
        | some (bars, c) ↦ some (adjust_all spans true (bars ++ last_bars bar c))
      ]

module _ {D : Type 0} ⦃F : Double D⦄ where
  unfoldable pub generate_vec_bar : ℕ → ℤ → InstrumentInfo → ℤ → Option (List (Bar2 D))
  generate_vec_bar fuel base info cycle =
      let bar = new_bar info.instr_hash info.instr cycle in
      let spans = get_trading_timespan base info.product in
      if cycle ==ℤ daily_cycle
      then some (daily_bar info.exch spans bar ∷ [])
      else if cycle ==ℤ session_cycle
      then some (session_bars info.exch true spans bar)
      else cycle_bars fuel cycle bar spans

-- ===== src/Td/Fake/Uncrossed.antt =====
-- src/td/CTDHelperFake.cpp: what a tick leaves in the queue.
use Prim.Native.String.{String}
use mathlib.Core.Path.{subst}
use text.Mathlib.Text.{◌==◌ as str_eq}
use nat_framework.Prelude.{
  ℕ, ◌≤ℤ◌, ◌-ℤ◌, ◌≡◌, ◌≢◌, ◌∙◌, refl, sym, arith, int_laws, some, List, [], ◌∷◌, true, false,
  Bool-cases, Option-cases, inl, inr, ◌==◌, +ℤ_parts, -ℤ_parts,
}
use nat_framework.Prelude.Lists.{get_elem?, get_elem?-set}
use nat_framework.Prelude.Map.{Map, lookup, insert, lookup-insert_self}
use nat_framework.Double.{Double}
use nat_framework.TradeBase.{OrderTrack}
use nat_framework.Account.Codes.{buy, sell}
use nat_framework.Td.Fake.{
  HelperFake, MarketData, Tick, auction, has_id, trade, execute, crosses_buy, crosses_sell,
  is_finished, close_finished,
}
use nat_framework.Td.Fake.Auction.{
  crosses, crosses-cases, auction-buy, auction-sell, auction_idle, trade_buy, trade_sell,
}
use nat_framework.Td.Fake.Calls.{tick_order, tick_walk, on_tick, is_spent}
use nat_framework.Td.Fake.Moved.{Moved-eng, matched, matched-Moved, has_id-erase}
use nat_framework.Td.Fake.Ticks.{tick_order_lem, tick_walk_step}
use nat_framework.Td.Fake.Cancel.{tick_order_unknown}

module _ {D : Type 0} ⦃F : Double D⦄ where
  -- The same prices, and no more volume.
  record Less (tick tick' : Tick D) : Type 0 where
    ask : tick'.ask ≡ tick.ask
    bid : tick'.bid ≡ tick.bid
    ask_vol : tick'.ask_vol ≤ℤ tick.ask_vol
    bid_vol : tick'.bid_vol ≤ℤ tick.bid_vol

  auction-Less : (id : ℕ) (ot : OrderTrack D) (tick : Tick D) → Less tick (auction id ot tick).1
  auction-Less id ot tick = elim (crosses-cases ot tick) [
    | inl (inl (d, c)) ↦ rw (auction-buy id ot tick d c) record {
      ask = refl;
      bid = refl;
      ask_vol = omega (int_laws, trade_buy ot tick c);
      bid_vol = omega arith;
    }
    | inl (inr (d, c)) ↦ rw (auction-sell id ot tick d c) record {
      ask = refl;
      bid = refl;
      bid_vol = omega (int_laws, trade_sell ot tick c);
      ask_vol = omega arith;
    }
    | inr n ↦
        rw (auction_idle id ot tick n)
          record { ask = refl; bid = refl; bid_vol = omega arith; ask_vol = omega arith }
  ]

  crosses-Less :
      (e : OrderTrack D) (tick tick' : Tick D)
      → Less tick tick'
      → crosses e tick ≡ false
      → crosses e tick' ≡ false
  crosses-Less e tick tick' l h = ground (arith, l.ask, l.bid, l.ask_vol, l.bid_vol)

  filled_buy :
      (ot : OrderTrack D) (tick : Tick D)
      → ot.dir ≡ buy
      → crosses_buy ot tick ≡ true
      → is_finished (execute ot (trade ot tick.ask_vol)) ≡ false
      → crosses
          (execute ot (trade ot tick.ask_vol))
          (record tick { ask_vol = tick.ask_vol -ℤ trade ot tick.ask_vol })
        ≡ false
  filled_buy ot tick d c f = ground (
    arith,
    +ℤ_parts ot.vol_traded (trade ot tick.ask_vol),
    -ℤ_parts tick.ask_vol (trade ot tick.ask_vol),
    -ℤ_parts ot.vol ot.vol_traded,
  )

  filled_sell :
      (ot : OrderTrack D) (tick : Tick D)
      → ot.dir ≡ sell
      → crosses_sell ot tick ≡ true
      → is_finished (execute ot (trade ot tick.bid_vol)) ≡ false
      → crosses
          (execute ot (trade ot tick.bid_vol))
          (record tick { bid_vol = tick.bid_vol -ℤ trade ot tick.bid_vol })
        ≡ false
  filled_sell ot tick d c f = ground (
    arith,
    +ℤ_parts ot.vol_traded (trade ot tick.bid_vol),
    -ℤ_parts tick.bid_vol (trade ot tick.bid_vol),
    -ℤ_parts ot.vol ot.vol_traded,
  )

  -- After its auction an order that is not finished cannot be filled further.
  auction_uncrossed :
      (id : ℕ) (ot : OrderTrack D) (tick : Tick D)
      → is_finished (auction id ot tick).0 ≡ false
      → crosses (auction id ot tick).0 (auction id ot tick).1 ≡ false
  auction_uncrossed id ot tick = elim (crosses-cases ot tick) [
    | inl (inl (d, c)) ↦ rw (auction-buy id ot tick d c) (filled_buy ot tick d c)
    | inl (inr (d, c)) ↦ rw (auction-sell id ot tick d c) (filled_sell ot tick d c)
    | inr n ↦ rw (auction_idle id ot tick n) (λ _. n)
  ]

  -- The queued order `id`, if it is of this instrument, cannot be filled on the tick.
  abbrev pub Settled : String → HelperFake D → Tick D → ℕ → Type 0
  Settled instr s tick id =
      (e : OrderTrack D)
      → has_id id s.queued_track_id ≡ true
      → get_elem? s.eng_order_track id ≡ some e
      → str_eq e.instr instr ≡ true
      → crosses e tick ≡ false

  matched_self :
      (instr : String) (id : ℕ) (ot : OrderTrack D) (tick : Tick D) (s : HelperFake D)
      → get_elem? s.eng_order_track id ≡ some ot
      → Settled instr (matched id ot tick s) (auction id ot tick).1 id
  matched_self instr id ot tick s eo e q ee _ =
      elim (Bool-cases (is_finished (auction id ot tick).0)) [
        | inl fin ↦ absurd (ground (arith, has_id-erase id id s.queued_track_id))
        | inr unfinished ↦
            let h : (auction id ot tick).0 ≡ e = ground (
              arith,
              get_elem?-set s.eng_order_track id id ot (close_finished (auction id ot tick).0) eo,
            ) in
            rw (← h) (auction_uncrossed id ot tick unfinished)
      ]

  matched_other :
      (instr : String) (id j : ℕ) (ot : OrderTrack D) (tick : Tick D) (s : HelperFake D)
      → get_elem? s.eng_order_track id ≡ some ot
      → id ≢ j
      → Settled instr s tick j
      → Settled instr (matched id ot tick s) (auction id ot tick).1 j
  matched_other instr id j ot tick s eo ne h e q ee same =
      let ee' : get_elem? s.eng_order_track j ≡ some e =
        ground (arith, Moved-eng id s _ (matched-Moved id ot tick s eo) j) in
      crosses-Less e tick _ (auction-Less id ot tick)
        (h e ((matched-Moved id ot tick s eo).fewer j q) ee' same)

  tick_order-Settled :
      (instr : String) (id : ℕ) (ids : List ℕ) (tick tick' : Tick D) (s s' : HelperFake D)
      → tick_order instr id tick s ≡ some (s', tick')
      → ((j : ℕ) → has_id j (id ∷ ids) ≡ false → Settled instr s tick j)
      → (j : ℕ) → has_id j ids ≡ false
      → Settled instr s' tick' j
  tick_order-Settled instr id ids tick tick' s s' e h j o =
      elim (Option-cases (get_elem? s.eng_order_track id)) [
        | inl out ↦ absurd (ground (arith, tick_order_unknown instr id tick s out))
        | inr (ot, eo) ↦
            let lem = tick_order_lem instr id ot tick s eo in
            elim (Bool-cases (str_eq ot.instr instr)) [
              | inl same ↦
                  let (a, b) : (matched id ot tick s ≡ s') × ((auction id ot tick).1 ≡ tick') =
                    ground (arith, lem) in
                  rw (← a, ← b)
                    elim (Bool-cases (j == id)) [
                      | inl self ↦
                          (let ej : id ≡ j = ground arith in
                            subst (Settled instr (matched id ot tick s) (auction id ot tick).1) ej
                              (matched_self instr id ot tick s eo))
                      | inr other ↦
                          matched_other instr id j ot tick s eo (ground arith) (h j (ground arith))
                    ]
              | inr differs ↦
                  let (a, b) : (s ≡ s') × (tick ≡ tick') = ground (arith, lem) in
                  rw (← a, ← b)
                    elim (Bool-cases (j == id)) [
                      | inl self ↦ (λ e q ee same. absurd (ground arith))
                      | inr other ↦ h j (ground arith)
                    ]
            ]
      ]

  spent_uncrossed :
      (e : OrderTrack D) (tick : Tick D) → is_spent tick ≡ true → crosses e tick ≡ false
  spent_uncrossed e tick h = ground arith

  tick_walk-Settled :
      (instr : String) (ids : List ℕ) (tick tick' : Tick D) (s s' : HelperFake D)
      → tick_walk instr ids tick s ≡ some (s', tick')
      → ((j : ℕ) → has_id j ids ≡ false → Settled instr s tick j)
      → (j : ℕ) → Settled instr s' tick' j
  tick_walk-Settled instr [] tick tick' s s' e h j =
      let (a, b) : (s ≡ s') × (tick ≡ tick') = ground arith in rw (← a, ← b) (h j refl)
  tick_walk-Settled instr (id ∷ ids) tick tick' s s' e h j = elim (Bool-cases (is_spent tick)) [
    | inl spent ↦
        let (a, b) : (s ≡ s') × (tick ≡ tick') = ground arith in
        rw (← a, ← b) (λ u q eu same. spent_uncrossed u tick spent)
    | inr more ↦ elim (Option-cases (tick_order instr id tick s)) [
      | inl fault ↦ absurd (ground arith)
      | inr ((s1, tick1), e1) ↦
          tick_walk-Settled instr ids tick1 tick' s1 s'
            (sym (tick_walk_step instr id ids tick tick1 s s1 more e1) ∙ e)
            (tick_order-Settled instr id ids tick tick1 s s1 e1 h) j
    ]
  ]

  Settled-wall :
      (instr : String) (s : HelperFake D) (m : Map (Tick D)) (tick : Tick D) (j : ℕ)
      → Settled instr s tick j
      → Settled instr (record s { last_tick_wall = m }) tick j
  Settled-wall instr s m tick j h = h

  -- After a tick that does not fault, no order of its instrument that is still queued can be
  -- filled on what is left of the tick, which is kept as the instrument's last tick.
  pub on_tick-Settled :
      (md : MarketData D) (s s' : HelperFake D)
      → on_tick md s ≡ some s'
      → (tick : Tick D) × (lookup md.instr_hash s'.last_tick_wall ≡ some tick)
        × ((id : ℕ) → Settled md.instr_str s' tick id)
  unfolding on_tick
  on_tick-Settled md s s' e =
      elim (Option-cases (tick_walk md.instr_str s.queued_track_id md.tick s)) [
        | inl fault ↦ absurd (ground arith)
        | inr ((s1, tick1), e1) ↦
            let a : record s1 { last_tick_wall = insert md.instr_hash tick1 s1.last_tick_wall }
                ≡ s' =
              ground arith in
            rw (← a) (
              tick1,
              lookup-insert_self md.instr_hash tick1 s1.last_tick_wall,
              λ id.
                  tick_walk-Settled md.instr_str s.queued_track_id md.tick tick1 s s1 e1
                    (λ j o u q eu same. absurd (ground arith)) id,
            )
      ]

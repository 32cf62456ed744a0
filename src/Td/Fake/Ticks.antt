-- ===== src/Td/Fake/Ticks.antt =====
-- src/td/CTDHelperFake.cpp: ticks keep the tracks linked.
use Prim.Native.String.{String}
use text.Mathlib.Text.{◌==◌ as str_eq}
use nat_framework.Prelude.{
  ℕ, ◌<◌, arith, List, [], ◌∷◌, if◌then◌else◌, true, false, ◌≡◌, inl, inr, refl, Bool-cases, ◌∙◌,
  some,
}
use nat_framework.Prelude.Lists.{length, get_elem?, length-set, get_elem?-total}
use nat_framework.Prelude.Map.{insert}
use nat_framework.Double.{Double}
use nat_framework.TradeBase.{OrderTrack}
use nat_framework.Td.Fake.{Tick, HelperFake, MarketData, auction, has_id}
use nat_framework.Td.Fake.Calls.{tick_order, tick_walk, on_tick, is_spent}
use nat_framework.Td.Fake.Moved.{Linked, matched, match_and_erase_lem}
use nat_framework.Td.Fake.Links.{EndsLinked, Linked-wall, match_and_erase-Linked}

module _ {D : Type 0} ⦃F : Double D⦄ where
  -- The auction of one order on a tick: of this instrument, or not.
  pub tick_order_lem :
      (instr : String) (id : ℕ) (e : OrderTrack D) (tick : Tick D) (s : HelperFake D)
      → get_elem? s.eng_order_track id ≡ some e
      → tick_order instr id tick s ≡ (
          if str_eq e.instr instr
          then some (matched id e tick s, (auction id e tick).1)
          else some (s, tick))
  unfolding tick_order
  tick_order_lem instr id e tick s ee = ground (arith, match_and_erase_lem id e tick s ee)

  tick_order-Linked :
      (instr : String) (id : ℕ) (tick : Tick D) (s : HelperFake D)
      → Linked s
      → id < length s.eng_order_track
      → (s' : HelperFake D) × (tick' : Tick D) × (tick_order instr id tick s ≡ some (s', tick'))
        × Linked s'
        × (length s'.eng_order_track ≡ length s.eng_order_track)
  tick_order-Linked instr id tick s l i =
      let (e, ee) = get_elem?-total s.eng_order_track id i in
      let w = tick_order_lem instr id e tick s ee in
      elim (Bool-cases (str_eq e.instr instr)) [
        | inl same ↦ (
          matched id e tick s,
          (auction id e tick).1,
          ground (arith, w),
          match_and_erase-Linked id e tick s ee l,
          length-set s.eng_order_track id _,
        )
        | inr other ↦ (s, tick, ground (arith, w), l, refl)
      ]

  pub tick_walk_step :
      (instr : String) (id : ℕ) (ids : List ℕ) (tick tick' : Tick D) (s s' : HelperFake D)
      → is_spent tick ≡ false
      → tick_order instr id tick s ≡ some (s', tick')
      → tick_walk instr (id ∷ ids) tick s ≡ tick_walk instr ids tick' s'
  tick_walk_step instr id ids tick tick' s s' more e = ground arith

  pub tick_walk-Linked :
      (instr : String) (ids : List ℕ) (tick : Tick D) (s : HelperFake D)
      → Linked s
      → ((j : ℕ) → has_id j ids ≡ true → j < length s.eng_order_track)
      → (s' : HelperFake D) × (tick' : Tick D) × (tick_walk instr ids tick s ≡ some (s', tick'))
        × Linked s'
  tick_walk-Linked instr [] tick s l b = (s, tick, refl, l)
  tick_walk-Linked instr (id ∷ ids) tick s l b = elim (Bool-cases (is_spent tick)) [
    | inl spent ↦ (s, tick, ground arith, l)
    | inr more ↦
        let (s', tick', e, l', el) = tick_order-Linked instr id tick s l (b id (ground arith)) in
        let (s2, tick2, e2, l2) =
          tick_walk-Linked instr ids tick' s' l' (λ j h. rw (el) (b j (ground arith))) in
        (s2, tick2, tick_walk_step instr id ids tick tick' s s' more e ∙ e2, l2)
  ]

  pub on_tick-Linked : (md : MarketData D) (s : HelperFake D) → Linked s → EndsLinked (on_tick md s)
  unfolding on_tick
  on_tick-Linked md s l =
      let (s', tick', e, l') =
        tick_walk-Linked md.instr_str s.queued_track_id md.tick s l l.open_ids in
      (_, ground arith, Linked-wall s' (insert md.instr_hash tick' s'.last_tick_wall) l')

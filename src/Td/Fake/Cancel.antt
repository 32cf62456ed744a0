-- ===== src/Td/Fake/Cancel.antt =====
-- src/td/CTDHelperFake.cpp: an order that the market does not hold is not traded.
use Prim.Native.String.{String}
use mathlib.Core.Path.{subst}
use text.Mathlib.Text.{◌==◌ as str_eq}
use nat_framework.Prelude.{
  ℕ, ℤ, ◌≡◌, ◌≢◌, ◌⊎◌, ap, ◌∙◌, refl, sym, arith, some, none, List, [], ◌∷◌, false, Bool-cases,
  Option-cases, inl, inr, ◌==◌,
}
use nat_framework.Prelude.Lists.{
  length, get_elem?, get_elem?-append_last, get_elem?-set, get_elem?-lt,
}
use nat_framework.Prelude.Map.{Map, insert}
use nat_framework.Double.{Double}
use nat_framework.TradeBase.{OrderTrack}
use nat_framework.Td.Fake.{HelperFake, MarketData, Tick, has_id}
use nat_framework.Td.Fake.Calls.{
  enqueue, tick_order, tick_walk, on_tick, with_status, cancel_code, is_spent,
}
use nat_framework.Td.Fake.Moved.{
  Moved, Moved-eng, matched, matched-Moved, has_id-erase, has_id-insert,
}
use nat_framework.Td.Fake.Links.{with_track}
use nat_framework.Td.Fake.Answers.{canceled, cancel-Moved}
use nat_framework.Td.Fake.Ticks.{tick_order_lem, tick_walk_step}

module _ {D : Type 0} ⦃F : Double D⦄ where
  -- The market does not hold the order, of which `n` was traded.
  pub record Frozen (id : ℕ) (n : ℤ) (s : HelperFake D) : Type 0 where
    pub track : OrderTrack D
    pub at : get_elem? s.eng_order_track id ≡ some track
    pub traded : track.vol_traded ≡ n
    pub out : has_id id s.queued_track_id ≡ false

  pub Frozen-of :
      (id : ℕ) (n : ℤ) (s s' : HelperFake D) (w : Frozen id n s)
      → get_elem? s'.eng_order_track id ≡ some w.track
      → has_id id s'.queued_track_id ≡ false
      → Frozen id n s'
  Frozen-of id n s s' w e o = record { track = w.track; at = e; traded = w.traded; out = o }

  Moved-Frozen :
      (j id : ℕ) (n : ℤ) (s s' : HelperFake D)
      → Moved j s s'
      → id ≢ j
      → Frozen id n s
      → Frozen id n s'
  Moved-Frozen j id n s s' m ne w =
      Frozen-of id n s s' w (ground (arith, Moved-eng j s s' m id, w.at))
        (ground (arith, m.fewer id, w.out))

  -- A cancel takes the order out of the queue.
  pub cancel-Frozen :
      (id : ℕ) (t e : OrderTrack D) (s : HelperFake D)
      → get_elem? s.eng_order_track id ≡ some e
      → Frozen id e.vol_traded (canceled id t e s)
  cancel-Frozen id t e s ee = record {
    track = with_status e (cancel_code e);
    at = ground (arith, get_elem?-set s.eng_order_track id id e (with_status e (cancel_code e)) ee);
    traded = refl;
    out = ground (arith, has_id-erase id id s.queued_track_id);
  }

  pub canceled-Frozen :
      (id j : ℕ) (n : ℤ) (t e : OrderTrack D) (s : HelperFake D)
      → get_elem? s.eng_order_track j ≡ some e
      → Frozen id n s
      → Frozen id n (canceled j t e s)
  canceled-Frozen id j n t e s ee w = elim (Bool-cases (id == j)) [
    | inl same ↦
        let (ej, en) : (id ≡ j) × (w.track ≡ e) = ground (arith, w.at) in
        let here : Frozen id e.vol_traded (canceled id t e s) =
          cancel-Frozen id t e s (rw (ej) ee) in
        subst (λ k. Frozen id k (canceled j t e s)) (ap (λ u. u.vol_traded) (sym en) ∙ w.traded)
          (subst (λ i. Frozen id e.vol_traded (canceled i t e s)) ej here)
    | inr other ↦
        Frozen-of id n s _ w (ground (arith, Moved-eng j s _ (cancel-Moved j e s ee) id, w.at))
          (ground (arith, has_id-erase id j s.queued_track_id, w.out))
  ]

  pub enqueue-Frozen :
      (id : ℕ) (n : ℤ) (t : OrderTrack D) (s : HelperFake D)
      → Frozen id n s
      → Frozen id n (enqueue t (length s.eng_order_track) (with_track t s))
  unfolding enqueue
  enqueue-Frozen id n t s w =
      Frozen-of id n s _ w
        (ground (
          arith,
          get_elem?-append_last s.eng_order_track (with_status t 84) id,
          w.at,
          get_elem?-lt s.eng_order_track id w.track w.at,
        ))
        (ground (
          arith,
          has_id-insert id (length s.eng_order_track) s.queued_track_id,
          w.out,
          get_elem?-lt s.eng_order_track id w.track w.at,
        ))

  pub matched-Frozen :
      (id : ℕ) (n : ℤ) (j : ℕ) (e : OrderTrack D) (tick : Tick D) (s : HelperFake D)
      → get_elem? s.eng_order_track j ≡ some e
      → id ≢ j
      → Frozen id n s
      → Frozen id n (matched j e tick s)
  matched-Frozen id n j e tick s ee ne w =
      Moved-Frozen j id n s _ (matched-Moved j e tick s ee) ne w

  pub tick_order_unknown :
      (instr : String) (j : ℕ) (tick : Tick D) (s : HelperFake D)
      → get_elem? s.eng_order_track j ≡ none
      → tick_order instr j tick s ≡ none
  unfolding tick_order
  tick_order_unknown instr j tick s e = ground arith

  tick_order-Frozen :
      (id : ℕ) (n : ℤ) (instr : String) (j : ℕ) (tick tick' : Tick D) (s s' : HelperFake D)
      → id ≢ j
      → Frozen id n s
      → tick_order instr j tick s ≡ some (s', tick')
      → Frozen id n s'
  tick_order-Frozen id n instr j tick tick' s s' ne w e =
      elim (Option-cases (get_elem? s.eng_order_track j)) [
        | inl out ↦ absurd (ground (arith, tick_order_unknown instr j tick s out))
        | inr (ot, eo) ↦
            let lem = tick_order_lem instr j ot tick s eo in
            elim (Bool-cases (str_eq ot.instr instr)) [
              | inl same ↦
                  (let h : matched j ot tick s ≡ s' = ground (arith, lem) in
                    subst (Frozen id n) h (matched-Frozen id n j ot tick s eo ne w))
              | inr other ↦ (let h : s ≡ s' = ground (arith, lem) in subst (Frozen id n) h w)
            ]
      ]

  pub tick_walk_cases :
      (instr : String) (j : ℕ) (ids : List ℕ) (tick tick' : Tick D) (s s' : HelperFake D)
      → tick_walk instr (j ∷ ids) tick s ≡ some (s', tick')
      → (s ≡ s')
        ⊎ ((s1 : HelperFake D) × (tick1 : Tick D) × (tick_order instr j tick s ≡ some (s1, tick1))
            × (tick_walk instr ids tick1 s1 ≡ some (s', tick')))
  tick_walk_cases instr j ids tick tick' s s' e = elim (Bool-cases (is_spent tick)) [
    | inl spent ↦ inl (ground arith)
    | inr more ↦ elim (Option-cases (tick_order instr j tick s)) [
      | inl fault ↦ absurd (ground arith)
      | inr ((s1, tick1), e1) ↦
          inr (s1, tick1, e1, sym (tick_walk_step instr j ids tick tick1 s s1 more e1) ∙ e)
    ]
  ]

  tick_walk-Frozen :
      (id : ℕ) (n : ℤ) (instr : String) (ids : List ℕ) (tick tick' : Tick D) (s s' : HelperFake D)
      → has_id id ids ≡ false
      → Frozen id n s
      → tick_walk instr ids tick s ≡ some (s', tick')
      → Frozen id n s'
  tick_walk-Frozen id n instr [] tick tick' s s' o w e =
      (let h : s ≡ s' = ground arith in subst (Frozen id n) h w)
  tick_walk-Frozen id n instr (j ∷ ids) tick tick' s s' o w e =
      elim (tick_walk_cases instr j ids tick tick' s s' e) [
        | inl h ↦ subst (Frozen id n) h w
        | inr (s1, tick1, e1, e2) ↦
            tick_walk-Frozen id n instr ids tick1 tick' s1 s' (ground arith)
              (tick_order-Frozen id n instr j tick tick1 s s1 (ground arith) w e1) e2
      ]

  pub Frozen-wall :
      (id : ℕ) (n : ℤ) (s : HelperFake D) (m : Map (Tick D))
      → Frozen id n s
      → Frozen id n (record s { last_tick_wall = m })
  Frozen-wall id n s m w = Frozen-of id n s _ w w.at w.out

  pub on_tick-Frozen :
      (id : ℕ) (n : ℤ) (md : MarketData D) (s s' : HelperFake D)
      → Frozen id n s
      → on_tick md s ≡ some s'
      → Frozen id n s'
  unfolding on_tick
  on_tick-Frozen id n md s s' w e =
      elim (Option-cases (tick_walk md.instr_str s.queued_track_id md.tick s)) [
        | inl fault ↦ absurd (ground arith)
        | inr ((s1, tick1), e1) ↦
            (let h : record s1 { last_tick_wall = insert md.instr_hash tick1 s1.last_tick_wall }
                  ≡ s' =
                ground arith in
              subst (Frozen id n) h (
                Frozen-wall id n s1 _ (
                  tick_walk-Frozen id n md.instr_str s.queued_track_id md.tick tick1 s s1 w.out w
                    e1)))
      ]

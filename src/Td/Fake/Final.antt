-- ===== src/Td/Fake/Final.antt =====
-- src/td/ITDHelper.cpp and src/td/CTDHelperFake.cpp: what becomes of a canceled order.
use Prim.Native.String.{String}
use mathlib.Core.Path.{subst}
use nat_framework.Prelude.{
  ℕ, ℤ, ◌≡◌, ◌≢◌, ap, arith, some, [], ◌∷◌, true, false, Bool-cases, Option-cases, inl, inr, not,
  ◌&&◌, ◌==◌,
}
use nat_framework.Prelude.Lists.{
  length, get_elem?, get_elem?-append_last, get_elem?-lt, get_elem?-total,
}
use nat_framework.Prelude.Map.{lookup, insert}
use nat_framework.Double.{Double}
use nat_framework.TradeBase.{OrderTrack}
use nat_framework.Account.Codes.{buy, sell}
use nat_framework.Td.Helper.{new_track, can_delete}
use nat_framework.Td.Fake.{HelperFake, post, auction, has_id}
use nat_framework.Td.Fake.Calls.{
  send_order, do_send_order, enqueue, delete_order, get_rtn, rejected_msg, push_eng, with_status,
}
use nat_framework.Td.Fake.Moved.{Linked, matched, match_and_erase_lem}
use nat_framework.Td.Fake.Links.{with_track, new_eng}
use nat_framework.Td.Fake.Answers.{delete_order_lem, delete_unknown, canceled}
use nat_framework.Td.Fake.Reach.{
  Call, sent, deleted, answered, ticked, Call-Linked, Reach, Reach-Linked,
}
use nat_framework.Td.OrderRtn
use nat_framework.Td.Fake.Cancel.{
  Frozen, Frozen-of, cancel-Frozen, canceled-Frozen, enqueue-Frozen, on_tick-Frozen, matched-Frozen,
  Frozen-wall,
}

module _ {D : Type 0} ⦃F : Double D⦄ where
  pushed_eng-Frozen :
      (id : ℕ) (n : ℤ) (t : OrderTrack D) (mask : ℕ) (s : HelperFake D)
      → Frozen id n s
      → Frozen id n
          (post (rejected_msg t (length s.eng_order_track) ∷ []) (push_eng t mask (with_track t s)))
  pushed_eng-Frozen id n t mask s w =
      Frozen-of id n s _ w
        (ground (
          arith,
          get_elem?-append_last s.eng_order_track (with_status t mask) id,
          w.at,
          get_elem?-lt s.eng_order_track id w.track w.at,
        ))
        w.out

  do_send_order-Frozen :
      (id : ℕ) (n : ℤ) (t : OrderTrack D) (s s' : HelperFake D)
      → Frozen id n s
      → do_send_order t (length s.eng_order_track) (with_track t s) ≡ some s'
      → Frozen id n s'
  unfolding do_send_order
  do_send_order-Frozen id n t s s' w e =
      let k = length s.eng_order_track in
      let queued = enqueue t k (with_track t s) in
      let wq = enqueue-Frozen id n t s w in
      elim (Bool-cases (not (t.dir == buy) && not (t.dir == sell))) [
        | inl bad ↦
            (let h : post (rejected_msg t k ∷ []) (push_eng t OrderRtn.reject (with_track t s))
                  ≡ s' =
                ground arith in
              subst (Frozen id n) h (pushed_eng-Frozen id n t OrderRtn.reject s w))
        | inr good ↦ elim (Option-cases (lookup t.instr_hash s.last_tick_wall)) [
          | inl none_yet ↦ (let h : queued ≡ s' = ground arith in subst (Frozen id n) h wq)
          | inr (tick, et) ↦
              let m = matched k (with_status t 84) tick queued in
              let lem = match_and_erase_lem k (with_status t 84) tick queued (new_eng t s) in
              let h : record m {
                last_tick_wall =
                    insert t.instr_hash (auction k (with_status t 84) tick).1 m.last_tick_wall;
              }
                  ≡ s' =
                ground (arith, lem) in
              let ne : id ≢ k = ground (arith, get_elem?-lt s.eng_order_track id w.track w.at) in
              subst (Frozen id n) h
                (Frozen-wall id n m _ (matched-Frozen id n k _ tick queued (new_eng t s) ne wq))
        ]
      ]

  send_order-Frozen :
      (instr : String) (price : D) (vol : ℤ) (dir off : ℕ) (acc_id stg_id : ℤ) (h : ℕ) (id : ℕ)
      (n : ℤ) (s s' : HelperFake D)
      → Linked s
      → Frozen id n s
      → (send_order instr price vol dir off acc_id stg_id h s).0 ≡ some s'
      → Frozen id n s'
  unfolding send_order
  send_order-Frozen instr price vol dir off acc_id stg_id h id n s s' l w e =
      do_send_order-Frozen id n
        (new_track instr price vol dir off acc_id stg_id h (length s.eng_order_track)) s s' w
        (rw (← l.same) e)

  delete_order-Frozen :
      (j id : ℕ) (n : ℤ) (s s' : HelperFake D)
      → Linked s
      → Frozen id n s
      → (delete_order j s).0 ≡ some s'
      → Frozen id n s'
  delete_order-Frozen j id n s s' l w e = elim (Option-cases (get_elem? s.order_track j)) [
    | inl out ↦ (let h : s ≡ s' = ground (arith, delete_unknown j s out) in subst (Frozen id n) h w)
    | inr (t, et) ↦
        let (u, eu) =
          get_elem?-total s.eng_order_track j (rw (← l.same) (get_elem?-lt s.order_track j t et)) in
        let lem = delete_order_lem j t u s et eu in
        elim (Bool-cases (can_delete t)) [
          | inl good ↦
              (let h : canceled j t u s ≡ s' = ground (arith, lem) in
                subst (Frozen id n) h (canceled-Frozen id j n t u s eu w))
          | inr bad ↦ (let h : s ≡ s' = ground (arith, lem) in subst (Frozen id n) h w)
        ]
  ]

  get_rtn-Frozen : (id : ℕ) (n : ℤ) (s : HelperFake D) → Frozen id n s → Frozen id n (get_rtn s).0
  unfolding get_rtn
  get_rtn-Frozen id n s w = Frozen-of id n s _ w (ground (arith, w.at)) (ground (arith, w.out))

  Call-Frozen :
      (id : ℕ) (n : ℤ) {s s' : HelperFake D} → Call s s' → Linked s → Frozen id n s → Frozen id n s'
  Call-Frozen id n {s} {s'} (sent instr price vol dir off acc_id stg_id h v e) l w =
      send_order-Frozen instr price vol dir off acc_id stg_id h id n s s' l w e
  Call-Frozen id n {s} {s'} (deleted j e) l w = delete_order-Frozen j id n s s' l w e
  Call-Frozen id n {s} (answered e) l w = subst (Frozen id n) e (get_rtn-Frozen id n s w)
  Call-Frozen id n {s} {s'} (ticked md e) l w = on_tick-Frozen id n md s s' w e

  -- Later on the same day.
  pub data Later (s : HelperFake D) : HelperFake D → Type 0 where
    here : Later s s
    then_call : {s1 s2 : HelperFake D} → Later s s1 → Call s1 s2 → Later s s2

  Later-both :
      (id : ℕ) (n : ℤ) {s s' : HelperFake D}
      → Later s s'
      → Linked s
      → Frozen id n s
      → Linked s' × Frozen id n s'
  Later-both id n here l w = (l, w)
  Later-both id n (then_call r c) l w =
      let (l', w') = Later-both id n r l w in (Call-Linked c l', Call-Frozen id n c l' w')

  deleted-Frozen :
      (id : ℕ) (e : OrderTrack D) (s s' : HelperFake D)
      → Linked s
      → get_elem? s.eng_order_track id ≡ some e
      → delete_order id s ≡ (some s', true)
      → Frozen id e.vol_traded s'
  deleted-Frozen id e s s' l ee d =
      let (t, et) =
        get_elem?-total s.order_track id (rw (l.same) (get_elem?-lt s.eng_order_track id e ee)) in
      let lem = delete_order_lem id t e s et ee in
      let h : canceled id t e s ≡ s' = ground (arith, lem) in
      subst (Frozen id e.vol_traded) h (cancel-Frozen id t e s ee)

  -- After a cancel that is sent, whatever the client and the market do later on the same day, the
  -- market never trades more of the order and does not hold it in the queue.
  pub delete_order_final :
      (s s1 s2 : HelperFake D) (id : ℕ) (e : OrderTrack D)
      → Reach s
      → get_elem? s.eng_order_track id ≡ some e
      → delete_order id s ≡ (some s1, true)
      → Later s1 s2
      → (u : OrderTrack D) × (get_elem? s2.eng_order_track id ≡ some u)
        × (u.vol_traded ≡ e.vol_traded)
        × (has_id id s2.queued_track_id ≡ false)
  delete_order_final s s1 s2 id e r ee d later =
      let l = Reach-Linked r in
      let l1 = Call-Linked (deleted id (ap (λ x. x.0) d)) l in
      let (_, w) = Later-both id e.vol_traded later l1 (deleted-Frozen id e s s1 l ee d) in
      (w.track, w.at, w.traded, w.out)

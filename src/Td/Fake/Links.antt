-- ===== src/Td/Fake/Links.antt =====
-- src/td/ITDHelper.cpp and src/td/CTDHelperFake.cpp: a new order keeps the tracks linked.
use Prim.Native.String.{String}
use nat_framework.Prelude.{
  ℕ, suc, ℤ, pos, ◌+ℤ◌, ◌≤ℤ◌, arith, ◌==◌, ◌&&◌, not, List, [], ◌∷◌, ◌++◌, if◌then◌else◌, true, ◌≡◌,
  ◌≢◌, ◌⊎◌, inl, inr, refl, Bool-cases, Option-cases, +ℤ_zero, sym, ap, ◌∙◌, some, Option,
}
use nat_framework.Prelude.Int
use nat_framework.Prelude.Lists.{length, get_elem?, length-append_last, get_elem?-append_last}
use nat_framework.Prelude.Map.{Map, lookup}
use nat_framework.Double.{Double}
use nat_framework.TradeBase.{OrderTrack, RtnMsg}
use nat_framework.Account.Codes.{buy, sell}
use nat_framework.Td.OrderRtn
use nat_framework.Td.Helper.{new_track}
use nat_framework.Td.Fake.{Tick, HelperFake, post, has_id}
use nat_framework.Td.Fake.Calls.{
  with_status, send_order, do_send_order, enqueue, accepted_msgs, rejected_msg, push_eng,
}
use nat_framework.Td.Fake.Auction.{pending, pending-++, pending-AllOf, AllOf}
use nat_framework.Td.Fake.Moved.{
  Known-++, Known-more, Known-AllOf, pending-Known, Told, Linked, Moved-Linked, matched,
  match_and_erase_lem, matched-Moved, has_id-insert,
}

module _ {D : Type 0} ⦃F : Double D⦄ where
  -- A call ends in a state whose tracks are linked.
  abbrev pub EndsLinked : Option (HelperFake D) → Type 0
  EndsLinked r = (s : HelperFake D) × (r ≡ some s) × Linked s

  -- A new order and messages about it that tell of no trade.
  record Pushed (s s' : HelperFake D) : Type 0 where
    msgs : List (RtnMsg D)
    track : OrderTrack D
    eng : OrderTrack D
    tracks_eq : s'.order_track ≡ s.order_track ++ track ∷ []
    engs_eq : s'.eng_order_track ≡ s.eng_order_track ++ eng ∷ []
    queue_eq : s'.rtn_msg_queue ≡ s.rtn_msg_queue ++ msgs
    all_of : AllOf (length s.eng_order_track) msgs
    quiet : pending (length s.eng_order_track) msgs ≡ pos 0
    fresh : Told track eng (pos 0)
    queued :
        (j : ℕ)
        → has_id j s'.queued_track_id ≡ true
        → (j ≡ length s.eng_order_track) ⊎ (has_id j s.queued_track_id ≡ true)

  Pushed-told :
      (s s' : HelperFake D) (w : Pushed s s')
      → Linked s
      → (j : ℕ) (t e : OrderTrack D) → get_elem? s'.order_track j ≡ some t
      → get_elem? s'.eng_order_track j ≡ some e
      → Told t e (pending j s'.rtn_msg_queue)
  unfolding Int.◌+ℤ◌
  Pushed-told s s' w l j t e et ee =
      let n = length s.eng_order_track in
      let et' : get_elem? s'.order_track j
          ≡ (if j == length s.order_track then some w.track else get_elem? s.order_track j) =
        rw (w.tracks_eq) (get_elem?-append_last s.order_track w.track j) in
      let ee' : get_elem? s'.eng_order_track j
          ≡ (if j == n then some w.eng else get_elem? s.eng_order_track j) =
        rw (w.engs_eq) (get_elem?-append_last s.eng_order_track w.eng j) in
      let eq : pending j s'.rtn_msg_queue ≡ pending j s.rtn_msg_queue +ℤ pending j w.msgs =
        rw (w.queue_eq) (pending-++ j s.rtn_msg_queue w.msgs) in
      rw (eq) elim (Bool-cases (j == n)) [
        | inl same ↦
            let (ej, a, b) : (n ≡ j) × (w.track ≡ t) × (w.eng ≡ e) =
              ground (arith, l.same, et', ee') in
            rw (← a, ← b, ← ej, pending-Known n s.rtn_msg_queue l.known, w.quiet) w.fresh
        | inr other ↦
            let (ej, a, b) : (n ≢ j)
                × (get_elem? s.order_track j ≡ some t)
                × (get_elem? s.eng_order_track j ≡ some e) =
              ground (arith, l.same, et', ee') in
            rw (pending-AllOf n j w.msgs w.all_of ej, +ℤ_zero) (l.told j t e a b)
      ]

  Pushed-Linked : (s s' : HelperFake D) → Pushed s s' → Linked s → Linked s'
  Pushed-Linked s s' w l =
      let n = length s.eng_order_track in
      let el : length s'.eng_order_track ≡ suc n =
        rw (w.engs_eq) (length-append_last s.eng_order_track w.eng) in
      record {
        same = rw (el, w.tracks_eq) (length-append_last s.order_track w.track ∙ ap suc l.same);
        open_ids = λ j h. elim (w.queued j h) [
          | inl e ↦ omega arith
          | inr b ↦ omega (arith, l.open_ids j b)
        ];
        known =
            rw (el, w.queue_eq)
              (Known-++ _ s.rtn_msg_queue w.msgs (Known-more n _ l.known)
                (Known-AllOf _ n w.msgs (omega arith) w.all_of));
        told = Pushed-told s s' w l;
      }

  -- What does not show in the tracks does not matter.
  pub Linked-wall :
      (s : HelperFake D) (m : Map (Tick D)) → Linked s → Linked (record s { last_tick_wall = m })
  Linked-wall s m l = record {
    same = l.same;
    open_ids = l.open_ids;
    known = l.known;
    told = l.told;
  }

  -- An auction of a known order.
  pub match_and_erase-Linked :
      (id : ℕ) (ot : OrderTrack D) (tick : Tick D) (s : HelperFake D)
      → get_elem? s.eng_order_track id ≡ some ot
      → Linked s
      → Linked (matched id ot tick s)
  match_and_erase-Linked id ot tick s e l = Moved-Linked id s _ (matched-Moved id ot tick s e) l

  abbrev pub with_track : OrderTrack D → HelperFake D → HelperFake D
  with_track track s = record s { order_track = s.order_track ++ track ∷ [] }

  Told-fresh :
      (t : OrderTrack D) (mask : ℕ)
      → pos 0 ≤ℤ t.vol
      → t.vol_traded ≡ pos 0
      → Told t (with_status t mask) (pos 0)
  Told-fresh t mask v z = record {
    vol = refl;
    traded = sym (+ℤ_zero t.vol_traded);
    positive = rw (z) omega arith;
    bounded = rw (z) v;
  }

  enqueue-Pushed :
      (t : OrderTrack D) (s : HelperFake D)
      → pos 0 ≤ℤ t.vol
      → t.vol_traded ≡ pos 0
      → Pushed s (enqueue t (length s.eng_order_track) (with_track t s))
  unfolding enqueue
  enqueue-Pushed t s v z = record {
    msgs = accepted_msgs t (length s.eng_order_track);
    track = t;
    eng = with_status t 84;
    tracks_eq = refl;
    engs_eq = refl;
    queue_eq = refl;
    all_of = (refl, (refl, (refl, tt)));
    quiet = ground arith;
    fresh = Told-fresh t 84 v z;
    queued = λ j h. ground (arith, has_id-insert j (length s.eng_order_track) s.queued_track_id);
  }

  reject-Pushed :
      (t : OrderTrack D) (s : HelperFake D)
      → pos 0 ≤ℤ t.vol
      → t.vol_traded ≡ pos 0
      → Pushed s (
          post
            (rejected_msg t (length s.eng_order_track) ∷ [])
            (push_eng t OrderRtn.reject (with_track t s)))
  reject-Pushed t s v z = record {
    msgs = rejected_msg t (length s.eng_order_track) ∷ [];
    track = t;
    eng = with_status t OrderRtn.reject;
    tracks_eq = refl;
    engs_eq = refl;
    queue_eq = refl;
    all_of = (refl, tt);
    quiet = ground arith;
    fresh = Told-fresh t OrderRtn.reject v z;
    queued = λ j h. inr h;
  }

  pub new_eng :
      (t : OrderTrack D) (s : HelperFake D)
      → get_elem?
          (enqueue t (length s.eng_order_track) (with_track t s)).eng_order_track
          (length s.eng_order_track)
        ≡ some (with_status t 84)
  unfolding enqueue
  new_eng t s =
      ground (
        arith,
        get_elem?-append_last s.eng_order_track (with_status t 84) (length s.eng_order_track),
      )

  -- A new order.
  do_send_order-Linked :
      (t : OrderTrack D) (s : HelperFake D)
      → Linked s
      → pos 0 ≤ℤ t.vol
      → t.vol_traded ≡ pos 0
      → EndsLinked (do_send_order t (length s.eng_order_track) (with_track t s))
  unfolding do_send_order
  do_send_order-Linked t s l v z =
      let n = length s.eng_order_track in
      let queued = enqueue t n (with_track t s) in
      let lq : Linked queued = Pushed-Linked s _ (enqueue-Pushed t s v z) l in
      elim (Bool-cases (not (t.dir == buy) && not (t.dir == sell))) [
        | inl bad ↦ rw (bad) (_, refl, Pushed-Linked s _ (reject-Pushed t s v z) l)
        | inr good ↦ rw (good) elim (Option-cases (lookup t.instr_hash s.last_tick_wall)) [
          | inl none_yet ↦ rw (none_yet) (_, refl, lq)
          | inr (tick, et) ↦
              rw (et, match_and_erase_lem n (with_status t 84) tick queued (new_eng t s))
                (
                  _,
                  refl,
                  Linked-wall (matched n (with_status t 84) tick queued) _
                      (match_and_erase-Linked n _ tick queued (new_eng t s) lq),
                )
        ]
      ]

  pub send_order-Linked :
      (instr : String) (price : D) (vol : ℤ) (dir off : ℕ) (acc_id stg_id : ℤ) (h : ℕ)
      (s : HelperFake D)
      → Linked s
      → pos 0 ≤ℤ vol
      → EndsLinked (send_order instr price vol dir off acc_id stg_id h s).0
  unfolding send_order
  send_order-Linked instr price vol dir off acc_id stg_id h s l v = rw (l.same) (
      do_send_order-Linked
        (new_track instr price vol dir off acc_id stg_id h (length s.eng_order_track)) s l v refl)

-- ===== src/Td/Fake/Answers.antt =====
-- src/td/ITDHelper.cpp and src/td/CTDHelperFake.cpp: cancels and messages keep the tracks linked.
use mathlib.Core.Path.{subst}
use nat_framework.Prelude.{
  ℕ, ℤ, pos, ◌+ℤ◌, arith, ◌==◌, List, [], ◌∷◌, if◌then◌else◌, true, false, ◌≡◌, ◌≢◌, inl, inr, refl,
  Bool-cases, Option-cases, +ℤ_assoc, +ℤ_zero, sym, ap, ◌∙◌, some, none,
}
use nat_framework.Prelude.Lists.{
  length, get_elem?, set, get_elem?-set, get_elem?-lt, length-set, get_elem?-total,
}
use nat_framework.Double.{Double}
use nat_framework.TradeBase.{OrderTrack, RtnMsg}
use nat_framework.Td.OrderRtn
use nat_framework.Td.Helper.{can_delete, on_msg}
use nat_framework.Td.Fake.{HelperFake, post, erase_id}
use nat_framework.Td.Fake.Calls.{
  with_status, do_del_order, delete_order, get_rtn, cancel_msg, cancel_code,
}
use nat_framework.Td.Fake.Auction.{pending}
use nat_framework.Td.Fake.Moved.{Known, Told, Linked, Moved, Moved-Linked, has_id-erase}
use nat_framework.Td.Fake.Links.{EndsLinked}

module _ {D : Type 0} ⦃F : Double D⦄ where
  cancel-quiet : (id : ℕ) (ot : OrderTrack D) → pending id (cancel_msg ot id ∷ []) ≡ pos 0
  cancel-quiet id ot = ground arith

  -- A cancel.
  pub cancel-Moved :
      (id : ℕ) (ot : OrderTrack D) (s : HelperFake D)
      → get_elem? s.eng_order_track id ≡ some ot
      → Moved id s (record (post (cancel_msg ot id ∷ []) s) {
        eng_order_track = set s.eng_order_track id (with_status ot (cancel_code ot));
        queued_track_id = erase_id id s.queued_track_id;
      })
  cancel-Moved id ot s e = record {
    msgs = cancel_msg ot id ∷ [];
    old = ot;
    now = with_status ot (cancel_code ot);
    at = e;
    eng = refl;
    kept = record {
      all_of = (refl, tt);
      vol = refl;
      total = sym (ap (λ x. ot.vol_traded +ℤ x) (cancel-quiet id ot) ∙ +ℤ_zero ot.vol_traded);
      more = omega arith;
      bounded = λ b. b;
    };
    tracks = refl;
    queue = refl;
    fewer = λ j h. ground (arith, has_id-erase j id s.queued_track_id);
  }

  -- One of the client's tracks is written.
  set-told :
      (s : HelperFake D) (id : ℕ) (t t' : OrderTrack D) (waiting : ℕ → ℤ)
      → get_elem? s.order_track id ≡ some t
      → ((e : OrderTrack D) → get_elem? s.eng_order_track id ≡ some e → Told t' e (waiting id))
      → ((j : ℕ) (u e : OrderTrack D)
          → id ≢ j
          → get_elem? s.order_track j ≡ some u
          → get_elem? s.eng_order_track j ≡ some e
          → Told u e (waiting j))
      → (j : ℕ) (u e : OrderTrack D) → get_elem? (set s.order_track id t') j ≡ some u
      → get_elem? s.eng_order_track j ≡ some e
      → Told u e (waiting j)
  set-told s id t t' waiting et here there j u e eu ee =
      let es = get_elem?-set s.order_track id j t t' et in
      elim (Bool-cases (j == id)) [
        | inl same ↦
            (let (ej, en) : (id ≡ j) × (t' ≡ u) = ground arith in
              rw (← en, ← ej) (here e (rw (ej) ee)))
        | inr other ↦
            (let (ej, en) : (id ≢ j) × (get_elem? s.order_track j ≡ some u) = ground arith in
              there j u e ej en ee)
      ]

  Told-marked : (t e : OrderTrack D) (mask : ℕ) (n : ℤ) → Told t e n → Told (with_status t mask) e n
  Told-marked t e mask n h = record {
    vol = h.vol;
    traded = h.traded;
    positive = h.positive;
    bounded = h.bounded;
  }

  marked-Linked :
      (s : HelperFake D) (id : ℕ) (t : OrderTrack D) (mask : ℕ)
      → get_elem? s.order_track id ≡ some t
      → Linked s
      → Linked (record s { order_track = set s.order_track id (with_status t mask) })
  marked-Linked s id t mask et l = record {
    same = length-set s.order_track id (with_status t mask) ∙ l.same;
    open_ids = l.open_ids;
    known = l.known;
    told =
        set-told s id t (with_status t mask) (λ j. pending j s.rtn_msg_queue) et
          (λ e ee. Told-marked t e mask _ (l.told id t e et ee)) (λ j u e _. l.told j u e);
  }

  abbrev pub canceled : ℕ → OrderTrack D → OrderTrack D → HelperFake D → HelperFake D
  canceled id t e s = record (post (cancel_msg e id ∷ []) s) {
    order_track = set s.order_track id (with_status t OrderRtn.cxling);
    eng_order_track = set s.eng_order_track id (with_status e (cancel_code e));
    queued_track_id = erase_id id s.queued_track_id;
  }

  -- A cancel that the client's track allows.
  pub delete_order_lem :
      (id : ℕ) (t e : OrderTrack D) (s : HelperFake D)
      → get_elem? s.order_track id ≡ some t
      → get_elem? s.eng_order_track id ≡ some e
      → delete_order id s
        ≡ (if can_delete t then (some (canceled id t e s), true) else (some s, false))
  unfolding delete_order do_del_order
  delete_order_lem id t e s et ee = ground arith

  pub delete_unknown :
      (id : ℕ) (s : HelperFake D)
      → get_elem? s.order_track id ≡ none
      → delete_order id s ≡ (some s, false)
  unfolding delete_order
  delete_unknown id s e = ground arith

  pub delete_order-Linked :
      (id : ℕ) (s : HelperFake D) → Linked s → EndsLinked (delete_order id s).0
  delete_order-Linked id s l = elim (Option-cases (get_elem? s.order_track id)) [
    | inl out ↦ rw (delete_unknown id s out) (s, refl, l)
    | inr (t, et) ↦
        let (e, ee) =
          get_elem?-total s.eng_order_track id
            (rw (← l.same) (get_elem?-lt s.order_track id t et)) in
        elim (Bool-cases (can_delete t)) [
          | inl good ↦ (
            canceled id t e s,
            ground (arith, delete_order_lem id t e s et ee),
            marked-Linked _ id t OrderRtn.cxling et
                (Moved-Linked id s _ (cancel-Moved id e s ee) l),
          )
          | inr bad ↦ (s, ground (arith, delete_order_lem id t e s et ee), l)
        ]
  ]

  -- A message is taken from the queue.
  on_msg-vol : (p : RtnMsg D) (t : OrderTrack D) → (on_msg p t).vol ≡ t.vol
  on_msg-vol p t = ground arith

  on_msg-traded :
      (p : RtnMsg D) (rest : List (RtnMsg D)) (t : OrderTrack D)
      → t.vol_traded +ℤ pending p.local_id (p ∷ rest)
        ≡ (on_msg p t).vol_traded +ℤ pending p.local_id rest
  on_msg-traded p rest t = ground (arith, +ℤ_assoc t.vol_traded p.vol (pending p.local_id rest))

  Told-msg :
      (p : RtnMsg D) (rest : List (RtnMsg D)) (t e : OrderTrack D)
      → Told t e (pending p.local_id (p ∷ rest))
      → Told (on_msg p t) e (pending p.local_id rest)
  Told-msg p rest t e h = record {
    vol = h.vol ∙ sym (on_msg-vol p t);
    traded = h.traded ∙ on_msg-traded p rest t;
    positive = h.positive;
    bounded = h.bounded;
  }

  skipped :
      (j : ℕ) (p : RtnMsg D) (rest : List (RtnMsg D))
      → p.local_id ≢ j
      → pending j (p ∷ rest) ≡ pending j rest
  skipped j p rest ne = ground arith

  taken-Linked :
      (p : RtnMsg D) (rest : List (RtnMsg D)) (t : OrderTrack D) (s : HelperFake D)
      → s.rtn_msg_queue ≡ p ∷ rest
      → get_elem? s.order_track p.local_id ≡ some t
      → Linked s
      → Linked (record s {
        rtn_msg_queue = rest;
        order_track = set s.order_track p.local_id (on_msg p t);
      })
  taken-Linked p rest t s q et l = record {
    same = length-set s.order_track p.local_id (on_msg p t) ∙ l.same;
    open_ids = l.open_ids;
    known = (subst (Known (length s.eng_order_track)) q l.known).1;
    told =
        set-told s p.local_id t (on_msg p t) (λ j. pending j rest) et
          (λ e ee.
            Told-msg p rest t e
              (subst (λ ms. Told t e (pending p.local_id ms)) q (l.told p.local_id t e et ee)))
          (λ j u e ne eu ee.
            subst (Told u e) (skipped j p rest ne)
              (subst (λ ms. Told u e (pending j ms)) q (l.told j u e eu ee)));
  }

  -- The next message is handed on, and its order's track is brought up to date.
  pub get_rtn_lem :
      (p : RtnMsg D) (rest : List (RtnMsg D)) (t : OrderTrack D) (s : HelperFake D)
      → s.rtn_msg_queue ≡ p ∷ rest
      → get_elem? s.order_track p.local_id ≡ some t
      → get_rtn s ≡ (
        record s { rtn_msg_queue = rest; order_track = set s.order_track p.local_id (on_msg p t) },
        some p,
      )
  unfolding get_rtn
  get_rtn_lem p rest t s q e = ground arith

  pub get_rtn_empty : (s : HelperFake D) → s.rtn_msg_queue ≡ [] → get_rtn s ≡ (s, none)
  unfolding get_rtn
  get_rtn_empty s e = ground arith

  pub next_track :
      (s : HelperFake D) (p : RtnMsg D) (rest : List (RtnMsg D))
      → s.rtn_msg_queue ≡ p ∷ rest
      → Linked s
      → (t : OrderTrack D) × (get_elem? s.order_track p.local_id ≡ some t)
  next_track s p rest q l =
      get_elem?-total s.order_track p.local_id
        (rw (l.same) (subst (Known (length s.eng_order_track)) q l.known).0)

  pub get_rtn-Linked :
      (s : HelperFake D) (ms : List (RtnMsg D))
      → s.rtn_msg_queue ≡ ms
      → Linked s
      → Linked (get_rtn s).0
  get_rtn-Linked s [] q l = rw (get_rtn_empty s q) l
  get_rtn-Linked s (p ∷ rest) q l =
      let (t, et) = next_track s p rest q l in
      rw (get_rtn_lem p rest t s q et) (taken-Linked p rest t s q et l)

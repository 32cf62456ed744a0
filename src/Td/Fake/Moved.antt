-- ===== src/Td/Fake/Moved.antt =====
-- src/td/CTDHelperFake.cpp: the market and the client's tracks agree but for the messages between
-- them.
use nat_framework.Prelude.{
  ℕ, suc, ◌<◌, ℤ, pos, ◌+ℤ◌, ◌≤ℤ◌, arith, ◌==◌, ◌&&◌, ◌||◌, not, List, [], ◌∷◌, ◌++◌, if◌then◌else◌,
  true, false, ◌≡◌, ◌≢◌, inl, inr, refl, Bool-cases, +ℤ_assoc, +ℤ_zero, ap, ◌∙◌, some,
}
use nat_framework.Prelude.Lists.{length, get_elem?, set, get_elem?-set, get_elem?-lt, length-set}
use nat_framework.Double.{Double}
use nat_framework.TradeBase.{OrderTrack, RtnMsg}
use nat_framework.Account.Codes.{closed_bit}
use nat_framework.Td.Fake.{
  Tick, HelperFake, auction, post, close_finished, is_finished, has_id, erase_id, insert_id,
  make_match, match_and_erase,
}
use nat_framework.Td.Fake.Calls.{with_status}
use nat_framework.Td.Fake.Auction.{pending, pending-++, pending-AllOf, AllOf, Kept, auction-Kept}

pub has_id-erase :
    (j id : ℕ) (ids : List ℕ) → has_id j (erase_id id ids) ≡ (not (j == id) && has_id j ids)
has_id-erase j id [] = ground arith
has_id-erase j id (x ∷ xs) = ground (arith, has_id-erase j id xs)

pub has_id-insert :
    (j id : ℕ) (ids : List ℕ) → has_id j (insert_id id ids) ≡ ((j == id) || has_id j ids)
has_id-insert j id [] = ground arith
has_id-insert j id (x ∷ xs) = ground (arith, has_id-insert j id xs)

module _ {D : Type 0} ⦃F : Double D⦄ where
  -- Every message is about one of the first `n` orders.
  abbrev pub Known : ℕ → List (RtnMsg D) → Type 0
  Known n [] = Unit
  Known n (m ∷ ms) = (m.local_id < n) × Known n ms

  pub Known-++ : (n : ℕ) (xs ys : List (RtnMsg D)) → Known n xs → Known n ys → Known n (xs ++ ys)
  Known-++ n [] ys h k = k
  Known-++ n (x ∷ xs) ys h k = (h.0, Known-++ n xs ys h.1 k)

  pub Known-more : (n : ℕ) (xs : List (RtnMsg D)) → Known n xs → Known (suc n) xs
  Known-more n [] h = tt
  Known-more n (x ∷ xs) h = (omega (arith, h.0), Known-more n xs h.1)

  pub Known-AllOf : (n id : ℕ) (xs : List (RtnMsg D)) → id < n → AllOf id xs → Known n xs
  Known-AllOf n id [] l h = tt
  Known-AllOf n id (x ∷ xs) l h = (omega (arith, h.0), Known-AllOf n id xs l h.1)

  pub pending-Known : (n : ℕ) (xs : List (RtnMsg D)) → Known n xs → pending n xs ≡ pos 0
  pending-Known n [] h = refl
  pending-Known n (x ∷ xs) h = ground (arith, pending-Known n xs h.1)

  -- The two tracks of an order, and what the queued messages tell of its trades.
  pub record Told (t e : OrderTrack D) (waiting : ℤ) : Type 0 where
    pub vol : e.vol ≡ t.vol
    pub traded : e.vol_traded ≡ t.vol_traded +ℤ waiting
    pub positive : pos 0 ≤ℤ e.vol_traded
    pub bounded : e.vol_traded ≤ℤ e.vol

  pub record Linked (s : HelperFake D) : Type 0 where
    pub same : length s.order_track ≡ length s.eng_order_track
    pub open_ids : (id : ℕ) → has_id id s.queued_track_id ≡ true → id < length s.eng_order_track
    pub known : Known (length s.eng_order_track) s.rtn_msg_queue
    pub told :
        (id : ℕ) (t e : OrderTrack D)
        → get_elem? s.order_track id ≡ some t
        → get_elem? s.eng_order_track id ≡ some e
        → Told t e (pending id s.rtn_msg_queue)

  -- The market works on one order: its track, the queue and the messages change, and the client's
  -- tracks do not.
  pub record Moved (id : ℕ) (s s' : HelperFake D) : Type 0 where
    pub msgs : List (RtnMsg D)
    pub old : OrderTrack D
    pub now : OrderTrack D
    pub at : get_elem? s.eng_order_track id ≡ some old
    pub eng : s'.eng_order_track ≡ set s.eng_order_track id now
    pub kept : Kept id old now msgs
    pub tracks : s'.order_track ≡ s.order_track
    pub queue : s'.rtn_msg_queue ≡ s.rtn_msg_queue ++ msgs
    pub fewer : (j : ℕ) → has_id j s'.queued_track_id ≡ true → has_id j s.queued_track_id ≡ true

  pub Moved-eng :
      (id : ℕ) (s s' : HelperFake D) (w : Moved id s s') (j : ℕ)
      → get_elem? s'.eng_order_track j
        ≡ (if j == id then some w.now else get_elem? s.eng_order_track j)
  Moved-eng id s s' w j = rw (w.eng) (get_elem?-set s.eng_order_track id j w.old w.now w.at)

  pub Moved-length :
      (id : ℕ) (s s' : HelperFake D)
      → Moved id s s'
      → length s'.eng_order_track ≡ length s.eng_order_track
  Moved-length id s s' w = rw (w.eng) (length-set s.eng_order_track id w.now)

  Told-self :
      (id : ℕ) (t e e' : OrderTrack D) (ms : List (RtnMsg D)) (waiting : ℤ)
      → Told t e waiting
      → Kept id e e' ms
      → Told t e' (waiting +ℤ pending id ms)
  Told-self id t e e' ms waiting h k = record {
    vol = k.vol ∙ h.vol;
    traded =
        k.total
        ∙ ap (λ x. x +ℤ pending id ms) h.traded
        ∙ +ℤ_assoc t.vol_traded waiting (pending id ms);
    positive = omega (arith, h.positive, k.more);
    bounded = rw (k.vol) (k.bounded h.bounded);
  }

  Moved-told :
      (id : ℕ) (s s' : HelperFake D) (w : Moved id s s')
      → Linked s
      → (j : ℕ) (t e : OrderTrack D) → get_elem? s'.order_track j ≡ some t
      → get_elem? s'.eng_order_track j ≡ some e
      → Told t e (pending j s'.rtn_msg_queue)
  Moved-told id s s' w l j t e et ee =
      let et' : get_elem? s.order_track j ≡ some t = rw (← w.tracks) et in
      let eq : pending j s'.rtn_msg_queue ≡ pending j s.rtn_msg_queue +ℤ pending j w.msgs =
        rw (w.queue) (pending-++ j s.rtn_msg_queue w.msgs) in
      rw (eq) elim (Bool-cases (j == id)) [
        | inl same ↦
            let (ej, en) : (id ≡ j) × (w.now ≡ e) = ground (arith, Moved-eng id s s' w j) in
            rw (← en, ← ej)
              (Told-self id t w.old w.now w.msgs _ (l.told id t w.old (rw (ej) et') w.at) w.kept)
        | inr other ↦
            let (ej, en) : (id ≢ j) × (get_elem? s.eng_order_track j ≡ some e) =
              ground (arith, Moved-eng id s s' w j) in
            rw (pending-AllOf id j w.msgs w.kept.all_of ej, +ℤ_zero) (l.told j t e et' en)
      ]

  pub Moved-Linked : (id : ℕ) (s s' : HelperFake D) → Moved id s s' → Linked s → Linked s'
  Moved-Linked id s s' w l =
      let el = Moved-length id s s' w in
      record {
        same = rw (w.tracks, el) l.same;
        open_ids = λ j h. rw (el) (l.open_ids j (w.fewer j h));
        known =
            rw (el, w.queue)
              (Known-++ _ s.rtn_msg_queue w.msgs l.known (
                Known-AllOf _ id w.msgs (get_elem?-lt s.eng_order_track id w.old w.at)
                  w.kept.all_of));
        told = Moved-told id s s' w l;
      }

  -- What `match_and_erase` makes of a known order.
  abbrev pub matched : ℕ → OrderTrack D → Tick D → HelperFake D → HelperFake D
  matched id ot tick s =
      let (ot', _, msgs) = auction id ot tick in
      record (post msgs s) {
        eng_order_track = set s.eng_order_track id (close_finished ot');
        queued_track_id =
            if is_finished ot' then erase_id id s.queued_track_id else s.queued_track_id;
      }

  pub match_and_erase_lem :
      (id : ℕ) (ot : OrderTrack D) (tick : Tick D) (s : HelperFake D)
      → get_elem? s.eng_order_track id ≡ some ot
      → match_and_erase id tick s ≡ some (matched id ot tick s, (auction id ot tick).1)
  unfolding match_and_erase make_match
  match_and_erase_lem id ot tick s e = ground arith

  close-Kept :
      (id : ℕ) (ot ot' : OrderTrack D) (ms : List (RtnMsg D))
      → Kept id ot ot' ms
      → Kept id ot (close_finished ot') ms
  close-Kept id ot ot' ms k =
      elim (is_finished ot')
        as (λ b. Kept id ot (if b then with_status ot' closed_bit else ot') ms) [
          | true ↦ record {
            all_of = k.all_of;
            vol = k.vol;
            total = k.total;
            more = k.more;
            bounded = k.bounded;
          }
          | false ↦ k
        ]

  pub matched-Moved :
      (id : ℕ) (ot : OrderTrack D) (tick : Tick D) (s : HelperFake D)
      → get_elem? s.eng_order_track id ≡ some ot
      → Moved id s (matched id ot tick s)
  matched-Moved id ot tick s e = record {
    msgs = (auction id ot tick).2;
    old = ot;
    now = close_finished (auction id ot tick).0;
    at = e;
    eng = refl;
    kept = close-Kept id ot _ _ (auction-Kept id ot tick);
    tracks = refl;
    queue = refl;
    fewer = λ j h. ground (arith, has_id-erase j id s.queued_track_id);
  }

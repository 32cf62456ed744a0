-- ===== src/Td/Ctp/Tracks.antt =====
-- The tracks of the requests that an engine of src/td/CTDEngineCtp.cpp has given to orders, and what
-- orders and cancels do to them.
use Prim.Native.Nat.{◌<◌}
use mathlib.Core.Path.{subst}
use mathlib.Core.Option.{some-injective}
use nat_framework.Prelude.{
  ℕ, ◌+◌, ◌%◌, ℤ, pos, ◌==◌, false, ◌≡◌, ◌⊎◌, inl, inr, refl, sym, ap, ◌∙◌, some, List, [], ◌∷◌,
  ◌++◌, if◌then◌else◌, arith, Bool-cases, ==_refl, ==_iff,
}
use nat_framework.Prelude.Lists.{
  length, get_elem?, length-append_last, get_elem?-append_last, get_elem?-lt,
}
use nat_framework.TradeBase.{OrderTrack}
use nat_framework.Td.Engine.{Engine, InputOrder, get_request_track}
use nat_framework.Td.Ctp.{put_track, sent_track, next_request}

-- Requests less than a round apart have different places.
place_apart : (i j : ℕ) → i < j → j < i + 262144 → ((i % 262144) == (j % 262144)) ≡ false
place_apart i j lt near = ground arith

module _ {D : Type 0} where
  -- What an order does to the tracks: nothing, or its track is put at the next request.
  abbrev pub Moves : Engine D → InputOrder D → Engine D → Type 0
  Moves e o e2 =
      (e2 ≡ e)
      ⊎ ((front : ℤ) × (session : ℤ) × (e2
            ≡ next_request (
                put_track e.request_id
                  (sent_track o e.request_id front session (get_request_track e e.request_id)) e)))

  -- What a cancel does to the tracks: nothing, or the status of one changes.
  abbrev pub Marks : Engine D → Engine D → Type 0
  Marks e e2 =
      (e2 ≡ e)
      ⊎ ((id : ℕ) × (st : ℕ) × (e2
            ≡ put_track id (record (get_request_track e id) { status = st }) e))

  -- The track of an order that was taken.
  pub record IsTrackOf (o : InputOrder D) (id : ℕ) (t : OrderTrack D) : Type 0 where
    pub from : t.from ≡ o.from
    pub local_id : t.local_id ≡ o.local_id
    pub acc_id : t.acc_id ≡ o.acc_idx
    pub instr : t.instr ≡ o.instr
    pub price : t.price ≡ o.price
    pub vol : t.vol ≡ o.vol
    pub dir : t.dir ≡ o.dir
    pub off : t.off ≡ o.off
    pub order_ref : t.order_ref ≡ pos id

  -- Every order that was taken has its track, at the request that it was given.
  pub record Tracked (start : ℕ) (e : Engine D) (os : List (InputOrder D)) : Type 0 where
    pub first : e.request_id_start ≡ start
    pub next : e.request_id ≡ start + length os
    pub at :
        (k : ℕ) (o : InputOrder D)
        → get_elem? os k ≡ some o
        → IsTrackOf o (start + k) (get_request_track e (start + k))

  module _ (start : ℕ) (e : Engine D) (os : List (InputOrder D)) (o : InputOrder D)
      (front session : ℤ) (room : length os < 262144) (t : Tracked start e os) where
    abbrev made : OrderTrack D
    made = sent_track o e.request_id front session (get_request_track e e.request_id)

    abbrev after : Engine D
    after = next_request (put_track e.request_id made e)

    new_track_at :
        (k : ℕ) → k ≡ length os → IsTrackOf o (start + k) (get_request_track after (start + k))
    new_track_at k ek =
        let id : start + k ≡ e.request_id = omega (arith, t.next) in
        let same : get_request_track after (start + k) ≡ made =
          ap
            (λ j.
              if (j % 262144) == (e.request_id % 262144)
              then made
              else e.request_track (j % 262144))
            id
          ∙ ap (λ b. if b then made else e.request_track (e.request_id % 262144))
              (==_refl (e.request_id % 262144)) in
        subst (IsTrackOf o (start + k)) (sym same) (record {
          from = refl;
          local_id = refl;
          acc_id = refl;
          instr = refl;
          price = refl;
          vol = refl;
          dir = refl;
          off = refl;
          order_ref = ap pos (sym id);
        })

    old_track_at :
        (k : ℕ) (p : InputOrder D)
        → get_elem? os k ≡ some p
        → IsTrackOf p (start + k) (get_request_track after (start + k))
    old_track_at k p at =
        let lt = get_elem?-lt os k p at in
        let apart =
          place_apart (start + k) e.request_id (omega (arith, t.next)) (omega (arith, t.next)) in
        let same : get_request_track after (start + k) ≡ get_request_track e (start + k) =
          ap (λ b. if b then made else e.request_track ((start + k) % 262144)) apart in
        subst (IsTrackOf p (start + k)) (sym same) (t.at k p at)

    put_at :
        (k : ℕ) (p : InputOrder D)
        → get_elem? (os ++ o ∷ []) k ≡ some p
        → IsTrackOf p (start + k) (get_request_track after (start + k))
    put_at k p at =
        let split = get_elem?-append_last os o k in
        elim (Bool-cases (k == length os)) [
          | inl last ↦
              let eo : o ≡ p =
                some-injective o p
                  (sym (split ∙ ap (λ b. if b then some o else get_elem? os k) last) ∙ at) in
              subst (λ q. IsTrackOf q (start + k) (get_request_track after (start + k))) eo
                (new_track_at k ((==_iff k (length os)).0 last))
          | inr early ↦
              old_track_at k p
                (sym (split ∙ ap (λ b. if b then some o else get_elem? os k) early) ∙ at)
        ]

    pub put_Tracked : Tracked start after (os ++ o ∷ [])
    put_Tracked = record {
      first = t.first;
      next = omega (arith, t.next, length-append_last os o);
      at = put_at;
    }

  with_status :
      (o : InputOrder D) (id st : ℕ) (t : OrderTrack D)
      → IsTrackOf o id t
      → IsTrackOf o id (record t { status = st })
  with_status o id st t h = record {
    from = h.from;
    local_id = h.local_id;
    acc_id = h.acc_id;
    instr = h.instr;
    price = h.price;
    vol = h.vol;
    dir = h.dir;
    off = h.off;
    order_ref = h.order_ref;
  }

  mark_at :
      (id st j : ℕ) (e : Engine D) (o : InputOrder D)
      → IsTrackOf o j (get_request_track e j)
      → IsTrackOf o j
          (get_request_track (put_track id (record (get_request_track e id) { status = st }) e) j)
  mark_at id st j e o h =
      let marked : OrderTrack D = record (get_request_track e id) { status = st } in
      elim (Bool-cases ((j % 262144) == (id % 262144)))
        as (λ x. IsTrackOf o j (get_request_track (put_track id marked e) j)) [
          | inl same ↦
              let eq : j % 262144 ≡ id % 262144 = (==_iff (j % 262144) (id % 262144)).0 same in
              rw (same) (
                with_status o j st (get_request_track e id)
                  (subst (λ q. IsTrackOf o j (e.request_track q)) eq h))
          | inr other ↦ rw (other) h
        ]

  pub mark_Tracked :
      (start id st : ℕ) (e : Engine D) (os : List (InputOrder D))
      → Tracked start e os
      → Tracked start (put_track id (record (get_request_track e id) { status = st }) e) os
  mark_Tracked start id st e os t = record {
    first = t.first;
    next = t.next;
    at = λ k o at. mark_at id st (start + k) e o (t.at k o at);
  }

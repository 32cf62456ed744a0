-- ===== src/Td/Engine/Recover.antt =====
-- What a client of src/td/CTDHelperComm.cpp gets back of its orders when it starts again.
use Prim.Native.Nat.{◌<◌}
use Prim.Native.String.{String}
use nat_framework.Prelude.{
  ℕ, zero, suc, ◌+◌, ◌-◌, ℤ, ◌==ℤ◌, ◌≡◌, refl, sym, ap, ◌∙◌, true, some, List, [], ◌∷◌,
  if◌then◌else◌, arith, Bool-cases, ==ℤ_refl, inl, inr,
}
use nat_framework.Prelude.Lists.{length, get_elem?, set, take}
use nat_framework.Double.{Double}
use nat_framework.TradeBase.{OrderTrack, RtnMsg}
use nat_framework.Td.Engine.{
  Engine, OrderTracks, get_request_track, own_tracks, rsp_order_track, write_rtn_from_track,
}
use nat_framework.Td.Helper.{on_msg, take_msg}

take_all : {A : Type 0} (xs : List A) → take (length xs) xs ≡ xs
take_all [] = refl
take_all (x ∷ xs) = ap (λ t. x ∷ t) (take_all xs)

module _ {D : Type 0} where
  -- The client's tracks from the engine's answer.
  unfoldable pub qry_order_track : OrderTracks D → List (OrderTrack D)
  qry_order_track p = take p.cnt p.track

  -- The number of a client's tracks among `n` ids from `i` on.
  abbrev pub count_own : Engine D → ℤ → ℕ → ℕ → ℕ
  count_own e source zero i = 0
  count_own e source (suc n) i =
      let rest = count_own e source n (suc i) in
      if (get_request_track e i).from ==ℤ source then suc rest else rest

  recovered_eq :
      (e : Engine D) (source back_word : ℤ)
      → qry_order_track (rsp_order_track e source back_word)
        ≡ own_tracks e source (e.request_id - e.request_id_start) e.request_id_start
  unfolding qry_order_track rsp_order_track
  recovered_eq e source back_word =
      take_all (own_tracks e source (e.request_id - e.request_id_start) e.request_id_start)

  -- The client's track at the `k`th id stands behind those of its that come before it.
  own_tracks_at :
      (e : Engine D) (source : ℤ) (n i k j : ℕ)
      → k < n
      → j ≡ i + k
      → (get_request_track e j).from ≡ source
      → get_elem? (own_tracks e source n i) (count_own e source k i) ≡ some (get_request_track e j)
  own_tracks_at e source zero i k j lt ej own = absurd (omega arith)
  own_tracks_at e source (suc n) i zero j lt ej own =
      let ei : j ≡ i = omega arith in
      let mine : ((get_request_track e i).from ==ℤ source) ≡ true =
        ap (λ q. (get_request_track e q).from ==ℤ source) (sym ei)
        ∙ (ap (λ z. z ==ℤ source) own ∙ ==ℤ_refl source) in
      rw (mine) (ap (λ q. some (get_request_track e q)) (sym ei))
  own_tracks_at e source (suc n) i (suc k) j lt ej own =
      let rest = own_tracks_at e source n (suc i) k j (omega arith) (omega arith) own in
      elim (Bool-cases ((get_request_track e i).from ==ℤ source))
        as (λ b.
          get_elem? (own_tracks e source (suc n) i) (count_own e source (suc k) i)
          ≡ some (get_request_track e j)) [
            | inl mine ↦ rw (mine) rest
            | inr other ↦ rw (other) rest
          ]

  -- Among the tracks that a client gets back from the engine, the track of any of its requests
  -- stands at the number of the client's requests before it.
  pub recover_lem :
      (e : Engine D) (source back_word : ℤ) (k : ℕ)
      → e.request_id_start + k < e.request_id
      → (get_request_track e (e.request_id_start + k)).from ≡ source
      → get_elem?
          (qry_order_track (rsp_order_track e source back_word))
          (count_own e source k e.request_id_start)
        ≡ some (get_request_track e (e.request_id_start + k))
  recover_lem e source back_word k lt own = rw (recovered_eq e source back_word) (
      own_tracks_at e source (e.request_id - e.request_id_start) e.request_id_start k
        (e.request_id_start + k) (omega arith) refl own)

module _ {D : Type 0} ⦃F : Double D⦄ (hash : String → ℕ) where
  take_msg_at :
      (m : RtnMsg D) (tracks : List (OrderTrack D)) (t : OrderTrack D)
      → get_elem? tracks m.local_id ≡ some t
      → take_msg m tracks ≡ some (set tracks m.local_id (on_msg m t))
  take_msg_at m tracks t e = rw (take_msg, e) refl

  -- What the client has after the first answer about the order of a track.
  abbrev pub answered : List (OrderTrack D) → RtnMsg D → OrderTrack D → List (OrderTrack D)
  answered tracks blank t =
      let m = (write_rtn_from_track hash blank t).rtn_msg in set tracks m.local_id (on_msg m t)

  -- After a client got its tracks back, the engine's answer that is written from the track of one
  -- of its requests updates that very track, if the track's local id is the number of the
  -- client's requests before it.
  pub recover-take_msg :
      (e : Engine D) (source back_word : ℤ) (k : ℕ) (blank : RtnMsg D)
      → e.request_id_start + k < e.request_id
      → (get_request_track e (e.request_id_start + k)).from ≡ source
      → (get_request_track e (e.request_id_start + k)).local_id
        ≡ count_own e source k e.request_id_start
      → take_msg
          (write_rtn_from_track hash blank (get_request_track e (e.request_id_start + k))).rtn_msg
          (qry_order_track (rsp_order_track e source back_word))
        ≡ some (
            answered
              (qry_order_track (rsp_order_track e source back_word))
              blank
              (get_request_track e (e.request_id_start + k)))
  unfolding write_rtn_from_track
  recover-take_msg e source back_word k blank lt own placed =
      let tracks = qry_order_track (rsp_order_track e source back_word) in
      let t = get_request_track e (e.request_id_start + k) in
      take_msg_at (write_rtn_from_track hash blank t).rtn_msg tracks t
        (ap (λ j. get_elem? tracks j) placed ∙ recover_lem e source back_word k lt own)

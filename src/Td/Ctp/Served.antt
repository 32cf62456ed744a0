-- ===== src/Td/Ctp/Served.antt =====
-- Orders and cancels at the engine of src/td/CTDEngineCtp.cpp, in any order.
use Prim.Native.Nat.{◌≤◌, ◌<◌}
use Prim.Native.String.{String}
use mathlib.Core.Path.{subst}
use nat_framework.Prelude.{
  ℕ, ◌+◌, ltb, ℤ, true, false, ◌≡◌, inl, inr, sym, ap, some, List, [], ◌∷◌, ◌++◌, if◌then◌else◌,
  arith,
}
use nat_framework.Prelude.Map.{Map}
use nat_framework.Prelude.Lists.{length, get_elem?, length-append_last, get_elem?-lt}
use nat_framework.Double.{Double}
use nat_framework.TradeBase.{InstrumentInfo, OrderTrack, RtnMsg}
use nat_framework.Risk.InstrTop.{Treap}
use nat_framework.Risk.Conf.{Json}
use nat_framework.Td.Engine.{Engine, InputOrder, OrderAction, OrderRtn, get_request_track}
use nat_framework.Td.Ctp.{CtpEngine, req_order_insert, req_order_action}
use nat_framework.Td.Ctp.Tracks.{Moves, IsTrackOf, Tracked, put_Tracked, mark_Tracked}
use nat_framework.Td.Engine.{rsp_order_track}
use nat_framework.Td.Engine.Recover.{qry_order_track, count_own, recover_lem}
use nat_framework.Td.Ctp.Moves.{insert-Moves, cancel-Marks}

module _ {D : Type 0} where
  -- What a client has of an order that was taken, after it got its tracks back.
  abbrev pub Recovers : ℕ → Engine D → ℤ → ℕ → InputOrder D → Type 0
  Recovers start e back_word k o =
      (t : OrderTrack D) × (get_elem? (qry_order_track (rsp_order_track e o.from back_word))
          (count_own e o.from k e.request_id_start)
        ≡ some t)
      × IsTrackOf o (start + k) t

module _ {D J T : Type 0} ⦃F : Double D⦄ (ops : Treap D T) (json : Json D J) (conf : ℕ → J)
    (hash : String → ℕ) (info : Map InstrumentInfo) (blank : RtnMsg D) where
  -- Orders and cancels in any order, with the orders that were given a request.
  pub data Served (s0 : CtpEngine D T) : CtpEngine D T → List (InputOrder D) → Type 0 where
    begin : Served s0 s0 []
    ordered :
        (s s2 : CtpEngine D T) (os : List (InputOrder D)) (o : InputOrder D) (fuel : ℕ)
        (nano ret : ℤ) (out : List (OrderRtn D))
        → Served s0 s os
        → req_order_insert ops json conf hash info blank fuel nano ret o s ≡ some (s2, out)
        → Served s0 s2 (if ltb s.engine.request_id s2.engine.request_id then os ++ o ∷ [] else os)
    canceled :
        (s s2 : CtpEngine D T) (os : List (InputOrder D)) (a : OrderAction) (ret : ℤ)
        (out : List (OrderRtn D))
        → Served s0 s os
        → req_order_action ops json conf hash info blank ret a s ≡ some (s2, out)
        → Served s0 s2 os

  -- The orders after one more.
  abbrev more :
      CtpEngine D T → CtpEngine D T → List (InputOrder D) → InputOrder D → List (InputOrder D)
  more s s2 os o = if ltb s.engine.request_id s2.engine.request_id then os ++ o ∷ [] else os

  ordered_Tracked :
      (start : ℕ) (s s2 : CtpEngine D T) (os : List (InputOrder D)) (o : InputOrder D)
      → Moves s.engine o s2.engine
      → length (more s s2 os o) ≤ 262144
      → (length os ≤ 262144 → Tracked start s.engine os)
      → Tracked start s2.engine (more s s2 os o)
  ordered_Tracked start s s2 os o (inl same) room t =
      let stays : ltb s.engine.request_id s2.engine.request_id ≡ false =
        ground (arith, ap Engine.request_id same) in
      rw (stays) (
        subst (λ e. Tracked start e os) (sym same)
          (t (subst (λ b. length (if b then os ++ o ∷ [] else os) ≤ 262144) stays room)))
  ordered_Tracked start s s2 os o (inr (front, session, put)) room t =
      let grows : ltb s.engine.request_id s2.engine.request_id ≡ true =
        ground (arith, ap Engine.request_id put) in
      let fits : length (os ++ o ∷ []) ≤ 262144 =
        subst (λ b. length (if b then os ++ o ∷ [] else os) ≤ 262144) grows room in
      let less : length os < 262144 = omega (arith, length-append_last os o) in
      rw (grows) (
        subst (λ e. Tracked start e (os ++ o ∷ [])) (sym put)
          (put_Tracked start s.engine os o front session less (t (omega (arith, less)))))

  -- Whatever orders and cancels a new engine serves, refused and accepted ones in any order,
  -- every order that it took, up to 262144 of them, has its track at the request that it was
  -- given, one after the other from the first request on, with the order's client, local id,
  -- account, instrument, price, volume, direction and offset and with its request.
  pub Served-Tracked :
      (s0 s : CtpEngine D T) (os : List (InputOrder D))
      → Served s0 s os
      → s0.engine.request_id_start ≡ s0.engine.request_id
      → length os ≤ 262144
      → Tracked s0.engine.request_id s.engine os
  Served-Tracked s0 _ _ begin new room = record {
    first = new;
    next = omega arith;
    at = λ k o e. cc;
  }
  Served-Tracked s0 _ _ (ordered s s2 os o fuel nano ret out r e) new room =
      ordered_Tracked s0.engine.request_id s s2 os o
        (insert-Moves ops json conf hash info blank fuel nano ret o s s2 out e) room
        (λ h. Served-Tracked s0 s os r new h)
  Served-Tracked s0 _ _ (canceled s s2 os a ret out r e) new room =
      elim (cancel-Marks ops json conf hash info blank ret a s s2 out e)
        as (λ x. Tracked s0.engine.request_id s2.engine os) [
          | inl same ↦
              subst (λ b. Tracked s0.engine.request_id b os) (sym same)
                (Served-Tracked s0 s os r new room)
          | inr (id, st, put) ↦
              subst (λ b. Tracked s0.engine.request_id b os) (sym put)
                (mark_Tracked s0.engine.request_id id st s.engine os
                  (Served-Tracked s0 s os r new room))
        ]

  -- After a new engine served any orders and cancels, the client of an order that it took, up to
  -- 262144 of them, gets its tracks back with the order's among them, at the number of the
  -- requests that were the client's before it.
  pub served-Recovers :
      (s0 s : CtpEngine D T) (os : List (InputOrder D)) (back_word : ℤ) (k : ℕ) (o : InputOrder D)
      → Served s0 s os
      → s0.engine.request_id_start ≡ s0.engine.request_id
      → length os ≤ 262144
      → get_elem? os k ≡ some o
      → Recovers s0.engine.request_id s.engine back_word k o
  served-Recovers s0 s os back_word k o r new room at =
      let t = Served-Tracked s0 s os r new room in
      let lt = get_elem?-lt os k o at in
      let placed : s.engine.request_id_start + k ≡ s0.engine.request_id + k =
        omega (arith, t.first) in
      let is : IsTrackOf o (s0.engine.request_id + k)
          (get_request_track s.engine (s.engine.request_id_start + k)) =
        subst (λ j. IsTrackOf o (s0.engine.request_id + k) (get_request_track s.engine j))
          (sym placed) (t.at k o at) in
      (
        get_request_track s.engine (s.engine.request_id_start + k),
        recover_lem s.engine o.from back_word k (omega (arith, t.first, t.next)) is.from,
        is,
      )

-- ===== src/Td/Ctp/Repeats.antt =====
-- Trades that the exchange reports again, at the filters of src/td/ITDEngine.h.
use Prim.Native.Nat.{◌<◌}
use Prim.Native.String.{String}
use mathlib.Core.Path.{subst}
use nat_framework.Prelude.{
  ℕ, suc, ◌%◌, pos, negsuc, ◌==ℤ◌, Bool, true, false, ◌≡◌, ◌≢◌, ◌⊎◌, inl, inr, refl, sym, ap,
  Option, none, some, List, [], arith, Bool-cases, Option-cases,
}
use nat_framework.Prelude.Map.{Map}
use nat_framework.Double.{Double}
use nat_framework.TradeBase.{InstrumentInfo, RtnMsg}
use nat_framework.Risk.InstrTop.{Treap}
use nat_framework.Td.IdQueue.{
  IdQueue, IsKept, test, test_ot_id, test-found, test_ot_id_seen, test_ot_id-new, test_ot_id-IsKept,
}
use nat_framework.Td.Engine.{OrderRtn, get_request_track, check_request_id}
use nat_framework.Td.Ctp.{CtpEngine}
use nat_framework.Td.Ctp.Trade.{Trade, Filtered, book_trade, on_rtn_trade}

module _ {D T : Type 0} ⦃F : Double D⦄ (ops : Treap D T) (hash : String → ℕ)
    (info : Map InstrumentInfo) (blank : RtnMsg D) where
  -- `n` trades that the exchange reports, of any orders, and whatever else the engine does between.
  pub data Trades (s : Filtered D T) : ℕ → Filtered D T → Type 0 where
    begin : Trades s 0 s
    traded :
        (n : ℕ) (s1 s2 : Filtered D T) (p : Trade D) (out : List (OrderRtn D))
        → Trades s n s1
        → on_rtn_trade ops hash info blank p s1 ≡ some (s2, out)
        → Trades s (suc n) s2
    other :
        (n : ℕ) (s1 : Filtered D T) (c : CtpEngine D T)
        → Trades s n s1
        → Trades s n (record s1 { ctp = c })

  -- What a trade does to the filters: nothing, or its order's filter sees it, and it is answered
  -- only if the filter has not got it.
  Seen : Trade D → Filtered D T → Filtered D T → List (OrderRtn D) → Type 0
  Seen p s s2 out =
      ((s2.filters ≡ s.filters) × (out ≡ []))
      ⊎ ((id : ℕ) × (p.order_ref ≡ pos id)
          × (s2.filters ≡ (test_ot_id 262144 4 id p.trade_id s.filters).0)
          × ((out ≡ []) ⊎ ((test_ot_id 262144 4 id p.trade_id s.filters).1 ≡ false)))

  abbrev Outcome : Trade D → Filtered D T → Option (Filtered D T × List (OrderRtn D)) → Type 0
  Outcome p s none = Unit
  Outcome p s (some (s2, out)) = Seen p s s2 out

  module _ (p : Trade D) (s : Filtered D T) where
    abbrev run : Option (Filtered D T × List (OrderRtn D))
    run = on_rtn_trade ops hash info blank p s

    new-Outcome :
        (id : ℕ)
        → p.is_own ≡ true
        → p.order_ref ≡ pos id
        → check_request_id s.ctp.engine id ≡ true
        → (test_ot_id 262144 4 id p.trade_id s.filters).1 ≡ false
        → Outcome p s run
    unfolding on_rtn_trade Seen
    new-Outcome id own ref range new =
        elim (Bool-cases ((get_request_track s.ctp.engine id).from ==ℤ pos 0))
          as (λ x. Outcome p s run) [
            | inl bad ↦
                rw (on_rtn_trade, own, ref, range, new, bad) (inr (id, refl, refl, inl refl))
            | inr good ↦
                elim (Option-cases
                    (book_trade ops hash info blank id p (get_request_track s.ctp.engine id) s.ctp))
                  as (λ x. Outcome p s run) [
                    | inl fault ↦ rw (on_rtn_trade, own, ref, range, new, good, fault) tt
                    | inr ((c, out), made) ↦
                        rw (on_rtn_trade, own, ref, range, new, good, made)
                          (inr (id, refl, refl, inr new))
                  ]
          ]

    ref-Outcome : (id : ℕ) → p.is_own ≡ true → p.order_ref ≡ pos id → Outcome p s run
    unfolding on_rtn_trade Seen
    ref-Outcome id own ref =
        elim (Bool-cases (check_request_id s.ctp.engine id)) as (λ x. Outcome p s run) [
          | inr bad ↦ rw (on_rtn_trade, own, ref, bad) (inl (refl, refl))
          | inl range ↦
              elim (Bool-cases (test_ot_id 262144 4 id p.trade_id s.filters).1)
                as (λ x. Outcome p s run) [
                  | inl seen ↦
                      rw (on_rtn_trade, own, ref, range, seen) (inr (id, refl, refl, inl refl))
                  | inr new ↦ new-Outcome id own ref range new
                ]
        ]

    trade-Outcome : Outcome p s run
    unfolding on_rtn_trade Seen
    trade-Outcome = elim (Bool-cases p.is_own) as (λ x. Outcome p s run) [
      | inr bad ↦ rw (on_rtn_trade, bad) (inl (refl, refl))
      | inl own ↦
          elim p.order_ref as (λ r. p.order_ref ≡ r → Outcome p s run) [
            | negsuc n ↦ λ ref. rw (on_rtn_trade, own, ref) (inl (refl, refl))
            | pos id ↦ λ ref. ref-Outcome id own ref
          ]
            refl
    ]

    trade-Seen :
        (s2 : Filtered D T) (out : List (OrderRtn D)) → run ≡ some (s2, out) → Seen p s s2 out
    trade-Seen s2 out e = subst (Outcome p s) e trade-Outcome

    -- A trade that its order's filter has is not answered.
    again :
        (id : ℕ)
        → p.order_ref ≡ pos id
        → (test 4 p.trade_id (s.filters (id % 262144))).1 ≡ true
        → run ≡ some (s, [])
    unfolding on_rtn_trade
    again id ref has =
        let seen = test_ot_id_seen 262144 4 id p.trade_id s.filters has in
        elim (Bool-cases p.is_own) as (λ x. run ≡ some (s, [])) [
          | inr bad ↦ rw (on_rtn_trade, bad) refl
          | inl own ↦
              elim (Bool-cases (check_request_id s.ctp.engine id)) as (λ x. run ≡ some (s, [])) [
                | inr bad ↦ rw (on_rtn_trade, own, ref, bad) refl
                | inl range ↦
                    let fresh : (test_ot_id 262144 4 id p.trade_id s.filters).1 ≡ true =
                      ap (λ (x : (ℕ → IdQueue) × Bool). x.1) seen in
                    rw (on_rtn_trade, own, ref, range, fresh)
                      (ap (λ (x : (ℕ → IdQueue) × Bool). some (record s { filters = x.0 }, []))
                        seen)
              ]
        ]

  Trades-IsKept :
      (p : Trade D) (id q : ℕ) (s1 : Filtered D T) (n : ℕ) (s2 : Filtered D T)
      → Trades s1 n s2
      → n < 4
      → IsKept 4 p.trade_id q 0 (s1.filters (id % 262144))
      → IsKept 4 p.trade_id q n (s2.filters (id % 262144))
  unfolding Seen
  Trades-IsKept p id q s1 _ _ begin less k = k
  Trades-IsKept p id q s1 _ _ (traded n s2 s3 x out r e) less k =
      let old = Trades-IsKept p id q s1 n s2 r (omega (arith, less)) k in
      elim (trade-Seen x s2 s3 out e)
        as (λ y. IsKept 4 p.trade_id q (suc n) (s3.filters (id % 262144))) [
          | inl (same, none_out) ↦
              subst (λ fs. IsKept 4 p.trade_id q (suc n) (fs (id % 262144))) (sym same)
                (record { cell = old.cell; past = old.past; near = omega (arith, old.near) })
          | inr (j, ref, same, new) ↦
              subst (λ fs. IsKept 4 p.trade_id q (suc n) (fs (id % 262144))) (sym same)
                (test_ot_id-IsKept 262144 4 j (id % 262144) q n x.trade_id p.trade_id s2.filters
                  less old)
        ]
  Trades-IsKept p id q s1 _ _ (other n s2 c r) less k = Trades-IsKept p id q s1 n s2 r less k

  -- A trade that the engine answered is ignored when the exchange reports it again, at most three
  -- trades of any orders later, whatever else the engine did meanwhile: nothing changes and
  -- nothing is answered.
  pub on_rtn_trade_again :
      (p : Trade D) (n : ℕ) (s s1 s2 : Filtered D T) (out : List (OrderRtn D))
      → on_rtn_trade ops hash info blank p s ≡ some (s1, out)
      → out ≢ []
      → Trades s1 n s2
      → n < 4
      → on_rtn_trade ops hash info blank p s2 ≡ some (s2, [])
  unfolding Seen
  on_rtn_trade_again p n s s1 s2 out e answered r less =
      elim (trade-Seen p s s1 out e)
        as (λ x. on_rtn_trade ops hash info blank p s2 ≡ some (s2, [])) [
          | inl (same, none_out) ↦ absurd (answered none_out)
          | inr (id, ref, same, new) ↦ elim new [
            | inl none_out ↦ absurd (answered none_out)
            | inr fresh ↦ again p s2 id ref (
                test-found 4 p.trade_id (s.filters (id % 262144)).front n (s2.filters (id % 262144))
                  (omega arith)
                  (Trades-IsKept p id (s.filters (id % 262144)).front s1 n s2 r less (
                    subst
                      (λ fs.
                        IsKept 4 p.trade_id (s.filters (id % 262144)).front 0 (fs (id % 262144)))
                      (sym same) (test_ot_id-new 262144 4 id p.trade_id s.filters fresh))))
          ]
        ]

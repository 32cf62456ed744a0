-- ===== src/Td/Ctp/Moves.antt =====
-- What the calls of src/td/CTDEngineCtp.cpp do to the engine's tracks, on every branch.
use Prim.Native.String.{String}
use mathlib.Core.Path.{subst}
use nat_framework.Prelude.{
  ℕ, ℤ, pos, negsuc, ◌==ℤ◌, true, ◌&&◌, ◌≡◌, inl, inr, refl, Option, none, some, List, Bool-cases,
  Option-cases,
}
use nat_framework.Prelude.Map.{Map}
use nat_framework.Prelude.Lists.{set}
use nat_framework.Double.{Double}
use nat_framework.TradeBase.{InstrumentInfo, RtnMsg}
use nat_framework.Risk.InstrTop.{Treap}
use nat_framework.Risk.Instr.{ok}
use nat_framework.Risk.Top.{RiskTop}
use nat_framework.Risk.Top
use nat_framework.Risk.Conf.{Json}
use nat_framework.Td.Engine.{
  Engine, InputOrder, OrderAction, OrderRtn, get_request_track, check_request_id,
}
use nat_framework.Td.Ctp.{CtpEngine, req_order_insert, req_order_action, sent, acc_at, to_int}
use nat_framework.Td.Ctp.Tracks.{Moves, Marks}

module _ {D J T : Type 0} ⦃F : Double D⦄ (ops : Treap D T) (json : Json D J) (conf : ℕ → J)
    (hash : String → ℕ) (info : Map InstrumentInfo) (blank : RtnMsg D) where
  abbrev Good : Engine D → InputOrder D → Option (CtpEngine D T × List (OrderRtn D)) → Type 0
  Good e o none = Unit
  Good e o (some (s2, out)) = Moves e o s2.engine

  sent-Good :
      (nano : ℤ) (o : InputOrder D) (i : ℕ) (util : RiskTop D T) (s : CtpEngine D T)
      → Good s.engine o (sent ops json conf hash info blank o nano i util s)
  unfolding sent
  sent-Good nano o i util s =
      elim (Option-cases (
          Top.on_new ops hash info o.dir o.off o.price o.vol o.instr_hash (pos s.engine.request_id)
            nano util))
        as (λ x. Good s.engine o (sent ops json conf hash info blank o nano i util s)) [
          | inl bad ↦ rw (sent, bad) tt
          | inr (util2, made) ↦ rw (sent, made) (inr (s.front_id i, s.session_id i, refl))
        ]

  module _ (fuel : ℕ) (nano ret : ℤ) (o : InputOrder D) (s : CtpEngine D T) where
    abbrev run : Option (CtpEngine D T × List (OrderRtn D))
    run = req_order_insert ops json conf hash info blank fuel nano ret o s

    checked-Good :
        (i : ℕ) (util util2 : RiskTop D T) (r : ℤ)
        → acc_at s.acc_utilis o.acc_idx ≡ some (i, util)
        → Top.check ops json
            (conf i)
            hash
            info
            fuel
            o.dir
            o.off
            o.price
            o.vol
            o.instr_hash
            nano
            util
          ≡ some (util2, r)
        → Good s.engine o run
    unfolding req_order_insert
    checked-Good i util util2 r at c = elim (Bool-cases (r ==ℤ ok)) as (λ x. Good s.engine o run) [
      | inr bad ↦ rw (req_order_insert, at, c, bad) (inl refl)
      | inl good ↦ elim (Bool-cases (ret ==ℤ pos 0)) as (λ x. Good s.engine o run) [
        | inr bad ↦ rw (req_order_insert, at, c, good, bad) (inl refl)
        | inl taken ↦
            rw (req_order_insert, at, c, good, taken)
              (sent-Good nano o i util2 (record s { acc_utilis = set s.acc_utilis i util2 }))
      ]
    ]

    insert-Good : Good s.engine o run
    unfolding req_order_insert
    insert-Good =
        elim (Option-cases (acc_at s.acc_utilis o.acc_idx)) as (λ x. Good s.engine o run) [
          | inl bad ↦ rw (req_order_insert, bad) (inl refl)
          | inr ((i, util), at) ↦
              elim (Option-cases (
                  Top.check ops json (conf i) hash info fuel o.dir o.off o.price o.vol o.instr_hash
                    nano util))
                as (λ x. Good s.engine o run) [
                  | inl bad ↦ rw (req_order_insert, at, bad) tt
                  | inr ((util2, r), c) ↦ checked-Good i util util2 r at c
                ]
        ]

    pub insert-Moves :
        (s2 : CtpEngine D T) (out : List (OrderRtn D))
        → run ≡ some (s2, out)
        → Moves s.engine o s2.engine
    insert-Moves s2 out e = subst (Good s.engine o) e insert-Good

  abbrev Mild : Engine D → Option (CtpEngine D T × List (OrderRtn D)) → Type 0
  Mild e none = Unit
  Mild e (some (s2, out)) = Marks e s2.engine

  module _ (ret : ℤ) (a : OrderAction) (s : CtpEngine D T) where
    abbrev cancel : Option (CtpEngine D T × List (OrderRtn D))
    cancel = req_order_action ops json conf hash info blank ret a s

    found-Mild :
        (id : ℕ)
        → to_int a.order_ref ≡ pos id
        → check_request_id s.engine id ≡ true
        → ((get_request_track s.engine id).front_id ==ℤ a.front_id
            && (get_request_track s.engine id).session_id ==ℤ a.session_id)
          ≡ true
        → Mild s.engine cancel
    unfolding req_order_action
    found-Mild id er range ids =
        elim (Option-cases (acc_at s.acc_utilis a.acc_idx)) as (λ x. Mild s.engine cancel) [
          | inl bad ↦ rw (req_order_action, er, range, ids, bad) tt
          | inr (acc, at) ↦ elim (Bool-cases (ret ==ℤ pos 0)) as (λ x. Mild s.engine cancel) [
            | inl taken ↦ rw (req_order_action, er, range, ids, at, taken) (inr (id, _, refl))
            | inr bad ↦ rw (req_order_action, er, range, ids, at, bad) (inl refl)
          ]
        ]

    ref-Mild : (z : ℤ) → to_int a.order_ref ≡ z → Mild s.engine cancel
    unfolding req_order_action
    ref-Mild (negsuc n) er = rw (req_order_action, er) (inl refl)
    ref-Mild (pos id) er =
        elim (Bool-cases (check_request_id s.engine id)) as (λ x. Mild s.engine cancel) [
          | inr bad ↦ rw (req_order_action, er, bad) (inl refl)
          | inl range ↦
              elim (Bool-cases (
                  (get_request_track s.engine id).front_id ==ℤ a.front_id
                  && (get_request_track s.engine id).session_id ==ℤ a.session_id))
                as (λ x. Mild s.engine cancel) [
                  | inr bad ↦ rw (req_order_action, er, range, bad) (inl refl)
                  | inl ids ↦ found-Mild id er range ids
                ]
        ]

    pub cancel-Marks :
        (s2 : CtpEngine D T) (out : List (OrderRtn D))
        → cancel ≡ some (s2, out)
        → Marks s.engine s2.engine
    cancel-Marks s2 out e = subst (Mild s.engine) e (ref-Mild (to_int a.order_ref) refl)

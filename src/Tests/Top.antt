-- ===== src/Tests/Top.antt =====
-- The theorems on the check of the engine's risk management at concrete inputs.
use nat_framework.Prelude.{ℤ, pos, ◌≡◌, ◌↔◌, refl, some, List, [], ◌∷◌, arith}
use nat_framework.Account.Codes.{buy, open_off}
use nat_framework.Risk.Instr.{ok}
use nat_framework.Risk.InstrTop.{RiskInstrTop, TreapNode}
use nat_framework.Risk.Stg.{Pointed}
use nat_framework.Risk.Top.{RiskTop, check}
use nat_framework.Risk.Top.Passes.{TopPasses, top_passes}
use nat_framework.Risk.Top.Unknown.{Order, Booked, unknown_unchecked}
use nat_framework.Tests.{ru2205, one_instr, name_hash, whole, held}
use nat_framework.Tests.Gate.{one_held, prd_own, stg, no_net}
use nat_framework.Tests.Treap.{list_treap, at_start}

abbrev top_limits : Pointed (RiskInstrTop ℤ (List (TreapNode ℤ)))
top_limits = record { limits = at_start; p_unit_vol = some 6 }

abbrev pub engine : RiskTop ℤ (List (TreapNode ℤ))
engine = record {
  acc_base = one_held;
  map_risk_instr = (6, top_limits) ∷ [];
  map_risk_prd = (2, prd_own) ∷ [];
  risk_acc = stg.risk_acc;
}

top_passes_example :
    (ret : ℤ) × (check ⦃F = whole⦄ list_treap no_net 0 name_hash one_instr 1 buy open_off
        (pos 100)
        (pos 5)
        6
        (pos 9000)
        engine
      ≡ some (engine, ret))
    × ((ret ≡ ok)
        ↔ TopPasses ⦃F = whole⦄ list_treap engine top_limits ru2205 prd_own held held buy open_off
            (pos 100)
            (pos 5)
            (pos 9000))
top_passes_example =
    top_passes ⦃F = whole⦄ list_treap no_net 0 name_hash one_instr 0 buy open_off (pos 100) (pos 5)
      (pos 9000) 6 ru2205 engine top_limits prd_own held held refl refl refl refl refl refl

-- A million lots of an instrument that the table does not have.
abbrev huge : Order ℤ
huge = record {
  dir = buy;
  off = open_off;
  px = pos 100;
  vol = pos 1000000;
  order_ref = pos 1;
  nano = pos 9000;
}

unknown_unchecked_example :
    (t : RiskTop ℤ (List (TreapNode ℤ))) × Booked ⦃F = whole⦄ list_treap no_net 0 name_hash
      one_instr 7 engine
      (huge ∷ huge ∷ [])
      t
    × (t.acc_base ≡ one_held)
unknown_unchecked_example =
    unknown_unchecked ⦃F = whole⦄ list_treap no_net 0 name_hash one_instr 7 (huge ∷ huge ∷ [])
      engine refl (omega arith)

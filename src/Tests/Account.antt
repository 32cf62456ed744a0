-- ===== src/Tests/Account.antt =====
-- The theorems on the account at concrete inputs.
use nat_framework.Prelude.{ℕ, ℤ, pos, ◌≡◌, refl, sym, some, [], ◌∷◌, arith}
use nat_framework.Prelude.Map.{lookup}
use nat_framework.Account.Codes.{buy, open_off}
use nat_framework.Account.Mods.{ModPrd}
use nat_framework.Account.Instr.{ModInstr}
use nat_framework.TradeBase.{OrderTrack, RtnMsg}
use nat_framework.Account.Base.{
  AccBase, empty, on_new, on_order_track, on_rtn, on_tick_px, reg_instr,
}
use nat_framework.Account.Base.Valid.{IsValid, PointsTo}
use nat_framework.Account.Base.Sums.{vol_of}
use nat_framework.Account.Vol.Laws.{⊞_flat}
use nat_framework.Account.Vol.Balance.{IsBalanced}
use mathlib.Core.Path.{subst}
use nat_framework.Account.Base.Register.{reg_instr-Registered}
use nat_framework.Account.Base.Events.{EndsValid}
use nat_framework.Account.Base.Reach.{Reach, start, event, order, Reach-IsValid, events_total}
use nat_framework.Tests.{
  whole, name_hash, ru2205, one_instr, one_instr-IsSound, books, prd, no_acc, held, held-IsBalanced,
}

no_orders : AccBase ℤ
no_orders = empty ⦃F = whole⦄

fresh : IsValid no_orders
unfolding no_orders
fresh = Reach-IsValid ⦃F = whole⦄ name_hash one_instr one_instr-IsSound start

events_total_example :
    ((dir off : ℕ) (px vol : ℤ) (h : ℕ)
      → EndsValid ⦃F = whole⦄ (on_new ⦃F = whole⦄ name_hash one_instr dir off px vol h no_orders))
    × ((t : OrderTrack ℤ)
        → EndsValid ⦃F = whole⦄ (on_order_track ⦃F = whole⦄ name_hash one_instr t no_orders))
    × ((t : OrderTrack ℤ) (msg : RtnMsg ℤ)
        → EndsValid ⦃F = whole⦄ (on_rtn ⦃F = whole⦄ name_hash one_instr t msg no_orders))
    × ((h : ℕ) (px : ℤ)
        → EndsValid ⦃F = whole⦄ (on_tick_px ⦃F = whole⦄ name_hash one_instr h px no_orders))
events_total_example =
    events_total ⦃F = whole⦄ name_hash one_instr one_instr-IsSound no_orders fresh

-- An order to buy five lots of a known instrument.
five_lots :
    EndsValid ⦃F = whole⦄
      (on_new ⦃F = whole⦄ name_hash one_instr buy open_off (pos 100) (pos 5) 6 no_orders)
five_lots =
    (events_total ⦃F = whole⦄ name_hash one_instr one_instr-IsSound no_orders fresh).0 buy open_off
      (pos 100) (pos 5) 6

five_lots_Reach : Reach ⦃F = whole⦄ name_hash one_instr five_lots.0
unfolding no_orders
five_lots_Reach = event start (order buy open_off (pos 100) (pos 5) 6 five_lots.1)

Reach-IsValid_example : IsValid five_lots.0
Reach-IsValid_example =
    Reach-IsValid ⦃F = whole⦄ name_hash one_instr one_instr-IsSound five_lots_Reach

-- An account that holds one instrument.
abbrev one_held : AccBase ℤ
one_held = record { map_instr = (6, books.instr) ∷ []; map_prd = (2, prd) ∷ []; mod_acc = no_acc }

one : {V : Type 0} (h k : ℕ) (v p : V) → lookup h ((k, v) ∷ []) ≡ some p → (h ≡ k) × (v ≡ p)
one h k v p e = ground arith

one_sum : held ≡ vol_of 2 one_held.map_instr
unfolding vol_of
one_sum = sym (⊞_flat held)

one_held-IsValid : IsValid one_held
one_held-IsValid = record {
  instrs = ground arith;
  prds = ground arith;
  links = λ h i e. subst (PointsTo one_held) (one h 6 books.instr i e).1 (2, prd, refl, refl, refl);
  balanced = λ h i e.
      subst (λ x. IsBalanced (ModInstr.unit_vol x)) (one h 6 books.instr i e).1 held-IsBalanced;
  prd_balanced =
      λ k p e. subst (λ x. IsBalanced (ModPrd.unit_vol x)) (one k 2 prd p e).1 held-IsBalanced;
  sums = λ k p e. let (ek, ep) = one k 2 prd p e in rw (ek, sym ep) one_sum;
}

-- The account with the instrument registered and no order.
registered : AccBase ℤ
registered = (reg_instr ⦃F = whole⦄ name_hash one_instr "ru2205" no_orders).0

registered-IsValid : IsValid registered
unfolding registered
registered-IsValid =
    (reg_instr-Registered ⦃F = whole⦄ name_hash one_instr one_instr-IsSound 6 ru2205 no_orders fresh
      refl).1

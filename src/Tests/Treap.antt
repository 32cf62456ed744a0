-- ===== src/Tests/Treap.antt =====
-- A list as a treap, and an account's order on each side.
use mathlib.Core.Path.{subst}
use nat_framework.Prelude.{
  ℤ, pos, ◌==◌, Bool, false, ◌≡◌, refl, arith, Option, none, some, List, [], ◌∷◌, ◌++◌,
  if◌then◌else◌,
}
use nat_framework.Prelude.Int
use nat_framework.Account.Codes.{buy, sell, open_off}
use nat_framework.Risk.Instr
use nat_framework.Risk.Instr.{is_intensity_normal, ok, RiskInstr}
use nat_framework.Risk.InstrTop
use nat_framework.Risk.InstrTop.{
  TreapNode, Treap, AllNodes, without, IsLast, IsTreap, RiskInstrTop, priority_order, is_self_trade,
}
use nat_framework.Risk.SelfTrade.{Reach, start, ordered_new, IsUncrossed, Reach-IsUncrossed}
use nat_framework.Tests.{whole, held, limits}
use nat_framework.Tests.Fake.{whole-IsOrdered}

abbrev better : TreapNode ℤ → TreapNode ℤ → TreapNode ℤ
better m n = if priority_order ⦃F = whole⦄ m n then m else n

abbrev best : TreapNode ℤ → List (TreapNode ℤ) → TreapNode ℤ
best n [] = n
best n (m ∷ ms) = best (better m n) ms

abbrev list_top : List (TreapNode ℤ) → Option (TreapNode ℤ)
list_top [] = none
list_top (n ∷ ns) = some (best n ns)

abbrev pub list_treap : Treap ℤ (List (TreapNode ℤ))
list_treap = record { empty = []; push_back = λ n t. t ++ n ∷ []; erase = without; top = list_top }

-- `a` is on the side, and does not stand above `b`.
abbrev NotAbove : Bool → TreapNode ℤ → TreapNode ℤ → Type 0
NotAbove side a b = ((a.dir == buy) ≡ side) × (priority_order ⦃F = whole⦄ a b ≡ false)

better_lem :
    (m n : TreapNode ℤ) (side : Bool)
    → (m.dir == buy) ≡ side
    → (n.dir == buy) ≡ side
    → ((better m n).dir == buy ≡ side) × NotAbove side m (better m n) × NotAbove side n (better m n)
better_lem m n side a d = (ground arith, ground arith, ground arith)

NotAbove-trans :
    (a b c : TreapNode ℤ) (side : Bool)
    → NotAbove side a b
    → NotAbove side b c
    → priority_order ⦃F = whole⦄ a c ≡ false
NotAbove-trans a b c side h k = ground arith

best_lem :
    (n : TreapNode ℤ) (ns : List (TreapNode ℤ)) (side : Bool)
    → (n.dir == buy) ≡ side
    → AllNodes (λ m. (m.dir == buy) ≡ side) ns
    → (priority_order ⦃F = whole⦄ n (best n ns) ≡ false)
      × AllNodes (λ m. priority_order ⦃F = whole⦄ m (best n ns) ≡ false) ns
best_lem n [] side d a = (ground arith, tt)
best_lem n (m ∷ ms) side d a =
    let (b1, b2, b3) = better_lem m n side a.0 d in
    let (h2, h3) = best_lem (better m n) ms side b1 a.1 in
    (
      NotAbove-trans n (better m n) (best (better m n) ms) side b3 (b1, h2),
      (NotAbove-trans m (better m n) (best (better m n) ms) side b2 (b1, h2), h3),
    )

list_top-none : (t : List (TreapNode ℤ)) → list_top t ≡ none → t ≡ []
list_top-none [] e = refl
list_top-none (n ∷ t) e = cc

list_top-first :
    (t : List (TreapNode ℤ)) (n : TreapNode ℤ) (side : Bool)
    → AllNodes (λ m. (m.dir == buy) ≡ side) t
    → list_top t ≡ some n
    → AllNodes (λ m. priority_order ⦃F = whole⦄ m n ≡ false) t
list_top-first [] n side a e = tt
list_top-first (m ∷ ms) n side a e =
    let en : best m ms ≡ n = ground arith in
    subst (λ k. AllNodes (λ x. priority_order ⦃F = whole⦄ x k ≡ false) (m ∷ ms)) en
      (best_lem m ms side a.0 a.1)

abbrev list_IsTreap : IsTreap ⦃F = whole⦄ list_treap
list_IsTreap = record {
  elements = λ t. t;
  elements_empty = refl;
  elements_push_back = λ n t h. refl;
  elements_erase = λ ref t. refl;
  top_none = λ t e. list_top-none t e;
  top_first = list_top-first;
}

abbrev pub at_start : RiskInstrTop ℤ (List (TreapNode ℤ))
at_start = record { instr = limits; vec_treap_node = []; ask_treap = []; bid_treap = [] }

abbrev or_start : Option (RiskInstrTop ℤ (List (TreapNode ℤ))) → RiskInstrTop ℤ (List (TreapNode ℤ))
or_start none = at_start
or_start (some r) = r

abbrev one_bid : RiskInstrTop ℤ (List (TreapNode ℤ))
one_bid =
    or_start (InstrTop.on_new ⦃F = whole⦄ list_treap buy (pos 100) (pos 1) (pos 9000) at_start)

abbrev both_sides : RiskInstrTop ℤ (List (TreapNode ℤ))
both_sides =
    or_start (InstrTop.on_new ⦃F = whole⦄ list_treap sell (pos 102) (pos 2) (pos 9100) one_bid)

bid_made :
    InstrTop.on_new ⦃F = whole⦄ list_treap buy (pos 100) (pos 1) (pos 9000) at_start ≡ some one_bid
unfolding InstrTop.on_new Instr.on_new Int.◌+ℤ◌
bid_made = refl

offer_made :
    InstrTop.on_new ⦃F = whole⦄ list_treap sell (pos 102) (pos 2) (pos 9100) one_bid
    ≡ some both_sides
unfolding InstrTop.on_new Instr.on_new Int.◌+ℤ◌
offer_made = refl

bid_checked :
    InstrTop.check ⦃F = whole⦄ list_treap at_start held buy open_off (pos 100) (pos 1) (pos 9000)
    ≡ ok
unfolding InstrTop.check Instr.check is_intensity_normal Int.◌+ℤ◌ Int.◌-ℤ◌ Instr.is_size_correct
    Instr.is_long_volume_correct Instr.is_net_volume_correct
bid_checked = refl

offer_checked :
    InstrTop.check ⦃F = whole⦄ list_treap one_bid held sell open_off (pos 102) (pos 1) (pos 9100)
    ≡ ok
unfolding InstrTop.check InstrTop.on_new Instr.on_new Instr.check is_intensity_normal Int.◌+ℤ◌
    Int.◌-ℤ◌ Instr.is_size_correct Instr.is_short_volume_correct Instr.is_net_volume_correct
offer_checked = refl

both_sides-Reach : Reach ⦃F = whole⦄ list_treap list_IsTreap whole-IsOrdered limits both_sides
unfolding InstrTop.on_new
both_sides-Reach =
    ordered_new held sell open_off (pos 102) (pos 1) (pos 9100) (pos 2)
      (ordered_new held buy open_off (pos 100) (pos 1) (pos 9000) (pos 1) start bid_checked tt tt
        bid_made)
      offer_checked (refl, tt) tt offer_made

Reach-IsUncrossed_example : IsUncrossed ⦃F = whole⦄ list_treap list_IsTreap both_sides
Reach-IsUncrossed_example =
    Reach-IsUncrossed ⦃F = whole⦄ list_treap list_IsTreap whole-IsOrdered limits both_sides-Reach

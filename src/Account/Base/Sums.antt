-- ===== src/Account/Base/Sums.antt =====
-- src/account/AccBase.cpp: the volumes of the instruments of one product, added up.
use nat_framework.Prelude.{
  ℕ, ◌≡◌, refl, ◌==◌, if◌then◌else◌, Bool, false, none, some, [], ◌∷◌, arith,
}
use nat_framework.Prelude.Map.{Map, lookup, insert, erase, IsMap, lookup-insert_self}
use nat_framework.Account.Vol.{UnitVol, flat}
use nat_framework.Account.Vol.Laws.{◌⊞◌, ⊞_comm, ⊞_assoc, ⊞_flat}
use nat_framework.Account.Instr.{ModInstr}

module _ {D : Type 0} where
  -- Whether the instrument's pointer leads to the product with key `k`.
  abbrev pub points : ℕ → ModInstr D → Bool
  points k i = elim i.p_prd [ none ↦ false | some j ↦ k == j ]

  unfoldable pub vol_of : ℕ → Map (ModInstr D) → UnitVol
  vol_of k [] = flat
  vol_of k ((h, i) ∷ m) = if points k i then i.unit_vol ⊞ vol_of k m else vol_of k m

⊞_left_comm : (a b c : UnitVol) → a ⊞ (b ⊞ c) ≡ b ⊞ (a ⊞ c)
⊞_left_comm a b c = rw (← ⊞_assoc a b c, ⊞_comm a b, ⊞_assoc b a c)

module _ {D : Type 0} where
  -- The sum, with one instrument taken out.
  pub vol_of-erase :
      (k h : ℕ) (i : ModInstr D) (m : Map (ModInstr D))
      → lookup h m ≡ some i
      → vol_of k m
        ≡ (if points k i then i.unit_vol ⊞ vol_of k (erase h m) else vol_of k (erase h m))
  unfolding vol_of
  vol_of-erase k h i [] e = cc
  vol_of-erase k h i ((j, x) ∷ m) e =
      ground (arith, vol_of-erase k h i m, ⊞_left_comm x.unit_vol i.unit_vol (vol_of k (erase h m)))

  erase-insert :
      (h : ℕ) (i : ModInstr D) (m : Map (ModInstr D)) (x : ModInstr D)
      → lookup h m ≡ some x
      → erase h (insert h i m) ≡ erase h m
  erase-insert h i [] x e = cc
  erase-insert h i (y ∷ m) x e = ground (arith, erase-insert h i m x)

  -- The sum, with one instrument changed.
  pub vol_of-insert :
      (k h : ℕ) (i x : ModInstr D) (m : Map (ModInstr D))
      → lookup h m ≡ some x
      → vol_of k (insert h i m)
        ≡ (if points k i then i.unit_vol ⊞ vol_of k (erase h m) else vol_of k (erase h m))
  vol_of-insert k h i x m e =
      rw (vol_of-erase k h i (insert h i m) (lookup-insert_self h i m))
        (rw (erase-insert h i m x e))

  -- A new instrument with no volume leaves the sum.
  pub vol_of-insert_new :
      (k h : ℕ) (i : ModInstr D) (m : Map (ModInstr D))
      → lookup h m ≡ none
      → i.unit_vol ≡ flat
      → vol_of k (insert h i m) ≡ vol_of k m
  unfolding vol_of
  vol_of-insert_new k h i [] e z = ground (arith, ⊞_flat i.unit_vol)
  vol_of-insert_new k h i ((j, x) ∷ m) e z = ground (arith, vol_of-insert_new k h i m)

  -- A product that no instrument points to has no volume.
  pub vol_of-flat :
      (k : ℕ) (m : Map (ModInstr D))
      → IsMap m
      → ((h : ℕ) (i : ModInstr D) → lookup h m ≡ some i → points k i ≡ false)
      → vol_of k m ≡ flat
  unfolding vol_of
  vol_of-flat k [] u h = refl
  vol_of-flat k ((j, x) ∷ m) u h =
      ground (arith, h j x, vol_of-flat k m u.1 (λ h' i e. h h' i (ground arith)))

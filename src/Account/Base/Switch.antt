-- ===== src/Account/Base/Switch.antt =====
-- src/account/AccBase.cpp: changing the trading day. `onSwitchDay` notes what to erase on one walk
-- and erases it afterwards; `kept` does both at once.
use nat_framework.Prelude.{
  ℕ, pos, ◌==ℤ◌, ◌≡◌, ◌≢◌, refl, ◌∙◌, sym, ap, if◌then◌else◌, Bool, true, false, ◌&&◌, Option, none,
  some, List, [], ◌∷◌, arith, ==_refl, ==ℤ→eq, Bool-cases, inl, inr,
}
use nat_framework.Prelude.Map.{Map, lookup, erase, IsMap}
use nat_framework.Double.{Double}
use nat_framework.Account.Vol
use nat_framework.Account.Vol.{UnitVol, flat}
use nat_framework.Account.Vol.Laws.{◌⊞◌, ⊞_comm, ⊞_flat, on_switch_day-⊞}
use nat_framework.Account.Instr.{ModInstr, instr_on_switch_day}
use nat_framework.Account.Base.{is_flat, switch_walk, erase_all, switch_map}
use nat_framework.Account.Base.Sums.{vol_of}

-- The key is not in the list.
abbrev NotIn : ℕ → List ℕ → Type 0
NotIn k [] = Unit {0}
NotIn k (j ∷ js) = (k ≢ j) × NotIn k js

module _ {V : Type 0} where
  erase_all-cons :
      (k : ℕ) (v : V) (ks : List ℕ) (m : Map V)
      → NotIn k ks
      → erase_all ks ((k, v) ∷ m) ≡ (k, v) ∷ erase_all ks m
  unfolding erase_all
  erase_all-cons k v [] m h = refl
  erase_all-cons k v (j ∷ js) m h = ground (arith, erase_all-cons k v js (erase j m) h.1)

  module _ (vol : V → UnitVol) (switch : V → V) where
    -- What has a position, switched.
    pub kept : Map V → Map V
    kept [] = []
    kept ((k, v) ∷ m) = if is_flat (vol v) then kept m else (k, switch v) ∷ kept m

    switch_walk-NotIn :
        (k : ℕ) (m : Map V) → lookup k m ≡ none → NotIn k (switch_walk vol switch m).1
    unfolding switch_walk
    switch_walk-NotIn k [] e = tt
    switch_walk-NotIn k ((j, v) ∷ m) e = ground (arith, switch_walk-NotIn k m)

    switch_map-nil : switch_map vol switch [] ≡ []
    unfolding switch_map switch_walk erase_all
    switch_map-nil = refl

    switch_map-flat :
        (k : ℕ) (v : V) (m : Map V)
        → is_flat (vol v) ≡ true
        → switch_map vol switch ((k, v) ∷ m) ≡ switch_map vol switch m
    unfolding switch_map switch_walk erase_all
    switch_map-flat k v m e = ground (arith, ==_refl k)

    switch_map-open :
        (k : ℕ) (v : V) (m : Map V)
        → is_flat (vol v) ≡ false
        → lookup k m ≡ none
        → switch_map vol switch ((k, v) ∷ m) ≡ (k, switch v) ∷ switch_map vol switch m
    unfolding switch_map switch_walk
    switch_map-open k v m e gone = ground (
      arith,
      erase_all-cons k (switch v) (switch_walk vol switch m).1 (switch_walk vol switch m).0
          (switch_walk-NotIn k m gone),
    )

    -- On a map without repeated keys, the two walks of the day change, which note what to erase
    -- and erase it afterwards, come to one walk that drops the records without a position and
    -- switches the others.
    pub switch_map-kept : (m : Map V) → IsMap m → switch_map vol switch m ≡ kept m
    unfolding kept
    switch_map-kept [] u = switch_map-nil
    switch_map-kept ((k, v) ∷ m) u = elim (Bool-cases (is_flat (vol v))) [
      | inl e ↦ rw e (switch_map-flat k v m e ∙ switch_map-kept m u.1)
      | inr e ↦
          rw e (switch_map-open k v m e u.0 ∙ ap (λ r. (k, switch v) ∷ r) (switch_map-kept m u.1))
    ]

    pub lookup-kept :
        (k : ℕ) (m : Map V)
        → IsMap m
        → lookup k (kept m) ≡ elim (lookup k m) [
          | none ↦ none
          | some v ↦ if is_flat (vol v) then none else some (switch v)
        ]
    unfolding kept
    lookup-kept k [] u = refl
    lookup-kept k ((j, v) ∷ m) u = ground (arith, lookup-kept k m u.1)

    pub kept_inv :
        (k : ℕ) (m : Map V) (y : V)
        → IsMap m
        → lookup k (kept m) ≡ some y
        → (x : V) × (lookup k m ≡ some x) × (is_flat (vol x) ≡ false) × (y ≡ switch x)
    kept_inv k m y u e = go (lookup k m) refl
      where
        go :
            (o : Option V)
            → lookup k m ≡ o
            → (x : V) × (o ≡ some x) × (is_flat (vol x) ≡ false) × (y ≡ switch x)
        go none eo = absurd (ground (arith, lookup-kept k m u))
        go (some x) eo =
            (x, refl, ground (arith, lookup-kept k m u), ground (arith, lookup-kept k m u))

    pub kept-IsMap : (m : Map V) → IsMap m → IsMap (kept m)
    unfolding kept
    kept-IsMap [] u = tt
    kept-IsMap ((j, v) ∷ m) u = ground (arith, kept-IsMap m u.1, lookup-kept j m u.1)

both_true : (a b : Bool) → (a && b) ≡ true → (a ≡ true) × (b ≡ true)
both_true a b e = ground arith

both :
    (v : UnitVol)
    → ((pos 0 ==ℤ v.pos_long) ≡ true) × ((pos 0 ==ℤ v.pos_short) ≡ true)
    → Vol.on_switch_day v ≡ flat
unfolding Vol.on_switch_day
both v (el, es) = cc (==ℤ→eq (pos 0) v.pos_long el, ==ℤ→eq (pos 0) v.pos_short es)

-- A record with no position adds nothing to what the new day starts from.
on_switch_day-flat : (v : UnitVol) → is_flat v ≡ true → Vol.on_switch_day v ≡ flat
unfolding Vol.on_switch_day
on_switch_day-flat v e = both v (both_true _ _ e)

flat-⊞ : (a : UnitVol) → flat ⊞ a ≡ a
flat-⊞ a = ⊞_comm flat a ∙ ⊞_flat a

module _ {D : Type 0} ⦃F : Double D⦄ where
  -- The volumes of a product's instruments, once they are switched.
  pub vol_of-kept :
      (k : ℕ) (m : Map (ModInstr D))
      → vol_of k (kept ModInstr.unit_vol instr_on_switch_day m) ≡ Vol.on_switch_day (vol_of k m)
  unfolding kept instr_on_switch_day vol_of
  vol_of-kept k [] = sym (on_switch_day-flat flat refl)
  vol_of-kept k ((h, i) ∷ m) = ground (
    arith,
    vol_of-kept k m,
    on_switch_day-flat i.unit_vol,
    on_switch_day-⊞ i.unit_vol (vol_of k m),
    flat-⊞ (Vol.on_switch_day (vol_of k m)),
  )

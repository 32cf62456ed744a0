-- ===== src/Account/Base/Day.antt =====
-- src/account/AccBase.cpp: the invariant of an account at a change of the trading day.
use nat_framework.Prelude.{
  ℕ, ℤ, pos, ◌+ℤ◌, ◌≤ℤ◌, ◌≡◌, ◌∙◌, sym, ap, true, false, some, [], ◌∷◌, arith, int_laws, pos_part,
  neg_part, Bool-cases, inl, inr,
}
use nat_framework.Prelude.Map.{Map, lookup}
use nat_framework.Double.{Double}
use nat_framework.Account.Vol
use nat_framework.Account.Vol.{UnitVol, flat}
use nat_framework.Account.Vol.Laws.{◌⊞◌}
use nat_framework.Account.Vol.Balance.{on_switch_day-IsBalanced}
use nat_framework.Account.Mods.{ModPrd, prd_on_switch_day, acc_on_switch_day}
use nat_framework.Account.Instr.{ModInstr, instr_on_switch_day}
use nat_framework.Account.Base.{AccBase, is_flat, on_switch_day}
use nat_framework.Account.Base.Sums.{points, vol_of}
use nat_framework.Account.Base.Valid.{IsValid, PointsTo}
use nat_framework.Account.Base.Switch.{
  kept, switch_map-kept, lookup-kept, kept_inv, kept-IsMap, vol_of-kept,
}

-- No position is below zero.
abbrev pub IsHeld : UnitVol → Type 0
IsHeld v = (pos 0 ≤ℤ v.pos_long) × (pos 0 ≤ℤ v.pos_short)

-- The two tests of `is_flat` as equations.
flat_eqs : (v : UnitVol) → is_flat v ≡ true → (v.pos_long ≡ pos 0) × (v.pos_short ≡ pos 0)
flat_eqs v e = ground arith

eqs_flat : (v : UnitVol) → v.pos_long ≡ pos 0 → v.pos_short ≡ pos 0 → is_flat v ≡ true
eqs_flat v e f = ground arith

zero_left : (a b : ℤ) → pos 0 ≤ℤ a → pos 0 ≤ℤ b → a +ℤ b ≡ pos 0 → a ≡ pos 0
zero_left a b ha hb e = omega (int_laws, ap pos_part e, ap neg_part e)

zero_right : (a b : ℤ) → pos 0 ≤ℤ a → pos 0 ≤ℤ b → a +ℤ b ≡ pos 0 → b ≡ pos 0
zero_right a b ha hb e = omega (int_laws, ap pos_part e, ap neg_part e)

held_sum : (a b : ℤ) → pos 0 ≤ℤ a → pos 0 ≤ℤ b → pos 0 ≤ℤ (a +ℤ b)
held_sum a b ha hb = omega int_laws

-- A sum of held positions is flat only if its parts are.
flat_parts :
    (u w : UnitVol)
    → IsHeld u
    → IsHeld w
    → is_flat (u ⊞ w) ≡ true
    → (is_flat u ≡ true) × (is_flat w ≡ true)
unfolding ◌⊞◌
flat_parts u w hu hw e = parts (flat_eqs (u ⊞ w) e)
  where
    parts :
        ((u ⊞ w).pos_long ≡ pos 0) × ((u ⊞ w).pos_short ≡ pos 0)
        → (is_flat u ≡ true) × (is_flat w ≡ true)
    parts (el, es) = (
      eqs_flat u (zero_left _ _ hu.0 hw.0 el) (zero_left _ _ hu.1 hw.1 es),
      eqs_flat w (zero_right _ _ hu.0 hw.0 el) (zero_right _ _ hu.1 hw.1 es),
    )

module _ {D : Type 0} where
  -- No instrument in the map has a position below zero.
  abbrev pub AllHeld : Map (ModInstr D) → Type 0
  AllHeld [] = Unit {0}
  AllHeld ((h, i) ∷ m) = IsHeld i.unit_vol × AllHeld m

  vol_of-IsHeld : (k : ℕ) (m : Map (ModInstr D)) → AllHeld m → IsHeld (vol_of k m)
  unfolding vol_of ◌⊞◌
  vol_of-IsHeld k [] h = omega arith
  vol_of-IsHeld k ((j, x) ∷ m) h = elim (Bool-cases (points k x)) [
    | inl e ↦
        rw e (
          held_sum _ _ h.0.0 (vol_of-IsHeld k m h.1).0,
          held_sum _ _ h.0.1 (vol_of-IsHeld k m h.1).1,
        )
    | inr e ↦ rw e (vol_of-IsHeld k m h.1)
  ]

  -- Where a product has no position, none of its instruments has.
  pub flat_instr :
      (k h : ℕ) (i : ModInstr D) (m : Map (ModInstr D))
      → AllHeld m
      → is_flat (vol_of k m) ≡ true
      → lookup h m ≡ some i
      → points k i ≡ true
      → is_flat i.unit_vol ≡ true
  unfolding vol_of
  flat_instr k h i [] held z e t = cc
  flat_instr k h i ((j, x) ∷ m) held z e t = ground (
    arith,
    flat_instr k h i m held.1,
    flat_parts x.unit_vol (vol_of k m) held.0 (vol_of-IsHeld k m held.1),
  )

module _ {D : Type 0} ⦃F : Double D⦄ where
  switched : AccBase D → AccBase D
  switched b = record {
    map_instr = kept ModInstr.unit_vol instr_on_switch_day b.map_instr;
    map_prd = kept ModPrd.unit_vol prd_on_switch_day b.map_prd;
    mod_acc = acc_on_switch_day b.mod_acc;
  }

  on_switch_day_lem : (b : AccBase D) → IsValid b → on_switch_day b ≡ switched b
  unfolding on_switch_day switched
  on_switch_day_lem b v = rw (
    switch_map-kept ModInstr.unit_vol instr_on_switch_day b.map_instr v.instrs,
    switch_map-kept ModPrd.unit_vol prd_on_switch_day b.map_prd v.prds,
  )

  prd_still :
      (b : AccBase D) (h k : ℕ) (x : ModInstr D) (p : ModPrd D)
      → IsValid b
      → AllHeld b.map_instr
      → lookup h b.map_instr ≡ some x
      → is_flat x.unit_vol ≡ false
      → x.p_prd ≡ some k
      → lookup k b.map_prd ≡ some p
      → lookup k (kept ModPrd.unit_vol prd_on_switch_day b.map_prd) ≡ some (prd_on_switch_day p)
  prd_still b h k x p v held ex open_pos ek ep = ground (
    arith,
    lookup-kept ModPrd.unit_vol prd_on_switch_day k b.map_prd v.prds,
    v.sums k p,
    flat_instr k h x b.map_instr held,
  )

  switched-IsValid : (b : AccBase D) → IsValid b → AllHeld b.map_instr → IsValid (switched b)
  unfolding switched instr_on_switch_day prd_on_switch_day
  switched-IsValid b v held = record {
    instrs = kept-IsMap ModInstr.unit_vol instr_on_switch_day b.map_instr v.instrs;
    prds = kept-IsMap ModPrd.unit_vol prd_on_switch_day b.map_prd v.prds;
    links = λ h y e.
        link h y (kept_inv ModInstr.unit_vol instr_on_switch_day h b.map_instr y v.instrs e);
    balanced = λ h y e.
        let (x, ex, _, ey) =
          kept_inv ModInstr.unit_vol instr_on_switch_day h b.map_instr y v.instrs e in
        rw ey (on_switch_day-IsBalanced x.unit_vol);
    prd_balanced = λ k q e.
        let (p, ep, _, eq) = kept_inv ModPrd.unit_vol prd_on_switch_day k b.map_prd q v.prds e in
        rw eq (on_switch_day-IsBalanced p.unit_vol);
    sums = λ k q e.
        let (p, ep, _, eq) = kept_inv ModPrd.unit_vol prd_on_switch_day k b.map_prd q v.prds e in
        rw eq (ap Vol.on_switch_day (v.sums k p ep) ∙ sym (vol_of-kept k b.map_instr));
  }
    where
      link :
          (h : ℕ) (y : ModInstr D)
          → (x : ModInstr D) × (lookup h b.map_instr ≡ some x)
            × (is_flat x.unit_vol ≡ false)
            × (y ≡ instr_on_switch_day x)
          → PointsTo (switched b) y
      link h y (x, ex, open_pos, ey) =
          let (k, p, ek, ep, ea) = v.links h x ex in
          rw ey (k, prd_on_switch_day p, ek, prd_still b h k x p v held ex open_pos ek ep, ea)

  -- Changing the day keeps a valid account valid if no instrument's long or short position is
  -- below zero: no instrument is kept whose product is erased.
  pub on_switch_day-IsValid :
      (b : AccBase D) → IsValid b → AllHeld b.map_instr → IsValid (on_switch_day b)
  on_switch_day-IsValid b v held = rw (on_switch_day_lem b v) (switched-IsValid b v held)

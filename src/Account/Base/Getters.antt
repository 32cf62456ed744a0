-- ===== src/Account/Base/Getters.antt =====
-- src/account/AccBase.cpp: what an account shows of itself. A getter that returns a null pointer
-- is none here.
use nat_framework.Prelude.{
  ℕ, ℤ, pos, ◌+ℤ◌, ◌==ℤ◌, ◌≡◌, refl, if◌then◌else◌, Bool, true, false, not, ◌||◌, Option, none,
  some, List, [], ◌∷◌, arith, int_laws, ==ℤ→eq, ==_refl,
}
use nat_framework.Prelude.Map.{Map, lookup, IsMap}
use nat_framework.Account.Vol.{UnitVol, flat}
use nat_framework.Account.Vol.Laws.{◌⊞◌}
use nat_framework.Account.Amt.{UnitAmt}
use nat_framework.Account.Pnl.{UnitPnl}
use nat_framework.Account.Px.{UnitPx}
use nat_framework.Account.Mods.{ModPrd, ModAcc}
use nat_framework.Account.Instr.{ModInstr}
use nat_framework.Account.Base.{AccBase}
use nat_framework.Account.Base.Sums.{vol_of}
use nat_framework.Account.Base.Valid.{IsValid}

-- `0 != pos_long || ...`, the condition of the two lists.
unfoldable pub is_active : UnitVol → Bool
is_active v =
    not (pos 0 ==ℤ v.pos_long)
    || not (pos 0 ==ℤ v.pos_short)
    || not (pos 0 ==ℤ v.pos_long_yd_cls_ing)
    || not (pos 0 ==ℤ v.pos_short_yd_cls_ing)
    || not (pos 0 ==ℤ v.pos_long_td_opn_ing)
    || not (pos 0 ==ℤ v.pos_short_td_opn_ing)
    || not (pos 0 ==ℤ v.pos_long_td_cls_ing)
    || not (pos 0 ==ℤ v.pos_short_td_cls_ing)

module _ {V : Type 0} where
  unfoldable pub all_active : (V → UnitVol) → Map V → List V
  all_active vol [] = []
  all_active vol ((k, v) ∷ m) =
      let rest = all_active vol m in if is_active (vol v) then v ∷ rest else rest

  abbrev field_of : {W : Type 0} → (V → W) → ℕ → Map V → Option W
  field_of f h m = elim (lookup h m) [ none ↦ none | some v ↦ some (f v) ]

module _ {D : Type 0} where
  unfoldable pub get_mod_acc : AccBase D → ModAcc D
  get_mod_acc b = b.mod_acc

  unfoldable pub get_mod_instr : ℕ → AccBase D → Option (ModInstr D)
  get_mod_instr instr_hash b = lookup instr_hash b.map_instr

  unfoldable pub get_mod_prd : ℕ → AccBase D → Option (ModPrd D)
  get_mod_prd prd_hash b = lookup prd_hash b.map_prd

  unfoldable pub get_all_instr : AccBase D → List (ModInstr D)
  get_all_instr b = all_active ModInstr.unit_vol b.map_instr

  unfoldable pub get_all_prd : AccBase D → List (ModPrd D)
  get_all_prd b = all_active ModPrd.unit_vol b.map_prd

  unfoldable pub get_acc_unit_amt : AccBase D → UnitAmt D
  get_acc_unit_amt b = b.mod_acc.unit_amt

  unfoldable pub get_acc_unit_pnl : AccBase D → UnitPnl D
  get_acc_unit_pnl b = b.mod_acc.unit_pnl

  unfoldable pub get_instr_unit_vol : ℕ → AccBase D → Option UnitVol
  get_instr_unit_vol instr_hash b = field_of ModInstr.unit_vol instr_hash b.map_instr

  unfoldable pub get_instr_unit_amt : ℕ → AccBase D → Option (UnitAmt D)
  get_instr_unit_amt instr_hash b = field_of ModInstr.unit_amt instr_hash b.map_instr

  unfoldable pub get_instr_unit_px : ℕ → AccBase D → Option (UnitPx D)
  get_instr_unit_px instr_hash b = field_of ModInstr.unit_px instr_hash b.map_instr

  unfoldable pub get_instr_unit_pnl : ℕ → AccBase D → Option (UnitPnl D)
  get_instr_unit_pnl instr_hash b = field_of ModInstr.unit_pnl instr_hash b.map_instr

  unfoldable pub get_prd_unit_vol : ℕ → AccBase D → Option UnitVol
  get_prd_unit_vol prd_hash b = field_of ModPrd.unit_vol prd_hash b.map_prd

  unfoldable pub get_prd_unit_amt : ℕ → AccBase D → Option (UnitAmt D)
  get_prd_unit_amt prd_hash b = field_of ModPrd.unit_amt prd_hash b.map_prd

  unfoldable pub get_prd_unit_pnl : ℕ → AccBase D → Option (UnitPnl D)
  get_prd_unit_pnl prd_hash b = field_of ModPrd.unit_pnl prd_hash b.map_prd

sum_zero : (a b : ℤ) → (pos 0 ==ℤ a) ≡ true → (pos 0 ==ℤ b) ≡ true → (pos 0 ==ℤ (a +ℤ b)) ≡ true
sum_zero a b ha hb = grind (int_laws, ==ℤ→eq (pos 0) a ha, ==ℤ→eq (pos 0) b hb)

sum_idle : (u w : UnitVol) → is_active u ≡ false → is_active w ≡ false → is_active (u ⊞ w) ≡ false
unfolding is_active ◌⊞◌
sum_idle u w hu hw = ground (
  arith,
  sum_zero u.pos_long w.pos_long,
  sum_zero u.pos_short w.pos_short,
  sum_zero u.pos_long_yd_cls_ing w.pos_long_yd_cls_ing,
  sum_zero u.pos_short_yd_cls_ing w.pos_short_yd_cls_ing,
  sum_zero u.pos_long_td_opn_ing w.pos_long_td_opn_ing,
  sum_zero u.pos_short_td_opn_ing w.pos_short_td_opn_ing,
  sum_zero u.pos_long_td_cls_ing w.pos_long_td_cls_ing,
  sum_zero u.pos_short_td_cls_ing w.pos_short_td_cls_ing,
)

flat_idle : is_active flat ≡ false
unfolding is_active
flat_idle = refl

module _ {D : Type 0} where
  vol_of_idle :
      (k : ℕ) (m : Map (ModInstr D))
      → all_active ModInstr.unit_vol m ≡ []
      → is_active (vol_of k m) ≡ false
  unfolding all_active vol_of
  vol_of_idle k [] e = flat_idle
  vol_of_idle k ((h, i) ∷ m) e = ground (arith, vol_of_idle k m, sum_idle i.unit_vol (vol_of k m))

  none_active :
      (m : Map (ModPrd D))
      → ((k : ℕ) (p : ModPrd D) → lookup k m ≡ some p → is_active p.unit_vol ≡ false)
      → IsMap m
      → all_active ModPrd.unit_vol m ≡ []
  unfolding all_active
  none_active [] idle u = refl
  none_active ((k, p) ∷ m) idle u =
      let head = idle k p (ground (arith, ==_refl k)) in
      let tail = none_active m (λ j q e. idle j q (ground (arith, u.0))) u.1 in rw (head, tail) refl

  -- On a valid account, if no instrument is listed as active, then no product is.
  pub get_all_prd_idle : (b : AccBase D) → IsValid b → get_all_instr b ≡ [] → get_all_prd b ≡ []
  unfolding get_all_instr get_all_prd
  get_all_prd_idle b v e =
      none_active b.map_prd (λ k p ep. rw (v.sums k p ep) (vol_of_idle k b.map_instr e)) v.prds

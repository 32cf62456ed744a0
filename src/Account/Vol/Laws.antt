-- ===== src/Account/Vol/Laws.antt =====
-- src/account/UnitVol.cpp: the sum of two volume records, and how the handlers act on it.
use nat_framework.Prelude.{◌+ℤ◌, ◌≡◌, +ℤ_shift, -ℤ_shift, +ℤ_comm, +ℤ_assoc, +ℤ_zero}
use nat_framework.Account.Vol.Handlers.{
  VolHandler, buy_opn_new, buy_opn_cxl, buy_opn_trd, buy_cls_yd_new, buy_cls_yd_cxl, buy_cls_yd_trd,
  buy_cls_td_new, buy_cls_td_cxl, buy_cls_td_trd, sell_opn_new, sell_opn_cxl, sell_opn_trd,
  sell_cls_yd_new, sell_cls_yd_cxl, sell_cls_yd_trd, sell_cls_td_new, sell_cls_td_cxl,
  sell_cls_td_trd,
}
use nat_framework.Account.Vol.{
  UnitVol, flat, on_switch_day, on_buy_opn_new, on_buy_opn_cxl, on_buy_opn_trd, on_buy_cls_yd_new,
  on_buy_cls_yd_cxl, on_buy_cls_yd_trd, on_buy_cls_td_new, on_buy_cls_td_cxl, on_buy_cls_td_trd,
  on_sell_opn_new, on_sell_opn_cxl, on_sell_opn_trd, on_sell_cls_yd_new, on_sell_cls_yd_cxl,
  on_sell_cls_yd_trd, on_sell_cls_td_new, on_sell_cls_td_cxl, on_sell_cls_td_trd,
}

-- Field by field.
infixl 65 ◌⊞◌
unfoldable pub ◌⊞◌ : UnitVol → UnitVol → UnitVol
a ⊞ b = record {
  pos_long_yd_ini = a.pos_long_yd_ini +ℤ b.pos_long_yd_ini;
  pos_long_yd = a.pos_long_yd +ℤ b.pos_long_yd;
  pos_long_td = a.pos_long_td +ℤ b.pos_long_td;
  pos_long = a.pos_long +ℤ b.pos_long;
  pos_long_yd_cls_ing = a.pos_long_yd_cls_ing +ℤ b.pos_long_yd_cls_ing;
  pos_long_td_cls_ing = a.pos_long_td_cls_ing +ℤ b.pos_long_td_cls_ing;
  pos_long_td_opn_ing = a.pos_long_td_opn_ing +ℤ b.pos_long_td_opn_ing;
  pos_short_yd_ini = a.pos_short_yd_ini +ℤ b.pos_short_yd_ini;
  pos_short_yd = a.pos_short_yd +ℤ b.pos_short_yd;
  pos_short_td = a.pos_short_td +ℤ b.pos_short_td;
  pos_short = a.pos_short +ℤ b.pos_short;
  pos_short_yd_cls_ing = a.pos_short_yd_cls_ing +ℤ b.pos_short_yd_cls_ing;
  pos_short_td_cls_ing = a.pos_short_td_cls_ing +ℤ b.pos_short_td_cls_ing;
  pos_short_td_opn_ing = a.pos_short_td_opn_ing +ℤ b.pos_short_td_opn_ing;
  pos_buy = a.pos_buy +ℤ b.pos_buy;
  pos_sell = a.pos_sell +ℤ b.pos_sell;
}

pub ⊞_comm : (a b : UnitVol) → a ⊞ b ≡ b ⊞ a
unfolding ◌⊞◌
⊞_comm a b = simp +ℤ_comm

pub ⊞_assoc : (a b c : UnitVol) → a ⊞ b ⊞ c ≡ a ⊞ (b ⊞ c)
unfolding ◌⊞◌
⊞_assoc a b c = simp +ℤ_assoc

pub ⊞_flat : (a : UnitVol) → a ⊞ flat ≡ a
unfolding ◌⊞◌
⊞_flat a = simp +ℤ_zero

-- A handler that adds the same amounts whatever the record holds.
abbrev pub IsShift : (UnitVol → UnitVol) → Type 0
IsShift f = (a b : UnitVol) → f (a ⊞ b) ≡ f a ⊞ b

-- Changing the day of a sum of two volume records is the sum of the two changed.
pub on_switch_day-⊞ : (a b : UnitVol) → on_switch_day (a ⊞ b) ≡ on_switch_day a ⊞ on_switch_day b
unfolding on_switch_day ◌⊞◌
on_switch_day-⊞ a b = simp +ℤ_zero

-- Each of the eighteen handlers of volumes adds the same amounts whatever the record holds:
-- applied to a sum of two records, it acts on the first.
pub shift : {f : UnitVol → UnitVol} → VolHandler f → IsShift f
unfolding ◌⊞◌ on_buy_opn_new on_buy_opn_cxl on_buy_opn_trd on_buy_cls_yd_new on_buy_cls_yd_cxl
    on_buy_cls_yd_trd on_buy_cls_td_new on_buy_cls_td_cxl on_buy_cls_td_trd on_sell_opn_new
    on_sell_opn_cxl on_sell_opn_trd on_sell_cls_yd_new on_sell_cls_yd_cxl on_sell_cls_yd_trd
    on_sell_cls_td_new on_sell_cls_td_cxl on_sell_cls_td_trd
shift (buy_opn_new vol) a b = simp +ℤ_shift
shift (buy_opn_cxl vol) a b = simp -ℤ_shift
shift (buy_opn_trd vol) a b = simp (+ℤ_shift, -ℤ_shift)
shift (buy_cls_yd_new vol) a b = simp +ℤ_shift
shift (buy_cls_yd_cxl vol) a b = simp -ℤ_shift
shift (buy_cls_yd_trd vol) a b = simp (+ℤ_shift, -ℤ_shift)
shift (buy_cls_td_new vol) a b = simp +ℤ_shift
shift (buy_cls_td_cxl vol) a b = simp -ℤ_shift
shift (buy_cls_td_trd vol) a b = simp (+ℤ_shift, -ℤ_shift)
shift (sell_opn_new vol) a b = simp +ℤ_shift
shift (sell_opn_cxl vol) a b = simp -ℤ_shift
shift (sell_opn_trd vol) a b = simp (+ℤ_shift, -ℤ_shift)
shift (sell_cls_yd_new vol) a b = simp +ℤ_shift
shift (sell_cls_yd_cxl vol) a b = simp -ℤ_shift
shift (sell_cls_yd_trd vol) a b = simp (+ℤ_shift, -ℤ_shift)
shift (sell_cls_td_new vol) a b = simp +ℤ_shift
shift (sell_cls_td_cxl vol) a b = simp -ℤ_shift
shift (sell_cls_td_trd vol) a b = simp (+ℤ_shift, -ℤ_shift)

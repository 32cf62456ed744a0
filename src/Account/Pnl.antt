-- ===== src/Account/Pnl.antt =====
-- The profit and loss of one instrument, product or account: src/account/UnitPnl.h and
-- UnitPnl.cpp.
use nat_framework.Prelude.{ℤ, ◌-ℤ◌}
use nat_framework.Double.{Double, ◌⊕◌, ◌⊖◌, ◌⊗◌, of_int, nil}

pub record UnitPnl (D : Type 0) : Type 0 where
  pub pos_pnl : D
  pub trd_pnl : D

module _ {D : Type 0} ⦃F : Double D⦄ where
  -- The fields' default values.
  abbrev pub no_pnl : UnitPnl D
  no_pnl = record { pos_pnl = nil; trd_pnl = nil }

  unfoldable pub on_switch_day : UnitPnl D → UnitPnl D
  on_switch_day u = record u { pos_pnl = nil; trd_pnl = nil }

  unfoldable pub calc_pos_pnl_change_on_px_change : D → D → ℤ → ℤ → ℤ → D
  calc_pos_pnl_change_on_px_change cur_px last_px pos_long_yd_ini pos_short_yd_ini vol_multiple =
      (cur_px ⊖ last_px) ⊗ of_int (pos_long_yd_ini -ℤ pos_short_yd_ini) ⊗ of_int vol_multiple

  unfoldable pub calc_trd_pnl_change_on_px_change : D → D → ℤ → ℤ → ℤ → D
  calc_trd_pnl_change_on_px_change cur_px last_px pos_buy pos_sell vol_multiple =
      (cur_px ⊖ last_px) ⊗ of_int (pos_buy -ℤ pos_sell) ⊗ of_int vol_multiple

  unfoldable pub on_pos_pnl_change : D → UnitPnl D → UnitPnl D
  on_pos_pnl_change delta u = record u { pos_pnl = u.pos_pnl ⊕ delta }

  unfoldable pub on_trd_pnl_change : D → UnitPnl D → UnitPnl D
  on_trd_pnl_change delta u = record u { trd_pnl = u.trd_pnl ⊕ delta }

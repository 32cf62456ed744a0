-- ===== src/Account/Px.antt =====
-- The prices of one instrument: src/account/UnitPx.h and UnitPx.cpp.
use nat_framework.Prelude.{ℤ, pos, ◌==ℤ◌, ◌||◌, if◌then◌else◌}
use nat_framework.Double.{Double, ◌⊘◌, of_int, nil}

pub record UnitPx (D : Type 0) : Type 0 where
  pub stl_px_yd : D
  pub last_px : D
  pub avg_px_buy : D
  pub avg_px_sell : D

module _ {D : Type 0} ⦃F : Double D⦄ where
  -- The fields' default values.
  abbrev pub no_px : UnitPx D
  no_px = record { stl_px_yd = nil; last_px = nil; avg_px_buy = nil; avg_px_sell = nil }

  unfoldable pub on_switch_day : UnitPx D → UnitPx D
  on_switch_day p = record p { stl_px_yd = p.last_px; avg_px_buy = nil; avg_px_sell = nil }

  unfoldable pub calc_avg_px : D → ℤ → ℤ → D
  calc_avg_px amt position vol_multiple =
      if position ==ℤ pos 0 || vol_multiple ==ℤ pos 0
      then nil
      else amt ⊘ of_int position ⊘ of_int vol_multiple

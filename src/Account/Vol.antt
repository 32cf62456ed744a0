-- ===== src/Account/Vol.antt =====
-- The volumes of one instrument or product: src/account/UnitVol.h and UnitVol.cpp. The source's
-- `int` fields are unbounded integers here.
pub mod Handlers
pub mod Laws
pub mod Balance
use nat_framework.Prelude.{ℤ, pos, ◌+ℤ◌, ◌-ℤ◌}

pub record UnitVol : Type 0 where
  -- the initial long position of yesterday
  pub pos_long_yd_ini : ℤ
  -- what is left of it
  pub pos_long_yd : ℤ
  pub pos_long_td : ℤ
  pub pos_long : ℤ
  pub pos_long_yd_cls_ing : ℤ
  pub pos_long_td_cls_ing : ℤ
  pub pos_long_td_opn_ing : ℤ
  pub pos_short_yd_ini : ℤ
  pub pos_short_yd : ℤ
  pub pos_short_td : ℤ
  pub pos_short : ℤ
  pub pos_short_yd_cls_ing : ℤ
  pub pos_short_td_cls_ing : ℤ
  pub pos_short_td_opn_ing : ℤ
  pub pos_buy : ℤ
  pub pos_sell : ℤ

-- The fields' default values.
abbrev pub flat : UnitVol
flat = record {
  pos_long_yd_ini = pos 0;
  pos_long_yd = pos 0;
  pos_long_td = pos 0;
  pos_long = pos 0;
  pos_long_yd_cls_ing = pos 0;
  pos_long_td_cls_ing = pos 0;
  pos_long_td_opn_ing = pos 0;
  pos_short_yd_ini = pos 0;
  pos_short_yd = pos 0;
  pos_short_td = pos 0;
  pos_short = pos 0;
  pos_short_yd_cls_ing = pos 0;
  pos_short_td_cls_ing = pos 0;
  pos_short_td_opn_ing = pos 0;
  pos_buy = pos 0;
  pos_sell = pos 0;
}

unfoldable pub on_switch_day : UnitVol → UnitVol
on_switch_day v = record {
  pos_long_yd_ini = v.pos_long;
  pos_long_yd_cls_ing = pos 0;
  pos_long_yd = v.pos_long;
  pos_long_td_opn_ing = pos 0;
  pos_long_td_cls_ing = pos 0;
  pos_long_td = pos 0;
  pos_long = v.pos_long;
  pos_short_yd_ini = v.pos_short;
  pos_short_yd_cls_ing = pos 0;
  pos_short_yd = v.pos_short;
  pos_short_td_opn_ing = pos 0;
  pos_short_td_cls_ing = pos 0;
  pos_short_td = pos 0;
  pos_short = v.pos_short;
  pos_buy = pos 0;
  pos_sell = pos 0;
}

unfoldable pub on_buy_opn_new : ℤ → UnitVol → UnitVol
on_buy_opn_new vol v = record v { pos_long_td_opn_ing = v.pos_long_td_opn_ing +ℤ vol }

unfoldable pub on_buy_opn_cxl : ℤ → UnitVol → UnitVol
on_buy_opn_cxl vol v = record v { pos_long_td_opn_ing = v.pos_long_td_opn_ing -ℤ vol }

unfoldable pub on_buy_opn_trd : ℤ → UnitVol → UnitVol
on_buy_opn_trd vol v = record v {
  pos_long_td_opn_ing = v.pos_long_td_opn_ing -ℤ vol;
  pos_long_td = v.pos_long_td +ℤ vol;
  pos_long = v.pos_long +ℤ vol;
  pos_buy = v.pos_buy +ℤ vol;
}

unfoldable pub on_sell_opn_new : ℤ → UnitVol → UnitVol
on_sell_opn_new vol v = record v { pos_short_td_opn_ing = v.pos_short_td_opn_ing +ℤ vol }

unfoldable pub on_sell_opn_cxl : ℤ → UnitVol → UnitVol
on_sell_opn_cxl vol v = record v { pos_short_td_opn_ing = v.pos_short_td_opn_ing -ℤ vol }

unfoldable pub on_sell_opn_trd : ℤ → UnitVol → UnitVol
on_sell_opn_trd vol v = record v {
  pos_short_td_opn_ing = v.pos_short_td_opn_ing -ℤ vol;
  pos_short_td = v.pos_short_td +ℤ vol;
  pos_short = v.pos_short +ℤ vol;
  pos_sell = v.pos_sell +ℤ vol;
}

unfoldable pub on_buy_cls_yd_new : ℤ → UnitVol → UnitVol
on_buy_cls_yd_new vol v = record v { pos_short_yd_cls_ing = v.pos_short_yd_cls_ing +ℤ vol }

unfoldable pub on_buy_cls_yd_cxl : ℤ → UnitVol → UnitVol
on_buy_cls_yd_cxl vol v = record v { pos_short_yd_cls_ing = v.pos_short_yd_cls_ing -ℤ vol }

unfoldable pub on_buy_cls_yd_trd : ℤ → UnitVol → UnitVol
on_buy_cls_yd_trd vol v = record v {
  pos_short_yd_cls_ing = v.pos_short_yd_cls_ing -ℤ vol;
  pos_short_yd = v.pos_short_yd -ℤ vol;
  pos_short = v.pos_short -ℤ vol;
  pos_buy = v.pos_buy +ℤ vol;
}

unfoldable pub on_sell_cls_yd_new : ℤ → UnitVol → UnitVol
on_sell_cls_yd_new vol v = record v { pos_long_yd_cls_ing = v.pos_long_yd_cls_ing +ℤ vol }

unfoldable pub on_sell_cls_yd_cxl : ℤ → UnitVol → UnitVol
on_sell_cls_yd_cxl vol v = record v { pos_long_yd_cls_ing = v.pos_long_yd_cls_ing -ℤ vol }

unfoldable pub on_sell_cls_yd_trd : ℤ → UnitVol → UnitVol
on_sell_cls_yd_trd vol v = record v {
  pos_long_yd_cls_ing = v.pos_long_yd_cls_ing -ℤ vol;
  pos_long_yd = v.pos_long_yd -ℤ vol;
  pos_long = v.pos_long -ℤ vol;
  pos_sell = v.pos_sell +ℤ vol;
}

unfoldable pub on_buy_cls_td_new : ℤ → UnitVol → UnitVol
on_buy_cls_td_new vol v = record v { pos_short_td_cls_ing = v.pos_short_td_cls_ing +ℤ vol }

unfoldable pub on_buy_cls_td_cxl : ℤ → UnitVol → UnitVol
on_buy_cls_td_cxl vol v = record v { pos_short_td_cls_ing = v.pos_short_td_cls_ing -ℤ vol }

unfoldable pub on_buy_cls_td_trd : ℤ → UnitVol → UnitVol
on_buy_cls_td_trd vol v = record v {
  pos_short_td_cls_ing = v.pos_short_td_cls_ing -ℤ vol;
  pos_short_td = v.pos_short_td -ℤ vol;
  pos_short = v.pos_short -ℤ vol;
  pos_buy = v.pos_buy +ℤ vol;
}

unfoldable pub on_sell_cls_td_new : ℤ → UnitVol → UnitVol
on_sell_cls_td_new vol v = record v { pos_long_td_cls_ing = v.pos_long_td_cls_ing +ℤ vol }

unfoldable pub on_sell_cls_td_cxl : ℤ → UnitVol → UnitVol
on_sell_cls_td_cxl vol v = record v { pos_long_td_cls_ing = v.pos_long_td_cls_ing -ℤ vol }

unfoldable pub on_sell_cls_td_trd : ℤ → UnitVol → UnitVol
on_sell_cls_td_trd vol v = record v {
  pos_long_td_cls_ing = v.pos_long_td_cls_ing -ℤ vol;
  pos_long_td = v.pos_long_td -ℤ vol;
  pos_long = v.pos_long -ℤ vol;
  pos_sell = v.pos_sell +ℤ vol;
}

-- ===== src/Account/Vol/Balance.antt =====
-- src/account/UnitVol.cpp: the balance of one volume record.
use nat_framework.Prelude.{◌+ℤ◌, ◌-ℤ◌, ◌≡◌, int_laws}
use nat_framework.Account.Vol.Handlers.{
  VolHandler, buy_opn_new, buy_opn_cxl, buy_opn_trd, buy_cls_yd_new, buy_cls_yd_cxl, buy_cls_yd_trd,
  buy_cls_td_new, buy_cls_td_cxl, buy_cls_td_trd, sell_opn_new, sell_opn_cxl, sell_opn_trd,
  sell_cls_yd_new, sell_cls_yd_cxl, sell_cls_yd_trd, sell_cls_td_new, sell_cls_td_cxl,
  sell_cls_td_trd,
}
use nat_framework.Account.Vol.{
  UnitVol, on_switch_day, on_buy_opn_new, on_buy_opn_cxl, on_buy_opn_trd, on_buy_cls_yd_new,
  on_buy_cls_yd_cxl, on_buy_cls_yd_trd, on_buy_cls_td_new, on_buy_cls_td_cxl, on_buy_cls_td_trd,
  on_sell_opn_new, on_sell_opn_cxl, on_sell_opn_trd, on_sell_cls_yd_new, on_sell_cls_yd_cxl,
  on_sell_cls_yd_trd, on_sell_cls_td_new, on_sell_cls_td_cxl, on_sell_cls_td_trd,
}

-- The long and the short position are what is left of yesterday's and what is left of today's, and
-- the net position has moved since yesterday by what was bought less what was sold.
pub record IsBalanced (v : UnitVol) : Type 0 where
  pub long : v.pos_long ≡ v.pos_long_yd +ℤ v.pos_long_td
  pub short : v.pos_short ≡ v.pos_short_yd +ℤ v.pos_short_td
  pub net :
      v.pos_long -ℤ v.pos_short
      ≡ v.pos_long_yd_ini -ℤ v.pos_short_yd_ini +ℤ (v.pos_buy -ℤ v.pos_sell)

-- Each of the eighteen handlers of volumes keeps the balance: each position is what is left of
-- yesterday's and of today's, and the net position has moved since yesterday by what was bought
-- less what was sold.
pub handler-IsBalanced :
    {f : UnitVol → UnitVol} → VolHandler f → (v : UnitVol) → IsBalanced v → IsBalanced (f v)
unfolding on_buy_opn_new on_buy_opn_cxl on_buy_opn_trd on_buy_cls_yd_new on_buy_cls_yd_cxl
    on_buy_cls_yd_trd on_buy_cls_td_new on_buy_cls_td_cxl on_buy_cls_td_trd on_sell_opn_new
    on_sell_opn_cxl on_sell_opn_trd on_sell_cls_yd_new on_sell_cls_yd_cxl on_sell_cls_yd_trd
    on_sell_cls_td_new on_sell_cls_td_cxl on_sell_cls_td_trd
handler-IsBalanced (buy_opn_new vol) v h = grind (int_laws)
handler-IsBalanced (buy_opn_cxl vol) v h = grind (int_laws)
handler-IsBalanced (buy_opn_trd vol) v h = grind (int_laws)
handler-IsBalanced (buy_cls_yd_new vol) v h = grind (int_laws)
handler-IsBalanced (buy_cls_yd_cxl vol) v h = grind (int_laws)
handler-IsBalanced (buy_cls_yd_trd vol) v h = grind (int_laws)
handler-IsBalanced (buy_cls_td_new vol) v h = grind (int_laws)
handler-IsBalanced (buy_cls_td_cxl vol) v h = grind (int_laws)
handler-IsBalanced (buy_cls_td_trd vol) v h = grind (int_laws)
handler-IsBalanced (sell_opn_new vol) v h = grind (int_laws)
handler-IsBalanced (sell_opn_cxl vol) v h = grind (int_laws)
handler-IsBalanced (sell_opn_trd vol) v h = grind (int_laws)
handler-IsBalanced (sell_cls_yd_new vol) v h = grind (int_laws)
handler-IsBalanced (sell_cls_yd_cxl vol) v h = grind (int_laws)
handler-IsBalanced (sell_cls_yd_trd vol) v h = grind (int_laws)
handler-IsBalanced (sell_cls_td_new vol) v h = grind (int_laws)
handler-IsBalanced (sell_cls_td_cxl vol) v h = grind (int_laws)
handler-IsBalanced (sell_cls_td_trd vol) v h = grind (int_laws)

pub on_switch_day-IsBalanced : (v : UnitVol) → IsBalanced (on_switch_day v)
unfolding on_switch_day
on_switch_day-IsBalanced v = grind int_laws

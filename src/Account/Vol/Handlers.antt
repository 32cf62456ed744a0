-- ===== src/Account/Vol/Handlers.antt =====
-- src/account/UnitVol.cpp: the handlers of volumes, listed.
use nat_framework.Prelude.{ℤ}
use nat_framework.Account.Vol.{
  UnitVol, on_buy_opn_new, on_buy_opn_cxl, on_buy_opn_trd, on_buy_cls_yd_new, on_buy_cls_yd_cxl,
  on_buy_cls_yd_trd, on_buy_cls_td_new, on_buy_cls_td_cxl, on_buy_cls_td_trd, on_sell_opn_new,
  on_sell_opn_cxl, on_sell_opn_trd, on_sell_cls_yd_new, on_sell_cls_yd_cxl, on_sell_cls_yd_trd,
  on_sell_cls_td_new, on_sell_cls_td_cxl, on_sell_cls_td_trd,
}

-- `f` is one of the handlers at some volume.
pub data VolHandler : (UnitVol → UnitVol) → Type 0 where
  buy_opn_new : (vol : ℤ) → VolHandler (on_buy_opn_new vol)
  buy_opn_cxl : (vol : ℤ) → VolHandler (on_buy_opn_cxl vol)
  buy_opn_trd : (vol : ℤ) → VolHandler (on_buy_opn_trd vol)
  buy_cls_yd_new : (vol : ℤ) → VolHandler (on_buy_cls_yd_new vol)
  buy_cls_yd_cxl : (vol : ℤ) → VolHandler (on_buy_cls_yd_cxl vol)
  buy_cls_yd_trd : (vol : ℤ) → VolHandler (on_buy_cls_yd_trd vol)
  buy_cls_td_new : (vol : ℤ) → VolHandler (on_buy_cls_td_new vol)
  buy_cls_td_cxl : (vol : ℤ) → VolHandler (on_buy_cls_td_cxl vol)
  buy_cls_td_trd : (vol : ℤ) → VolHandler (on_buy_cls_td_trd vol)
  sell_opn_new : (vol : ℤ) → VolHandler (on_sell_opn_new vol)
  sell_opn_cxl : (vol : ℤ) → VolHandler (on_sell_opn_cxl vol)
  sell_opn_trd : (vol : ℤ) → VolHandler (on_sell_opn_trd vol)
  sell_cls_yd_new : (vol : ℤ) → VolHandler (on_sell_cls_yd_new vol)
  sell_cls_yd_cxl : (vol : ℤ) → VolHandler (on_sell_cls_yd_cxl vol)
  sell_cls_yd_trd : (vol : ℤ) → VolHandler (on_sell_cls_yd_trd vol)
  sell_cls_td_new : (vol : ℤ) → VolHandler (on_sell_cls_td_new vol)
  sell_cls_td_cxl : (vol : ℤ) → VolHandler (on_sell_cls_td_cxl vol)
  sell_cls_td_trd : (vol : ℤ) → VolHandler (on_sell_cls_td_trd vol)

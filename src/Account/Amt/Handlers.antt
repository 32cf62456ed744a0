-- ===== src/Account/Amt/Handlers.antt =====
-- src/account/UnitAmt.cpp: the handlers of the amounts that products and accounts keep too,
-- listed.
use nat_framework.Double.{Double}
use nat_framework.Account.Amt.{
  UnitAmt, on_amt_long_yd_sub_ing_change, on_amt_long_td_add_ing_change,
  on_amt_long_td_sub_ing_change, on_amt_long_change, on_amt_short_yd_sub_ing_change,
  on_amt_short_td_add_ing_change, on_amt_short_td_sub_ing_change, on_amt_short_change,
}

-- `f` is one of the handlers at some amount.
pub data AmtHandler {D : Type 0} ⦃F : Double D⦄ : (UnitAmt D → UnitAmt D) → Type 0 where
  amt_long_yd_sub_ing : (amt : D) → AmtHandler (on_amt_long_yd_sub_ing_change amt)
  amt_long_td_add_ing : (amt : D) → AmtHandler (on_amt_long_td_add_ing_change amt)
  amt_long_td_sub_ing : (amt : D) → AmtHandler (on_amt_long_td_sub_ing_change amt)
  amt_long : (amt : D) → AmtHandler (on_amt_long_change amt)
  amt_short_yd_sub_ing : (amt : D) → AmtHandler (on_amt_short_yd_sub_ing_change amt)
  amt_short_td_add_ing : (amt : D) → AmtHandler (on_amt_short_td_add_ing_change amt)
  amt_short_td_sub_ing : (amt : D) → AmtHandler (on_amt_short_td_sub_ing_change amt)
  amt_short : (amt : D) → AmtHandler (on_amt_short_change amt)

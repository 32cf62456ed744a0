-- ===== src/Account/Amt.antt =====
-- The amounts of one instrument, product or account: src/account/UnitAmt.h and UnitAmt.cpp.
pub mod Handlers
pub mod Laws
use nat_framework.Prelude.{ℤ}
use nat_framework.Double.{Double, ◌⊕◌, ◌⊖◌, ◌⊗◌, of_int, nil}

pub record UnitAmt (D : Type 0) : Type 0 where
  pub amt_long_yd_sub_ing : D
  pub amt_long_td_add_ing : D
  pub amt_long_td_sub_ing : D
  pub amt_long : D
  pub amt_short_yd_sub_ing : D
  pub amt_short_td_add_ing : D
  pub amt_short_td_sub_ing : D
  pub amt_short : D
  pub amt_buy : D
  pub amt_sell : D

module _ {D : Type 0} ⦃F : Double D⦄ where
  -- The fields' default values.
  abbrev pub no_amt : UnitAmt D
  no_amt = record {
    amt_long_yd_sub_ing = nil;
    amt_long_td_add_ing = nil;
    amt_long_td_sub_ing = nil;
    amt_long = nil;
    amt_short_yd_sub_ing = nil;
    amt_short_td_add_ing = nil;
    amt_short_td_sub_ing = nil;
    amt_short = nil;
    amt_buy = nil;
    amt_sell = nil;
  }

  unfoldable pub on_switch_day : UnitAmt D → UnitAmt D
  on_switch_day a = record a {
    amt_long_yd_sub_ing = nil;
    amt_long_td_add_ing = nil;
    amt_long_td_sub_ing = nil;
    amt_short_yd_sub_ing = nil;
    amt_short_td_add_ing = nil;
    amt_short_td_sub_ing = nil;
    amt_buy = nil;
    amt_sell = nil;
  }

  unfoldable pub calc_amt_change_on_px_change : D → D → ℤ → ℤ → D
  calc_amt_change_on_px_change cur_px last_px position vol_multiple =
      (cur_px ⊖ last_px) ⊗ of_int position ⊗ of_int vol_multiple

  unfoldable pub calc_amt_change_on_trd : D → ℤ → ℤ → D
  calc_amt_change_on_trd trd_px trd_vol vol_multiple = trd_px ⊗ of_int trd_vol ⊗ of_int vol_multiple

  unfoldable pub calc_amt_ing_change_on_new_cxl_trd : D → ℤ → ℤ → D
  calc_amt_ing_change_on_new_cxl_trd px vol vol_multiple = px ⊗ of_int vol ⊗ of_int vol_multiple

  unfoldable pub on_amt_long_yd_sub_ing_change : D → UnitAmt D → UnitAmt D
  on_amt_long_yd_sub_ing_change amt a = record a {
    amt_long_yd_sub_ing = a.amt_long_yd_sub_ing ⊕ amt;
  }

  unfoldable pub on_amt_long_td_add_ing_change : D → UnitAmt D → UnitAmt D
  on_amt_long_td_add_ing_change amt a = record a {
    amt_long_td_add_ing = a.amt_long_td_add_ing ⊕ amt;
  }

  unfoldable pub on_amt_long_td_sub_ing_change : D → UnitAmt D → UnitAmt D
  on_amt_long_td_sub_ing_change amt a = record a {
    amt_long_td_sub_ing = a.amt_long_td_sub_ing ⊕ amt;
  }

  unfoldable pub on_amt_long_change : D → UnitAmt D → UnitAmt D
  on_amt_long_change amt a = record a { amt_long = a.amt_long ⊕ amt }

  unfoldable pub on_amt_short_yd_sub_ing_change : D → UnitAmt D → UnitAmt D
  on_amt_short_yd_sub_ing_change amt a = record a {
    amt_short_yd_sub_ing = a.amt_short_yd_sub_ing ⊕ amt;
  }

  unfoldable pub on_amt_short_td_add_ing_change : D → UnitAmt D → UnitAmt D
  on_amt_short_td_add_ing_change amt a = record a {
    amt_short_td_add_ing = a.amt_short_td_add_ing ⊕ amt;
  }

  unfoldable pub on_amt_short_td_sub_ing_change : D → UnitAmt D → UnitAmt D
  on_amt_short_td_sub_ing_change amt a = record a {
    amt_short_td_sub_ing = a.amt_short_td_sub_ing ⊕ amt;
  }

  unfoldable pub on_amt_short_change : D → UnitAmt D → UnitAmt D
  on_amt_short_change amt a = record a { amt_short = a.amt_short ⊕ amt }

  unfoldable pub on_amt_buy_change : D → UnitAmt D → UnitAmt D
  on_amt_buy_change amt a = record a { amt_buy = a.amt_buy ⊕ amt }

  unfoldable pub on_amt_sell_change : D → UnitAmt D → UnitAmt D
  on_amt_sell_change amt a = record a { amt_sell = a.amt_sell ⊕ amt }

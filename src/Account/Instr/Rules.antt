-- ===== src/Account/Instr/Rules.antt =====
-- src/account/ModInstr.cpp: from rules for the statements to rules for the handlers.
use nat_framework.Prelude.{ℕ, ℤ, Bool}
use nat_framework.Double.{Double}
use nat_framework.Account.Vol.{UnitVol}
use nat_framework.Account.Vol.Handlers.{
  VolHandler, buy_opn_new, buy_opn_cxl, buy_opn_trd, buy_cls_yd_new, buy_cls_yd_cxl, buy_cls_yd_trd,
  buy_cls_td_new, buy_cls_td_cxl, buy_cls_td_trd, sell_opn_new, sell_opn_cxl, sell_opn_trd,
  sell_cls_yd_new, sell_cls_yd_cxl, sell_cls_yd_trd, sell_cls_td_new, sell_cls_td_cxl,
  sell_cls_td_trd,
}
use nat_framework.Account.Amt
use nat_framework.Account.Amt.{UnitAmt}
use nat_framework.Account.Amt.Handlers.{
  AmtHandler, amt_long_yd_sub_ing, amt_long_td_add_ing, amt_long_td_sub_ing, amt_long,
  amt_short_yd_sub_ing, amt_short_td_add_ing, amt_short_td_sub_ing, amt_short,
}
use nat_framework.Account.Pnl.{on_pos_pnl_change, on_trd_pnl_change}
use nat_framework.Account.Px.{UnitPx}
use nat_framework.Account.Instr.{
  both_vol, all_amt, all_pnl, instr_amt, instr_px, acc_unfilled, long_change, short_change,
  pos_pnl_change, trd_pnl_change, unless_zero, tick_long, tick_short, tick_pos_pnl, tick_trd_pnl,
  on_tick_px, new_buy, new_sell, new_body, on_new, cxl_buy, cxl_sell, cxl_body, on_cxl, trd_buy,
  trd_sell, average_buy, average_sell, bought, sold, trd_body, book_trd, on_trd,
}
use nat_framework.Account.Instr.Keeps.{Rel, Keeps, Keeps-skip, Keeps-if, Keeps-seq}

-- What a relation needs: that the statements which the handlers are made of keep it.
pub record Rules {D : Type 0} ⦃F : Double D⦄ (P : Rel D) : Type 0 where
  pub vol : (f : UnitVol → UnitVol) → VolHandler f → Keeps P (both_vol f)
  pub amt : (f : UnitAmt D → UnitAmt D) → AmtHandler f → Keeps P (all_amt f)
  pub pos_pnl : (x : D) → Keeps P (all_pnl (on_pos_pnl_change x))
  pub trd_pnl : (x : D) → Keeps P (all_pnl (on_trd_pnl_change x))
  pub px : (f : UnitPx D → UnitPx D) → Keeps P (instr_px f)
  pub unfilled : (n : ℤ) → Keeps P (acc_unfilled n)
  pub amt_buy : (x : D) → Keeps P (instr_amt (Amt.on_amt_buy_change x))
  pub amt_sell : (x : D) → Keeps P (instr_amt (Amt.on_amt_sell_change x))

module _ {D : Type 0} ⦃F : Double D⦄ (P : Rel D) (rules : Rules P) where
  ruleset kept = (
    Keeps-skip, Keeps-if, Keeps-seq, buy_opn_new, buy_opn_cxl, buy_opn_trd, buy_cls_yd_new,
    buy_cls_yd_cxl, buy_cls_yd_trd, buy_cls_td_new, buy_cls_td_cxl, buy_cls_td_trd, sell_opn_new,
    sell_opn_cxl, sell_opn_trd, sell_cls_yd_new, sell_cls_yd_cxl, sell_cls_yd_trd, sell_cls_td_new,
    sell_cls_td_cxl, sell_cls_td_trd, amt_long_yd_sub_ing, amt_long_td_add_ing, amt_long_td_sub_ing,
    amt_long, amt_short_yd_sub_ing, amt_short_td_add_ing, amt_short_td_sub_ing, amt_short,
  )

  long_change-Keeps : (delta : D) → Keeps P (long_change delta)
  unfolding long_change unless_zero
  long_change-Keeps delta = search (kept, rules.amt)

  tick_long-Keeps : (px : D) → Keeps P (tick_long px)
  unfolding tick_long
  tick_long-Keeps px = record { run = λ c. (long_change-Keeps _).run c }

  short_change-Keeps : (delta : D) → Keeps P (short_change delta)
  unfolding short_change unless_zero
  short_change-Keeps delta = search (kept, rules.amt)

  tick_short-Keeps : (px : D) → Keeps P (tick_short px)
  unfolding tick_short
  tick_short-Keeps px = record { run = λ c. (short_change-Keeps _).run c }

  pos_pnl_change-Keeps : (delta : D) → Keeps P (pos_pnl_change delta)
  unfolding pos_pnl_change unless_zero
  pos_pnl_change-Keeps delta = search (kept, rules.pos_pnl)

  tick_pos_pnl-Keeps : (px : D) → Keeps P (tick_pos_pnl px)
  unfolding tick_pos_pnl
  tick_pos_pnl-Keeps px = record { run = λ c. (pos_pnl_change-Keeps _).run c }

  trd_pnl_change-Keeps : (delta : D) → Keeps P (trd_pnl_change delta)
  unfolding trd_pnl_change unless_zero
  trd_pnl_change-Keeps delta = search (kept, rules.trd_pnl)

  tick_trd_pnl-Keeps : (px : D) → Keeps P (tick_trd_pnl px)
  unfolding tick_trd_pnl
  tick_trd_pnl-Keeps px = record { run = λ c. (trd_pnl_change-Keeps _).run c }

  pub on_tick_px-Keeps : (px : D) → Keeps P (on_tick_px px)
  unfolding on_tick_px
  on_tick_px-Keeps px =
      search
        (kept, rules.px, tick_long-Keeps, tick_short-Keeps, tick_pos_pnl-Keeps, tick_trd_pnl-Keeps)

  new_buy-Keeps : (off : ℕ) (vol : ℤ) (x : D) → Keeps P (new_buy off vol x)
  unfolding new_buy
  new_buy-Keeps off vol x = search (kept, rules.vol, rules.amt) depth 8

  new_sell-Keeps : (off : ℕ) (vol : ℤ) (x : D) → Keeps P (new_sell off vol x)
  unfolding new_sell
  new_sell-Keeps off vol x = search (kept, rules.vol, rules.amt) depth 8

  new_body-Keeps : (dir off : ℕ) (vol : ℤ) (x : D) → Keeps P (new_body dir off vol x)
  unfolding new_body
  new_body-Keeps dir off vol x = search (kept, rules.unfilled, new_buy-Keeps, new_sell-Keeps)

  pub on_new-Keeps : (dir off : ℕ) (px : D) (vol : ℤ) → Keeps P (on_new dir off px vol)
  unfolding on_new
  on_new-Keeps dir off px vol = record { run = λ c. (new_body-Keeps dir off vol _).run c }

  cxl_buy-Keeps : (off : ℕ) (vol : ℤ) (x : D) → Keeps P (cxl_buy off vol x)
  unfolding cxl_buy
  cxl_buy-Keeps off vol x = search (kept, rules.vol, rules.amt) depth 8

  cxl_sell-Keeps : (off : ℕ) (vol : ℤ) (x : D) → Keeps P (cxl_sell off vol x)
  unfolding cxl_sell
  cxl_sell-Keeps off vol x = search (kept, rules.vol, rules.amt) depth 8

  cxl_body-Keeps : (dir off : ℕ) (vol : ℤ) (x : D) → Keeps P (cxl_body dir off vol x)
  unfolding cxl_body
  cxl_body-Keeps dir off vol x = search (kept, rules.unfilled, cxl_buy-Keeps, cxl_sell-Keeps)

  pub on_cxl-Keeps : (dir off : ℕ) (px : D) (vol : ℤ) → Keeps P (on_cxl dir off px vol)
  unfolding on_cxl
  on_cxl-Keeps dir off px vol = record { run = λ c. (cxl_body-Keeps dir off vol _).run c }

  trd_buy-Keeps : (off : ℕ) (vol : ℤ) (x y : D) → Keeps P (trd_buy off vol x y)
  unfolding trd_buy
  trd_buy-Keeps off vol x y = search (kept, rules.vol, rules.amt) depth 8

  average_buy-Keeps : Keeps P average_buy
  unfolding average_buy
  average_buy-Keeps = record { run = λ c. (rules.px _).run c }

  bought-Keeps : (x : D) → Keeps P (bought x)
  unfolding bought
  bought-Keeps x = search (kept, rules.amt_buy, average_buy-Keeps)

  trd_sell-Keeps : (off : ℕ) (vol : ℤ) (x y : D) → Keeps P (trd_sell off vol x y)
  unfolding trd_sell
  trd_sell-Keeps off vol x y = search (kept, rules.vol, rules.amt) depth 8

  average_sell-Keeps : Keeps P average_sell
  unfolding average_sell
  average_sell-Keeps = record { run = λ c. (rules.px _).run c }

  sold-Keeps : (x : D) → Keeps P (sold x)
  unfolding sold
  sold-Keeps x = search (kept, rules.amt_sell, average_sell-Keeps)

  trd_body-Keeps :
      (dir off : ℕ) (filled : Bool) (vol : ℤ) (x y : D) → Keeps P (trd_body dir off filled vol x y)
  unfolding trd_body
  trd_body-Keeps dir off filled vol x y =
      search (kept, rules.unfilled, trd_buy-Keeps, trd_sell-Keeps, bought-Keeps, sold-Keeps) depth 7

  book_trd-Keeps :
      (dir off : ℕ) (px : D) (filled : Bool) (trd_px : D) (vol : ℤ)
      → Keeps P (book_trd dir off px filled trd_px vol)
  unfolding book_trd
  book_trd-Keeps dir off px filled trd_px vol = record {
    run = λ c. (trd_body-Keeps dir off filled vol _ _).run c;
  }

  pub on_trd-Keeps :
      (dir off : ℕ) (px : D) (vol vol_traded : ℤ) (trd_px : D) (trd_vol : ℤ)
      → Keeps P (on_trd dir off px vol vol_traded trd_px trd_vol)
  unfolding on_trd
  on_trd-Keeps dir off px vol vol_traded trd_px trd_vol =
      Keeps-seq _ _ _ (on_tick_px-Keeps trd_px) (book_trd-Keeps dir off px _ trd_px trd_vol)

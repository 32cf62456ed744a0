-- ===== src/Account/Instr/Effect.antt =====
-- src/account/ModInstr.cpp: what an order's events do to the volumes of the instrument.
use nat_framework.Prelude.{
  ℕ, ℤ, ◌≡◌, refl, ap, ◌∙◌, ◌==◌, ◌==ℤ◌, if◌then◌else◌, Bool, true, false, Option, none, some,
  arith,
}
use nat_framework.Account.Amt.{UnitAmt}
use nat_framework.Account.Pnl.{UnitPnl}
use nat_framework.Account.Px.{UnitPx}
use nat_framework.Double.{Double}
use nat_framework.Account.Codes.{buy, sell, open_off, close_today, close_yesterday}
use nat_framework.Account.Vol
use nat_framework.Account.Vol.{UnitVol}
use nat_framework.Account.Instr.{
  Linked, Step, skip, ◌>>◌, instr_vol, prd_vol, both_vol, instr_amt, prd_amt, acc_amt, all_amt,
  instr_pnl, prd_pnl, acc_pnl, all_pnl, instr_px, acc_unfilled, unless_zero, long_change,
  short_change, pos_pnl_change, trd_pnl_change, tick_long, tick_short, tick_pos_pnl, tick_trd_pnl,
  on_tick_px, new_buy, new_sell, new_body, on_new, cxl_buy, cxl_sell, cxl_body, on_cxl, trd_buy,
  trd_sell, average_buy, average_sell, bought, sold, trd_body, book_trd, on_trd,
}

-- The volumes after a new order, by direction and offset.
unfoldable pub new_vol : ℕ → ℕ → ℤ → UnitVol → UnitVol
new_vol dir off vol v =
    if dir == buy
    then (if off == open_off
        then Vol.on_buy_opn_new vol v
        else if off == close_yesterday
        then Vol.on_buy_cls_yd_new vol v
        else if off == close_today
        then Vol.on_buy_cls_td_new vol v
        else v)
    else if dir == sell
    then (if off == open_off
        then Vol.on_sell_opn_new vol v
        else if off == close_yesterday
        then Vol.on_sell_cls_yd_new vol v
        else if off == close_today
        then Vol.on_sell_cls_td_new vol v
        else v)
    else v

-- The volumes after a cancelled volume, by direction and offset.
unfoldable pub cxl_vol : ℕ → ℕ → ℤ → UnitVol → UnitVol
cxl_vol dir off vol v =
    if dir == buy
    then (if off == open_off
        then Vol.on_buy_opn_cxl vol v
        else if off == close_yesterday
        then Vol.on_buy_cls_yd_cxl vol v
        else if off == close_today
        then Vol.on_buy_cls_td_cxl vol v
        else v)
    else if dir == sell
    then (if off == open_off
        then Vol.on_sell_opn_cxl vol v
        else if off == close_yesterday
        then Vol.on_sell_cls_yd_cxl vol v
        else if off == close_today
        then Vol.on_sell_cls_td_cxl vol v
        else v)
    else v

-- The volumes after a trade, by direction and offset.
unfoldable pub trd_vol : ℕ → ℕ → ℤ → UnitVol → UnitVol
trd_vol dir off vol v =
    if dir == buy
    then (if off == open_off
        then Vol.on_buy_opn_trd vol v
        else if off == close_yesterday
        then Vol.on_buy_cls_yd_trd vol v
        else if off == close_today
        then Vol.on_buy_cls_td_trd vol v
        else v)
    else if dir == sell
    then (if off == open_off
        then Vol.on_sell_opn_trd vol v
        else if off == close_yesterday
        then Vol.on_sell_cls_yd_trd vol v
        else if off == close_today
        then Vol.on_sell_cls_td_trd vol v
        else v)
    else v

module _ {D : Type 0} ⦃F : Double D⦄ where
  pub on_new_vol :
      (dir off : ℕ) (px : D) (vol : ℤ) (c c' : Linked D)
      → on_new dir off px vol c ≡ some c'
      → c'.instr.unit_vol ≡ new_vol dir off vol c.instr.unit_vol
  unfolding on_new new_body new_buy new_sell acc_unfilled both_vol instr_vol prd_vol all_amt
      instr_amt prd_amt acc_amt new_vol
  on_new_vol dir off px vol c c' e = ground arith

  pub on_cxl_vol :
      (dir off : ℕ) (px : D) (vol : ℤ) (c c' : Linked D)
      → on_cxl dir off px vol c ≡ some c'
      → c'.instr.unit_vol ≡ cxl_vol dir off vol c.instr.unit_vol
  unfolding on_cxl cxl_body cxl_buy cxl_sell acc_unfilled both_vol instr_vol prd_vol all_amt
      instr_amt prd_amt acc_amt cxl_vol
  on_cxl_vol dir off px vol c c' e = ground arith

  -- A statement that leaves the instrument's volumes.
  record LeavesVol (m : Step D) : Type 0 where
    left : (c c' : Linked D) → m c ≡ some c' → c'.instr.unit_vol ≡ c.instr.unit_vol

  skip_lem : LeavesVol skip
  skip_lem = record { left = λ c c' e. ground arith }

  seq_lem : (m k : Step D) → LeavesVol m → LeavesVol k → LeavesVol (m >> k)
  seq_lem m k hm hk = record { left = λ c c' e. follow c c' (m c) refl e }
    where
      follow :
          (c c' : Linked D) (r : Option (Linked D))
          → m c ≡ r
          → (elim r [ none ↦ none | some d ↦ k d ]) ≡ some c'
          → c'.instr.unit_vol ≡ c.instr.unit_vol
      follow c c' none e e' = ground arith
      follow c c' (some d) e e' = hk.left d c' e' ∙ hm.left c d e

  if_lem : (b : Bool) (m k : Step D) → LeavesVol m → LeavesVol k → LeavesVol (if b then m else k)
  if_lem true m k hm hk = hm
  if_lem false m k hm hk = hk

  amt_lem : (f : UnitAmt D → UnitAmt D) → LeavesVol (all_amt f)
  unfolding all_amt instr_amt prd_amt acc_amt
  amt_lem f = record { left = λ c c' e. ground arith }

  pnl_lem : (f : UnitPnl D → UnitPnl D) → LeavesVol (all_pnl f)
  unfolding all_pnl instr_pnl prd_pnl acc_pnl
  pnl_lem f = record { left = λ c c' e. ground arith }

  px_lem : (f : UnitPx D → UnitPx D) → LeavesVol (instr_px f)
  unfolding instr_px
  px_lem f = record { left = λ c c' e. ground arith }

  long_lem : (px : D) → LeavesVol (tick_long px)
  unfolding tick_long long_change unless_zero
  long_lem px = record { left = λ c. (if_lem _ _ _ (amt_lem _) skip_lem).left c }

  short_lem : (px : D) → LeavesVol (tick_short px)
  unfolding tick_short short_change unless_zero
  short_lem px = record { left = λ c. (if_lem _ _ _ (amt_lem _) skip_lem).left c }

  pos_lem : (px : D) → LeavesVol (tick_pos_pnl px)
  unfolding tick_pos_pnl pos_pnl_change unless_zero
  pos_lem px = record { left = λ c. (if_lem _ _ _ (pnl_lem _) skip_lem).left c }

  trd_lem : (px : D) → LeavesVol (tick_trd_pnl px)
  unfolding tick_trd_pnl trd_pnl_change unless_zero
  trd_lem px = record { left = λ c. (if_lem _ _ _ (pnl_lem _) skip_lem).left c }

  tick_lem : (px : D) → LeavesVol (on_tick_px px)
  unfolding on_tick_px
  tick_lem px =
      seq_lem _ _ (long_lem px) (
        seq_lem _ _ (short_lem px) (seq_lem _ _ (pos_lem px) (seq_lem _ _ (trd_lem px) (px_lem _))))

  pub on_tick_px_vol :
      (px : D) (c c' : Linked D) → on_tick_px px c ≡ some c' → c'.instr.unit_vol ≡ c.instr.unit_vol
  on_tick_px_vol px = (tick_lem px).left

  book_trd_vol :
      (dir off : ℕ) (px : D) (filled : Bool) (trd_px : D) (vol : ℤ) (c c' : Linked D)
      → book_trd dir off px filled trd_px vol c ≡ some c'
      → c'.instr.unit_vol ≡ trd_vol dir off vol c.instr.unit_vol
  unfolding book_trd trd_body trd_buy trd_sell bought sold average_buy average_sell acc_unfilled
      both_vol instr_vol prd_vol all_amt instr_amt prd_amt acc_amt instr_px trd_vol
  book_trd_vol dir off px filled trd_px vol c c' e = ground arith

  -- If a trade's handler does not fault, the instrument's volumes change as the direction's and
  -- offset's handler of volumes changes them, and not at all for an unknown direction or offset.
  pub on_trd_vol :
      (dir off : ℕ) (px : D) (vol vol_traded : ℤ) (trd_px : D) (trd : ℤ) (c c' : Linked D)
      → on_trd dir off px vol vol_traded trd_px trd c ≡ some c'
      → c'.instr.unit_vol ≡ trd_vol dir off trd c.instr.unit_vol
  unfolding on_trd
  on_trd_vol dir off px vol vol_traded trd_px trd c c' e = follow (on_tick_px trd_px c) refl e
    where
      follow :
          (r : Option (Linked D))
          → on_tick_px trd_px c ≡ r
          → (elim r [
            | none ↦ none
            | some d ↦ book_trd dir off px (vol ==ℤ vol_traded) trd_px trd d
          ])
            ≡ some c'
          → c'.instr.unit_vol ≡ trd_vol dir off trd c.instr.unit_vol
      follow none e e' = ground arith
      follow (some d) e e' =
          book_trd_vol dir off px _ trd_px trd d c' e'
          ∙ ap (trd_vol dir off trd) (on_tick_px_vol trd_px c d e)

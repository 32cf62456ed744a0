-- ===== src/Risk/Summary.antt =====
-- The checks of a product and of the account: src/risk/RiskPrd.h, RiskPrd.cpp, RiskAcc.h and
-- RiskAcc.cpp. `p_unit_vol`, `p_mod_acc` and `p_unit_amt` lead into the account; the checks take
-- what they lead to as arguments.
use nat_framework.Prelude.{
  ℕ, ℤ, ◌+ℤ◌, ◌-ℤ◌, ◌≤ℤ◌, ltb_ℤ, ◌==◌, if◌then◌else◌, Bool, not, ◌&&◌, ◌≡◌, ◌≢◌, ◌↔◌, refl, arith,
}
use nat_framework.Double.{Double, ◌⊕◌, ◌⊖◌, ◌⊗◌, of_int}
use nat_framework.Account.Codes.{buy, open_off}
use nat_framework.Account.Vol.{UnitVol}
use nat_framework.Account.Amt.{UnitAmt}
use nat_framework.Account.Mods.{ModAcc}
use nat_framework.Risk.Instr.{
  code, ok, is_long_volume_correct, is_short_volume_correct, is_net_volume_correct,
}

pub record RiskPrd : Type 0 where
  pub long_volume_threshold : ℤ
  pub short_volume_threshold : ℤ
  pub net_volume_threshold : ℤ

-- The three tests are those of an instrument, on the product's volumes.
unfoldable pub check_prd : RiskPrd → UnitVol → ℕ → ℕ → ℤ → ℤ
check_prd r v dir off vol =
    if off == open_off && dir == buy && not (is_long_volume_correct r.long_volume_threshold v vol)
    then code 300
    else if off == open_off
        && not (dir == buy)
        && not (is_short_volume_correct r.short_volume_threshold v vol)
    then code 301
    else if not (is_net_volume_correct r.net_volume_threshold v dir vol)
    then code 302
    else ok

pub record RiskAcc (D : Type 0) : Type 0 where
  pub unfilled_ord_cnt_threshold : ℤ
  pub amt_long_threshold : D
  pub amt_short_threshold : D
  pub net_amt_threshold : D

module _ {D : Type 0} ⦃F : Double D⦄ where
  unfoldable pub is_unfilled_order_count_correct : RiskAcc D → ModAcc D → Bool
  is_unfilled_order_count_correct r a = ltb_ℤ a.unfilled_order_cnt r.unfilled_ord_cnt_threshold

  unfoldable pub is_long_amount_correct : RiskAcc D → UnitAmt D → D → Bool
  is_long_amount_correct r a amount =
      F.leb (a.amt_long ⊕ a.amt_long_td_add_ing ⊕ amount) r.amt_long_threshold

  unfoldable pub is_short_amount_correct : RiskAcc D → UnitAmt D → D → Bool
  is_short_amount_correct r a amount =
      F.leb (a.amt_short ⊕ a.amt_short_td_add_ing ⊕ amount) r.amt_short_threshold

  unfoldable pub is_net_amount_correct : RiskAcc D → UnitAmt D → ℕ → D → Bool
  is_net_amount_correct r a dir amount =
      if dir == buy
      then F.leb
          (a.amt_long ⊖ a.amt_short ⊕ a.amt_long_td_add_ing ⊕ a.amt_short_yd_sub_ing
            ⊕ a.amt_short_td_sub_ing ⊕ amount)
          r.net_amt_threshold
      else F.leb
          (a.amt_short ⊖ a.amt_long ⊕ a.amt_short_td_add_ing ⊕ a.amt_short_yd_sub_ing
            ⊕ a.amt_short_td_sub_ing ⊕ amount)
          r.net_amt_threshold

  unfoldable pub check_acc : RiskAcc D → ModAcc D → ℕ → ℕ → D → ℤ → ℤ → ℤ
  check_acc r a dir off px vol vol_multiple =
      let amount = px ⊗ of_int vol ⊗ of_int vol_multiple in
      if not (is_unfilled_order_count_correct r a)
      then code 100
      else if off == open_off && dir == buy && not (is_long_amount_correct r a.unit_amt amount)
      then code 110
      else if off == open_off
          && not (dir == buy)
          && not (is_short_amount_correct r a.unit_amt amount)
      then code 111
      else if not (is_net_amount_correct r a.unit_amt dir amount)
      then code 112
      else ok

-- A product's limits, as orders between numbers.
pub record WithinPrdLimits (r : RiskPrd) (v : UnitVol) (dir off : ℕ) (vol : ℤ) : Type 0 where
  pub long :
      off ≡ open_off
      → dir ≡ buy
      → v.pos_long +ℤ v.pos_long_td_opn_ing +ℤ vol ≤ℤ r.long_volume_threshold
  pub short :
      off ≡ open_off
      → dir ≢ buy
      → v.pos_short +ℤ v.pos_short_td_opn_ing +ℤ vol ≤ℤ r.short_volume_threshold
  pub net_long :
      dir ≡ buy
      → v.pos_long -ℤ v.pos_short +ℤ v.pos_short_yd_cls_ing +ℤ v.pos_long_td_opn_ing
          +ℤ v.pos_short_td_cls_ing +ℤ vol
        ≤ℤ r.net_volume_threshold
  pub net_short :
      dir ≢ buy
      → v.pos_short -ℤ v.pos_long +ℤ v.pos_long_yd_cls_ing +ℤ v.pos_short_td_opn_ing
          +ℤ v.pos_long_td_cls_ing +ℤ vol
        ≤ℤ r.net_volume_threshold

-- The check of a product returns 0 exactly for an order that is within the product's limits of
-- the position that an opening order builds up and of the net position.
pub check_prd_iff :
    (r : RiskPrd) (v : UnitVol) (dir off : ℕ) (vol : ℤ)
    → (check_prd r v dir off vol ≡ ok) ↔ WithinPrdLimits r v dir off vol
unfolding check_prd is_long_volume_correct is_short_volume_correct is_net_volume_correct
check_prd_iff r v dir off vol = (
  (λ e. record {
    long = λ eo ed. ground arith;
    short = λ eo ed. ground arith;
    net_long = λ ed. ground arith;
    net_short = λ ed. ground arith;
  }),
  (λ w. ground (arith, w.long, w.short, w.net_long, w.net_short)),
)

module _ {D : Type 0} ⦃F : Double D⦄ where
  -- The account's check does not depend on the amounts of the long positions that are being
  -- closed, for a selling order as for a buying one.
  pub check_acc_ignores :
      (r : RiskAcc D) (a : ModAcc D) (dir off : ℕ) (px x y : D) (vol vol_multiple : ℤ)
      → check_acc r a dir off px vol vol_multiple
        ≡ check_acc r
            (record a {
              unit_amt = record a.unit_amt { amt_long_yd_sub_ing = x; amt_long_td_sub_ing = y };
            })
            dir
            off
            px
            vol
            vol_multiple
  unfolding check_acc is_unfilled_order_count_correct is_long_amount_correct is_short_amount_correct
      is_net_amount_correct
  check_acc_ignores r a dir off px x y vol vol_multiple = refl

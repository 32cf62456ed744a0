-- ===== src/Risk/Kept.antt =====
-- What the parts of the risk checks let through, as statements on the order, the limits and the
-- volumes: src/risk/RiskInstr.cpp, RiskInstrStg.cpp, RiskInstrTop.cpp, RiskAcc.cpp and the choice of
-- an offset in RiskStg.cpp.
pub mod Offset
pub mod Own
use mathlib.Core.Path.{subst}
use mathlib.Core.Option.{some-injective}
use nat_framework.Prelude.{
  pos_part, neg_part, ltb, ◌<◌, ◌+◌, ◌==ℤ◌, ==ℤ→eq, ==ℤ_refl, ℕ, ℤ, pos, ◌+ℤ◌, ◌-ℤ◌, ◌≤ℤ◌, ltb_ℤ,
  ◌==◌, ◌||◌, ◌≡◌, ◌≢◌, ◌⊎◌, ◌↔◌, inl, inr, true, false, Bool-cases, Option-cases, some, refl,
  arith, int_laws,
}
use nat_framework.Double.{Double, ◌⊕◌, ◌⊖◌, ◌⊗◌, of_int}
use nat_framework.Account.Codes.{
  buy, sell, open_off, auto_off, close_off, close_today, close_yesterday,
}
use nat_framework.Account.Vol.{UnitVol}
use nat_framework.Account.Mods.{ModAcc}
use nat_framework.Risk.Instr.{
  ok, RiskInstr, RiskInstrStg, is_intensity_normal, is_price_correct, check, check_stg,
  parse_auto_offset,
}
use nat_framework.Risk.Limits.{
  WithinLimits, check_iff, BuyOffset, SellOffset, parse_auto_offset_sound,
}
use nat_framework.Risk.Summary.{
  RiskAcc, check_acc, is_unfilled_order_count_correct, is_long_amount_correct,
  is_short_amount_correct, is_net_amount_correct,
}
use nat_framework.Risk.InstrTop.{RiskInstrTop, Treap, TreapNode, is_self_trade}
use nat_framework.Risk.InstrTop
use nat_framework.Risk.Gate.{offset_of}

ltb→lt : (m n : ℕ) → ltb m n ≡ true → m < n
ltb→lt m n e = ground arith

lt→ltb : (m n : ℕ) → m < n → ltb m n ≡ true
lt→ltb m n e = ground arith

one_less_iff : (a b : ℤ) → (ltb_ℤ a b ≡ true) ↔ (a +ℤ pos 1 ≤ℤ b)
one_less_iff a b = (
  (λ e. omega (int_laws, ltb→lt (pos_part a + neg_part b) (pos_part b + neg_part a) e)),
  λ h. lt→ltb (pos_part a + neg_part b) (pos_part b + neg_part a) (omega int_laws),
)

module _ {D : Type 0} ⦃F : Double D⦄ where
  -- The cycle has room for an order, or it is over.
  abbrev pub IsCalm : RiskInstr D → ℤ → Type 0
  IsCalm r nano =
      r.intensity_cycle_order_count_threshold ≤ℤ r.intensity_cycle_order_count
      → F.ltb (F.of_int (nano -ℤ r.intensity_cycle_time_record))
          r.intensity_cycle_time_span_threshold
        ≡ false

  -- A price of the market that is set: neither 0.0 nor the largest number.
  abbrev pub IsQuoted : D → Type 0
  IsQuoted x = (F.eqb x (F.of_int (pos 0)) ≡ false) × (F.eqb x F.dbl_max ≡ false)

  -- The limits of an instrument in a check at the time `nano`.
  pub record InstrKept (r : RiskInstr D) (v : UnitVol) (dir off : ℕ) (vol nano : ℤ) : Type 0 where
    pub allowed : r.is_allowed ≡ true
    pub calm : IsCalm r nano
    pub within : WithinLimits r v dir off vol

  -- Those of a strategy: the price is at most the margin above the ask and below the bid.
  pub record StgKept (r : RiskInstrStg D) (v : UnitVol) (dir off : ℕ) (vol : ℤ) (px ask bid : D)
      (nano : ℤ) : Type 0 where
    pub not_above : IsQuoted ask → F.ltb (ask ⊕ r.allowed_price_margin_threshold) px ≡ false
    pub not_below : IsQuoted bid → F.ltb px (bid ⊖ r.allowed_price_margin_threshold) ≡ false
    pub instr : InstrKept r.instr v dir off vol nano

  -- The limits of the account, on the order's amount.
  pub record AccKept (r : RiskAcc D) (a : ModAcc D) (dir off : ℕ) (amount : D) : Type 0 where
    pub count : a.unfilled_order_cnt +ℤ pos 1 ≤ℤ r.unfilled_ord_cnt_threshold
    pub long :
        off ≡ open_off
        → dir ≡ buy
        → F.leb (a.unit_amt.amt_long ⊕ a.unit_amt.amt_long_td_add_ing ⊕ amount) r.amt_long_threshold
          ≡ true
    pub short :
        off ≡ open_off
        → dir ≢ buy
        → F.leb
            (a.unit_amt.amt_short ⊕ a.unit_amt.amt_short_td_add_ing ⊕ amount)
            r.amt_short_threshold
          ≡ true
    pub net_long :
        dir ≡ buy
        → F.leb
            (a.unit_amt.amt_long ⊖ a.unit_amt.amt_short ⊕ a.unit_amt.amt_long_td_add_ing
              ⊕ a.unit_amt.amt_short_yd_sub_ing ⊕ a.unit_amt.amt_short_td_sub_ing ⊕ amount)
            r.net_amt_threshold
          ≡ true
    pub net_short :
        dir ≢ buy
        → F.leb
            (a.unit_amt.amt_short ⊖ a.unit_amt.amt_long ⊕ a.unit_amt.amt_short_td_add_ing
              ⊕ a.unit_amt.amt_short_yd_sub_ing ⊕ a.unit_amt.amt_short_td_sub_ing ⊕ amount)
            r.net_amt_threshold
          ≡ true

  IsCalm-iff : (r : RiskInstr D) (nano : ℤ) → (is_intensity_normal r nano ≡ true) ↔ IsCalm r nano
  unfolding is_intensity_normal
  IsCalm-iff r nano = ((λ e h. ground arith), λ h. ground (arith, h))

  pub instr_iff :
      (r : RiskInstr D) (v : UnitVol) (dir off : ℕ) (vol nano : ℤ)
      → (check r v dir off vol nano ≡ ok) ↔ InstrKept r v dir off vol nano
  instr_iff r v dir off vol nano =
      let both = check_iff r v dir off vol nano in
      let calm = IsCalm-iff r nano in
      (
        (λ e. let (a, c, w) = both.0 e in record { allowed = a; calm = calm.0 c; within = w }),
        λ k. both.1 (k.allowed, calm.1 k.calm, k.within),
      )

  price_iff :
      (margin px ask bid : D)
      → (is_price_correct margin px ask bid ≡ true) ↔ (
          (IsQuoted ask → F.ltb (ask ⊕ margin) px ≡ false)
          × (IsQuoted bid → F.ltb px (bid ⊖ margin) ≡ false))
  unfolding is_price_correct
  price_iff margin px ask bid = (
    (λ e. ((λ h. ground arith), λ h. ground arith)),
    λ (above, below). ground (arith, above, below),
  )

  pub stg_iff :
      (r : RiskInstrStg D) (v : UnitVol) (dir off : ℕ) (vol : ℤ) (px ask bid : D) (nano : ℤ)
      → (check_stg r v dir off vol px ask bid nano ≡ ok) ↔ StgKept r v dir off vol px ask bid nano
  unfolding check_stg
  stg_iff r v dir off vol px ask bid nano =
      let price = price_iff r.allowed_price_margin_threshold px ask bid in
      let instr = instr_iff r.instr v dir off vol nano in
      elim (Bool-cases (is_price_correct r.allowed_price_margin_threshold px ask bid)) [
        | inl near ↦
            rw (check_stg, near)
              (
                (λ e. record {
                  not_above = (price.0 near).0;
                  not_below = (price.0 near).1;
                  instr = instr.0 e;
                }),
                λ k. instr.1 k.instr,
              )
        | inr far ↦
            rw (check_stg, far)
              (
                (λ e. absurd (ground arith)),
                λ k. absurd (ground (arith, price.1 (k.not_above, k.not_below))),
              )
      ]

  pub acc_iff :
      (r : RiskAcc D) (a : ModAcc D) (dir off : ℕ) (px : D) (vol vol_multiple : ℤ)
      → (check_acc r a dir off px vol vol_multiple ≡ ok)
        ↔ AccKept r a dir off (px ⊗ of_int vol ⊗ of_int vol_multiple)
  unfolding check_acc is_unfilled_order_count_correct is_long_amount_correct is_short_amount_correct
      is_net_amount_correct
  acc_iff r a dir off px vol vol_multiple = (
    (λ e. record {
      count = (one_less_iff a.unfilled_order_cnt r.unfilled_ord_cnt_threshold).0 (ground arith);
      long = λ eo ed. ground arith;
      short = λ eo ed. ground arith;
      net_long = λ ed. ground arith;
      net_short = λ ed. ground arith;
    }),
    λ k. ground (
      arith,
      (one_less_iff a.unfilled_order_cnt r.unfilled_ord_cnt_threshold).1 k.count,
      k.long,
      k.short,
      k.net_long,
      k.net_short,
    ),
  )

-- ===== src/Risk/Limits.antt =====
-- src/risk/RiskInstr.cpp: what the checks of one instrument let through.
use nat_framework.Prelude.{
  ℕ, ℤ, ◌+ℤ◌, ◌-ℤ◌, ◌≤ℤ◌, leb_ℤ, ◌≡◌, ◌≢◌, ◌⊎◌, ◌↔◌, inl, inr, ◌==◌, true, false, arith, int_laws,
  Bool-cases,
}
use nat_framework.Double.{Double}
use nat_framework.Account.Codes.{buy, sell, open_off, close_off, close_today, close_yesterday}
use nat_framework.Account.Vol.{UnitVol}
use nat_framework.Risk.Instr.{
  ok, RiskInstr, is_size_correct, is_long_volume_correct, is_short_volume_correct,
  is_net_volume_correct, is_intensity_normal, check, parse_auto_offset,
}

pub leb_ℤ→le : (a b : ℤ) → leb_ℤ a b ≡ true → a ≤ℤ b
leb_ℤ→le a b h = ground arith

pub le→leb_ℤ : (a b : ℤ) → a ≤ℤ b → leb_ℤ a b ≡ true
le→leb_ℤ a b h = ground arith

-- Room that is tested on one side of an order, on the other.
room : (a b vol : ℤ) → leb_ℤ vol (a -ℤ b) ≡ true → b +ℤ vol ≤ℤ a
room a b vol h = omega (int_laws, leb_ℤ→le vol (a -ℤ b) h)

pub room_back : (a b vol : ℤ) → b +ℤ vol ≤ℤ a → leb_ℤ vol (a -ℤ b) ≡ true
room_back a b vol h = le→leb_ℤ vol (a -ℤ b) (omega int_laws)

room_after : (a b c vol : ℤ) → leb_ℤ vol (a -ℤ b -ℤ c) ≡ true → b +ℤ c +ℤ vol ≤ℤ a
room_after a b c vol h = omega (int_laws, leb_ℤ→le vol (a -ℤ b -ℤ c) h)

pub room_after_back : (a b c vol : ℤ) → b +ℤ c +ℤ vol ≤ℤ a → leb_ℤ vol (a -ℤ b -ℤ c) ≡ true
room_after_back a b c vol h = le→leb_ℤ vol (a -ℤ b -ℤ c) (omega int_laws)

module _ {D : Type 0} ⦃F : Double D⦄ where
  -- An order's limits, as orders between numbers: the size, the position that an opening order
  -- builds up, and the net position.
  pub record WithinLimits (r : RiskInstr D) (v : UnitVol) (dir off : ℕ) (vol : ℤ) : Type 0 where
    pub size : vol ≤ℤ r.allowed_order_size_threshold
    pub long :
        off ≡ open_off
        → dir ≡ buy
        → v.pos_long +ℤ v.pos_long_td_opn_ing +ℤ vol ≤ℤ r.long_volume_threshold
    pub short :
        off ≡ open_off
        → dir ≢ buy
        → v.pos_short +ℤ v.pos_short_td_opn_ing +ℤ vol ≤ℤ r.short_volume_threshold
    pub net_long :
        dir ≡ buy
        → v.pos_long -ℤ v.pos_short +ℤ v.pos_short_yd_cls_ing +ℤ v.pos_long_td_opn_ing
            +ℤ v.pos_short_td_cls_ing +ℤ vol
          ≤ℤ r.net_volume_threshold
    pub net_short :
        dir ≢ buy
        → v.pos_short -ℤ v.pos_long +ℤ v.pos_long_yd_cls_ing +ℤ v.pos_short_td_opn_ing
            +ℤ v.pos_long_td_cls_ing +ℤ vol
          ≤ℤ r.net_volume_threshold

  -- The check of an instrument returns 0 exactly for an order of an allowed instrument that is
  -- not too frequent and is within the limits of size, of the position that an opening order
  -- builds up, and of the net position.
  pub check_iff :
      (r : RiskInstr D) (v : UnitVol) (dir off : ℕ) (vol nano : ℤ)
      → (check r v dir off vol nano ≡ ok) ↔ (
          (r.is_allowed ≡ true)
          × (is_intensity_normal r nano ≡ true)
          × WithinLimits r v dir off vol)
  unfolding check is_size_correct is_long_volume_correct is_short_volume_correct
      is_net_volume_correct
  check_iff r v dir off vol nano = (
    (λ e. (
      ground arith,
      ground arith,
      record {
        size = ground arith;
        long = λ eo ed. ground arith;
        short = λ eo ed. ground arith;
        net_long = λ ed. ground arith;
        net_short = λ ed. ground arith;
      },
    )),
    (λ (allowed, calm, w). ground (arith, w.long, w.short, w.net_long, w.net_short)),
  )

  -- What the offset that is chosen for a buying order promises.
  pub record BuyOffset (r : RiskInstr D) (v : UnitVol) (off off' : ℕ) (vol : ℤ) : Type 0 where
    -- It is one of three, and an order that asks to close is not opened.
    pub one : (off' ≡ close_yesterday) ⊎ ((off' ≡ open_off) ⊎ (off' ≡ close_today))
    pub closes : off ≡ close_off → off' ≢ open_off
    -- What it closes is held and is not being closed by another order.
    pub yesterday : off' ≡ close_yesterday → v.pos_short_yd_cls_ing +ℤ vol ≤ℤ v.pos_short_yd
    pub today : off' ≡ close_today → v.pos_short_td_cls_ing +ℤ vol ≤ℤ v.pos_short_td
    -- What it opens fits the limit.
    pub opens :
        off' ≡ open_off → v.pos_long +ℤ v.pos_long_td_opn_ing +ℤ vol ≤ℤ r.long_volume_threshold

  pub record SellOffset (r : RiskInstr D) (v : UnitVol) (off off' : ℕ) (vol : ℤ) : Type 0 where
    pub one : (off' ≡ close_yesterday) ⊎ ((off' ≡ open_off) ⊎ (off' ≡ close_today))
    pub closes : off ≡ close_off → off' ≢ open_off
    pub yesterday : off' ≡ close_yesterday → v.pos_long_yd_cls_ing +ℤ vol ≤ℤ v.pos_long_yd
    pub today : off' ≡ close_today → v.pos_long_td_cls_ing +ℤ vol ≤ℤ v.pos_long_td
    pub opens :
        off' ≡ open_off → v.pos_short +ℤ v.pos_short_td_opn_ing +ℤ vol ≤ℤ r.short_volume_threshold

  buy_offset :
      (r : RiskInstr D) (v : UnitVol) (off : ℕ) (vol : ℤ)
      → (parse_auto_offset r v buy off vol).1 ≡ ok
      → BuyOffset r v off (parse_auto_offset r v buy off vol).0 vol
  unfolding parse_auto_offset
  buy_offset r v off vol e = record {
    one = ground arith;
    closes = λ eo. ground arith;
    yesterday = λ eo. ground (arith, room v.pos_short_yd v.pos_short_yd_cls_ing vol);
    today = λ eo. ground (arith, room v.pos_short_td v.pos_short_td_cls_ing vol);
    opens = λ eo.
        ground (arith, room_after r.long_volume_threshold v.pos_long v.pos_long_td_opn_ing vol);
  }

  sell_offset :
      (r : RiskInstr D) (v : UnitVol) (off : ℕ) (vol : ℤ)
      → (parse_auto_offset r v sell off vol).1 ≡ ok
      → SellOffset r v off (parse_auto_offset r v sell off vol).0 vol
  unfolding parse_auto_offset
  sell_offset r v off vol e = record {
    one = ground arith;
    closes = λ eo. ground arith;
    yesterday = λ eo. ground (arith, room v.pos_long_yd v.pos_long_yd_cls_ing vol);
    today = λ eo. ground (arith, room v.pos_long_td v.pos_long_td_cls_ing vol);
    opens = λ eo.
        ground (arith, room_after r.short_volume_threshold v.pos_short v.pos_short_td_opn_ing vol);
  }

  is_sell :
      (r : RiskInstr D) (v : UnitVol) (dir off : ℕ) (vol : ℤ)
      → (dir == buy) ≡ false
      → (parse_auto_offset r v dir off vol).1 ≡ ok
      → dir ≡ sell
  unfolding parse_auto_offset
  is_sell r v dir off vol nb e = ground arith

  -- If an offset is chosen, the order buys or sells, and the offset closes only volume that is
  -- held and not being closed, or opens volume that fits the limit; an order that asks to close
  -- is not made to open.
  pub parse_auto_offset_sound :
      (r : RiskInstr D) (v : UnitVol) (dir off : ℕ) (vol : ℤ)
      → (parse_auto_offset r v dir off vol).1 ≡ ok
      → ((dir ≡ buy) × BuyOffset r v off (parse_auto_offset r v dir off vol).0 vol)
        ⊎ ((dir ≡ sell) × SellOffset r v off (parse_auto_offset r v dir off vol).0 vol)
  parse_auto_offset_sound r v dir off vol e = elim (Bool-cases (dir == buy)) [
    | inl b ↦
        let eb : dir ≡ buy = ground arith in inl (eb, rw eb (buy_offset r v off vol (rw eb at e)))
    | inr nb ↦
        let es : dir ≡ sell = is_sell r v dir off vol nb e in
        inr (es, rw es (sell_offset r v off vol (rw es at e)))
  ]

  -- If no offset is chosen for a buying order, its offset is left as it was, yesterday's and
  -- today's free short positions are each too small for it, and the order asked to close or would
  -- exceed the long limit.
  pub parse_auto_offset_complete :
      (r : RiskInstr D) (v : UnitVol) (off : ℕ) (vol : ℤ)
      → (parse_auto_offset r v buy off vol).1 ≢ ok
      → ((parse_auto_offset r v buy off vol).0 ≡ off)
        × ¬ (v.pos_short_yd_cls_ing +ℤ vol ≤ℤ v.pos_short_yd)
        × ¬ (v.pos_short_td_cls_ing +ℤ vol ≤ℤ v.pos_short_td)
        × ((off ≡ close_off)
            ⊎ ¬ (v.pos_long +ℤ v.pos_long_td_opn_ing +ℤ vol ≤ℤ r.long_volume_threshold))
  unfolding parse_auto_offset
  parse_auto_offset_complete r v off vol h = (
    ground arith,
    (λ le. ground (arith, room_back v.pos_short_yd v.pos_short_yd_cls_ing vol)),
    (λ le. ground (arith, room_back v.pos_short_td v.pos_short_td_cls_ing vol)),
    elim (Bool-cases (off == close_off)) [
      | inl c ↦ inl (ground arith)
      | inr o ↦ inr (λ le.
          ground
            (arith, room_after_back r.long_volume_threshold v.pos_long v.pos_long_td_opn_ing vol))
    ],
  )

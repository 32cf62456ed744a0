-- ===== src/Risk/Kept/Offset.antt =====
-- The offset that src/risk/RiskStg.cpp gives an order, apart from the code.
use mathlib.Core.Path.{subst}
use nat_framework.Prelude.{
  sym, ◌+ℤ◌, ◌≤ℤ◌, ◌==ℤ◌, ==ℤ→eq, ==ℤ_refl, ℕ, ℤ, ◌==◌, ◌||◌, ◌≡◌, ◌≢◌, ◌⊎◌, ◌↔◌, inl, inr, true,
  Bool-cases, refl, arith,
}
use nat_framework.Double.{Double}
use nat_framework.Account.Codes.{
  buy, sell, open_off, auto_off, close_off, close_today, close_yesterday,
}
use nat_framework.Account.Vol.{UnitVol}
use nat_framework.Risk.Instr.{ok, RiskInstr, parse_auto_offset}
use nat_framework.Risk.Limits.{
  room_back, room_after_back, BuyOffset, SellOffset, parse_auto_offset_sound,
}
use nat_framework.Risk.Gate.{offset_of}

not_chosen :
    (off2 : ℕ)
    → (off2 ≡ auto_off) ⊎ (off2 ≡ close_off)
    → ¬ ((off2 ≡ close_yesterday) ⊎ ((off2 ≡ open_off) ⊎ (off2 ≡ close_today)))
not_chosen off2 a b = ground arith

open_off_iff :
    (off : ℕ)
    → ((off == auto_off || off == close_off) ≡ true) ↔ ((off ≡ auto_off) ⊎ (off ≡ close_off))
open_off_iff off = ((λ e. ground arith), λ h. ground arith)

-- The order of preference: yesterday's position is closed if enough of it is free, and today's
-- only if the order may not open or the limit does not allow it.
pub record Prefers (free_yd : Type 0) (room : Type 0) (off off2 : ℕ) : Type 0 where
  pub yesterday : off2 ≢ close_yesterday → ¬ free_yd
  pub today : off2 ≡ close_today → (off ≡ close_off) ⊎ ¬ room

module _ {D : Type 0} ⦃F : Double D⦄ where
  abbrev pub BuyPrefers : RiskInstr D → UnitVol → ℕ → ℕ → ℤ → Type 0
  BuyPrefers r v off off2 vol =
      Prefers (v.pos_short_yd_cls_ing +ℤ vol ≤ℤ v.pos_short_yd)
        (v.pos_long +ℤ v.pos_long_td_opn_ing +ℤ vol ≤ℤ r.long_volume_threshold) off off2

  abbrev pub SellPrefers : RiskInstr D → UnitVol → ℕ → ℕ → ℤ → Type 0
  SellPrefers r v off off2 vol =
      Prefers (v.pos_long_yd_cls_ing +ℤ vol ≤ℤ v.pos_long_yd)
        (v.pos_short +ℤ v.pos_short_td_opn_ing +ℤ vol ≤ℤ r.short_volume_threshold) off off2

  buy_Prefers :
      (r : RiskInstr D) (v : UnitVol) (off : ℕ) (vol : ℤ)
      → (parse_auto_offset r v buy off vol).1 ≡ ok
      → BuyPrefers r v off (parse_auto_offset r v buy off vol).0 vol
  unfolding parse_auto_offset
  buy_Prefers r v off vol e = record {
    yesterday = λ n le. ground (arith, room_back v.pos_short_yd v.pos_short_yd_cls_ing vol le);
    today = λ t. elim (Bool-cases (off == close_off)) [
      | inl c ↦ inl (ground arith)
      | inr o ↦ inr (λ le.
          ground (
            arith,
            room_after_back r.long_volume_threshold v.pos_long v.pos_long_td_opn_ing vol le,
          ))
    ];
  }

  sell_Prefers :
      (r : RiskInstr D) (v : UnitVol) (off : ℕ) (vol : ℤ)
      → (parse_auto_offset r v sell off vol).1 ≡ ok
      → SellPrefers r v off (parse_auto_offset r v sell off vol).0 vol
  unfolding parse_auto_offset
  sell_Prefers r v off vol e = record {
    yesterday = λ n le. ground (arith, room_back v.pos_long_yd v.pos_long_yd_cls_ing vol le);
    today = λ t. elim (Bool-cases (off == close_off)) [
      | inl c ↦ inl (ground arith)
      | inr o ↦ inr (λ le. ground (
        arith,
        room_after_back r.short_volume_threshold v.pos_short v.pos_short_td_opn_ing vol le,
      ))
    ];
  }

  -- An offset that the order leaves open, or that is only to close, is chosen as the positions and
  -- the limit allow; another one is kept.
  pub record OffsetKept (r : RiskInstr D) (v : UnitVol) (dir off off2 : ℕ) (vol : ℤ) : Type 0 where
    pub chosen :
        (off ≡ auto_off) ⊎ (off ≡ close_off)
        → ((dir ≡ buy) × BuyOffset r v off off2 vol) ⊎ ((dir ≡ sell) × SellOffset r v off off2 vol)
    pub prefers :
        (off ≡ auto_off) ⊎ (off ≡ close_off)
        → (dir ≡ buy → BuyPrefers r v off off2 vol) × (dir ≡ sell → SellPrefers r v off off2 vol)
    pub kept : off ≢ auto_off → off ≢ close_off → off2 ≡ off

  -- No offset is left as it was where it is to be chosen.
  parse_fails :
      (r : RiskInstr D) (v : UnitVol) (dir off : ℕ) (vol : ℤ)
      → (parse_auto_offset r v dir off vol).1 ≢ ok
      → (parse_auto_offset r v dir off vol).0 ≡ off
  unfolding parse_auto_offset
  parse_fails r v dir off vol h = ground arith

  parsed_back :
      (r : RiskInstr D) (v : UnitVol) (dir off : ℕ) (vol : ℤ)
      → (off ≡ auto_off) ⊎ (off ≡ close_off)
      → ((dir ≡ buy) × BuyOffset r v off (parse_auto_offset r v dir off vol).0 vol)
        ⊎ ((dir ≡ sell) × SellOffset r v off (parse_auto_offset r v dir off vol).0 vol)
      → (parse_auto_offset r v dir off vol).1 ≡ ok
  parsed_back r v dir off vol asks h =
      let one : ((parse_auto_offset r v dir off vol).0 ≡ close_yesterday)
          ⊎ (((parse_auto_offset r v dir off vol).0 ≡ open_off)
              ⊎ ((parse_auto_offset r v dir off vol).0 ≡ close_today)) =
        elim h [ inl (b, k) ↦ k.one | inr (b, k) ↦ k.one ] in
      elim (Bool-cases ((parse_auto_offset r v dir off vol).1 ==ℤ ok)) [
        | inl fine ↦ ==ℤ→eq (parse_auto_offset r v dir off vol).1 ok fine
        | inr bad ↦
            let same = parse_fails r v dir off vol (λ e. ground (arith, ==ℤ_refl ok, e)) in
            absurd (
              not_chosen off asks (
                subst (λ o. (o ≡ close_yesterday) ⊎ ((o ≡ open_off) ⊎ (o ≡ close_today))) same one))
      ]

  pub offset_iff :
      (r : RiskInstr D) (v : UnitVol) (dir off : ℕ) (vol : ℤ)
      → ((offset_of r v dir off vol).1 ≡ ok)
        ↔ OffsetKept r v dir off (offset_of r v dir off vol).0 vol
  offset_iff r v dir off vol = elim (Bool-cases (off == auto_off || off == close_off)) [
    | inr plain ↦ rw (plain) (
      (λ e. record {
        chosen = λ h. absurd (ground (arith, (open_off_iff off).1 h));
        prefers = λ h. absurd (ground (arith, (open_off_iff off).1 h));
        kept = λ a c. refl;
      }),
      λ k. refl,
    )
    | inl open_ended ↦
        let asks = (open_off_iff off).0 open_ended in
        rw (open_ended) (
          (λ e. record {
            chosen = λ h. parse_auto_offset_sound r v dir off vol e;
            prefers = λ h. (
              (λ b.
                  subst (λ d. BuyPrefers r v off (parse_auto_offset r v d off vol).0 vol) (sym b)
                    (buy_Prefers r v off vol
                      (subst (λ d. (parse_auto_offset r v d off vol).1 ≡ ok) b e))),
              λ b.
                  subst (λ d. SellPrefers r v off (parse_auto_offset r v d off vol).0 vol) (sym b)
                    (sell_Prefers r v off vol
                      (subst (λ d. (parse_auto_offset r v d off vol).1 ≡ ok) b e)),
            );
            kept = λ a c. absurd (elim asks [ inl h ↦ a h | inr h ↦ c h ]);
          }),
          λ k. parsed_back r v dir off vol asks (k.chosen asks),
        )
  ]

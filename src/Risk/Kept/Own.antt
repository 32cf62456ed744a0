-- ===== src/Risk/Kept/Own.antt =====
-- What the check of an instrument in src/risk/RiskInstrTop.cpp lets through.
use mathlib.Core.Path.{subst}
use mathlib.Core.Option.{some-injective}
use nat_framework.Prelude.{
  ℕ, ℤ, ◌==◌, ◌≡◌, ◌≢◌, ◌↔◌, inl, inr, false, Bool-cases, Option-cases, some, refl, arith,
}
use nat_framework.Double.{Double}
use nat_framework.Account.Codes.{buy}
use nat_framework.Account.Vol.{UnitVol}
use nat_framework.Risk.Instr.{ok}
use nat_framework.Risk.InstrTop.{RiskInstrTop, Treap, TreapNode, is_self_trade}
use nat_framework.Risk.InstrTop
use nat_framework.Risk.Kept.{InstrKept, instr_iff}

module _ {D T : Type 0} ⦃F : Double D⦄ (ops : Treap D T) where
  -- The engine's limits of an instrument: no own order rests that the order would trade with.
  pub record TopKept (r : RiskInstrTop D T) (v : UnitVol) (dir off : ℕ) (px : D) (vol nano : ℤ)
      : Type 0 where
    pub below_asks :
        (n : TreapNode D) → dir ≡ buy → ops.top r.ask_treap ≡ some n → F.leb n.price px ≡ false
    pub above_bids :
        (n : TreapNode D) → dir ≢ buy → ops.top r.bid_treap ≡ some n → F.leb px n.price ≡ false
    pub instr : InstrKept r.instr v dir off vol nano

  self_iff :
      (r : RiskInstrTop D T) (dir : ℕ) (px : D)
      → (is_self_trade ops dir px r ≡ false) ↔ (
          ((n : TreapNode D) → dir ≡ buy → ops.top r.ask_treap ≡ some n → F.leb n.price px ≡ false)
          × ((n : TreapNode D)
              → dir ≢ buy
              → ops.top r.bid_treap ≡ some n
              → F.leb px n.price ≡ false))
  self_iff r dir px = elim (Bool-cases (dir == buy)) [
    | inl b ↦ elim (Option-cases (ops.top r.ask_treap)) [
      | inl gone ↦
          rw (b, gone)
            (
              (λ e. ((λ n eb t. absurd (ground arith)), λ n nb t. absurd (nb (ground arith)))),
              λ h. refl,
            )
      | inr (m, there) ↦
          rw (b, there)
            (
              (λ e. (
                (λ n eb t.
                    subst (λ (x : TreapNode D). F.leb x.price px ≡ false) (some-injective m n t) e),
                λ n nb t. absurd (nb (ground arith)),
              )),
              λ h. h.0 m (ground arith) refl,
            )
    ]
    | inr nb ↦ elim (Option-cases (ops.top r.bid_treap)) [
      | inl gone ↦
          rw (nb, gone)
            ((λ e. ((λ n eb t. absurd (ground arith)), λ n eb t. absurd (ground arith))), λ h. refl)
      | inr (m, there) ↦
          rw (nb, there)
            (
              (λ e. (
                (λ n eb t. absurd (ground arith)),
                λ n eb t.
                    subst (λ (x : TreapNode D). F.leb px x.price ≡ false) (some-injective m n t) e,
              )),
              λ h. h.1 m (λ eb. ground arith) refl,
            )
    ]
  ]

  pub top_iff :
      (r : RiskInstrTop D T) (v : UnitVol) (dir off : ℕ) (px : D) (vol nano : ℤ)
      → (InstrTop.check ops r v dir off px vol nano ≡ ok) ↔ TopKept r v dir off px vol nano
  unfolding InstrTop.check
  top_iff r v dir off px vol nano =
      let alone = self_iff r dir px in
      let instr = instr_iff r.instr v dir off vol nano in
      elim (Bool-cases (is_self_trade ops dir px r)) [
        | inl own ↦
            rw (InstrTop.check, own)
              (
                (λ e. absurd (ground arith)),
                λ k. absurd (ground (arith, alone.1 (k.below_asks, k.above_bids))),
              )
        | inr other ↦
            rw (InstrTop.check, other)
              (
                (λ e. record {
                  below_asks = (alone.0 other).0;
                  above_bids = (alone.0 other).1;
                  instr = instr.0 e;
                }),
                λ k. instr.1 k.instr,
              )
      ]

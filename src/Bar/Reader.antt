-- ===== src/Bar/Reader.antt =====
-- src/bar/BarMaker.cpp: what the reader of the bars gets, `GetBar`.
use mathlib.Core.Path.{subst}
use mathlib.Core.Option.{some-injective}
use nat_framework.Prelude.{
  sym, ℕ, zero, suc, ◌≤◌, pos, negsuc, ◌+ℤ◌, ◌≡◌, refl, ap, arith, int_laws, ◌-ℤ◌, true, false,
  Option, none, some, List, ◌+◌, ◌-◌, ◌⊎◌, inl, inr, ◌∙◌,
}
use nat_framework.Prelude.Lists.{get_elem?}
use nat_framework.Double.{Double}
use nat_framework.Bar.Bar2.{Bar2}
use nat_framework.Bar.Maker.{BarMaker, get_bar, seek, priced}

one_more : (r : ℕ) → pos r +ℤ pos 1 ≡ pos (suc r)
one_more r = omega int_laws

turns_from : (r k : ℕ) → r ≤ k → pos (suc k) -ℤ pos r ≡ pos (suc (k - r))
turns_from r k h = omega int_laws

one_less : negsuc 0 +ℤ pos 1 ≡ pos 0
one_less = omega int_laws

turns_first : (k : ℕ) → pos (suc k) -ℤ negsuc 0 ≡ pos (suc (suc k))
turns_first k = omega int_laws

module _ {D : Type 0} ⦃F : Double D⦄ where
  seek_from :
      (bars : List (Bar2 D)) (n r : ℕ) (p : Option (Bar2 D))
      → seek bars (suc n) (pos r) p ≡ (priced (get_elem? bars (r + n)), pos (suc (r + n)))
  seek_from bars zero r p = ground (arith, one_more r)
  seek_from bars (suc n) r p =
      let e : suc r + n ≡ r + suc n = omega arith in
      rw (one_more r) (
        seek_from bars n (suc r) (priced (get_elem? bars r))
        ∙ ap (λ i. (priced (get_elem? bars i), pos (suc i))) e)

  get_bar-priced :
      (m : BarMaker D) (k : ℕ)
      → m.bar_idx ≡ pos (suc k)
      → (m.rtn_bar_idx ≡ negsuc 0) ⊎ ((r : ℕ) × (m.rtn_bar_idx ≡ pos r) × (r ≤ k))
      → get_bar m ≡ (priced (get_elem? m.vec_bar k), record m { rtn_bar_idx = pos (suc k) })
  unfolding get_bar
  get_bar-priced m k e (inl first) =
      let s : seek m.vec_bar (suc k) (pos 0) none ≡ (priced (get_elem? m.vec_bar k), pos (suc k)) =
        seek_from m.vec_bar k 0 none
        ∙ ap (λ i. (priced (get_elem? m.vec_bar i), pos (suc i))) (omega arith) in
      ground (arith, turns_first k, one_less)
  get_bar-priced m k e (inr (r, er, le)) =
      let s : seek m.vec_bar (suc (k - r)) (pos r) none
          ≡ (priced (get_elem? m.vec_bar k), pos (suc k)) =
        seek_from m.vec_bar (k - r) r none
        ∙ ap (λ i. (priced (get_elem? m.vec_bar i), pos (suc i))) (omega arith) in
      ground (arith, turns_from r k le)

  -- What the reader gets, if `b` is the last bar before the index: that bar if its opening price
  -- is not 0.0, and nothing if that is 0.0 or if there is no such bar.
  pub record Reads (b r : Option (Bar2 D)) : Type 0 where
    pub with_price :
        (x : Bar2 D) → b ≡ some x → F.eqb x.open_px (F.of_int (pos 0)) ≡ false → r ≡ some x
    pub without_price :
        (x : Bar2 D) → b ≡ some x → F.eqb x.open_px (F.of_int (pos 0)) ≡ true → r ≡ none
    pub past_end : b ≡ none → r ≡ none

  priced-Reads : (b : Option (Bar2 D)) → Reads b (priced b)
  priced-Reads none = record {
    with_price = λ x e z. absurd (ground arith);
    without_price = λ x e z. refl;
    past_end = λ e. refl;
  }
  priced-Reads (some b) = record {
    with_price = λ x e z. rw (some-injective b x e, z) refl;
    without_price = λ x e z. rw (some-injective b x e, z) refl;
    past_end = λ e. absurd (ground arith);
  }

  -- If the index has moved past at least one bar since the reader's last call, the reader gets
  -- the last bar before the index if its opening price is not 0.0, and nothing if that is 0.0 or
  -- there is no such bar, and its counter then stands at the index: the bars in between are
  -- passed over.
  pub get_bar_lem :
      (m : BarMaker D) (k : ℕ)
      → m.bar_idx ≡ pos (suc k)
      → (m.rtn_bar_idx ≡ negsuc 0) ⊎ ((r : ℕ) × (m.rtn_bar_idx ≡ pos r) × (r ≤ k))
      → Reads (get_elem? m.vec_bar k) (get_bar m).0
        × ((get_bar m).1 ≡ record m { rtn_bar_idx = pos (suc k) })
  get_bar_lem m k e r =
      let got = get_bar-priced m k e r in
      (
        subst (Reads (get_elem? m.vec_bar k))
            (sym (ap (λ (x : Option (Bar2 D) × BarMaker D). x.0) got))
            (priced-Reads (get_elem? m.vec_bar k)),
        ap (λ (x : Option (Bar2 D) × BarMaker D). x.1) got,
      )

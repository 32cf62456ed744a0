-- ===== src/Td/Median.antt =====
-- src/td/CTDHelperFake.cpp: the price of a trade.
use nat_framework.Prelude.{true, false, arith, ◌≡◌, if◌then◌else◌}
use nat_framework.Double.{Double}

module _ {D : Type 0} ⦃F : Double D⦄ where
  unfoldable pub median : D → D → D → D
  median a b c =
      if F.ltb a b
      then (if F.ltb b c then b else if F.ltb a c then c else a)
      else if F.ltb c b
      then b
      else if F.ltb a c
      then a
      else c

-- The comparisons order the numbers, as those of C++ do where no operand is NaN.
pub record IsOrdered {D : Type 0} (F : Double D) : Type 0 where
  pub refl_le : (a : D) → F.leb a a ≡ true
  pub trans_le : (a b c : D) → F.leb a b ≡ true → F.leb b c ≡ true → F.leb a c ≡ true
  pub lt-le : (a b : D) → F.ltb a b ≡ true → F.leb a b ≡ true
  pub not_lt-le : (a b : D) → F.ltb a b ≡ false → F.leb b a ≡ true
  pub lt-not_le : (a b : D) → F.ltb a b ≡ true → F.leb b a ≡ false

module _ {D : Type 0} ⦃F : Double D⦄ (ordered : IsOrdered F) where
  open ordered use {refl_le, trans_le, lt-le, not_lt-le, lt-not_le}

  -- The middle of three prices is between the first and the last.
  pub median_up :
      (a b c : D)
      → F.leb a c ≡ true
      → (F.leb a (median a b c) ≡ true) × (F.leb (median a b c) c ≡ true)
  unfolding median
  median_up a b c h = ground (
    arith,
    refl_le a,
    refl_le c,
    lt-le a b,
    lt-le b c,
    lt-le a c,
    not_lt-le a b,
    lt-not_le c b,
    trans_le b a c,
    h,
  )

  pub median_down :
      (a b c : D)
      → F.leb c a ≡ true
      → (F.leb c (median a b c) ≡ true) × (F.leb (median a b c) a ≡ true)
  unfolding median
  median_down a b c h = ground (
    arith,
    refl_le a,
    refl_le c,
    lt-le a b,
    lt-le b c,
    lt-le c b,
    not_lt-le a b,
    lt-not_le a c,
    lt-not_le b c,
    lt-not_le a b,
    trans_le c a b,
    h,
  )

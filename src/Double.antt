-- ===== src/Double.antt =====
-- C++ `double`. The sources compute prices and amounts in it; here it is a type `D` with the
-- operations that the code uses, each of which may round. What rests on a law of theirs, such as
-- the order of prices, has it as a hypothesis.
use nat_framework.Prelude.{ℤ, pos, Bool, not}

pub record Double (D : Type 0) : Type 0 where
  pub of_int : ℤ → D
  pub dbl_max : D
  pub add : D → D → D
  pub sub : D → D → D
  pub mul : D → D → D
  pub div : D → D → D
  pub eqb : D → D → Bool
  pub ltb : D → D → Bool
  pub leb : D → D → Bool

module _ {D : Type 0} ⦃F : Double D⦄ where
  infixl 65 ◌⊕◌ ◌⊖◌
  infixl 70 ◌⊗◌ ◌⊘◌
  abbrev pub ◌⊕◌ : D → D → D
  a ⊕ b = F.add a b

  abbrev pub ◌⊖◌ : D → D → D
  a ⊖ b = F.sub a b

  abbrev pub ◌⊗◌ : D → D → D
  a ⊗ b = F.mul a b

  abbrev pub ◌⊘◌ : D → D → D
  a ⊘ b = F.div a b

  abbrev pub of_int : ℤ → D
  of_int n = F.of_int n

  -- The literal 0.0.
  abbrev pub nil : D
  nil = F.of_int (pos 0)

  -- `0.0 != x`
  abbrev pub is_nonzero : D → Bool
  is_nonzero x = not (F.eqb nil x)

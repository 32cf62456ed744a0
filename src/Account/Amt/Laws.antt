-- ===== src/Account/Amt/Laws.antt =====
-- src/account/UnitAmt.cpp: how the handlers act on the amounts of an instrument, its product and the
-- account alike. Each addition may round.
use nat_framework.Prelude.{◌≡◌, ap, List, [], ◌∷◌}
use nat_framework.Double.{Double, ◌⊕◌}
use nat_framework.Account.Amt.Handlers.{
  AmtHandler, amt_long_yd_sub_ing, amt_long_td_add_ing, amt_long_td_sub_ing, amt_long,
  amt_short_yd_sub_ing, amt_short_td_add_ing, amt_short_td_sub_ing, amt_short,
}
use nat_framework.Account.Amt.{
  UnitAmt, on_amt_buy_change, on_amt_sell_change, on_amt_long_yd_sub_ing_change,
  on_amt_long_td_add_ing_change, on_amt_long_td_sub_ing_change, on_amt_long_change,
  on_amt_short_yd_sub_ing_change, on_amt_short_td_add_ing_change, on_amt_short_td_sub_ing_change,
  on_amt_short_change,
}

module _ {D : Type 0} ⦃F : Double D⦄ where
  -- `x` with the amounts added one after the other, of which the last stands first in the list.
  abbrev pub plus_all : D → List D → D
  plus_all x [] = x
  plus_all x (d ∷ ds) = plus_all x ds ⊕ d

  -- The same amounts were added, in the same order, to three numbers.
  pub record Grown (i0 p0 a0 i p a : D) : Type 0 where
    pub by : List D
    pub instr : i ≡ plus_all i0 by
    pub prd : p ≡ plus_all p0 by
    pub acc : a ≡ plus_all a0 by

  pub grow :
      {i0 p0 a0 i p a : D} → Grown i0 p0 a0 i p a → (d : D) → Grown i0 p0 a0 (i ⊕ d) (p ⊕ d) (a ⊕ d)
  grow g d = record {
    by = d ∷ g.by;
    instr = ap (λ x. x ⊕ d) g.instr;
    prd = ap (λ x. x ⊕ d) g.prd;
    acc = ap (λ x. x ⊕ d) g.acc;
  }

  -- Each field that an instrument, its product and the account all keep grew in all three by the
  -- same amounts. (The amounts bought and sold are kept per instrument only.)
  pub record SameAmts (i0 p0 a0 i p a : UnitAmt D) : Type 0 where
    pub amt_long_yd_sub_ing :
        Grown i0.amt_long_yd_sub_ing p0.amt_long_yd_sub_ing a0.amt_long_yd_sub_ing
          i.amt_long_yd_sub_ing p.amt_long_yd_sub_ing a.amt_long_yd_sub_ing
    pub amt_long_td_add_ing :
        Grown i0.amt_long_td_add_ing p0.amt_long_td_add_ing a0.amt_long_td_add_ing
          i.amt_long_td_add_ing p.amt_long_td_add_ing a.amt_long_td_add_ing
    pub amt_long_td_sub_ing :
        Grown i0.amt_long_td_sub_ing p0.amt_long_td_sub_ing a0.amt_long_td_sub_ing
          i.amt_long_td_sub_ing p.amt_long_td_sub_ing a.amt_long_td_sub_ing
    pub amt_long : Grown i0.amt_long p0.amt_long a0.amt_long i.amt_long p.amt_long a.amt_long
    pub amt_short_yd_sub_ing :
        Grown i0.amt_short_yd_sub_ing p0.amt_short_yd_sub_ing a0.amt_short_yd_sub_ing
          i.amt_short_yd_sub_ing p.amt_short_yd_sub_ing a.amt_short_yd_sub_ing
    pub amt_short_td_add_ing :
        Grown i0.amt_short_td_add_ing p0.amt_short_td_add_ing a0.amt_short_td_add_ing
          i.amt_short_td_add_ing p.amt_short_td_add_ing a.amt_short_td_add_ing
    pub amt_short_td_sub_ing :
        Grown i0.amt_short_td_sub_ing p0.amt_short_td_sub_ing a0.amt_short_td_sub_ing
          i.amt_short_td_sub_ing p.amt_short_td_sub_ing a.amt_short_td_sub_ing
    pub amt_short : Grown i0.amt_short p0.amt_short a0.amt_short i.amt_short p.amt_short a.amt_short

  pub grow_amts :
      {f : UnitAmt D → UnitAmt D}
      → AmtHandler f
      → (i0 p0 a0 i p a : UnitAmt D) → SameAmts i0 p0 a0 i p a
      → SameAmts i0 p0 a0 (f i) (f p) (f a)
  unfolding on_amt_long_yd_sub_ing_change on_amt_long_td_add_ing_change
      on_amt_long_td_sub_ing_change on_amt_long_change on_amt_short_yd_sub_ing_change
      on_amt_short_td_add_ing_change on_amt_short_td_sub_ing_change on_amt_short_change
  grow_amts (amt_long_yd_sub_ing amt) i0 p0 a0 i p a h = record {
    amt_long_yd_sub_ing = grow h.amt_long_yd_sub_ing amt;
    amt_long_td_add_ing = h.amt_long_td_add_ing;
    amt_long_td_sub_ing = h.amt_long_td_sub_ing;
    amt_long = h.amt_long;
    amt_short_yd_sub_ing = h.amt_short_yd_sub_ing;
    amt_short_td_add_ing = h.amt_short_td_add_ing;
    amt_short_td_sub_ing = h.amt_short_td_sub_ing;
    amt_short = h.amt_short;
  }
  grow_amts (amt_long_td_add_ing amt) i0 p0 a0 i p a h = record {
    amt_long_yd_sub_ing = h.amt_long_yd_sub_ing;
    amt_long_td_add_ing = grow h.amt_long_td_add_ing amt;
    amt_long_td_sub_ing = h.amt_long_td_sub_ing;
    amt_long = h.amt_long;
    amt_short_yd_sub_ing = h.amt_short_yd_sub_ing;
    amt_short_td_add_ing = h.amt_short_td_add_ing;
    amt_short_td_sub_ing = h.amt_short_td_sub_ing;
    amt_short = h.amt_short;
  }
  grow_amts (amt_long_td_sub_ing amt) i0 p0 a0 i p a h = record {
    amt_long_yd_sub_ing = h.amt_long_yd_sub_ing;
    amt_long_td_add_ing = h.amt_long_td_add_ing;
    amt_long_td_sub_ing = grow h.amt_long_td_sub_ing amt;
    amt_long = h.amt_long;
    amt_short_yd_sub_ing = h.amt_short_yd_sub_ing;
    amt_short_td_add_ing = h.amt_short_td_add_ing;
    amt_short_td_sub_ing = h.amt_short_td_sub_ing;
    amt_short = h.amt_short;
  }
  grow_amts (amt_long amt) i0 p0 a0 i p a h = record {
    amt_long_yd_sub_ing = h.amt_long_yd_sub_ing;
    amt_long_td_add_ing = h.amt_long_td_add_ing;
    amt_long_td_sub_ing = h.amt_long_td_sub_ing;
    amt_long = grow h.amt_long amt;
    amt_short_yd_sub_ing = h.amt_short_yd_sub_ing;
    amt_short_td_add_ing = h.amt_short_td_add_ing;
    amt_short_td_sub_ing = h.amt_short_td_sub_ing;
    amt_short = h.amt_short;
  }
  grow_amts (amt_short_yd_sub_ing amt) i0 p0 a0 i p a h = record {
    amt_long_yd_sub_ing = h.amt_long_yd_sub_ing;
    amt_long_td_add_ing = h.amt_long_td_add_ing;
    amt_long_td_sub_ing = h.amt_long_td_sub_ing;
    amt_long = h.amt_long;
    amt_short_yd_sub_ing = grow h.amt_short_yd_sub_ing amt;
    amt_short_td_add_ing = h.amt_short_td_add_ing;
    amt_short_td_sub_ing = h.amt_short_td_sub_ing;
    amt_short = h.amt_short;
  }
  grow_amts (amt_short_td_add_ing amt) i0 p0 a0 i p a h = record {
    amt_long_yd_sub_ing = h.amt_long_yd_sub_ing;
    amt_long_td_add_ing = h.amt_long_td_add_ing;
    amt_long_td_sub_ing = h.amt_long_td_sub_ing;
    amt_long = h.amt_long;
    amt_short_yd_sub_ing = h.amt_short_yd_sub_ing;
    amt_short_td_add_ing = grow h.amt_short_td_add_ing amt;
    amt_short_td_sub_ing = h.amt_short_td_sub_ing;
    amt_short = h.amt_short;
  }
  grow_amts (amt_short_td_sub_ing amt) i0 p0 a0 i p a h = record {
    amt_long_yd_sub_ing = h.amt_long_yd_sub_ing;
    amt_long_td_add_ing = h.amt_long_td_add_ing;
    amt_long_td_sub_ing = h.amt_long_td_sub_ing;
    amt_long = h.amt_long;
    amt_short_yd_sub_ing = h.amt_short_yd_sub_ing;
    amt_short_td_add_ing = h.amt_short_td_add_ing;
    amt_short_td_sub_ing = grow h.amt_short_td_sub_ing amt;
    amt_short = h.amt_short;
  }
  grow_amts (amt_short amt) i0 p0 a0 i p a h = record {
    amt_long_yd_sub_ing = h.amt_long_yd_sub_ing;
    amt_long_td_add_ing = h.amt_long_td_add_ing;
    amt_long_td_sub_ing = h.amt_long_td_sub_ing;
    amt_long = h.amt_long;
    amt_short_yd_sub_ing = h.amt_short_yd_sub_ing;
    amt_short_td_add_ing = h.amt_short_td_add_ing;
    amt_short_td_sub_ing = h.amt_short_td_sub_ing;
    amt_short = grow h.amt_short amt;
  }

  -- What is kept per instrument only is not among these.
  pub on_amt_buy_change-SameAmts :
      (x : D) (i0 p0 a0 i p a : UnitAmt D)
      → SameAmts i0 p0 a0 i p a
      → SameAmts i0 p0 a0 (on_amt_buy_change x i) p a
  unfolding on_amt_buy_change
  on_amt_buy_change-SameAmts x i0 p0 a0 i p a h = record {
    amt_long_yd_sub_ing = h.amt_long_yd_sub_ing;
    amt_long_td_add_ing = h.amt_long_td_add_ing;
    amt_long_td_sub_ing = h.amt_long_td_sub_ing;
    amt_long = h.amt_long;
    amt_short_yd_sub_ing = h.amt_short_yd_sub_ing;
    amt_short_td_add_ing = h.amt_short_td_add_ing;
    amt_short_td_sub_ing = h.amt_short_td_sub_ing;
    amt_short = h.amt_short;
  }

  -- What is kept per instrument only is not among these.
  pub on_amt_sell_change-SameAmts :
      (x : D) (i0 p0 a0 i p a : UnitAmt D)
      → SameAmts i0 p0 a0 i p a
      → SameAmts i0 p0 a0 (on_amt_sell_change x i) p a
  unfolding on_amt_sell_change
  on_amt_sell_change-SameAmts x i0 p0 a0 i p a h = record {
    amt_long_yd_sub_ing = h.amt_long_yd_sub_ing;
    amt_long_td_add_ing = h.amt_long_td_add_ing;
    amt_long_td_sub_ing = h.amt_long_td_sub_ing;
    amt_long = h.amt_long;
    amt_short_yd_sub_ing = h.amt_short_yd_sub_ing;
    amt_short_td_add_ing = h.amt_short_td_add_ing;
    amt_short_td_sub_ing = h.amt_short_td_sub_ing;
    amt_short = h.amt_short;
  }

-- ===== src/Account/Instr/VolRel.antt =====
-- src/account/ModInstr.cpp: relations between the volumes of the instrument and of its product,
-- statement by statement.
use nat_framework.Prelude.{ℤ, ◌+ℤ◌, ◌≡◌, refl, ap, ◌∙◌, some, arith}
use nat_framework.Double.{Double}
use nat_framework.Account.Vol.{UnitVol}
use nat_framework.Account.Vol.Handlers.{VolHandler}
use nat_framework.Account.Vol.Laws.{◌⊞◌, shift}
use nat_framework.Account.Vol.Balance.{IsBalanced, handler-IsBalanced}
use nat_framework.Account.Amt.{UnitAmt}
use nat_framework.Account.Pnl.{UnitPnl}
use nat_framework.Account.Px.{UnitPx}
use nat_framework.Account.Instr.{
  instr_vol, prd_vol, both_vol, instr_amt, prd_amt, acc_amt, all_amt, instr_pnl, prd_pnl, acc_pnl,
  all_pnl, instr_px, acc_unfilled,
}
use nat_framework.Account.Instr.Keeps.{Rel, Keeps}
use nat_framework.Account.Instr.Rules.{Rules}

-- The product's volumes are the instrument's plus those of the rest, `w`, and both balance.
abbrev pub Books : UnitVol → UnitVol → UnitVol → Type 0
Books w u v = (v ≡ u ⊞ w) × IsBalanced u × IsBalanced v

module _ {D : Type 0} ⦃F : Double D⦄ where
  -- A relation between the instrument's volumes and the product's.
  abbrev pub VolRel : (UnitVol → UnitVol → Type 0) → Rel D
  VolRel R i p a = R i.unit_vol p.unit_vol

  module _ (R : UnitVol → UnitVol → Type 0)
      (keep : (f : UnitVol → UnitVol)
        → VolHandler f
        → (u v : UnitVol) → R u v
        → R (f u) (f v)) where
    both_vol-Keeps : (f : UnitVol → UnitVol) → VolHandler f → Keeps (VolRel R) (both_vol f)
    unfolding both_vol instr_vol prd_vol
    both_vol-Keeps f h = record {
      run = λ c (p, a, hp, ha, s). (
        record c {
          instr = record c.instr { unit_vol = f c.instr.unit_vol };
          prd = some (record p { unit_vol = f p.unit_vol });
        },
        ground arith,
        (record p { unit_vol = f p.unit_vol }, a, refl, ha, keep f h _ _ s),
        ground arith,
      );
    }

    all_amt-Keeps : (f : UnitAmt D → UnitAmt D) → Keeps (VolRel R) (all_amt f)
    unfolding all_amt instr_amt prd_amt acc_amt
    all_amt-Keeps f = record {
      run = λ c (p, a, hp, ha, s). (
        record c {
          instr = record c.instr { unit_amt = f c.instr.unit_amt };
          prd = some (record p { unit_amt = f p.unit_amt });
          acc = some (record a { unit_amt = f a.unit_amt });
        },
        ground arith,
        (record p { unit_amt = f p.unit_amt }, record a { unit_amt = f a.unit_amt }, refl, refl, s),
        ground arith,
      );
    }

    all_pnl-Keeps : (f : UnitPnl D → UnitPnl D) → Keeps (VolRel R) (all_pnl f)
    unfolding all_pnl instr_pnl prd_pnl acc_pnl
    all_pnl-Keeps f = record {
      run = λ c (p, a, hp, ha, s). (
        record c {
          instr = record c.instr { unit_pnl = f c.instr.unit_pnl };
          prd = some (record p { unit_pnl = f p.unit_pnl });
          acc = some (record a { unit_pnl = f a.unit_pnl });
        },
        ground arith,
        (record p { unit_pnl = f p.unit_pnl }, record a { unit_pnl = f a.unit_pnl }, refl, refl, s),
        ground arith,
      );
    }

    instr_px-Keeps : (f : UnitPx D → UnitPx D) → Keeps (VolRel R) (instr_px f)
    unfolding instr_px
    instr_px-Keeps f = record {
      run = λ c (p, a, hp, ha, s). (
        record c { instr = record c.instr { unit_px = f c.instr.unit_px } },
        ground arith,
        (p, a, hp, ha, s),
        ground arith,
      );
    }

    acc_unfilled-Keeps : (n : ℤ) → Keeps (VolRel R) (acc_unfilled n)
    unfolding acc_unfilled
    acc_unfilled-Keeps n = record {
      run = λ c (p, a, hp, ha, s). (
        record c { acc = some (record a { unfilled_order_cnt = a.unfilled_order_cnt +ℤ n }) },
        ground arith,
        (p, record a { unfilled_order_cnt = a.unfilled_order_cnt +ℤ n }, hp, refl, s),
        ground arith,
      );
    }

    instr_amt-Keeps : (f : UnitAmt D → UnitAmt D) → Keeps (VolRel R) (instr_amt f)
    unfolding instr_amt
    instr_amt-Keeps f = record {
      run = λ c (p, a, hp, ha, s). (
        record c { instr = record c.instr { unit_amt = f c.instr.unit_amt } },
        ground arith,
        (p, a, hp, ha, s),
        ground arith,
      );
    }

    pub VolRel-Rules : Rules (VolRel R)
    VolRel-Rules = record {
      vol = λ f h. both_vol-Keeps f h;
      amt = λ f h. all_amt-Keeps f;
      pos_pnl = λ x. all_pnl-Keeps _;
      trd_pnl = λ x. all_pnl-Keeps _;
      px = instr_px-Keeps;
      unfilled = acc_unfilled-Keeps;
      amt_buy = λ x. instr_amt-Keeps _;
      amt_sell = λ x. instr_amt-Keeps _;
    }

  pub Books-Rules : (w : UnitVol) → Rules (VolRel (Books w))
  Books-Rules w = VolRel-Rules (Books w) (λ f h u v b.
      (ap f b.0 ∙ shift h u w, handler-IsBalanced h u b.1, handler-IsBalanced h v b.2))

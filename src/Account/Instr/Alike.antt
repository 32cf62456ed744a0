-- ===== src/Account/Instr/Alike.antt =====
-- src/account/ModInstr.cpp: the amounts and the profit and loss of an instrument and of the two
-- summaries grow alike, statement by statement.
use nat_framework.Prelude.{ℤ, ◌+ℤ◌, refl, some, arith}
use nat_framework.Double.{Double}
use nat_framework.Account.Vol.{UnitVol}
use nat_framework.Account.Amt
use nat_framework.Account.Amt.{UnitAmt}
use nat_framework.Account.Amt.Handlers.{AmtHandler}
use nat_framework.Account.Amt.Laws.{
  Grown, grow, SameAmts, grow_amts, on_amt_buy_change-SameAmts, on_amt_sell_change-SameAmts,
}
use nat_framework.Account.Pnl.{UnitPnl, on_pos_pnl_change, on_trd_pnl_change}
use nat_framework.Account.Px.{UnitPx}
use nat_framework.Account.Mods.{ModPrd, ModAcc}
use nat_framework.Account.Instr.{
  ModInstr, instr_vol, prd_vol, both_vol, instr_amt, prd_amt, acc_amt, all_amt, instr_pnl, prd_pnl,
  acc_pnl, all_pnl, instr_px, acc_unfilled,
}
use nat_framework.Account.Instr.Keeps.{Rel, Keeps}
use nat_framework.Account.Instr.Rules.{Rules}

-- The amounts and the profit and loss at some earlier moment.
pub record Start (D : Type 0) : Type 0 where
  pub instr_amt : UnitAmt D
  pub prd_amt : UnitAmt D
  pub acc_amt : UnitAmt D
  pub instr_pnl : UnitPnl D
  pub prd_pnl : UnitPnl D
  pub acc_pnl : UnitPnl D

module _ {D : Type 0} ⦃F : Double D⦄ where
  pub record SamePnls (i0 p0 a0 i p a : UnitPnl D) : Type 0 where
    pub pos_pnl : Grown i0.pos_pnl p0.pos_pnl a0.pos_pnl i.pos_pnl p.pos_pnl a.pos_pnl
    pub trd_pnl : Grown i0.trd_pnl p0.trd_pnl a0.trd_pnl i.trd_pnl p.trd_pnl a.trd_pnl

  -- What a function does to three profits keeps that they grew alike.
  abbrev Grows : (UnitPnl D → UnitPnl D) → Type 0
  Grows f =
      (i0 p0 a0 i p a : UnitPnl D) → SamePnls i0 p0 a0 i p a → SamePnls i0 p0 a0 (f i) (f p) (f a)

  -- Since the start, the instrument, its product and the account had the same amounts added, in
  -- the same order, to each of the amounts and profits that all three keep.
  pub record GrowsAlike (t : Start D) (i : ModInstr D) (p : ModPrd D) (a : ModAcc D) : Type 0 where
    pub amts : SameAmts t.instr_amt t.prd_amt t.acc_amt i.unit_amt p.unit_amt a.unit_amt
    pub pnls : SamePnls t.instr_pnl t.prd_pnl t.acc_pnl i.unit_pnl p.unit_pnl a.unit_pnl

  abbrev pub Alike : Start D → Rel D
  Alike t = GrowsAlike t

  module _ (t : Start D) where
    on_pos_pnl_change-Grows : (x : D) → Grows (on_pos_pnl_change x)
    unfolding on_pos_pnl_change
    on_pos_pnl_change-Grows x i0 p0 a0 i p a h = record {
      pos_pnl = grow h.pos_pnl x;
      trd_pnl = h.trd_pnl;
    }

    on_trd_pnl_change-Grows : (x : D) → Grows (on_trd_pnl_change x)
    unfolding on_trd_pnl_change
    on_trd_pnl_change-Grows x i0 p0 a0 i p a h = record {
      pos_pnl = h.pos_pnl;
      trd_pnl = grow h.trd_pnl x;
    }

    both_vol-Keeps : (f : UnitVol → UnitVol) → Keeps (Alike t) (both_vol f)
    unfolding both_vol instr_vol prd_vol
    both_vol-Keeps f = record {
      run = λ c (p, a, hp, ha, s). (
        record c {
          instr = record c.instr { unit_vol = f c.instr.unit_vol };
          prd = some (record p { unit_vol = f p.unit_vol });
        },
        ground arith,
        (
          record p { unit_vol = f p.unit_vol },
          a,
          refl,
          ha,
          record { amts = s.amts; pnls = s.pnls },
        ),
        ground arith,
      );
    }

    all_amt-Keeps : (f : UnitAmt D → UnitAmt D) → AmtHandler f → Keeps (Alike t) (all_amt f)
    unfolding all_amt instr_amt prd_amt acc_amt
    all_amt-Keeps f handler = record {
      run = λ c (p, a, hp, ha, s). (
        record c {
          instr = record c.instr { unit_amt = f c.instr.unit_amt };
          prd = some (record p { unit_amt = f p.unit_amt });
          acc = some (record a { unit_amt = f a.unit_amt });
        },
        ground arith,
        (
          record p { unit_amt = f p.unit_amt },
          record a { unit_amt = f a.unit_amt },
          refl,
          refl,
          record { amts = grow_amts handler _ _ _ _ _ _ s.amts; pnls = s.pnls },
        ),
        ground arith,
      );
    }

    all_pnl-Keeps : (f : UnitPnl D → UnitPnl D) → Grows f → Keeps (Alike t) (all_pnl f)
    unfolding all_pnl instr_pnl prd_pnl acc_pnl
    all_pnl-Keeps f grows = record {
      run = λ c (p, a, hp, ha, s). (
        record c {
          instr = record c.instr { unit_pnl = f c.instr.unit_pnl };
          prd = some (record p { unit_pnl = f p.unit_pnl });
          acc = some (record a { unit_pnl = f a.unit_pnl });
        },
        ground arith,
        (
          record p { unit_pnl = f p.unit_pnl },
          record a { unit_pnl = f a.unit_pnl },
          refl,
          refl,
          record { amts = s.amts; pnls = grows _ _ _ _ _ _ s.pnls },
        ),
        ground arith,
      );
    }

    instr_px-Keeps : (f : UnitPx D → UnitPx D) → Keeps (Alike t) (instr_px f)
    unfolding instr_px
    instr_px-Keeps f = record {
      run = λ c (p, a, hp, ha, s). (
        record c { instr = record c.instr { unit_px = f c.instr.unit_px } },
        ground arith,
        (p, a, hp, ha, record { amts = s.amts; pnls = s.pnls }),
        ground arith,
      );
    }

    acc_unfilled-Keeps : (n : ℤ) → Keeps (Alike t) (acc_unfilled n)
    unfolding acc_unfilled
    acc_unfilled-Keeps n = record {
      run = λ c (p, a, hp, ha, s). (
        record c { acc = some (record a { unfilled_order_cnt = a.unfilled_order_cnt +ℤ n }) },
        ground arith,
        (
          p,
          record a { unfilled_order_cnt = a.unfilled_order_cnt +ℤ n },
          hp,
          refl,
          record { amts = s.amts; pnls = s.pnls },
        ),
        ground arith,
      );
    }

    instr_buy-Keeps : (x : D) → Keeps (Alike t) (instr_amt (Amt.on_amt_buy_change x))
    unfolding instr_amt Amt.on_amt_buy_change
    instr_buy-Keeps x = record {
      run = λ c (p, a, hp, ha, s). (
        record c { instr = record c.instr { unit_amt = Amt.on_amt_buy_change x c.instr.unit_amt } },
        ground arith,
        (
          p,
          a,
          hp,
          ha,
          record { amts = on_amt_buy_change-SameAmts x _ _ _ _ _ _ s.amts; pnls = s.pnls },
        ),
        ground arith,
      );
    }

    instr_sell-Keeps : (x : D) → Keeps (Alike t) (instr_amt (Amt.on_amt_sell_change x))
    unfolding instr_amt Amt.on_amt_sell_change
    instr_sell-Keeps x = record {
      run = λ c (p, a, hp, ha, s). (
        record c {
          instr = record c.instr { unit_amt = Amt.on_amt_sell_change x c.instr.unit_amt };
        },
        ground arith,
        (
          p,
          a,
          hp,
          ha,
          record { amts = on_amt_sell_change-SameAmts x _ _ _ _ _ _ s.amts; pnls = s.pnls },
        ),
        ground arith,
      );
    }

    pub Alike-Rules : Rules (Alike t)
    Alike-Rules = record {
      vol = λ f h. both_vol-Keeps f;
      amt = all_amt-Keeps;
      pos_pnl = λ x. all_pnl-Keeps _ (on_pos_pnl_change-Grows x);
      trd_pnl = λ x. all_pnl-Keeps _ (on_trd_pnl_change-Grows x);
      px = instr_px-Keeps;
      unfilled = acc_unfilled-Keeps;
      amt_buy = instr_buy-Keeps;
      amt_sell = instr_sell-Keeps;
    }

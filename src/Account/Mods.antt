-- ===== src/Account/Mods.antt =====
-- The summaries of a product and of the whole account: src/account/ModPrd.h, ModPrd.cpp, ModAcc.h
-- and ModAcc.cpp.
use Prim.Native.String.{String}
use nat_framework.Prelude.{ℤ, pos}
use nat_framework.Double.{Double}
use nat_framework.Account.Vol
use nat_framework.Account.Vol.{UnitVol}
use nat_framework.Account.Amt
use nat_framework.Account.Amt.{UnitAmt}
use nat_framework.Account.Pnl
use nat_framework.Account.Pnl.{UnitPnl}

pub record ModPrd (D : Type 0) : Type 0 where
  pub unit_vol : UnitVol
  pub unit_amt : UnitAmt D
  pub unit_pnl : UnitPnl D
  pub prd_name : String

pub record ModAcc (D : Type 0) : Type 0 where
  pub unfilled_order_cnt : ℤ
  pub unit_amt : UnitAmt D
  pub unit_pnl : UnitPnl D

module _ {D : Type 0} ⦃F : Double D⦄ where
  -- A record as `map_prd_[hash]` makes it, and after `ModPrd::init`, which never fails.
  abbrev pub prd_default : ModPrd D
  prd_default = record {
    unit_vol = Vol.flat;
    unit_amt = Amt.no_amt;
    unit_pnl = Pnl.no_pnl;
    prd_name = "";
  }

  unfoldable pub prd_init : String → ModPrd D → ModPrd D
  prd_init name p = record p { prd_name = name }

  unfoldable pub prd_on_switch_day : ModPrd D → ModPrd D
  prd_on_switch_day p = record p {
    unit_vol = Vol.on_switch_day p.unit_vol;
    unit_amt = Amt.on_switch_day p.unit_amt;
    unit_pnl = Pnl.on_switch_day p.unit_pnl;
  }

  unfoldable pub acc_on_switch_day : ModAcc D → ModAcc D
  acc_on_switch_day a = record a {
    unfilled_order_cnt = pos 0;
    unit_amt = Amt.on_switch_day a.unit_amt;
    unit_pnl = Pnl.on_switch_day a.unit_pnl;
  }

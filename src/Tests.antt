-- ===== src/Tests.antt =====
-- Concrete inputs for the theorems: an account that trades one instrument, with whole numbers for
-- `double`.
pub mod Account
pub mod Orders
pub mod Limits
pub mod Queue
pub mod Pages
pub mod Gate
pub mod Table
pub mod Fake
pub mod Bars
pub mod Info
pub mod Engine
pub mod Treap
pub mod Top
pub mod Ctp
pub mod Trade
use Prim.Native.String.{String, len}
use nat_framework.Prelude.{
  ℕ, ℤ, pos, negsuc, ◌+ℤ◌, ◌-ℤ◌, ◌*ℤ◌, ◌/◌, pos_part, ltb_ℤ, leb_ℤ, ◌==ℤ◌, ◌≡◌, refl, true, some,
  none, ◌∷◌, [], +ℤ_comm, +ℤ_assoc, ◌≤ℤ◌, ap, sym, ◌∙◌, arith, int_laws,
}
use mathlib.Core.Path.{subst}
use nat_framework.Prelude.Map.{Map, lookup}
use nat_framework.Double.{Double}
use nat_framework.TradeBase.{InstrumentInfo, IsSound}
use nat_framework.Account.Vol.{UnitVol, flat}
use nat_framework.Account.Vol.Balance.{IsBalanced}
use nat_framework.Account.Vol.Laws.{⊞_flat}
use nat_framework.Account.Instr.Keeps.{Holds}
use nat_framework.Account.Instr.VolRel.{Books, VolRel}
use nat_framework.Account.Amt
use nat_framework.Account.Pnl
use nat_framework.Account.Mods.{ModPrd, ModAcc, prd_default}
use nat_framework.Account.Instr.{ModInstr, Linked, instr_default}
use nat_framework.Risk.Instr.{RiskInstr}

abbrev pub whole : Double ℤ
whole = record {
  of_int = λ n. n;
  dbl_max = pos 1000000000;
  add = λ a b. a +ℤ b;
  sub = λ a b. a -ℤ b;
  mul = λ a b. a *ℤ b;
  div = λ a b. pos (pos_part a / pos_part b);
  eqb = λ a b. a ==ℤ b;
  ltb = ltb_ℤ;
  leb = leb_ℤ;
}

-- A hash that tells the two names apart that the tests use.
abbrev pub name_hash : String → ℕ
name_hash name = len name

abbrev pub ru2205 : InstrumentInfo
ru2205 = record {
  instr_hash = 6;
  instr = "ru2205";
  exch = 1;
  product = "ru";
  product_hash = 2;
  vol_multiple = pos 10;
  is_trading = true;
}

abbrev pub one_instr : Map InstrumentInfo
one_instr = (6, ru2205) ∷ []

single :
    (h : ℕ) (v p : InstrumentInfo) (k : ℕ) → lookup h ((k, v) ∷ []) ≡ some p → (h ≡ k) × (v ≡ p)
single h v p k e = ground arith

pub one_instr-IsSound : IsSound name_hash one_instr
one_instr-IsSound = record {
  keyed = λ h p e.
      let (eh, ep) = single h ru2205 p 6 e in
      ap (λ q. name_hash (InstrumentInfo.instr q)) (sym ep) ∙ sym eh;
  product_keyed =
      λ h p e. subst (λ q. name_hash q.product ≡ q.product_hash) (single h ru2205 p 6 e).1 refl;
  multiple = λ h p e. subst (λ q. pos 0 ≤ℤ q.vol_multiple) (single h ru2205 p 6 e).1 (omega arith);
}

-- Nine lots held long and two short, all since yesterday.
abbrev pub held : UnitVol
held = record flat {
  pos_long_yd_ini = pos 9;
  pos_long_yd = pos 9;
  pos_long = pos 9;
  pos_short_yd_ini = pos 2;
  pos_short_yd = pos 2;
  pos_short = pos 2;
}

pub held-IsBalanced : IsBalanced held
held-IsBalanced = record { long = omega int_laws; short = omega int_laws; net = omega int_laws }

abbrev pub limits : RiskInstr ℤ
limits = record {
  intensity_cycle_order_count = pos 0;
  intensity_cycle_time_record = pos 0;
  intensity_cycle_order_count_threshold = pos 5;
  intensity_cycle_time_span_threshold = pos 1000;
  is_allowed = true;
  allowed_order_size_threshold = pos 10;
  long_volume_threshold = pos 20;
  short_volume_threshold = pos 20;
  net_volume_threshold = pos 15;
}

abbrev pub no_acc : ModAcc ℤ
no_acc = record {
  unfilled_order_cnt = pos 0;
  unit_amt = Amt.no_amt ⦃F = whole⦄;
  unit_pnl = Pnl.no_pnl ⦃F = whole⦄;
}

abbrev pub prd : ModPrd ℤ
prd = record (prd_default ⦃F = whole⦄) { unit_vol = held; prd_name = "ru" }

-- The instrument with the summaries of its product and of its account.
abbrev pub books : Linked ℤ
books = record {
  instr = record (instr_default ⦃F = whole⦄) {
    unit_vol = held;
    p_prd = some 2;
    p_acc = true;
    instr_name = "ru2205";
    vol_multiple = pos 10;
  };
  prd = some prd;
  acc = some no_acc;
}

pub books-Holds : Holds (VolRel ⦃F = whole⦄ (Books flat)) books
books-Holds = (_, _, refl, refl, (sym (⊞_flat held), held-IsBalanced, held-IsBalanced))

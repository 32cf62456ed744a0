-- ===== src/Tests/Gate.antt =====
-- The theorems on the check of a strategy's risk management at concrete inputs.
use text.Mathlib.Text.{◌==◌ as str_eq}
use nat_framework.Prelude.Int
use nat_framework.Prelude.{
  ℕ, ℤ, pos, ◌≡◌, ◌↔◌, refl, true, false, some, none, [], ◌∷◌, if◌then◌else◌,
}
use nat_framework.Account.Codes.{buy, open_off}
use nat_framework.Account.Base.{AccBase, reg_instr, reg_prd, reg_new_instr}
use nat_framework.Risk.Instr.{RiskInstrStg, ok, code}
use nat_framework.Risk.Stg.{RiskStg, Pointed, limits_default}
use nat_framework.Risk.Summary.{RiskPrd}
use nat_framework.Risk.Conf.{Json, init, init_limits}
use nat_framework.Risk.Conf.Margin.{init_stg}
use nat_framework.Risk.Gate.{LastTick, check, check_limits}
use nat_framework.Risk.Gate.Passes.{Kept, check_passes}
use nat_framework.Risk.Gate.Retry.{half_done, half_read, check_retry}
use nat_framework.Tests.{ru2205, one_instr, name_hash, whole, held, limits, books, prd, no_acc}

abbrev own_limits : Pointed (RiskInstrStg ℤ)
own_limits = record {
  limits = record { instr = limits; allowed_price_margin_threshold = pos 5 };
  p_unit_vol = some 6;
}

abbrev pub prd_own : Pointed RiskPrd
prd_own = record {
  limits = record {
    long_volume_threshold = pos 30;
    short_volume_threshold = pos 30;
    net_volume_threshold = pos 30;
  };
  p_unit_vol = some 2;
}

abbrev pub one_held : AccBase ℤ
one_held = record { map_instr = (6, books.instr) ∷ []; map_prd = (2, prd) ∷ []; mod_acc = no_acc }

abbrev pub stg : RiskStg ℤ
stg = record {
  acc_base = one_held;
  map_risk_instr = (6, own_limits) ∷ [];
  map_risk_prd = (2, prd_own) ∷ [];
  risk_acc = record {
    unfilled_ord_cnt_threshold = pos 8;
    amt_long_threshold = pos 9000;
    amt_short_threshold = pos 9000;
    net_amt_threshold = pos 5000;
  };
}

abbrev quiet : LastTick ℤ
quiet = record { ask_px = pos 101; bid_px = pos 99; exch_time = pos 0 }

-- A configuration with one value for every limit but the last, of which there is none.
abbrev pub no_net : Json ℤ ℕ
no_net = record {
  at = λ path c. if str_eq path "/RiskForInstrument/allowed_net_volume" then none else some 1;
  find = λ key c. if str_eq key "default" then some 5 else none;
  to_int = λ c. some (pos c);
  to_double = λ c. some (pos c);
  to_names = λ c. some ("ru" ∷ []);
}

check_passes_example :
    (off2 : ℕ) × (ret : ℤ) × (check ⦃F = whole⦄ no_net 0 name_hash one_instr
        (λ p. pos 1)
        1
        buy
        open_off
        (pos 100)
        (pos 5)
        ru2205
        quiet
        stg
      ≡ some (stg, off2, ret))
    × ((ret ≡ ok)
        ↔ Kept ⦃F = whole⦄ stg own_limits ru2205 prd_own held held buy open_off
            (pos 100)
            (pos 5)
            quiet
            off2)
check_passes_example =
    check_passes ⦃F = whole⦄ no_net 0 name_hash one_instr (λ p. pos 1) 0 buy open_off (pos 100)
      (pos 5) ru2205 quiet stg own_limits prd_own held held refl refl refl refl

abbrev new_stg : RiskStg ℤ
new_stg = record stg { map_risk_instr = [] }

known : (reg_instr ⦃F = whole⦄ name_hash one_instr "ru2205" one_held).1 ≡ true
unfolding reg_instr reg_prd reg_new_instr
known = refl

unread :
    (init_stg ⦃F = whole⦄ no_net 0 one_instr (pos 1) ru2205 (limits_default ⦃F = whole⦄)).1 ≡ false
unfolding init_stg init init_limits Int.◌*ℤ◌
unread = refl

check_retry_example :
    (check ⦃F = whole⦄ no_net 0 name_hash one_instr
        (λ p. pos 1)
        1
        buy
        open_off
        (pos 100)
        (pos 5)
        ru2205
        quiet
        new_stg
      ≡ some (
        half_done ⦃F = whole⦄ no_net 0 name_hash one_instr (λ p. pos 1) ru2205 new_stg,
        open_off,
        code 403,
      ))
    × (check ⦃F = whole⦄ no_net 0 name_hash one_instr
          (λ p. pos 1)
          1
          buy
          open_off
          (pos 100)
          (pos 5)
          ru2205
          quiet
          (half_done ⦃F = whole⦄ no_net 0 name_hash one_instr (λ p. pos 1) ru2205 new_stg)
        ≡ elim (check_limits ⦃F = whole⦄
            (half_done ⦃F = whole⦄ no_net 0 name_hash one_instr (λ p. pos 1) ru2205 new_stg)
            (half_read ⦃F = whole⦄ no_net 0 name_hash one_instr (λ p. pos 1) ru2205 new_stg)
            ru2205
            buy
            open_off
            (pos 100)
            (pos 5)
            quiet) [
              | none ↦ none
              | some (o, ret) ↦ some (
                half_done ⦃F = whole⦄ no_net 0 name_hash one_instr (λ p. pos 1) ru2205 new_stg,
                o,
                ret,
              )
            ])
check_retry_example =
    check_retry ⦃F = whole⦄ no_net 0 name_hash one_instr (λ p. pos 1) ru2205 new_stg 0 0 buy buy
      open_off open_off (pos 100) (pos 100) (pos 5) (pos 5) quiet quiet refl refl refl known refl
      unread

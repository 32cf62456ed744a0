-- ===== src/Tests/Limits.antt =====
-- The theorems on the risk checks at concrete inputs.
use nat_framework.Prelude.{
  ℕ, ℤ, pos, ◌≡◌, ◌⊎◌, ◌↔◌, refl, true, false, some, none, [], ◌∷◌, if◌then◌else◌, arith, int_laws,
}
use nat_framework.Account.Codes.{buy, sell, open_off, close_off}
use nat_framework.Prelude.Int
use nat_framework.Account.Instr.{Linked}
use nat_framework.Account.Instr
use nat_framework.Account.Instr.Conserve.{new_order, trade, handler-Books}
use nat_framework.Account.Vol.{flat}
use nat_framework.Risk.Instr.{ok, check, on_new, is_intensity_normal, parse_auto_offset}
use nat_framework.Risk.Intensity.{Counted, Restarted, on_new_rate}
use nat_framework.Risk.Stg.{RiskStg, Pointed, on_switch_day_fault}
use nat_framework.Risk.Stg
use nat_framework.Risk.Instr.{RiskInstr, RiskInstrStg}
use nat_framework.Risk.Limits.{
  WithinLimits, BuyOffset, SellOffset, check_iff, parse_auto_offset_sound,
}
use nat_framework.Risk.Summary.{RiskAcc}
use nat_framework.Risk.Exposure.{Trader, IsSafe, TraderRun, stay, then_step, send, run-IsSafe}
use text.Mathlib.Text.{◌==◌ as str_eq}
use nat_framework.Risk.Conf.{Json, init, init_limits}
use nat_framework.Risk.Conf.Configured.{IsConfigured, init-IsConfigured}
use nat_framework.Tests.{ru2205, one_instr, whole, held, limits, books, books-Holds, prd, no_acc}

check_iff_example : (check ⦃F = whole⦄ limits held buy open_off (pos 5) (pos 0) ≡ ok) ↔ (
    (limits.is_allowed ≡ true)
    × (is_intensity_normal ⦃F = whole⦄ limits (pos 0) ≡ true)
    × WithinLimits ⦃F = whole⦄ limits held buy open_off (pos 5))
check_iff_example = check_iff ⦃F = whole⦄ limits held buy open_off (pos 5) (pos 0)

calm : is_intensity_normal ⦃F = whole⦄ limits (pos 0) ≡ true
unfolding is_intensity_normal
calm = refl

passes : check ⦃F = whole⦄ limits held buy open_off (pos 5) (pos 0) ≡ ok
passes = (check_iff ⦃F = whole⦄ limits held buy open_off (pos 5) (pos 0)).1 (
  refl,
  calm,
  record {
    size = omega arith;
    long = λ e f. omega int_laws;
    short = λ e f. omega int_laws;
    net_long = λ e. omega int_laws;
    net_short = λ e. omega int_laws;
  },
)

acc_limits : RiskAcc ℤ
acc_limits = record {
  unfilled_ord_cnt_threshold = pos 8;
  amt_long_threshold = pos 9000;
  amt_short_threshold = pos 9000;
  net_amt_threshold = pos 5000;
}

closes : (parse_auto_offset ⦃F = whole⦄ limits held sell close_off (pos 4)).1 ≡ ok
unfolding parse_auto_offset Int.◌-ℤ◌
closes = refl

parse_auto_offset_sound_example :
    ((sell ≡ buy)
      × BuyOffset ⦃F = whole⦄ limits held close_off
          (parse_auto_offset ⦃F = whole⦄ limits held sell close_off (pos 4)).0
          (pos 4))
    ⊎ ((sell ≡ sell)
        × SellOffset ⦃F = whole⦄ limits held close_off
            (parse_auto_offset ⦃F = whole⦄ limits held sell close_off (pos 4)).0
            (pos 4))
parse_auto_offset_sound_example =
    parse_auto_offset_sound ⦃F = whole⦄ limits held sell close_off (pos 4) closes

trader : Trader ℤ
trader = record { risk = limits; books = books }

trader-IsSafe : IsSafe ⦃F = whole⦄ trader
unfolding trader
trader-IsSafe = record {
  long = omega int_laws;
  short = omega int_laws;
  net_long = omega int_laws;
  net_short = omega int_laws;
}

-- The books after an order for five lots that passes.
sent : (c' : Linked ℤ) × (Instr.on_new ⦃F = whole⦄ buy open_off (pos 100) (pos 5) books ≡ some c')
sent =
    let (c', e, _, _) =
      (handler-Books ⦃F = whole⦄ flat _ (new_order buy open_off (pos 100) (pos 5))).run books
        books-Holds in
    (c', e)

after_send : Trader ℤ
after_send = record { risk = on_new ⦃F = whole⦄ (pos 0) limits; books = sent.0 }

send_run : TraderRun ⦃F = whole⦄ trader after_send
unfolding trader after_send
send_run =
    then_step _ _ _ (stay _)
      (send limits buy open_off (pos 100) (pos 5) (pos 0) books sent.0 passes sent.1)

run-IsSafe_example : IsSafe ⦃F = whole⦄ after_send
run-IsSafe_example = run-IsSafe ⦃F = whole⦄ trader after_send send_run trader-IsSafe

traded :
    (c' : Linked ℤ) × (Instr.on_trd ⦃F = whole⦄ buy open_off
        (pos 100)
        (pos 5)
        (pos 2)
        (pos 99)
        (pos 2)
        books
      ≡ some c')
traded =
    let (c', e, _, _) =
      (handler-Books ⦃F = whole⦄ flat _
          (trade buy open_off (pos 100) (pos 5) (pos 2) (pos 99) (pos 2))).run
        books books-Holds in
    (c', e)

on_new_rate_example :
    Counted ⦃F = whole⦄ limits (on_new ⦃F = whole⦄ (pos 0) limits)
    ⊎ Restarted ⦃F = whole⦄ limits (on_new ⦃F = whole⦄ (pos 0) limits) (pos 0)
on_new_rate_example = on_new_rate ⦃F = whole⦄ limits held buy open_off (pos 5) (pos 0) passes

-- A strategy whose only instrument has no position left at the end of the day.
stg_limits : Pointed (RiskInstrStg ℤ)
stg_limits = record {
  limits = record { instr = limits; allowed_price_margin_threshold = pos 5 };
  p_unit_vol = some 6;
}

stg : RiskStg ℤ
stg = record {
  acc_base = record {
    map_instr = (6, record books.instr { unit_vol = flat }) ∷ [];
    map_prd = (2, record prd { unit_vol = flat }) ∷ [];
    mod_acc = no_acc;
  };
  map_risk_instr = (6, stg_limits) ∷ [];
  map_risk_prd = [];
  risk_acc = acc_limits;
}

on_switch_day_fault_example : Stg.on_switch_day ⦃F = whole⦄ stg ≡ none
unfolding stg stg_limits
on_switch_day_fault_example =
    on_switch_day_fault ⦃F = whole⦄ stg 6 6 stg_limits (record books.instr { unit_vol = flat })
      (ground arith) refl refl refl refl

-- A configuration with one default value for every limit, and one product that is allowed.
abbrev all_five : Json ℤ ℕ
all_five = record {
  at = λ path c. some 1;
  find = λ key c. if str_eq key "default" then some 5 else none;
  to_int = λ c. some (pos c);
  to_double = λ c. some (pos c);
  to_names = λ c. some ("ru" ∷ []);
}

abbrev not_read : Pointed (RiskInstr ℤ)
not_read = record { limits = record limits { is_allowed = false }; p_unit_vol = none }

is_read : (init ⦃F = whole⦄ all_five 0 one_instr ru2205 not_read).1 ≡ true
unfolding init init_limits
is_read = refl

init-IsConfigured_example :
    IsConfigured ⦃F = whole⦄ all_five 0 one_instr ru2205
      (init ⦃F = whole⦄ all_five 0 one_instr ru2205 not_read).0.limits
init-IsConfigured_example =
    init-IsConfigured ⦃F = whole⦄ all_five 0 one_instr ru2205 not_read refl is_read

-- ===== src/Tests/Bars.antt =====
-- Bars of one instrument.
use nat_framework.Prelude.{ℕ, ℤ, pos, ◌≤◌, ◌<◌, ◌≡◌, refl, arith, some, List, [], ◌∷◌, inr}
use nat_framework.Prelude.Lists.{length, get_elem?}
use nat_framework.Bar.Spans.{IsDay, get_trading_timespan, get_trading_timespan-IsDay, six_pm}
use nat_framework.Bar.Bar2.{Bar2, UnitedMarketData, new_bar}
use nat_framework.Bar.Generate.{generate_vec_bar}
use nat_framework.Bar.Maker.{BarMaker, index_of, on_tick, get_bar}
use nat_framework.Bar.Cut.{AllProper}
use nat_framework.Bar.Whole.{generate_vec_bar-AllProper}
use nat_framework.Bar.Ticks.{SettledOf, on_tick-keeps}
use nat_framework.Bar.Reader.{get_bar_lem, Reads}
use nat_framework.Tests.{whole, ru2205}

get_trading_timespan-IsDay_example : IsDay (get_trading_timespan six_pm "ag")
get_trading_timespan-IsDay_example = get_trading_timespan-IsDay "ag"

generate_vec_bar-AllProper_example :
    (bars : List (Bar2 ℤ)) × (generate_vec_bar ⦃F = whole⦄ 86402 six_pm ru2205 (pos 2700)
      ≡ some bars)
    × AllProper bars
generate_vec_bar-AllProper_example =
    generate_vec_bar-AllProper ⦃F = whole⦄ ru2205 (pos 2700) (omega arith)

abbrev at_nine : UnitedMarketData ℤ
at_nine = record {
  instr_hash = 6;
  last_px = pos 100;
  cum_vol = pos 10;
  cum_turnover = pos 1000;
  open_interest = pos 50;
  exch_time = pos 1667350800000000000;
}

abbrev minute : ℤ → Bar2 ℤ
minute bgn = record (new_bar ⦃F = whole⦄ 6 "ru2205" (pos 60)) {
  bob = bgn;
  adjust_bob = bgn;
  open_px = pos 99;
}

-- One bar is finished, and the second is current.
abbrev maker : BarMaker ℤ
maker = record {
  instr_hash = 6;
  vec_bar = minute (pos 53940) ∷ minute (pos 54000) ∷ minute (pos 54060) ∷ [];
  bar_idx = pos 1;
  rtn_bar_idx = pos 0;
  last_umd = at_nine;
  exch_nano = pos 0;
}

on_tick-keeps_example :
    (length (on_tick ⦃F = whole⦄ six_pm at_nine maker).vec_bar ≡ 3)
    × (1 ≤ index_of (on_tick ⦃F = whole⦄ six_pm at_nine maker).bar_idx)
    × (index_of (on_tick ⦃F = whole⦄ six_pm at_nine maker).bar_idx ≤ 3)
    × ((j : ℕ)
        → j < 1
        → get_elem? (on_tick ⦃F = whole⦄ six_pm at_nine maker).vec_bar j
          ≡ get_elem? maker.vec_bar j)
    × ((j : ℕ) (b0 : Bar2 ℤ)
        → 1 ≤ j
        → j < index_of (on_tick ⦃F = whole⦄ six_pm at_nine maker).bar_idx
        → get_elem? maker.vec_bar j ≡ some b0
        → SettledOf ⦃F = whole⦄ six_pm at_nine b0
            (get_elem? (on_tick ⦃F = whole⦄ six_pm at_nine maker).vec_bar j))
on_tick-keeps_example = on_tick-keeps ⦃F = whole⦄ six_pm at_nine maker (omega arith)

get_bar_lem_example :
    Reads ⦃F = whole⦄ (some (minute (pos 53940))) (get_bar ⦃F = whole⦄ maker).0
    × ((get_bar ⦃F = whole⦄ maker).1 ≡ record maker { rtn_bar_idx = pos 1 })
get_bar_lem_example = get_bar_lem ⦃F = whole⦄ maker 0 refl (inr (0, refl, omega arith))

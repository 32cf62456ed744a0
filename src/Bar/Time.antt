-- ===== src/Bar/Time.antt =====
-- src/bar/BarHelper.cpp: seconds within a trading day, which begins at `intra_day_base_sec`. The
-- division of C++ cuts towards 0.
use nat_framework.Prelude.{ℕ, suc, ◌/◌, ◌*◌, ℤ, pos, negsuc, ◌+ℤ◌, ◌-ℤ◌}
use nat_framework.Prelude.Int.{sub_ℕ}

abbrev pub div_trunc : ℤ → ℕ → ℤ
div_trunc (pos a) n = pos (a / n)
div_trunc (negsuc a) n = sub_ℕ 0 (suc a / n)

abbrev pub times : ℤ → ℕ → ℤ
times (pos a) n = pos (a * n)
times (negsuc a) n = sub_ℕ 0 (suc a * n)

unfoldable pub get_base_sec : ℤ → ℤ → ℤ
get_base_sec base nano =
    times (div_trunc (div_trunc nano 1000000000 +ℤ pos 28800 -ℤ base) 86400) 86400
    -ℤ pos 28800
    +ℤ base

unfoldable pub get_base_interval_from_bjt_sec : ℤ → ℕ → ℤ
get_base_interval_from_bjt_sec base bjt_sec =
    let n = pos bjt_sec -ℤ base +ℤ pos 86400 in n -ℤ times (div_trunc n 86400) 86400

unfoldable pub get_base_interval_from_nano : ℤ → ℤ → ℤ
get_base_interval_from_nano base nano = div_trunc nano 1000000000 -ℤ get_base_sec base nano

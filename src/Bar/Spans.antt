-- ===== src/Bar/Spans.antt =====
-- src/bar/BarMaker.cpp: the hours at which a product is traded.
use Prim.Native.String.{String}
use text.Mathlib.Text.{◌==◌ as str_eq}
use nat_framework.Prelude.{
  ℕ, ◌+◌, ◌*◌, ℤ, pos, ◌+ℤ◌, ◌≤ℤ◌, Bool, true, false, ◌||◌, List, [], ◌∷◌, if◌then◌else◌, arith,
}
use nat_framework.Prelude.Int
use nat_framework.Bar.Time.{get_base_interval_from_bjt_sec}

pub record TimeSpan : Type 0 where
  pub bgn_sec : ℤ
  pub end_sec : ℤ
  pub is_auction : Bool

-- A span between two times of the day.
abbrev pub span : ℤ → ℕ × ℕ → ℕ × ℕ → Bool → TimeSpan
span base (h, m) (h', m') is_auction = record {
  bgn_sec = get_base_interval_from_bjt_sec base (h * 3600 + m * 60);
  end_sec = get_base_interval_from_bjt_sec base (h' * 3600 + m' * 60);
  is_auction = is_auction;
}

abbrev pub one_of : String → List String → Bool
one_of prd [] = false
one_of prd (name ∷ names) = str_eq prd name || one_of prd names

abbrev pub day_spans : ℤ → List TimeSpan
day_spans base =
    span base (8, 59) (9, 0) true
    ∷ span base (9, 0) (10, 15) false
    ∷ span base (10, 30) (11, 30) false
    ∷ span base (13, 30) (15, 0) false
    ∷ []

-- The night's auction and trade until `end_time`, then the day.
abbrev pub night_spans : ℤ → ℕ × ℕ → List TimeSpan
night_spans base end_time =
    span base (20, 59) (21, 0) true ∷ span base (21, 0) end_time false ∷ day_spans base

abbrev pub index_spans : ℤ → List TimeSpan
index_spans base =
    span base (9, 29) (9, 30) true
    ∷ span base (9, 30) (11, 30) false
    ∷ span base (13, 0) (15, 0) false
    ∷ []

abbrev pub bond_spans : ℤ → List TimeSpan
bond_spans base =
    span base (9, 14) (9, 15) true
    ∷ span base (9, 15) (11, 30) false
    ∷ span base (13, 0) (15, 15) false
    ∷ []

abbrev pub default_spans : List TimeSpan
default_spans = record { bgn_sec = pos 0; end_sec = pos 86399; is_auction = false } ∷ []

unfoldable pub get_trading_timespan : ℤ → String → List TimeSpan
get_trading_timespan base prd =
    if one_of prd ("IC" ∷ "IF" ∷ "IH" ∷ [])
    then index_spans base
    else if one_of prd ("T" ∷ "TF" ∷ "TS" ∷ [])
    then bond_spans base
    else if one_of prd (
        "AP" ∷ "JR" ∷ "LR" ∷ "PM" ∷ "RI" ∷ "RS" ∷ "SF" ∷ "SM" ∷ "WH" ∷ "bb" ∷ "c" ∷ "cs" ∷ "fb"
        ∷ "jd" ∷ "l" ∷ "pp" ∷ "v" ∷ "fu" ∷ "wr" ∷ [])
    then day_spans base
    else if one_of prd (
        "CF" ∷ "CY" ∷ "FG" ∷ "MA" ∷ "OI" ∷ "RM" ∷ "SR" ∷ "TA" ∷ "ZC" ∷ "a" ∷ "b" ∷ "i" ∷ "j" ∷ "jm"
        ∷ "m" ∷ "p" ∷ "y" ∷ [])
    then night_spans base (23, 30)
    else if one_of prd ("bu" ∷ "hc" ∷ "rb" ∷ "ru" ∷ [])
    then night_spans base (23, 0)
    else if one_of prd ("al" ∷ "cu" ∷ "ni" ∷ "pb" ∷ "sn" ∷ "zn" ∷ [])
    then night_spans base (1, 0)
    else if one_of prd ("ag" ∷ "au" ∷ "sc" ∷ [])
    then night_spans base (2, 30)
    else default_spans

-- No span is empty, and each begins where the one before has ended, or later, up to a day's end.
abbrev pub Ascending : ℤ → List TimeSpan → Type 0
Ascending lo [] = lo ≤ℤ pos 86400
Ascending lo (ts ∷ spans) =
    (lo ≤ℤ ts.bgn_sec) × (ts.bgn_sec +ℤ pos 1 ≤ℤ ts.end_sec) × Ascending ts.end_sec spans

-- The base that is set unless a client sets another.
abbrev pub six_pm : ℤ
six_pm = pos 64800

-- The spans of a day.
pub record IsDay (spans : List TimeSpan) : Type 0 where
  pub ascending : Ascending (pos 0) spans

either : (c : Bool) (a b : List TimeSpan) → IsDay a → IsDay b → IsDay (if c then a else b)
either true a b p q = p
either false a b p q = q

index_spans-IsDay : IsDay (index_spans six_pm)
unfolding get_base_interval_from_bjt_sec Int.◌+ℤ◌ Int.◌-ℤ◌
index_spans-IsDay = record { ascending = ground arith }

bond_spans-IsDay : IsDay (bond_spans six_pm)
unfolding get_base_interval_from_bjt_sec Int.◌+ℤ◌ Int.◌-ℤ◌
bond_spans-IsDay = record { ascending = ground arith }

day_spans-IsDay : IsDay (day_spans six_pm)
unfolding get_base_interval_from_bjt_sec Int.◌+ℤ◌ Int.◌-ℤ◌
day_spans-IsDay = record { ascending = ground arith }

default_spans-IsDay : IsDay default_spans
unfolding Int.◌+ℤ◌
default_spans-IsDay = record { ascending = ground arith }

night_spans-IsDay :
    IsDay (night_spans six_pm (23, 30))
    × IsDay (night_spans six_pm (23, 0))
    × IsDay (night_spans six_pm (1, 0))
    × IsDay (night_spans six_pm (2, 30))
unfolding get_base_interval_from_bjt_sec Int.◌+ℤ◌ Int.◌-ℤ◌
night_spans-IsDay = (
  record { ascending = ground arith },
  record { ascending = ground arith },
  record { ascending = ground arith },
  record { ascending = ground arith },
)

-- For every product, with the default base of the day, the spans at which it is traded are not
-- empty, follow each other without overlap, and lie within one day.
pub get_trading_timespan-IsDay : (prd : String) → IsDay (get_trading_timespan six_pm prd)
unfolding get_trading_timespan
get_trading_timespan-IsDay prd =
    let (n1, n2, n3, n4) = night_spans-IsDay in
    either _ _ _ index_spans-IsDay (
      either _ _ _ bond_spans-IsDay (
        either _ _ _ day_spans-IsDay (
          either _ _ _ n1
            (either _ _ _ n2 (either _ _ _ n3 (either _ _ _ n4 default_spans-IsDay))))))

-- ===== src/Risk/Conf.antt =====
-- src/risk/ConfUtil.h, and the `init` of src/risk/RiskInstr.cpp: the limits that the configuration
-- sets. The JSON values are another library's: a type `J` with the accesses that the code makes,
-- none where they throw. An exception inside `init` is caught and ends it. The account that the
-- code is given is not null and has the instrument.
pub mod Configured
pub mod Summary
pub mod Margin
use Prim.Native.String.{String}
use nat_framework.Prelude.{
  ℤ, pos, Bool, true, false, ◌≡◌, refl, Option, none, some, List, if◌then◌else◌, arith, ◌⊎◌, inl,
  inr, ◌↔◌, sym, ◌∙◌, Option-cases,
}
use nat_framework.Prelude.Map.{Map}
use nat_framework.Double.{Double, of_int, ◌⊗◌}
use nat_framework.TradeBase.{InstrumentInfo}
use nat_framework.TradeBase.Info.{product_or_instrument_to_instr_set, has}
use nat_framework.TradeBase.Meant.{NamedOrItself, product_or_instrument_to_instr_set_iff}
use nat_framework.Risk.Instr.{RiskInstr}
use nat_framework.Risk.Stg.{Pointed}

pub record Json (D J : Type 0) : Type 0 where
  pub at : String → J → Option J
  pub find : String → J → Option J
  pub to_int : J → Option ℤ
  pub to_double : J → Option D
  pub to_names : J → Option (List String)

-- The value of an instrument before that of its product, and that before the default.
abbrev pub get_value :
    {A J : Type 0} → (String → J → Option J) → (J → Option A) → J → String → String → Option A
get_value find conv conf prd instr = elim (find instr conf) [
  | some v ↦ conv v
  | none ↦ elim (find prd conf) [
    | some v ↦ conv v
    | none ↦ elim (find "default" conf) [ some v ↦ conv v | none ↦ none ]
  ]
]

-- One value is read, unless an earlier one was not; `false` ends the reading.
abbrev pub read_into : {A R : Type 0} → Option A → (A → R → R) → R × Bool → R × Bool
read_into v put (r, true) = elim v [ none ↦ (r, false) | some a ↦ (put a r, true) ]
read_into v put (r, false) = (r, false)

module _ {D : Type 0} ⦃F : Double D⦄ where
  abbrev pub put_size : ℤ → RiskInstr D → RiskInstr D
  put_size x r = record r { allowed_order_size_threshold = x }

  abbrev pub put_count : ℤ → RiskInstr D → RiskInstr D
  put_count x r = record r { intensity_cycle_order_count_threshold = x }

  abbrev pub put_span : D → RiskInstr D → RiskInstr D
  put_span x r = record r { intensity_cycle_time_span_threshold = x ⊗ of_int (pos 1000000000) }

  abbrev pub put_long : ℤ → RiskInstr D → RiskInstr D
  put_long x r = record r { long_volume_threshold = x }

  abbrev pub put_short : ℤ → RiskInstr D → RiskInstr D
  put_short x r = record r { short_volume_threshold = x }

  abbrev pub put_net : ℤ → RiskInstr D → RiskInstr D
  put_net x r = record r { net_volume_threshold = x }

module _ {D J : Type 0} ⦃F : Double D⦄ (json : Json D J) (conf : J)
    (info : Map InstrumentInfo) where
  abbrev pub value_at : {A : Type 0} → (J → Option A) → String → InstrumentInfo → Option A
  value_at conv path p = elim (json.at path conf) [
    | none ↦ none
    | some c ↦ get_value json.find conv c p.product p.instr
  ]

  abbrev pub allowed_names : Option (List String)
  allowed_names = elim (json.at "/RiskForGeneral/allowed_instrument" conf) [
    | none ↦ none
    | some c ↦ json.to_names c
  ]

  abbrev pub allow : InstrumentInfo → List String → RiskInstr D → RiskInstr D
  allow p names r =
      if has p.instr (product_or_instrument_to_instr_set names info)
      then record r { is_allowed = true }
      else r

  abbrev pub conf_size : InstrumentInfo → Option ℤ
  conf_size p = value_at json.to_int "/RiskForOrder/allowed_order_size" p

  abbrev pub conf_count : InstrumentInfo → Option ℤ
  conf_count p = value_at json.to_int "/RiskForOrder/intensity_cycle_order_count" p

  abbrev pub conf_span : InstrumentInfo → Option D
  conf_span p = value_at json.to_double "/RiskForOrder/intensity_cycle_time_span" p

  abbrev pub conf_long : InstrumentInfo → Option ℤ
  conf_long p = value_at json.to_int "/RiskForInstrument/allowed_long_volume" p

  abbrev pub conf_short : InstrumentInfo → Option ℤ
  conf_short p = value_at json.to_int "/RiskForInstrument/allowed_short_volume" p

  abbrev pub conf_net : InstrumentInfo → Option ℤ
  conf_net p = value_at json.to_int "/RiskForInstrument/allowed_net_volume" p

  -- The values in the order in which they are read.
  abbrev pub with_allowed : InstrumentInfo → RiskInstr D → RiskInstr D × Bool
  with_allowed p r = read_into allowed_names (allow p) (r, true)

  abbrev pub with_size : InstrumentInfo → RiskInstr D → RiskInstr D × Bool
  with_size p r = read_into (conf_size p) put_size (with_allowed p r)

  abbrev pub with_count : InstrumentInfo → RiskInstr D → RiskInstr D × Bool
  with_count p r = read_into (conf_count p) put_count (with_size p r)

  abbrev pub with_span : InstrumentInfo → RiskInstr D → RiskInstr D × Bool
  with_span p r = read_into (conf_span p) put_span (with_count p r)

  abbrev pub with_long : InstrumentInfo → RiskInstr D → RiskInstr D × Bool
  with_long p r = read_into (conf_long p) put_long (with_span p r)

  abbrev pub with_short : InstrumentInfo → RiskInstr D → RiskInstr D × Bool
  with_short p r = read_into (conf_short p) put_short (with_long p r)

  unfoldable pub init_limits : InstrumentInfo → RiskInstr D → RiskInstr D × Bool
  init_limits p r = read_into (conf_net p) put_net (with_short p r)

  -- The pointer into the account is set first, to the record of the instrument there.
  unfoldable pub init : InstrumentInfo → Pointed (RiskInstr D) → Pointed (RiskInstr D) × Bool
  init p l =
      let (r, ok) = init_limits p l.limits in
      (record { limits = r; p_unit_vol = some p.instr_hash }, ok)

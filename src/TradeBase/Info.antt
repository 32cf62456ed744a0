-- ===== src/TradeBase/Info.antt =====
-- src/common/CTradeBaseInfo.cpp: the table of instruments of a process.
use Prim.Native.String.{String}
use text.Mathlib.Text.{◌==◌ as str_eq}
use nat_framework.Prelude.{
  ℕ, zero, suc, Bool, true, false, ◌||◌, if◌then◌else◌, List, [], ◌∷◌, ◌++◌,
}
use nat_framework.Prelude.Map.{Map, insert}
use nat_framework.TradeBase.{InstrumentInfo}

-- `is_called_back` is whether a callback is set, and `calls` the days that it was called with.
pub record TradeBaseInfo : Type 0 where
  pub is_init : Bool
  pub trading_day : String
  pub instr_info : Map InstrumentInfo
  pub is_called_back : Bool
  pub calls : List String

-- `tIOTDBaseInfo`: the instruments as they stand in the message.
pub record TdBaseInfo : Type 0 where
  pub trading_day : String
  pub instr : List InstrumentInfo

abbrev pub add_all : List InstrumentInfo → Map InstrumentInfo → Map InstrumentInfo
add_all [] m = m
add_all (p ∷ ps) m = add_all ps (insert p.instr_hash p m)

unfoldable pub set_info : TdBaseInfo → TradeBaseInfo → TradeBaseInfo
set_info p t = record t {
  is_init = true;
  trading_day = p.trading_day;
  instr_info = add_all p.instr [];
}

unfoldable pub update : TdBaseInfo → TradeBaseInfo → TradeBaseInfo × Bool
update p t =
    let s = set_info p t in
    if str_eq t.trading_day p.trading_day
    then (t, false)
    else if s.is_called_back
    then (record s { calls = s.calls ++ s.trading_day ∷ [] }, true)
    else (s, true)

abbrev pub values : Map InstrumentInfo → List InstrumentInfo
values [] = []
values ((k, p) ∷ m) = p ∷ values m

-- The first characters of a text. A character stands for a byte, none of which is 0.
abbrev pub cut : ℕ → String → String
cut zero s = ""
cut (suc n) String.[] = ""
cut (suc n) (String.◌∷◌ c s) = String.◌∷◌ c (cut n s)

-- The message without its head. `strncpy` copies at most 11 characters of the day into its 12
-- bytes, of which the last stays 0.
unfoldable pub to_sys_io_struct : TradeBaseInfo → TdBaseInfo
to_sys_io_struct t = record { trading_day = cut 11 t.trading_day; instr = values t.instr_info }

unfoldable pub add_instr_info : InstrumentInfo → TradeBaseInfo → TradeBaseInfo
add_instr_info p t = record t { instr_info = insert p.instr_hash p t.instr_info }

abbrev pub is_all : String → Bool
is_all name = str_eq name "all" || str_eq name "All"

unfoldable pub get_instr_in_product : String → Map InstrumentInfo → List InstrumentInfo
get_instr_in_product product [] = []
get_instr_in_product product ((k, p) ∷ m) =
    let rest = get_instr_in_product product m in
    if str_eq product p.product || is_all product then p ∷ rest else rest

-- `std::set<string>`, whose order is left open.
abbrev pub has : String → List String → Bool
has x [] = false
has x (y ∷ ys) = str_eq x y || has x ys

abbrev pub put : String → List String → List String
put x ys = if has x ys then ys else x ∷ ys

abbrev pub is_meant : String → InstrumentInfo → Bool
is_meant name p = str_eq name p.instr || str_eq name p.product || is_all name

abbrev pub put_meant : String → Map InstrumentInfo → List String → List String
put_meant name [] res = res
put_meant name ((k, p) ∷ m) res =
    put_meant name m (if is_meant name p then put p.instr res else res)

abbrev pub put_names : List String → Map InstrumentInfo → List String → List String
put_names [] m res = res
put_names (name ∷ names) m res = put_names names m (put_meant name m res)

unfoldable pub product_to_instr_set : List String → Map InstrumentInfo → List String
product_to_instr_set names m = put_names names m []

abbrev pub put_meant_or_name : String → Map InstrumentInfo → List String → List String
put_meant_or_name name [] res = res
put_meant_or_name name ((k, p) ∷ m) res =
    put_meant_or_name name m (put (if is_meant name p then p.instr else name) res)

abbrev pub put_all_names : List String → Map InstrumentInfo → List String → List String
put_all_names [] m res = res
put_all_names (name ∷ names) m res = put_all_names names m (put_meant_or_name name m res)

unfoldable pub product_or_instrument_to_instr_set : List String → Map InstrumentInfo → List String
product_or_instrument_to_instr_set names m = put_all_names names m []

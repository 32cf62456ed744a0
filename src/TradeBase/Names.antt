-- ===== src/TradeBase/Names.antt =====
-- src/common/CTradeBaseInfo.cpp: messages about the table, and the names that are meant.
use Prim.Native.Nat.{◌≤◌}
use Prim.Native.String.{String}
use text.Mathlib.Text.{◌==◌ as str_eq}
use text.Mathlib.TextEquality.{eq_iff}
use text.Mathlib.TextPositions.{eq_refl as str_refl}
use nat_framework.Prelude.{
  ℕ, zero, suc, ap, ◌≡◌, refl, Bool, true, false, ◌&&◌, ◌||◌, if◌then◌else◌, none, some, List, [],
  ◌∷◌, arith, Bool-cases, inl, inr, ◌==◌,
}
use nat_framework.Prelude.Map.{Map, lookup, insert, lookup-insert}
use nat_framework.TradeBase.{InstrumentInfo}
use nat_framework.TradeBase.Info.{
  TradeBaseInfo, cut, add_all, set_info, values, to_sys_io_struct, has, put, is_meant, put_meant,
  put_names, product_to_instr_set, put_meant_or_name, put_all_names,
  product_or_instrument_to_instr_set,
}

-- Every instrument stands under its own hash, and no hash stands twice.
abbrev pub IsKeyed : Map InstrumentInfo → Type 0
IsKeyed [] = Unit
IsKeyed ((k, p) ∷ m) = (p.instr_hash ≡ k) × (lookup k m ≡ none) × IsKeyed m

insert-IsKeyed :
    (p : InstrumentInfo) (m : Map InstrumentInfo) → IsKeyed m → IsKeyed (insert p.instr_hash p m)
insert-IsKeyed p [] h = (refl, refl, tt)
insert-IsKeyed p (e ∷ m) h =
    ground (arith, insert-IsKeyed p m h.2, lookup-insert e.0 p.instr_hash p m)

add_all-IsKeyed :
    (ps : List InstrumentInfo) (m : Map InstrumentInfo) → IsKeyed m → IsKeyed (add_all ps m)
add_all-IsKeyed [] m h = h
add_all-IsKeyed (p ∷ ps) m h = add_all-IsKeyed ps (insert p.instr_hash p m) (insert-IsKeyed p m h)

-- What is looked up after instruments were added, where none is given twice.
lookup-add_all :
    (h : ℕ) (src m : Map InstrumentInfo)
    → IsKeyed src
    → lookup h (add_all (values src) m)
      ≡ elim (lookup h src) [ none ↦ lookup h m | some p ↦ some p ]
lookup-add_all h [] m k = refl
lookup-add_all h ((j, p) ∷ src) m (e, f, k) =
    ground
      (arith, lookup-add_all h src (insert p.instr_hash p m) k, lookup-insert h p.instr_hash p m)

abbrev pub chars : String → ℕ
chars String.[] = 0
chars (String.◌∷◌ c s) = suc (chars s)

cut_short : (n : ℕ) (s : String) → chars s ≤ n → cut n s ≡ s
cut_short zero String.[] h = refl
cut_short zero (String.◌∷◌ c s) h = absurd (omega (arith, h))
cut_short (suc n) String.[] h = refl
cut_short (suc n) (String.◌∷◌ c s) h = ap (String.◌∷◌ c) (cut_short n s (omega (arith, h)))

-- A table that is set from the message of another one, in which every instrument stands under its
-- own hash and none twice, and whose day has at most 11 characters, has its day and finds the
-- same instruments, and keeps each under its own hash and none twice.
pub set_info-to_sys_io_struct :
    (t t' : TradeBaseInfo) (h : ℕ)
    → IsKeyed t.instr_info
    → chars t.trading_day ≤ 11
    → ((set_info (to_sys_io_struct t) t').trading_day ≡ t.trading_day)
      × (lookup h (set_info (to_sys_io_struct t) t').instr_info ≡ lookup h t.instr_info)
      × IsKeyed (set_info (to_sys_io_struct t) t').instr_info
unfolding set_info to_sys_io_struct
set_info-to_sys_io_struct t t' h k short = (
  cut_short 11 t.trading_day short,
  ground (arith, lookup-add_all h t.instr_info [] k),
  add_all-IsKeyed (values t.instr_info) [] tt,
)

-- The instrument `x` is in the table and the name means it.
abbrev pub means : String → String → Map InstrumentInfo → Bool
means x name [] = false
means x name ((k, p) ∷ m) = (is_meant name p && str_eq x p.instr) || means x name m

abbrev pub one_means : String → List String → Map InstrumentInfo → Bool
one_means x [] m = false
one_means x (name ∷ names) m = means x name m || one_means x names m

same_name : (x y : String) → str_eq x y ≡ true → x ≡ y
same_name x y h = (eq_iff x y).0 h

pub has-put : (x y : String) (ys : List String) → has x (put y ys) ≡ (str_eq x y || has x ys)
has-put x y ys = ground (arith, same_name x y)

has-put_meant :
    (x name : String) (m : Map InstrumentInfo) (res : List String)
    → has x (put_meant name m res) ≡ (means x name m || has x res)
has-put_meant x name [] res = refl
has-put_meant x name ((k, p) ∷ m) res = ground (
  arith,
  has-put_meant x name m (if is_meant name p then put p.instr res else res),
  has-put x p.instr res,
)

has-put_names :
    (x : String) (names : List String) (m : Map InstrumentInfo) (res : List String)
    → has x (put_names names m res) ≡ (one_means x names m || has x res)
has-put_names x [] m res = refl
has-put_names x (name ∷ names) m res =
    ground (arith, has-put_names x names m (put_meant name m res), has-put_meant x name m res)

-- A name is in the set for a list of names exactly if an instrument of the table has it, and one
-- of the list is that instrument's name or product, or stands for all.
pub has-product_to_instr_set :
    (x : String) (names : List String) (m : Map InstrumentInfo)
    → has x (product_to_instr_set names m) ≡ one_means x names m
unfolding product_to_instr_set
has-product_to_instr_set x names m = ground (arith, has-put_names x names m [])

put-keeps : (x y : String) (ys : List String) → has x ys ≡ true → has x (put y ys) ≡ true
put-keeps x y ys h = ground (arith, has-put x y ys)

put_meant_or_name-keeps :
    (x name : String) (m : Map InstrumentInfo) (res : List String)
    → has x res ≡ true
    → has x (put_meant_or_name name m res) ≡ true
put_meant_or_name-keeps x name [] res h = h
put_meant_or_name-keeps x name ((k, p) ∷ m) res h =
    put_meant_or_name-keeps x name m _
      (put-keeps x (if is_meant name p then p.instr else name) res h)

put_all_names-keeps :
    (x : String) (names : List String) (m : Map InstrumentInfo) (res : List String)
    → has x res ≡ true
    → has x (put_all_names names m res) ≡ true
put_all_names-keeps x [] m res h = h
put_all_names-keeps x (name ∷ names) m res h =
    put_all_names-keeps x names m _ (put_meant_or_name-keeps x name m res h)

put_meant_or_name-literal :
    (name : String) (h : ℕ) (p : InstrumentInfo) (m : Map InstrumentInfo) (res : List String)
    → lookup h m ≡ some p
    → is_meant name p ≡ false
    → has name (put_meant_or_name name m res) ≡ true
put_meant_or_name-literal name h p [] res e n = cc
put_meant_or_name-literal name h p ((k, q) ∷ m) res e n = elim (Bool-cases (h == k)) [
  | inl here ↦
      let eq : q ≡ p = ground arith in
      put_meant_or_name-keeps name name m _ (ground (arith, has-put name name res, str_refl name))
  | inr there ↦ put_meant_or_name-literal name h p m _ (ground arith) n
]

put_all_names-literal :
    (name : String) (names : List String) (h : ℕ) (p : InstrumentInfo) (m : Map InstrumentInfo)
    (res : List String)
    → lookup h m ≡ some p
    → is_meant name p ≡ false
    → has name names ≡ true
    → has name (put_all_names names m res) ≡ true
put_all_names-literal name [] h p m res e n i = absurd (ground arith)
put_all_names-literal name (y ∷ names) h p m res e n i = elim (Bool-cases (str_eq name y)) [
  | inl same ↦
      let eq : name ≡ y = same_name name y same in
      put_all_names-keeps name names m _
        (ground (arith, put_meant_or_name-literal name h p m res e n))
  | inr differs ↦ put_all_names-literal name names h p m _ e n (ground arith)
]

-- A name that is asked for is in the set as it is, unless it means every instrument.
pub product_or_instrument-literal :
    (name : String) (names : List String) (h : ℕ) (p : InstrumentInfo) (m : Map InstrumentInfo)
    → has name names ≡ true
    → lookup h m ≡ some p
    → is_meant name p ≡ false
    → has name (product_or_instrument_to_instr_set names m) ≡ true
unfolding product_or_instrument_to_instr_set
product_or_instrument-literal name names h p m i e n =
    put_all_names-literal name names h p m [] e n i

-- ===== src/TradeBase/Exchange.antt =====
-- src/common/CTradeBaseInfo.cpp: the codes of the exchanges and their names.
use Prim.Native.String.{String}
use text.Mathlib.Text.{◌==◌ as str_eq}
use nat_framework.Prelude.{
  ℕ, ℤ, pos, negsuc, ◌≡◌, ◌⊎◌, refl, if◌then◌else◌, Option, none, some, arith, ◌==◌, inl, inr,
}

unfoldable pub exchange_str2int : String → ℤ
exchange_str2int exch =
    if str_eq exch "SSE"
    then pos 100
    else if str_eq exch "SZE"
    then pos 101
    else if str_eq exch "CFFEX"
    then pos 102
    else if str_eq exch "SHFE"
    then pos 103
    else if str_eq exch "DCE"
    then pos 104
    else if str_eq exch "CZCE"
    then pos 105
    else if str_eq exch "INE"
    then pos 106
    else if str_eq exch "SGE"
    then pos 107
    else negsuc 0

unfoldable pub exchangeint2str : ℕ → Option String
exchangeint2str exch =
    if exch == 100
    then some "SSE"
    else if exch == 101
    then some "SZE"
    else if exch == 102
    then some "CFFEX"
    else if exch == 103
    then some "SHFE"
    else if exch == 104
    then some "DCE"
    else if exch == 105
    then some "CZCE"
    else if exch == 106
    then some "INE"
    else if exch == 107
    then some "SGE"
    else none

code_names :
    (exch : ℕ) (name : String)
    → exchangeint2str exch ≡ some name
    → ((exch ≡ 100) × (name ≡ "SSE"))
      ⊎ (((exch ≡ 101) × (name ≡ "SZE"))
          ⊎ (((exch ≡ 102) × (name ≡ "CFFEX"))
              ⊎ (((exch ≡ 103) × (name ≡ "SHFE"))
                  ⊎ (((exch ≡ 104) × (name ≡ "DCE"))
                      ⊎ (((exch ≡ 105) × (name ≡ "CZCE"))
                          ⊎ (((exch ≡ 106) × (name ≡ "INE"))
                              ⊎ (((exch ≡ 107) × (name ≡ "SGE")))))))))
unfolding exchangeint2str
code_names exch name e = ground arith

-- A name that a code has has that code.
pub exchange_str2int-exchangeint2str :
    (exch : ℕ) (name : String) → exchangeint2str exch ≡ some name → exchange_str2int name ≡ pos exch
unfolding exchange_str2int
exchange_str2int-exchangeint2str exch name e = elim (code_names exch name e) [
  | inl (a, b) ↦ rw (a, b) refl
  | inr (inl (a, b)) ↦ rw (a, b) refl
  | inr (inr (inl (a, b))) ↦ rw (a, b) refl
  | inr (inr (inr (inl (a, b)))) ↦ rw (a, b) refl
  | inr (inr (inr (inr (inl (a, b))))) ↦ rw (a, b) refl
  | inr (inr (inr (inr (inr (inl (a, b)))))) ↦ rw (a, b) refl
  | inr (inr (inr (inr (inr (inr (inl (a, b))))))) ↦ rw (a, b) refl
  | inr (inr (inr (inr (inr (inr (inr ((a, b)))))))) ↦ rw (a, b) refl
]

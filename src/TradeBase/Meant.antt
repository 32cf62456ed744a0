-- ===== src/TradeBase/Meant.antt =====
-- src/common/CTradeBaseInfo.cpp: which instruments a list of names means.
use Prim.Native.String.{String}
use mathlib.Core.Path.{subst}
use mathlib.Core.List.{Memᴰ}
use mathlib.Core.List.Memᴰ
use text.Mathlib.Text.{◌==◌ as str_eq}
use text.Mathlib.TextEquality.{eq_iff}
use nat_framework.Prelude.{
  ℕ, ◌≡◌, refl, sym, ◌∙◌, ◌⊎◌, inl, inr, ◌↔◌, Bool, true, false, ◌&&◌, ◌||◌, ap, if◌then◌else◌,
  List, [], ◌∷◌, arith, Bool-cases,
}
use nat_framework.Prelude.Map.{Map}
use nat_framework.TradeBase.{InstrumentInfo}
use nat_framework.TradeBase.Info.{
  has, put, is_meant, put_meant_or_name, put_all_names, product_to_instr_set,
  product_or_instrument_to_instr_set,
}
use nat_framework.TradeBase.Names.{means, one_means, has-put, has-product_to_instr_set}

-- The name is the instrument's or its product's, or stands for all.
abbrev pub IsNameOf : String → InstrumentInfo → Type 0
IsNameOf name q = (name ≡ q.instr) ⊎ ((name ≡ q.product) ⊎ ((name ≡ "all") ⊎ (name ≡ "All")))

-- One of the names is that of an instrument of the table called `x`.
pub Named : String → List String → Map InstrumentInfo → Type 0
Named x names m =
    (name : String) × Memᴰ name names
    × (k : ℕ) × (q : InstrumentInfo) × Memᴰ (k, q) m
    × IsNameOf name q
    × (x ≡ q.instr)

is_meant_iff : (name : String) (q : InstrumentInfo) → (is_meant name q ≡ true) ↔ IsNameOf name q
is_meant_iff name q = (
  (λ e. elim (Bool-cases (str_eq name q.instr)) [
    | inl a ↦ inl ((eq_iff name q.instr).0 a)
    | inr a ↦ elim (Bool-cases (str_eq name q.product)) [
      | inl b ↦ inr (inl ((eq_iff name q.product).0 b))
      | inr b ↦ elim (Bool-cases (str_eq name "all")) [
        | inl c ↦ inr (inr (inl ((eq_iff name "all").0 c)))
        | inr c ↦ inr (inr (inr ((eq_iff name "All").0 (ground (arith, a, b, c)))))
      ]
    ]
  ]),
  λ h. elim h [
    | inl a ↦ ground (arith, (eq_iff name q.instr).1 a)
    | inr (inl b) ↦ ground (arith, (eq_iff name q.product).1 b)
    | inr (inr (inl c)) ↦ ground (arith, (eq_iff name "all").1 c)
    | inr (inr (inr d)) ↦ ground (arith, (eq_iff name "All").1 d)
  ],
)

has_iff : (x : String) (ys : List String) → (has x ys ≡ true) ↔ Memᴰ x ys
has_iff x [] = ((λ e. absurd (ground arith)), λ h. absurd (Memᴰ.not-nil h))
has_iff x (y ∷ ys) = (
  (λ e. elim (Bool-cases (str_eq x y)) [
    | inl a ↦ Memᴰ.head ((eq_iff x y).0 a)
    | inr a ↦ Memᴰ.tail ((has_iff x ys).0 (ground (arith, a)))
  ]),
  λ h. elim (Memᴰ.cases_cons h) [
    | inl a ↦ ground (arith, (eq_iff x y).1 a)
    | inr a ↦ ground (arith, (has_iff x ys).1 a)
  ],
)

-- One instrument of the table whose name is `x` and that is meant.
abbrev Meant : String → String → Map InstrumentInfo → Type 0
Meant x name m = (k : ℕ) × (q : InstrumentInfo) × Memᴰ (k, q) m × IsNameOf name q × (x ≡ q.instr)

means_iff : (x name : String) (m : Map InstrumentInfo) → (means x name m ≡ true) ↔ Meant x name m
means_iff x name [] = ((λ e. absurd (ground arith)), λ h. absurd (Memᴰ.not-nil h.2))
means_iff x name ((j, p) ∷ m) = (
  (λ e. elim (Bool-cases (is_meant name p && str_eq x p.instr)) [
    | inl a ↦ (
      j,
      p,
      Memᴰ.head refl,
      (is_meant_iff name p).0 (ground (arith, a)),
      (eq_iff x p.instr).0 (ground (arith, a)),
    )
    | inr a ↦
        let (k, q, i, h, ex) = (means_iff x name m).0 (ground (arith, a)) in
        (k, q, Memᴰ.tail i, h, ex)
  ]),
  λ (k, q, i, h, ex). elim (Memᴰ.cases_cons i) [
    | inl eq ↦
        let same : q ≡ p = ap (λ (e : ℕ × InstrumentInfo). e.1) eq in
        ground (
          arith,
          (is_meant_iff name p).1 (subst (IsNameOf name) same h),
          (eq_iff x p.instr).1 (ex ∙ ap (λ (r : InstrumentInfo). r.instr) same),
        )
    | inr there ↦ ground (arith, (means_iff x name m).1 (k, q, there, h, ex))
  ],
)

one_means_iff :
    (x : String) (names : List String) (m : Map InstrumentInfo)
    → (one_means x names m ≡ true) ↔ Named x names m
unfolding Named
one_means_iff x [] m = ((λ e. absurd (ground arith)), λ h. absurd (Memᴰ.not-nil h.1))
one_means_iff x (y ∷ names) m = (
  (λ e. elim (Bool-cases (means x y m)) [
    | inl a ↦ let (k, q, i, h, ex) = (means_iff x y m).0 a in (y, Memᴰ.head refl, k, q, i, h, ex)
    | inr a ↦
        let (name, i, k, q, j, h, ex) = (one_means_iff x names m).0 (ground (arith, a)) in
        (name, Memᴰ.tail i, k, q, j, h, ex)
  ]),
  λ (name, i, k, q, j, h, ex). elim (Memᴰ.cases_cons i) [
    | inl eq ↦ ground (arith, (means_iff x y m).1 (subst (λ n. Meant x n m) eq (k, q, j, h, ex)))
    | inr there ↦ ground (arith, (one_means_iff x names m).1 (name, there, k, q, j, h, ex))
  ],
)

-- A name is in the set that a list of names stands for exactly if an instrument of the table is
-- called so, and one of the list is that instrument's name, or its product, or "all" or "All".
pub product_to_instr_set_iff :
    (x : String) (names : List String) (m : Map InstrumentInfo)
    → Memᴰ x (product_to_instr_set names m) ↔ Named x names m
product_to_instr_set_iff x names m =
    let there = has_iff x (product_to_instr_set names m) in
    let same = has-product_to_instr_set x names m in
    let meant = one_means_iff x names m in
    ((λ h. meant.0 (sym same ∙ there.1 h)), λ h. there.0 (same ∙ meant.1 h))

-- The name itself stands in the set for an instrument that it does not mean.
abbrev or_means : String → String → Map InstrumentInfo → Bool
or_means x name [] = false
or_means x name ((k, q) ∷ m) =
    str_eq x (if is_meant name q then q.instr else name) || or_means x name m

abbrev one_or_means : String → List String → Map InstrumentInfo → Bool
one_or_means x [] m = false
one_or_means x (name ∷ names) m = or_means x name m || one_or_means x names m

has-put_meant_or_name :
    (x name : String) (m : Map InstrumentInfo) (res : List String)
    → has x (put_meant_or_name name m res) ≡ (or_means x name m || has x res)
has-put_meant_or_name x name [] res = refl
has-put_meant_or_name x name ((k, q) ∷ m) res =
    let y = if is_meant name q then q.instr else name in
    ground (arith, has-put_meant_or_name x name m (put y res), has-put x y res)

has-put_all_names :
    (x : String) (names : List String) (m : Map InstrumentInfo) (res : List String)
    → has x (put_all_names names m res) ≡ (one_or_means x names m || has x res)
has-put_all_names x [] m res = refl
has-put_all_names x (name ∷ names) m res = ground (
  arith,
  has-put_all_names x names m (put_meant_or_name name m res),
  has-put_meant_or_name x name m res,
)

-- One of the names and an instrument of the table: either the name means it and it is called `x`,
-- or the name does not and is itself `x`.
pub NamedOrItself : String → List String → Map InstrumentInfo → Type 0
NamedOrItself x names m =
    (name : String) × Memᴰ name names
    × (k : ℕ) × (q : InstrumentInfo) × Memᴰ (k, q) m
    × ((IsNameOf name q × (x ≡ q.instr)) ⊎ (¬ IsNameOf name q × (x ≡ name)))

abbrev Chosen : String → String → InstrumentInfo → Type 0
Chosen x name q = (IsNameOf name q × (x ≡ q.instr)) ⊎ (¬ IsNameOf name q × (x ≡ name))

abbrev SomeChosen : String → String → Map InstrumentInfo → Type 0
SomeChosen x name m = (k : ℕ) × (q : InstrumentInfo) × Memᴰ (k, q) m × Chosen x name q

Chosen-iff :
    (x name : String) (q : InstrumentInfo)
    → (str_eq x (if is_meant name q then q.instr else name) ≡ true) ↔ Chosen x name q
Chosen-iff x name q = elim (Bool-cases (is_meant name q)) [
  | inl a ↦
      let h = (is_meant_iff name q).0 a in
      rw (a) (
        (λ e. inl (h, (eq_iff x q.instr).0 e)),
        λ c. elim c [
          | inl (yes_name, ex) ↦ (eq_iff x q.instr).1 ex
          | inr (not_name, ex) ↦ absurd (not_name h)
        ],
      )
  | inr a ↦
      let h : ¬ IsNameOf name q = λ i. ground (arith, (is_meant_iff name q).1 i) in
      rw (a) (
        (λ e. inr (h, (eq_iff x name).0 e)),
        λ c. elim c [
          | inl (yes_name, ex) ↦ absurd (h yes_name)
          | inr (not_name, ex) ↦ (eq_iff x name).1 ex
        ],
      )
]

or_means_iff :
    (x name : String) (m : Map InstrumentInfo) → (or_means x name m ≡ true) ↔ SomeChosen x name m
or_means_iff x name [] = ((λ e. absurd (ground arith)), λ (k, q, i, h). absurd (Memᴰ.not-nil i))
or_means_iff x name ((j, p) ∷ m) = (
  (λ e. elim (Bool-cases (str_eq x (if is_meant name p then p.instr else name))) [
    | inl a ↦ (j, p, Memᴰ.head refl, (Chosen-iff x name p).0 a)
    | inr a ↦
        let (k, q, i, h) =
          (or_means_iff x name m).0 (ap (λ b. b || or_means x name m) (sym a) ∙ e) in
        (k, q, Memᴰ.tail i, h)
  ]),
  λ (k, q, i, h). elim (Memᴰ.cases_cons i) [
    | inl eq ↦
        let same : q ≡ p = ap (λ (e : ℕ × InstrumentInfo). e.1) eq in
        ap (λ b. b || or_means x name m) ((Chosen-iff x name p).1 (subst (Chosen x name) same h))
    | inr there ↦ ground (arith, (or_means_iff x name m).1 (k, q, there, h))
  ],
)

one_or_means_iff :
    (x : String) (names : List String) (m : Map InstrumentInfo)
    → (one_or_means x names m ≡ true) ↔ NamedOrItself x names m
unfolding NamedOrItself
one_or_means_iff x [] m = ((λ e. absurd (ground arith)), λ h. absurd (Memᴰ.not-nil h.1))
one_or_means_iff x (y ∷ names) m = (
  (λ e. elim (Bool-cases (or_means x y m)) [
    | inl a ↦ let (k, q, i, h) = (or_means_iff x y m).0 a in (y, Memᴰ.head refl, k, q, i, h)
    | inr a ↦
        let (name, i, k, q, j, h) = (one_or_means_iff x names m).0 (ground (arith, a)) in
        (name, Memᴰ.tail i, k, q, j, h)
  ]),
  λ (name, i, k, q, j, h). elim (Memᴰ.cases_cons i) [
    | inl eq ↦
        ground (arith, (or_means_iff x y m).1 (subst (λ n. SomeChosen x n m) eq (k, q, j, h)))
    | inr there ↦ ground (arith, (one_or_means_iff x names m).1 (name, there, k, q, j, h))
  ],
)

-- The same for the set that may keep a name itself.
pub product_or_instrument_to_instr_set_iff :
    (x : String) (names : List String) (m : Map InstrumentInfo)
    → (has x (product_or_instrument_to_instr_set names m) ≡ true) ↔ NamedOrItself x names m
unfolding product_or_instrument_to_instr_set
product_or_instrument_to_instr_set_iff x names m =
    let same : has x (product_or_instrument_to_instr_set names m) ≡ one_or_means x names m =
      ground (arith, has-put_all_names x names m []) in
    let kept = one_or_means_iff x names m in ((λ h. kept.0 (sym same ∙ h)), λ h. same ∙ kept.1 h)

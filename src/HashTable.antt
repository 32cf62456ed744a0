-- ===== src/HashTable.antt =====
-- The table of fixed size that maps numbers to values: src/utility/CHashTable.h. Its nodes are
-- layers of growing prime sizes that stand one after the other in one array; a key has one node in
-- each layer, and the key 0 marks a node as empty. A layer is a function from a node's number to
-- what it holds; a pointer to a node that is null is none.
use nat_framework.Prelude.{
  ℕ, ◌%◌, ◌≡◌, ◌≢◌, ◌==◌, ==_refl, if◌then◌else◌, Bool, true, false, Option, none, some, List, [],
  ◌∷◌, arith, Option-cases, inl, inr,
}

pub record Layer (V : Type 0) : Type 0 where
  pub basesize : ℕ
  pub keys : ℕ → ℕ
  pub vals : ℕ → V

module _ {V : Type 0} where
  -- The key that stands in the layer's node of `key`.
  abbrev pub key_at : ℕ → Layer V → ℕ
  key_at key l = l.keys (key % l.basesize)

  abbrev pub set_key : ℕ → ℕ → Layer V → Layer V
  set_key key k l = record l { keys = λ j. if j == key % l.basesize then k else l.keys j }

  abbrev pub set_val : ℕ → V → Layer V → Layer V
  set_val key v l = record l { vals = λ j. if j == key % l.basesize then v else l.vals j }

  unfoldable pub get : ℕ → List (Layer V) → Option V
  get key [] = none
  get key (l ∷ ls) =
      let rest = get key ls in
      if key_at key l == key then some (l.vals (key % l.basesize)) else rest

  -- The loop of `insert` where the key stands in a layer already.
  unfoldable pub overwrite : ℕ → V → List (Layer V) → Option (List (Layer V))
  overwrite key v [] = none
  overwrite key v (l ∷ ls) =
      let rest = overwrite key v ls in
      if key_at key l == key
      then some (set_val key v l ∷ ls)
      else elim rest [ none ↦ none | some ls' ↦ some (l ∷ ls') ]

  -- What `insert` does with `p_empty`, the first empty node that the loop has seen.
  unfoldable pub fill : ℕ → V → List (Layer V) → Option (List (Layer V))
  fill key v [] = none
  fill key v (l ∷ ls) =
      let rest = fill key v ls in
      if key_at key l == 0
      then some (set_val key v (set_key key key l) ∷ ls)
      else elim rest [ none ↦ none | some ls' ↦ some (l ∷ ls') ]

  unfoldable pub insert : ℕ → V → List (Layer V) → Option (List (Layer V))
  insert key v ls = elim (overwrite key v ls) [ none ↦ fill key v ls | some ls' ↦ some ls' ]

  -- The table, and what the method returns.
  unfoldable pub del : ℕ → List (Layer V) → List (Layer V) × Bool
  del key [] = ([], false)
  del key (l ∷ ls) =
      let (ls', done) = del key ls in
      if key_at key l == key then (set_key key 0 l ∷ ls, true) else (l ∷ ls', done)

  get-overwrite :
      (j key : ℕ) (v : V) (ls ls' : List (Layer V))
      → overwrite key v ls ≡ some ls'
      → get j ls' ≡ (if j == key then some v else get j ls)
  unfolding overwrite get
  get-overwrite j key v [] ls' e = cc
  get-overwrite j key v (l ∷ ls) ls' e = elim (Option-cases (overwrite key v ls)) [
    | inl missing ↦ ground (arith, ==_refl (key % l.basesize))
    | inr (rest, er) ↦ ground (arith, get-overwrite j key v ls rest er, ==_refl (key % l.basesize))
  ]

  get-fill :
      (j key : ℕ) (v : V) (ls ls' : List (Layer V))
      → overwrite key v ls ≡ none
      → j ≢ 0
      → fill key v ls ≡ some ls'
      → get j ls' ≡ (if j == key then some v else get j ls)
  unfolding overwrite fill get
  get-fill j key v [] ls' missing nonzero e = cc
  get-fill j key v (l ∷ ls) ls' missing nonzero e = elim (Option-cases (fill key v ls)) [
    | inl full ↦ ground (arith, ==_refl (key % l.basesize))
    | inr (rest, er) ↦ ground (arith, get-fill j key v ls rest, ==_refl (key % l.basesize))
  ]

  -- After a key was inserted into the table, a key other than 0 is found with the new value if it
  -- is that key, and as before if it is not.
  pub get-insert :
      (j key : ℕ) (v : V) (ls ls' : List (Layer V))
      → j ≢ 0
      → insert key v ls ≡ some ls'
      → get j ls' ≡ (if j == key then some v else get j ls)
  unfolding insert
  get-insert j key v ls ls' nonzero e = elim (Option-cases (overwrite key v ls)) [
    | inl missing ↦ get-fill j key v ls ls' missing nonzero (ground arith)
    | inr (rest, er) ↦ get-overwrite j key v ls ls' (ground arith)
  ]

  -- Every layer's node for the key holds another key.
  abbrev pub IsFullFor : ℕ → List (Layer V) → Type 0
  IsFullFor key [] = Unit {0}
  IsFullFor key (l ∷ ls) = (key_at key l ≢ key) × (key_at key l ≢ 0) × IsFullFor key ls

  not_fill :
      (key : ℕ) (v : V) (ls : List (Layer V))
      → overwrite key v ls ≡ none
      → fill key v ls ≡ none
      → IsFullFor key ls
  unfolding overwrite fill
  not_fill key v [] missing full = tt
  not_fill key v (l ∷ ls) missing full = (
    (λ e. ground (arith, ==_refl key)),
    (λ e. ground arith),
    not_fill key v ls (overwrite_rest missing) (ground arith),
  )
    where
      overwrite_rest : overwrite key v (l ∷ ls) ≡ none → overwrite key v ls ≡ none
      overwrite_rest m = ground arith

  -- An insertion fails only if in every layer the key's node holds another key that is not 0.
  pub insert_fails :
      (key : ℕ) (v : V) (ls : List (Layer V)) → insert key v ls ≡ none → IsFullFor key ls
  unfolding insert
  insert_fails key v ls e = elim (Option-cases (overwrite key v ls)) [
    | inl missing ↦ not_fill key v ls missing (ground arith)
    | inr (rest, er) ↦ absurd (ground arith)
  ]

  -- A key stands in at most one layer.
  abbrev pub IsUnique : ℕ → List (Layer V) → Type 0
  IsUnique key [] = Unit {0}
  IsUnique key (l ∷ ls) = (key_at key l ≡ key → get key ls ≡ none) × IsUnique key ls

  -- After a key that stands in at most one layer was deleted, it is not found, and every other
  -- key but 0 is found as before.
  pub get-del :
      (j key : ℕ) (ls : List (Layer V))
      → j ≢ 0
      → IsUnique key ls
      → get j (del key ls).0 ≡ (if j == key then none else get j ls)
  unfolding del get
  get-del j key [] nonzero u = ground arith
  get-del j key (l ∷ ls) nonzero u =
      ground (arith, get-del j key ls nonzero u.1, ==_refl (key % l.basesize))

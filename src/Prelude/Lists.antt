-- ===== src/Prelude/Lists.antt =====
-- Lists that are read and written at an index, over the native numbers.
use Prim.Native.Nat.{ℕ, zero, suc, ◌+◌, ◌<◌, ◌≤◌}
use mathlib.Core.Path.{◌≡◌, refl, ap}
use mathlib.Core.Option.{Option, none, some}
use mathlib.Core.List.{List, [], ◌∷◌, ◌++◌, map}
use native.Mathlib.Omega.{arith}
use nat_framework.Prelude.Tests.{◌==◌, if◌then◌else◌}

module _ {ℓ} {A : Type ℓ} where
  abbrev pub length : List A → ℕ
  length [] = 0
  length (x ∷ xs) = suc (length xs)

  abbrev pub get_elem? : List A → ℕ → Option A
  get_elem? [] i = none
  get_elem? (x ∷ xs) zero = some x
  get_elem? (x ∷ xs) (suc i) = get_elem? xs i

  abbrev pub take : ℕ → List A → List A
  take zero xs = []
  take (suc n) [] = []
  take (suc n) (x ∷ xs) = x ∷ take n xs

  abbrev pub drop : ℕ → List A → List A
  drop zero xs = xs
  drop (suc n) [] = []
  drop (suc n) (x ∷ xs) = drop n xs

  -- A write out of bounds changes nothing.
  abbrev pub set : List A → ℕ → A → List A
  set [] i v = []
  set (x ∷ xs) zero v = v ∷ xs
  set (x ∷ xs) (suc i) v = x ∷ set xs i v

  pub length-set : (xs : List A) (i : ℕ) (v : A) → length (set xs i v) ≡ length xs
  length-set [] i v = refl
  length-set (x ∷ xs) zero v = refl
  length-set (x ∷ xs) (suc i) v = omega (arith, length-set xs i v)

  pub append_assoc : (xs ys zs : List A) → (xs ++ ys) ++ zs ≡ xs ++ (ys ++ zs)
  append_assoc [] ys zs = refl
  append_assoc (x ∷ xs) ys zs = ap (λ t. x ∷ t) (append_assoc xs ys zs)

  pub append_nil : (xs : List A) → xs ++ [] ≡ xs
  append_nil [] = refl
  append_nil (x ∷ xs) = ap (λ t. x ∷ t) (append_nil xs)

  pub length-append_last : (xs : List A) (v : A) → length (xs ++ v ∷ []) ≡ suc (length xs)
  length-append_last [] v = refl
  length-append_last (x ∷ xs) v = omega (arith, length-append_last xs v)

  -- Reading what was written over `x`.
  pub get_elem?-set :
      (xs : List A) (i j : ℕ) (x v : A)
      → get_elem? xs i ≡ some x
      → get_elem? (set xs i v) j ≡ (if j == i then some v else get_elem? xs j)
  get_elem?-set [] i j x v e = cc
  get_elem?-set (y ∷ xs) zero zero x v e = refl
  get_elem?-set (y ∷ xs) zero (suc j) x v e = ground arith
  get_elem?-set (y ∷ xs) (suc i) zero x v e = ground arith
  get_elem?-set (y ∷ xs) (suc i) (suc j) x v e = ground (arith, get_elem?-set xs i j x v)

  pub get_elem?-append_last :
      (xs : List A) (v : A) (j : ℕ)
      → get_elem? (xs ++ v ∷ []) j ≡ (if j == length xs then some v else get_elem? xs j)
  get_elem?-append_last [] v zero = refl
  get_elem?-append_last [] v (suc j) = ground arith
  get_elem?-append_last (x ∷ xs) v zero = ground arith
  get_elem?-append_last (x ∷ xs) v (suc j) = ground (arith, get_elem?-append_last xs v j)

  pub get_elem?-lt : (xs : List A) (i : ℕ) (x : A) → get_elem? xs i ≡ some x → i < length xs
  get_elem?-lt [] i x e = cc
  get_elem?-lt (y ∷ xs) zero x e = omega arith
  get_elem?-lt (y ∷ xs) (suc i) x e = omega (arith, get_elem?-lt xs i x e)

  pub get_elem?-total : (xs : List A) (i : ℕ) → i < length xs → (x : A) × (get_elem? xs i ≡ some x)
  get_elem?-total [] i h = absurd (omega arith)
  get_elem?-total (y ∷ xs) zero h = (y, refl)
  get_elem?-total (y ∷ xs) (suc i) h = get_elem?-total xs i (omega arith)

  -- What stands before the place where a list is cut stays.
  pub get_elem?-take :
      (xs ys : List A) (n j : ℕ)
      → j < n
      → n ≤ length xs
      → get_elem? (take n xs ++ ys) j ≡ get_elem? xs j
  get_elem?-take xs ys zero j h k = absurd (omega arith)
  get_elem?-take [] ys (suc n) j h k = absurd (omega arith)
  get_elem?-take (x ∷ xs) ys (suc n) zero h k = refl
  get_elem?-take (x ∷ xs) ys (suc n) (suc j) h k =
      get_elem?-take xs ys n j (omega arith) (omega arith)

  -- What stands from there on is what is put there.
  pub get_elem?-drop :
      (xs ys : List A) (n j k : ℕ)
      → n ≤ length xs
      → k ≡ n + j
      → get_elem? (take n xs ++ ys) k ≡ get_elem? ys j
  get_elem?-drop xs ys zero j k h e = ap (λ i. get_elem? ys i) (omega arith)
  get_elem?-drop [] ys (suc n) j k h e = absurd (omega arith)
  get_elem?-drop (x ∷ xs) ys (suc n) j zero h e = absurd (omega arith)
  get_elem?-drop (x ∷ xs) ys (suc n) j (suc k) h e =
      get_elem?-drop xs ys n j k (omega arith) (omega arith)

  pub get_elem?-of_drop :
      (xs : List A) (n j k : ℕ) → k ≡ n + j → get_elem? (drop n xs) j ≡ get_elem? xs k
  get_elem?-of_drop xs zero j k e = ap (λ i. get_elem? xs i) (omega arith)
  get_elem?-of_drop [] (suc n) j k e = refl
  get_elem?-of_drop (x ∷ xs) (suc n) j zero e = absurd (omega arith)
  get_elem?-of_drop (x ∷ xs) (suc n) j (suc k) e = get_elem?-of_drop xs n j k (omega arith)

  pub length-take :
      (xs ys : List A) (n : ℕ)
      → n ≤ length xs
      → length ys ≡ length (drop n xs)
      → length (take n xs ++ ys) ≡ length xs
  length-take xs ys zero k e = e
  length-take [] ys (suc n) k e = absurd (omega arith)
  length-take (x ∷ xs) ys (suc n) k e = omega (arith, length-take xs ys n (omega arith) e)

  pub length-drop : (xs : List A) (n : ℕ) → n ≤ length xs → n + length (drop n xs) ≡ length xs
  length-drop xs zero k = omega arith
  length-drop [] (suc n) k = absurd (omega arith)
  length-drop (x ∷ xs) (suc n) k = omega (arith, length-drop xs n (omega arith))

module _ {ℓ} {A B : Type ℓ} (f : A → B) where
  pub length-map : (xs : List A) → length (map f xs) ≡ length xs
  length-map [] = refl
  length-map (x ∷ xs) = omega (arith, length-map xs)

  pub get_elem?-map :
      (xs : List A) (i : ℕ) (x : A) → get_elem? xs i ≡ some x → get_elem? (map f xs) i ≡ some (f x)
  get_elem?-map [] i x e = cc
  get_elem?-map (y ∷ xs) zero x e = cc
  get_elem?-map (y ∷ xs) (suc i) x e = get_elem?-map xs i x e

-- ===== src/Td/IdQueue.antt =====
-- src/td/ITDEngine.h: the filter of messages that were seen already. `N` is a power of two, for
-- which `x & (N - 1)` is `x % N`.
use native.Mathlib.Nat.{mod-lt, mod-le}
use mathlib.Core.Path.{fun_ext, subst}
use nat_framework.Prelude.{
  ℕ, zero, suc, ◌+◌, ◌≤◌, ◌<◌, ◌%◌, ltb, ◌==◌, ℤ, ◌==ℤ◌, ==ℤ_refl, Bool, true, false, ◌||◌, ◌≡◌,
  ◌≢◌, refl, List, [], ◌∷◌, if◌then◌else◌, arith, Bool-cases, inl, inr, ap, sym, ◌∙◌, ==_iff,
  ==_refl,
}
use nat_framework.Prelude.Lists.{length}
use nat_framework.Io.Queue.{apart}

pub record IdQueue : Type 0 where
  pub front : ℕ
  pub id : ℕ → ℤ

-- Whether one of the first `n` cells holds `m`.
abbrev pub find_id : ℤ → (ℕ → ℤ) → ℕ → Bool
find_id m id zero = false
find_id m id (suc n) = find_id m id n || (m ==ℤ id n)

unfoldable pub test : ℕ → ℤ → IdQueue → IdQueue × Bool
test N m q =
    let s = if ltb q.front N then q.front else N in
    if find_id m q.id s
    then (q, true)
    else (record q { front = suc q.front; id = λ i. if i == q.front % N then m else q.id i }, false)

-- The filters of all orders, of which there are `size`, a power of two.
unfoldable pub test_ot_id : ℕ → ℕ → ℕ → ℤ → (ℕ → IdQueue) → (ℕ → IdQueue) × Bool
test_ot_id size N otid m filters =
    let (q, seen) = test N m (filters (otid % size)) in
    ((λ i. if i == otid % size then q else filters i), seen)

-- Further messages.
abbrev test_all : ℕ → List ℤ → IdQueue → IdQueue
test_all N [] q = q
test_all N (m ∷ ms) q = test_all N ms (test N m q).0

-- `m` was put at the position `p`, and at most `n` others since.
pub record IsKept (N : ℕ) (m : ℤ) (p n : ℕ) (q : IdQueue) : Type 0 where
  pub cell : q.id (p % N) ≡ m
  pub past : p < q.front
  pub near : q.front ≤ suc p + n

find_id-hit : (m : ℤ) (id : ℕ → ℤ) (n i : ℕ) → i < n → id i ≡ m → find_id m id n ≡ true
find_id-hit m id zero i h e = absurd (omega arith)
find_id-hit m id (suc n) i h e = elim (Bool-cases (i == n)) [
  | inl same ↦ ground (arith, ==ℤ_refl m)
  | inr other ↦ ground (arith, find_id-hit m id n i (ground arith) e)
]

test-IsKept :
    (N : ℕ) (x m : ℤ) (p n : ℕ) (q : IdQueue)
    → suc n < N
    → IsKept N m p n q
    → IsKept N m p (suc n) (test N x q).0
unfolding test
test-IsKept N x m p n q h k =
    elim (Bool-cases (find_id x q.id (if ltb q.front N then q.front else N))) [
      | inl seen ↦ rw (seen) (record { cell = k.cell; past = k.past; near = omega (arith, k.near) })
      | inr new ↦
          let ne : p % N ≢ q.front % N = apart N p q.front k.past (omega (arith, k.near)) in
          rw (new) (record {
            cell = ground (arith, k.cell);
            past = omega (arith, k.past);
            near = omega (arith, k.near);
          })
    ]

test_all-IsKept :
    (N : ℕ) (ms : List ℤ) (m : ℤ) (p n : ℕ) (q : IdQueue)
    → n + length ms < N
    → IsKept N m p n q
    → IsKept N m p (n + length ms) (test_all N ms q)
test_all-IsKept N [] m p n q h k = record {
  cell = k.cell;
  past = k.past;
  near = omega (arith, k.near);
}
test_all-IsKept N (x ∷ ms) m p n q h k =
    let r =
      test_all-IsKept N ms m p (suc n) (test N x q).0 (omega arith)
        (test-IsKept N x m p n q (omega arith) k) in
    record { cell = r.cell; past = r.past; near = omega (arith, r.near) }

pub test-found :
    (N : ℕ) (m : ℤ) (p n : ℕ) (q : IdQueue) → 0 < N → IsKept N m p n q → (test N m q).1 ≡ true
unfolding test
test-found N m p n q h k =
    let lt : p % N < (if ltb q.front N then q.front else N) =
      ground (arith, mod-lt p h, mod-le p N, k.past) in
    rw (find_id-hit m q.id (if ltb q.front N then q.front else N) (p % N) lt k.cell) refl

test-new :
    (N : ℕ) (m : ℤ) (q : IdQueue) → (test N m q).1 ≡ false → IsKept N m q.front 0 (test N m q).0
unfolding test
test-new N m q e = elim (Bool-cases (find_id m q.id (if ltb q.front N then q.front else N))) [
  | inl seen ↦ absurd (ground arith)
  | inr new ↦ rw (new) (record { cell = ground arith; past = omega arith; near = omega arith })
]

-- A message that the filter lets through is refused when it comes again after fewer than N
-- further messages, whether those were let through or not.
test-test_all :
    (N : ℕ) (m : ℤ) (ms : List ℤ) (q : IdQueue)
    → (test N m q).1 ≡ false
    → length ms < N
    → (test N m (test_all N ms (test N m q).0)).1 ≡ true
test-test_all N m ms q e h =
    test-found N m q.front (0 + length ms) (test_all N ms (test N m q).0) (omega arith)
      (test_all-IsKept N ms m q.front 0 (test N m q).0 (omega arith) (test-new N m q e))

-- What is seen leaves the filters as they are.
put_same : (fs : ℕ → IdQueue) (j : ℕ) → (λ (i : ℕ). if i == j then fs j else fs i) ≡ fs
put_same fs j = fun_ext (λ i. elim (Bool-cases (i == j)) [
  | inl same ↦ rw (same) (ap fs (sym ((==_iff i j).0 same)))
  | inr other ↦ rw (other) refl
])

test_seen : (N : ℕ) (m : ℤ) (q : IdQueue) → (test N m q).1 ≡ true → test N m q ≡ (q, true)
unfolding test
test_seen N m q e = elim (Bool-cases (find_id m q.id (if ltb q.front N then q.front else N))) [
  | inl seen ↦ rw (test, seen) refl
  | inr new ↦ absurd (ground arith)
]

pub test_ot_id_seen :
    (size N id : ℕ) (m : ℤ) (fs : ℕ → IdQueue)
    → (test N m (fs (id % size))).1 ≡ true
    → test_ot_id size N id m fs ≡ (fs, true)
unfolding test_ot_id
test_ot_id_seen size N id m fs e =
    let seen = test_seen N m (fs (id % size)) e in
    ap (λ (r : IdQueue × Bool). ((λ (i : ℕ). if i == id % size then r.0 else fs i), r.1)) seen
    ∙ ap (λ (g : ℕ → IdQueue). (g, true)) (put_same fs (id % size))

pub test_ot_id-new :
    (size N id : ℕ) (m : ℤ) (fs : ℕ → IdQueue)
    → (test_ot_id size N id m fs).1 ≡ false
    → IsKept N m (fs (id % size)).front 0 ((test_ot_id size N id m fs).0 (id % size))
unfolding test_ot_id
test_ot_id-new size N id m fs e = rw (==_refl (id % size)) (test-new N m (fs (id % size)) e)

-- A filter keeps what it kept, with at most one more message.
pub test_ot_id-IsKept :
    (size N id j p n : ℕ) (x m : ℤ) (fs : ℕ → IdQueue)
    → suc n < N
    → IsKept N m p n (fs j)
    → IsKept N m p (suc n) ((test_ot_id size N id x fs).0 j)
unfolding test_ot_id
test_ot_id-IsKept size N id j p n x m fs less k = elim (Bool-cases (j == id % size)) [
  | inl same ↦
      let eq : j ≡ id % size = (==_iff j (id % size)).0 same in
      rw (same) (
        subst (λ q. IsKept N m p (suc n) (test N x (fs q)).0) eq
          (test-IsKept N x m p n (fs j) less k))
  | inr other ↦ rw (other) (record { cell = k.cell; past = k.past; near = omega (arith, k.near) })
]

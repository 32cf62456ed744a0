-- ===== src/Io/Queue.antt =====
-- The ring buffer that one process writes and others read: src/io/CMemQueue.h. The shared memory
-- is a function from the number of a cell to what it holds; `*pseq_` and `read_seq_` have 64 bits.
-- The queue is used by one writer.
use Prim.Native.Nat.{ℕ, suc, ◌+◌, ◌*◌, ◌/◌, ◌%◌, ◌^◌, ◌≤◌, ◌<◌}
use native.Mathlib.Omega.{div_any}
use native.Mathlib.Nat.{mul-le-mul_left, mod-eq_of_lt, mod-lt, mul_comm, mul-mod_left}
use nat_framework.Prelude.{
  ◌≡◌, ◌≢◌, refl, sym, ◌∙◌, ltb, ◌==◌, if◌then◌else◌, Option, none, some, List, [], ◌∷◌, ◌++◌,
  arith, Bool-cases, inl, inr,
}
use nat_framework.Prelude.Lists.{length, append_assoc}

pub record MemQueue (A : Type 0) : Type 0 where
  pub seq : ℕ
  pub elemcnt : ℕ
  pub cells : ℕ → A

-- A 64-bit counter after one step.
abbrev pub next : ℕ → ℕ
next n = suc n % 2 ^ 64

module _ {A : Type 0} where
  -- The cell that is written next.
  unfoldable pub pre_get_mem : MemQueue A → ℕ
  pre_get_mem q = q.seq % q.elemcnt

  unfoldable pub commit : MemQueue A → MemQueue A
  commit q = record q { seq = next q.seq }

  unfoldable pub write : A → MemQueue A → MemQueue A
  write obj q = record q {
    cells = λ j. if j == q.seq % q.elemcnt then obj else q.cells j;
    seq = next q.seq;
  }

  -- What is read, and the reader's new position; nothing where the source returns 0.
  unfoldable pub read : MemQueue A → ℕ → Option A × ℕ
  read q read_seq =
      if ltb read_seq q.seq
      then (some (q.cells (read_seq % q.elemcnt)), next read_seq)
      else (none, read_seq)

  unfoldable pub reset_read_seq : MemQueue A → ℕ
  reset_read_seq q = q.seq / q.elemcnt * q.elemcnt

  -- What a reader at `r` has still to read, in order.
  abbrev pub Window : MemQueue A → ℕ → List A → Type 0
  Window q r [] = q.seq ≡ r
  Window q r (x ∷ xs) = (q.cells (r % q.elemcnt) ≡ x) × Window q (suc r) xs

mul_step : (n a b : ℕ) → a < b → n * a + n ≤ n * b
mul_step n a b h = omega (arith, mul-le-mul_left {m = suc a} {n = b} n h)

-- Positions less than a round apart are in different cells.
pub apart : (n i j : ℕ) → i < j → j < i + n → (i % n ≢ j % n)
apart n i j lt near e = elim (Bool-cases (ltb (i / n) (j / n))) [
  | inl l ↦ ground (arith, mul_step n (i / n) (j / n) (ground arith), div_any i n, div_any j n)
  | inr g ↦
      ground
        (arith, mul-le-mul_left {m = j / n} {n = i / n} n (ground arith), div_any i n, div_any j n)
]

module _ {A : Type 0} where
  Window-seq : (q : MemQueue A) (r : ℕ) (xs : List A) → Window q r xs → q.seq ≡ r + length xs
  Window-seq q r [] w = omega (arith, w)
  Window-seq q r (x ∷ xs) w = omega (arith, Window-seq q (suc r) xs w.1)

  pub write-Window :
      (q : MemQueue A) (r : ℕ) (xs : List A) (obj : A)
      → Window q r xs
      → length xs < q.elemcnt
      → suc (r + length xs) < 2 ^ 64
      → Window (write obj q) r (xs ++ obj ∷ [])
  unfolding write
  write-Window q r [] obj w room small =
      (ground (arith, w), ground (arith, w, mod-eq_of_lt {n = suc r} {m = 2 ^ 64} (omega arith)))
  write-Window q r (x ∷ xs) obj w room small = (
    ground (arith, w.0, Window-seq q (suc r) xs w.1, apart q.elemcnt r q.seq),
    write-Window q (suc r) xs obj w.1 (omega arith) (omega arith),
  )

  pub read-Window :
      (q : MemQueue A) (r : ℕ) (x : A) (xs : List A)
      → Window q r (x ∷ xs)
      → suc (r + length xs) < 2 ^ 64
      → read q r ≡ (some x, suc r)
  unfolding read
  read-Window q r x xs w small =
      ground (
        arith,
        w.0,
        Window-seq q (suc r) xs w.1,
        mod-eq_of_lt {n = suc r} {m = 2 ^ 64} (omega arith),
      )

  pub read_empty : (q : MemQueue A) (r : ℕ) → Window q r [] → read q r ≡ (none, r)
  unfolding read
  read_empty q r w = ground arith

  -- Writes and one reader's reads in any order, from a queue on whose end the reader stands; with
  -- what was written and what was read, in order. A write waits while the reader is a whole round
  -- behind, and the counter does not reach its end.
  pub data Trace (q0 : MemQueue A) : MemQueue A → ℕ → List A → List A → Type 0 where
    begin : q0.seq < 2 ^ 64 → Trace q0 q0 q0.seq [] []
    wrote :
        (q : MemQueue A) (r : ℕ) (ws rs : List A) (obj : A)
        → Trace q0 q r ws rs
        → q.seq < r + q.elemcnt
        → suc q.seq < 2 ^ 64
        → Trace q0 (write obj q) r (ws ++ obj ∷ []) rs
    got :
        (q : MemQueue A) (r r' : ℕ) (ws rs : List A) (x : A)
        → Trace q0 q r ws rs
        → read q r ≡ (some x, r')
        → Trace q0 q r' ws (rs ++ x ∷ [])
    idle :
        (q : MemQueue A) (r r' : ℕ) (ws rs : List A)
        → Trace q0 q r ws rs
        → read q r ≡ (none, r')
        → Trace q0 q r' ws rs

  -- The reader stands before what was written and not yet read.
  abbrev pub InOrder : MemQueue A → ℕ → List A → List A → Type 0
  InOrder q r ws rs = (left : List A) × Window q r left × (ws ≡ rs ++ left) × (q.seq < 2 ^ 64)

  write-seq : (q : MemQueue A) (obj : A) → suc q.seq < 2 ^ 64 → (write obj q).seq < 2 ^ 64
  unfolding write
  write-seq q obj small = rw (mod-eq_of_lt {n = suc q.seq} {m = 2 ^ 64} small) small

  wrote-InOrder :
      (q : MemQueue A) (r : ℕ) (ws rs : List A) (obj : A)
      → InOrder q r ws rs
      → q.seq < r + q.elemcnt
      → suc q.seq < 2 ^ 64
      → InOrder (write obj q) r (ws ++ obj ∷ []) rs
  wrote-InOrder q r ws rs obj (left, w, e, _) room small =
      let es = Window-seq q r left w in
      (
        left ++ obj ∷ [],
        write-Window q r left obj w (omega (arith, es)) (omega (arith, es)),
        rw (e) (append_assoc rs left (obj ∷ [])),
        write-seq q obj small,
      )

  got-InOrder :
      (q : MemQueue A) (r r' : ℕ) (ws rs : List A) (x : A)
      → read q r ≡ (some x, r')
      → InOrder q r ws rs
      → InOrder q r' ws (rs ++ x ∷ [])
  got-InOrder q r r' ws rs x e ([], w, _, _) = absurd (ground (arith, read_empty q r w))
  got-InOrder q r r' ws rs x e (y ∷ left, w, ew, small) =
      let es = Window-seq q r (y ∷ left) w in
      let er : read q r ≡ (some y, suc r) = read-Window q r y left w (omega (arith, es)) in
      let (ex, en) : (y ≡ x) × (suc r ≡ r') = ground (arith, er) in
      rw (← en, ← ex) (left, w.1, ew ∙ sym (append_assoc rs (y ∷ []) left), small)

  idle-InOrder :
      (q : MemQueue A) (r r' : ℕ) (ws rs : List A)
      → read q r ≡ (none, r')
      → InOrder q r ws rs
      → InOrder q r' ws rs
  idle-InOrder q r r' ws rs e ([], w, ew, small) =
      let en : r ≡ r' = ground (arith, read_empty q r w) in rw (← en) ([], w, ew, small)
  idle-InOrder q r r' ws rs e (y ∷ left, w, ew, small) =
      let es = Window-seq q r (y ∷ left) w in
      absurd (ground (arith, read-Window q r y left w (omega (arith, es))))

  -- In every interleaving of writes and one reader's reads, from a queue on whose end the reader
  -- stands, the messages that were read, followed by those that a reader still finds in the
  -- cells, are the messages that were written, in order: none is lost, repeated or out of order.
  -- A write happens only while the reader is less than a whole round behind, and the 64-bit
  -- counter does not reach its end.
  pub Trace-InOrder :
      (q0 q : MemQueue A) (r : ℕ) (ws rs : List A) → Trace q0 q r ws rs → InOrder q r ws rs
  Trace-InOrder q0 _ _ _ _ (begin small) = ([], refl, refl, small)
  Trace-InOrder q0 _ _ _ _ (wrote q r ws rs obj t room small) =
      wrote-InOrder q r ws rs obj (Trace-InOrder q0 q r ws rs t) room small
  Trace-InOrder q0 _ _ _ _ (got q r r' ws rs x t e) =
      got-InOrder q r r' ws rs x e (Trace-InOrder q0 q r ws rs t)
  Trace-InOrder q0 _ _ _ _ (idle q r r' ws rs t e) =
      idle-InOrder q r r' ws rs e (Trace-InOrder q0 q r ws rs t)

  -- For a queue with cells, resetting the reader puts it on the first cell of the buffer, at most
  -- at the writer's position and less than a whole round behind it.
  pub reset_read_seq_lem :
      (q : MemQueue A)
      → 0 < q.elemcnt
      → (reset_read_seq q ≤ q.seq)
        × (q.seq < reset_read_seq q + q.elemcnt)
        × (reset_read_seq q % q.elemcnt ≡ 0)
  unfolding reset_read_seq
  reset_read_seq_lem q h = (
    omega (arith, div_any q.seq q.elemcnt, mul_comm q.elemcnt (q.seq / q.elemcnt)),
    omega (arith, div_any q.seq q.elemcnt, mul_comm q.elemcnt (q.seq / q.elemcnt), mod-lt q.seq h),
    mul-mod_left (q.seq / q.elemcnt) q.elemcnt,
  )

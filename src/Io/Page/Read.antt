-- ===== src/Io/Page/Read.antt =====
-- What a reader of src/io/CRawIOReader.h gets of the messages that it has before it.
use Prim.Native.Nat.{◌≤◌, ◌<◌}
use nat_framework.Prelude.{
  ℕ, zero, suc, ◌+◌, ltb, ◌==◌, ◌≡◌, refl, sym, ◌∙◌, Bool, true, false, Option, none, some, List,
  [], ◌∷◌, ◌++◌, if◌then◌else◌, ap, arith, Bool-cases, inl, inr,
}
use nat_framework.Prelude.Map.{Map, lookup}
use nat_framework.Prelude.Lists.{length}
use nat_framework.Io.Page.{Page, Frame, finished, check_frame_valid}
use nat_framework.Io.Page.Reader.{Reader, load, at_start, without_page, status_at, read}
use nat_framework.Io.Page.Ahead.{IsPage, Ahead, Frames, Holds, IsPage-check, Frames-lt}

abbrev pub place : Reader → ℕ
place r = if r.is_mapped then r.cursor else 45

-- The reader stands before the messages; `num` is the number of the writer's page.
pub record Stands (d : Map Page) (num : ℕ) (r : Reader) (left : List (List ℕ)) : Type 0 where
  pub pages : ℕ
  pub upto : num ≡ r.page_num + pages
  pub ahead : Ahead d r.page_num pages (place r) left

abbrev pub msgs : Option Frame → List (List ℕ)
msgs none = []
msgs (some f) = f.buf ∷ []

-- A call gives the first message or none, and stands before the rest. If it loads the status
-- before it and its system calls succeed, it gives none only where there is none.
pub record Reads (fuel : ℕ) (ok : Bool) (seen : ℕ) (d : Map Page) (num : ℕ) (r : Reader)
    (left : List (List ℕ)) : Type 0 where
  pub res : Option Frame
  pub after : Reader
  pub runs : read fuel ok seen d r ≡ some (res, after)
  pub rest : List (List ℕ)
  pub order : left ≡ msgs res ++ rest
  pub stands : Stands d num after rest
  pub live : ok ≡ true → seen ≡ status_at d r → res ≡ none → left ≡ []

module _ (d : Map Page) (num : ℕ) (ok : Bool) where
  -- The first frame of the page that is mapped.
  read_first :
      (f seen k c : ℕ) (p : Page) (x : List ℕ)
      → lookup k d ≡ some p
      → c < p.tail
      → Holds p c x
      → read (suc f) ok seen d (record { page_num = k; cursor = c; is_mapped = true })
        ≡ some (
          some (p.frames c),
          record { page_num = k; cursor = c + 20 + length x; is_mapped = true },
        )
  unfolding read
  read_first f seen k c p x e lt h =
      let more : ltb c p.tail ≡ true = ground arith in
      let good : check_frame_valid (p.frames c) ≡ true = ground (arith, h.0) in
      rw (read, e, more, good, h.2) refl

  -- At the end of a page that is not seen to be finished.
  read_wait :
      (f seen k c : ℕ) (p : Page)
      → lookup k d ≡ some p
      → c ≡ p.tail
      → (seen == finished) ≡ false
      → read (suc f) ok seen d (record { page_num = k; cursor = c; is_mapped = true })
        ≡ some (none, record { page_num = k; cursor = c; is_mapped = true })
  unfolding read
  read_wait f seen k c p e at unseen =
      let end : ltb c p.tail ≡ false = ground arith in rw (read, e, end, unseen) refl

  -- At the end of a page that is seen to be finished.
  read_turn :
      (f seen k c : ℕ) (p : Page)
      → lookup k d ≡ some p
      → c ≡ p.tail
      → (seen == finished) ≡ true
      → read (suc f) ok seen d (record { page_num = k; cursor = c; is_mapped = true })
        ≡ elim (load ok d (suc k)) [
          | none ↦
              some
                (none, without_page (suc k) (record { page_num = k; cursor = c; is_mapped = true }))
          | some q ↦ read f ok q.status d (at_start (suc k))
        ]
  unfolding read
  read_turn f seen k c p e at full =
      let end : ltb c p.tail ≡ false = ground arith in rw (read, e, end, full) refl

Ahead-page :
    (d : Map Page) (k n c : ℕ) (left : List (List ℕ))
    → Ahead d k n c left
    → (p : Page) × (lookup k d ≡ some p) × IsPage p × (n ≡ 0 → (p.status == finished) ≡ false)
Ahead-page d k zero c left (p, e, h, st, fr) = (p, e, h, λ z. ground arith)
Ahead-page d k (suc n) c left (p, ys, zs, e, h, st, fr, rest, ex) =
    (p, e, h, λ z. absurd (omega arith))

load_lem :
    (d : Map Page) (k : ℕ) (p : Page) → lookup k d ≡ some p → IsPage p → load true d k ≡ some p
unfolding load
load_lem d k p e h = rw (load, e, IsPage-check p h) refl

pub status_at-eq :
    (d : Map Page) (r : Reader) (p : Page) → lookup r.page_num d ≡ some p → status_at d r ≡ p.status
status_at-eq d r p e = rw (status_at, e) refl

abbrev reader_at : ℕ → ℕ → Reader
reader_at k c = record { page_num = k; cursor = c; is_mapped = true }

module _ (d : Map Page) (num : ℕ) (ok : Bool) where
  got_last :
      (g k c seen : ℕ) (x : List ℕ) (xs : List (List ℕ))
      → num ≡ k + 0
      → Ahead d k 0 c (x ∷ xs)
      → Reads (suc g) ok seen d num (reader_at k c) (x ∷ xs)
  got_last g k c seen x xs up (p, e, h, st, fr) = record {
    res = some (p.frames c);
    after = reader_at k (c + 20 + length x);
    runs = read_first d num ok g seen k c p x e (Frames-lt p c x xs fr) fr.0;
    rest = xs;
    order = ap (λ y. y ∷ xs) (sym fr.0.1);
    stands = record { pages = 0; upto = up; ahead = (p, e, h, st, fr.1) };
    live = λ a b z. cc;
  }

  got_more :
      (g k c seen m : ℕ) (p : Page) (x : List ℕ) (xs zs : List (List ℕ))
      → num ≡ k + suc m
      → lookup k d ≡ some p
      → IsPage p
      → p.status ≡ finished
      → Frames p c (x ∷ xs)
      → Ahead d (suc k) m 45 zs
      → Reads (suc g) ok seen d num (reader_at k c) (x ∷ (xs ++ zs))
  got_more g k c seen m p x xs zs up e h st fr a = record {
    res = some (p.frames c);
    after = reader_at k (c + 20 + length x);
    runs = read_first d num ok g seen k c p x e (Frames-lt p c x xs fr) fr.0;
    rest = xs ++ zs;
    order = ap (λ y. y ∷ (xs ++ zs)) (sym fr.0.1);
    stands = record { pages = suc m; upto = up; ahead = (p, xs, zs, e, h, st, fr.1, a, refl) };
    live = λ a b z. cc;
  }

  waits :
      (g k c seen n : ℕ) (p : Page) (left : List (List ℕ))
      → num ≡ k + n
      → Ahead d k n c left
      → lookup k d ≡ some p
      → c ≡ p.tail
      → (seen == finished) ≡ false
      → (seen ≡ p.status → left ≡ [])
      → Reads (suc g) ok seen d num (reader_at k c) left
  waits g k c seen n p left up a e at unseen empty = record {
    res = none;
    after = reader_at k c;
    runs = read_wait d num ok g seen k c p e at unseen;
    rest = left;
    order = refl;
    stands = record { pages = n; upto = up; ahead = a };
    live = λ o s z. empty (s ∙ status_at-eq d (reader_at k c) p e);
  }

-- The next page, once the one before is seen to be finished.
turns :
    (d : Map Page) (num : ℕ) (ok : Bool) (g k c seen m : ℕ) (p : Page) (left : List (List ℕ))
    → num ≡ k + suc m
    → lookup k d ≡ some p
    → c ≡ p.tail
    → (seen == finished) ≡ true
    → Ahead d (suc k) m 45 left
    → ((q : Page)
        → lookup (suc k) d ≡ some q
        → (m ≡ 0 → (q.status == finished) ≡ false)
        → Reads g true q.status d num (at_start (suc k)) left)
    → Reads (suc g) ok seen d num (reader_at k c) left
unfolding load
turns d num false g k c seen m p left up e at full a next = record {
  res = none;
  after = without_page (suc k) (reader_at k c);
  runs = read_turn d num false g seen k c p e at full;
  rest = left;
  order = refl;
  stands = record { pages = m; upto = omega arith; ahead = a };
  live = λ o s z. cc;
}
turns d num true g k c seen m p left up e at full a next =
    let (q, eq, hq, fine) = Ahead-page d (suc k) m 45 left a in
    let r = next q eq fine in
    record {
      res = r.res;
      after = r.after;
      runs = read_turn d num true g seen k c p e at full ∙ rw (load_lem d (suc k) q eq hq) r.runs;
      rest = r.rest;
      order = r.order;
      stands = r.stands;
      live = λ o s z. r.live refl (sym (status_at-eq d (at_start (suc k)) q eq)) z;
    }

-- A reader with a page gets the first message, if its status is not taken for that of a page that
-- is finished while the page is being written.
read_mapped :
    (d : Map Page) (num : ℕ) (ok : Bool) (n g k c seen : ℕ) (left : List (List ℕ))
    → n ≤ g
    → num ≡ k + n
    → (n ≡ 0 → (seen == finished) ≡ false)
    → Ahead d k n c left
    → Reads (suc g) ok seen d num (reader_at k c) left
read_mapped d num ok zero g k c seen [] le up fine (p, e, h, st, fr) =
    waits d num ok g k c seen 0 p [] up (p, e, h, st, fr) e fr (fine refl) (λ z. refl)
read_mapped d num ok zero g k c seen (x ∷ xs) le up fine a = got_last d num ok g k c seen x xs up a
read_mapped d num ok (suc m) zero k c seen left le up fine a = absurd (omega arith)
read_mapped d num ok (suc m) (suc g) k c seen left le up fine (p, [], zs, e, h, st, fr, a, ex) =
    elim (Bool-cases (seen == finished))
      as (λ b. Reads (suc (suc g)) ok seen d num (reader_at k c) left) [
        | inl full ↦ rw (ex) (
            turns d num ok (suc g) k c seen m p zs up e fr full a (λ q eq z.
              read_mapped d num true m g (suc k) 45 q.status zs (omega arith) (omega arith) z a))
        | inr part ↦
            waits d num ok (suc g) k c seen (suc m) p left up (p, [], zs, e, h, st, fr, a, ex) e fr
              part (λ z. absurd (ground (arith, z, st, part)))
      ]
read_mapped d num ok (suc m) (suc g) k c seen left le up fine (p, x ∷ xs, zs, e, h, st, fr, a, ex) =
    rw (ex) (got_more d num ok (suc g) k c seen m p x xs zs up e h st fr a)

-- A reader without a page loads its page first.
read_unmapped :
    (d : Map Page) (num : ℕ) (ok : Bool) (n g k c seen : ℕ) (left : List (List ℕ))
    → n ≤ g
    → num ≡ k + n
    → Ahead d k n 45 left
    → Reads
        (suc (suc g))
        ok
        seen
        d
        num
        (record { page_num = k; cursor = c; is_mapped = false })
        left
unfolding read load
read_unmapped d num false n g k c seen left le up a = record {
  res = none;
  after = record { page_num = k; cursor = c; is_mapped = false };
  runs = refl;
  rest = left;
  order = refl;
  stands = record { pages = n; upto = up; ahead = a };
  live = λ o s z. cc;
}
read_unmapped d num true n g k c seen left le up a =
    let (q, eq, hq, fine) = Ahead-page d k n 45 left a in
    let r = read_mapped d num true n g k 45 q.status left le up fine a in
    record {
      res = r.res;
      after = r.after;
      runs = rw (read, load_lem d k q eq hq) r.runs;
      rest = r.rest;
      order = r.order;
      stands = r.stands;
      live = λ o s z. r.live refl (sym (status_at-eq d (at_start k) q eq)) z;
    }

-- A call on enough fuel, of any reader that stands before the messages.
read_any :
    (d : Map Page) (num : ℕ) (ok : Bool) (n g k c seen : ℕ) (b : Bool) (left : List (List ℕ))
    → n ≤ g
    → num ≡ k + n
    → Ahead d k n (place (record { page_num = k; cursor = c; is_mapped = b })) left
    → (b ≡ true → n ≡ 0 → (seen == finished) ≡ false)
    → Reads (suc (suc g)) ok seen d num (record { page_num = k; cursor = c; is_mapped = b }) left
read_any d num ok n g k c seen false left le up a fine =
    read_unmapped d num ok n g k c seen left le up a
read_any d num ok n g k c seen true left le up a fine =
    read_mapped d num ok n (suc g) k c seen left (omega arith) up (fine refl) a

pub read_lem :
    (d : Map Page) (num : ℕ) (ok : Bool) (g seen : ℕ) (r : Reader) (left : List (List ℕ))
    → (s : Stands d num r left) → s.pages ≤ g
    → (r.is_mapped ≡ true → s.pages ≡ 0 → (seen == finished) ≡ false)
    → Reads (suc (suc g)) ok seen d num r left
read_lem d num ok g seen r left s le fine =
    read_any d num ok s.pages g r.page_num r.cursor seen r.is_mapped left le s.upto s.ahead fine

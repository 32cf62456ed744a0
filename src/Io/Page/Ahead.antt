-- ===== src/Io/Page/Ahead.antt =====
-- What a reader of src/io/CRawIOReader.h has still to read: the messages from a position on, over
-- the pages up to the writer's.
use Prim.Native.Nat.{◌≤◌, ◌<◌}
use mathlib.Core.Path.{subst}
use mathlib.Core.Option.{some-injective}
use nat_framework.Prelude.{
  ℕ, zero, suc, ◌+◌, ◌≡◌, refl, sym, ◌∙◌, true, some, List, [], ◌∷◌, ◌++◌, ap, arith,
}
use nat_framework.Prelude.Map.{Map, lookup, insert, lookup-insert_self, lookup-insert_ne}
use nat_framework.Prelude.Lists.{length, append_assoc, append_nil}
use nat_framework.Io.Page.{
  Page, Frame, writting, finished, page_head_ver_1, frame_head_magic, page_head_size,
  check_page_head,
}
use nat_framework.Io.Page.Writer.{put_frame, finish, tail_after}

abbrev pub Holds : Page → ℕ → List ℕ → Type 0
Holds p c x =
    ((p.frames c).magic ≡ frame_head_magic) × ((p.frames c).buf ≡ x) × ((p.frames c).len ≡ length x)

-- The frames from a position to the tail hold the messages.
abbrev pub Frames : Page → ℕ → List (List ℕ) → Type 0
Frames p c [] = c ≡ p.tail
Frames p c (x ∷ xs) = Holds p c x × Frames p (c + 20 + length x) xs

pub record IsPage (p : Page) : Type 0 where
  pub version : p.version ≡ page_head_ver_1
  pub size : p.size ≡ p.file_size

-- The messages from a position of page `k` on, where `n` more pages follow; the last one is being
-- written.
abbrev pub Ahead : Map Page → ℕ → ℕ → ℕ → List (List ℕ) → Type 0
Ahead d k zero c xs =
    (p : Page) × (lookup k d ≡ some p) × IsPage p × (p.status ≡ writting) × Frames p c xs
Ahead d k (suc n) c xs =
    (p : Page) × (ys : List (List ℕ)) × (zs : List (List ℕ)) × (lookup k d ≡ some p)
    × IsPage p
    × (p.status ≡ finished)
    × Frames p c ys
    × Ahead d (suc k) n page_head_size zs
    × (xs ≡ ys ++ zs)

pub IsPage-check : (p : Page) → IsPage p → check_page_head p ≡ true
IsPage-check p h = ground (arith, h.version, h.size)

Frames-le : (p : Page) (c : ℕ) (xs : List (List ℕ)) → Frames p c xs → c ≤ p.tail
Frames-le p c [] h = omega arith
Frames-le p c (x ∷ xs) h = omega (arith, Frames-le p (c + 20 + length x) xs h.1)

pub Frames-lt :
    (p : Page) (c : ℕ) (x : List ℕ) (xs : List (List ℕ)) → Frames p c (x ∷ xs) → c < p.tail
Frames-lt p c x xs h = omega (arith, Frames-le p (c + 20 + length x) xs h.1)

module _ (p : Page) (nano : ℕ) (x : List ℕ) where
  put_here : (c : ℕ) → c ≡ p.tail → Holds (put_frame nano x p) c x
  put_here c e =
      let at : (put_frame nano x p).frames c
          ≡ record { magic = frame_head_magic; len = length x; nano = nano; buf = x } =
        ground arith in
      (ap Frame.magic at, ap Frame.buf at, ap Frame.len at)

  put_away : (c : ℕ) (y : List ℕ) → c < p.tail → Holds p c y → Holds (put_frame nano x p) c y
  put_away c y lt h =
      let at : (put_frame nano x p).frames c ≡ p.frames c = ground arith in
      (ap Frame.magic at ∙ h.0, ap Frame.buf at ∙ h.1, ap Frame.len at ∙ h.2)

  -- A frame that is put at the tail is the last one.
  put-Frames :
      (c : ℕ) (xs : List (List ℕ))
      → tail_after p (length x) ≡ p.tail + 20 + length x
      → Frames p c xs
      → Frames (put_frame nano x p) c (xs ++ x ∷ [])
  put-Frames c [] e h = (put_here c h, omega arith)
  put-Frames c (y ∷ xs) e h =
      (put_away c y (Frames-lt p c y xs h) h.0, put-Frames (c + 20 + length y) xs e h.1)

finish-Frames :
    (p : Page) (stop c : ℕ) (xs : List (List ℕ)) → Frames p c xs → Frames (finish stop p) c xs
finish-Frames p stop c [] h = h
finish-Frames p stop c (x ∷ xs) h = (h.0, finish-Frames p stop (c + 20 + length x) xs h.1)

one_page :
    (d : Map Page) (k m : ℕ) (q p : Page)
    → lookup k d ≡ some q
    → lookup m d ≡ some p
    → k ≡ m
    → q ≡ p
one_page d k m q p eq ep e = some-injective q p (sym eq ∙ (ap (λ j. lookup j d) e ∙ ep))

lookup-here : (d : Map Page) (k m : ℕ) (p : Page) → k ≡ m → lookup k (insert m p d) ≡ some p
lookup-here d k m p e = ap (λ j. lookup j (insert m p d)) e ∙ lookup-insert_self m p d

-- The writer's page takes one more message.
pub put-Ahead :
    (d : Map Page) (k n c nano m : ℕ) (xs : List (List ℕ)) (x : List ℕ) (p : Page)
    → m ≡ k + n
    → lookup m d ≡ some p
    → tail_after p (length x) ≡ p.tail + 20 + length x
    → Ahead d k n c xs
    → Ahead (insert m (put_frame nano x p) d) k n c (xs ++ x ∷ [])
put-Ahead d k zero c nano m xs x p em ep e (q, eq, h, st, fr) =
    let same : q ≡ p = one_page d k m q p eq ep (omega arith) in
    let hp : IsPage p = subst IsPage same h in
    (
      put_frame nano x p,
      lookup-here d k m (put_frame nano x p) (omega arith),
      record { version = hp.version; size = hp.size },
      ap Page.status (sym same) ∙ st,
      put-Frames p nano x c xs e (subst (λ r. Frames r c xs) same fr),
    )
put-Ahead d k (suc n) c nano m xs x p em ep e (q, ys, zs, eq, h, st, fr, rest, exs) = (
  q,
  ys,
  zs ++ x ∷ [],
  lookup-insert_ne k m (put_frame nano x p) d (omega arith) ∙ eq,
  h,
  st,
  fr,
  put-Ahead d (suc k) n page_head_size nano m zs x p (omega arith) ep e rest,
  rw (exs) (append_assoc ys zs (x ∷ [])),
)

-- The writer's page is closed and another one follows.
pub roll-Ahead :
    (d : Map Page) (k n c stop m : ℕ) (xs : List (List ℕ)) (p q : Page)
    → m ≡ k + n
    → lookup m d ≡ some p
    → IsPage q
    → q.status ≡ writting
    → q.tail ≡ page_head_size
    → Ahead d k n c xs
    → Ahead (insert (suc m) q (insert m (finish stop p) d)) k (suc n) c xs
roll-Ahead d k zero c stop m xs p q em ep hq sq tq (r, er, h, st, fr) =
    let same : r ≡ p = one_page d k m r p er ep (omega arith) in
    let hp : IsPage p = subst IsPage same h in
    (
      finish stop p,
      xs,
      [],
      lookup-insert_ne k (suc m) q (insert m (finish stop p) d) (omega arith)
          ∙ lookup-here d k m (finish stop p) (omega arith),
      record { version = hp.version; size = hp.size },
      refl,
      finish-Frames p stop c xs (subst (λ r. Frames r c xs) same fr),
      (q, lookup-here (insert m (finish stop p) d) (suc k) (suc m) q (omega arith), hq, sq, sym tq),
      sym (append_nil xs),
    )
roll-Ahead d k (suc n) c stop m xs p q em ep hq sq tq (r, ys, zs, er, h, st, fr, rest, exs) = (
  r,
  ys,
  zs,
  lookup-insert_ne k (suc m) q (insert m (finish stop p) d) (omega arith)
      ∙ (lookup-insert_ne k m (finish stop p) d (omega arith) ∙ er),
  h,
  st,
  fr,
  roll-Ahead d (suc k) n page_head_size stop m zs p q (omega arith) ep hq sq tq rest,
  exs,
)

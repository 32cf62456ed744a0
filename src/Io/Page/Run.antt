-- ===== src/Io/Page/Run.antt =====
-- A writer of src/io/CRawIOWriter.cpp and a reader of src/io/CRawIOReader.h on the same pages, in
-- any interleaving: the reader's load of the status and the rest of its call are two steps.
use mathlib.Core.Path.{subst}
use mathlib.Core.Option.{some-injective}
use nat_framework.Prelude.{
  ℕ, zero, suc, ◌==◌, ◌≡◌, ◌≢◌, refl, sym, ◌∙◌, Bool, true, false, Option, some, List, [], ◌∷◌,
  ◌++◌, if◌then◌else◌, ap, arith, Option-cases, inl, inr,
}
use nat_framework.Prelude.Map.{Map}
use nat_framework.Prelude.Lists.{append_assoc, append_nil}
use nat_framework.Io.Page.{Page, Frame, finished}
use nat_framework.Io.Page.Writer.{Writer, Clock, write}
use nat_framework.Io.Page.Reader.{Reader, status_at, read}
use nat_framework.Io.Page.Ahead.{Ahead}
use nat_framework.Io.Page.Write.{IsReady, IsMsg, write_lem}
use nat_framework.Io.Page.Read.{Stands, msgs, place, read_lem, status_at-eq}

-- With the status that the reader has seen, the messages whose write returned true, and the
-- messages that were read. The writer's system calls succeed; the reader's may fail. Calls have
-- enough fuel.
pub data Run (d0 : Map Page) (w0 : Writer) (r0 : Reader)
    : Map Page → Writer → Reader → ℕ → List (List ℕ) → List (List ℕ) → Type 0 where
  begin : Run d0 w0 r0 d0 w0 r0 0 [] []
  wrote :
      (d d2 : Map Page) (w w2 : Writer) (r : Reader) (seen : ℕ) (ws rs : List (List ℕ)) (x : List ℕ)
      (b : Bool) (f : ℕ) (c : Clock)
      → Run d0 w0 r0 d w r seen ws rs
      → IsMsg x
      → write (suc (suc f)) true c x w d ≡ some (b, w2, d2)
      → Run d0 w0 r0 d2 w2 r seen (if b then ws ++ x ∷ [] else ws) rs
  looked :
      (d : Map Page) (w : Writer) (r : Reader) (seen : ℕ) (ws rs : List (List ℕ))
      → Run d0 w0 r0 d w r seen ws rs
      → Run d0 w0 r0 d w r (status_at d r) ws rs
  called :
      (d : Map Page) (w : Writer) (r r2 : Reader) (seen : ℕ) (ws rs : List (List ℕ))
      (res : Option Frame) (ok : Bool)
      → Run d0 w0 r0 d w r seen ws rs
      → read (suc (suc w.page_num)) ok seen d r ≡ some (res, r2)
      → Run d0 w0 r0 d w r2 0 ws (rs ++ msgs res)

-- The writer is ready, and the reader stands before what was written and not yet read.
pub record InOrder (d : Map Page) (w : Writer) (r : Reader) (seen : ℕ) (ws rs : List (List ℕ))
    : Type 0 where
  pub ready : IsReady w d
  pub left : List (List ℕ)
  pub stands : Stands d w.page_num r left
  pub order : ws ≡ rs ++ left
  pub fine : r.is_mapped ≡ true → stands.pages ≡ 0 → (seen == finished) ≡ false

status_fine :
    (d : Map Page) (r : Reader) (n : ℕ) (left : List (List ℕ))
    → Ahead d r.page_num n (place r) left
    → n ≡ 0
    → (status_at d r == finished) ≡ false
status_fine d r zero left (p, e, h, st, fr) z = ap (λ j. j == finished) (status_at-eq d r p e ∙ st)
status_fine d r (suc n) left a z = absurd (omega arith)

append_if :
    (b : Bool) (ws rs left : List (List ℕ)) (x : List ℕ)
    → ws ≡ rs ++ left
    → (if b then ws ++ x ∷ [] else ws) ≡ rs ++ (if b then left ++ x ∷ [] else left)
append_if true ws rs left x e = rw (e) (append_assoc rs left (x ∷ []))
append_if false ws rs left x e = e

wrote-InOrder :
    (d d2 : Map Page) (w w2 : Writer) (r : Reader) (seen : ℕ) (ws rs : List (List ℕ)) (x : List ℕ)
    (b : Bool) (f : ℕ) (c : Clock)
    → InOrder d w r seen ws rs
    → IsMsg x
    → write (suc (suc f)) true c x w d ≡ some (b, w2, d2)
    → InOrder d2 w2 r seen (if b then ws ++ x ∷ [] else ws) rs
wrote-InOrder d d2 w w2 r seen ws rs x b f c i small e =
    let (b3, w3, d3, e3, z) =
      write_lem w d i.ready c x small r.page_num i.stands.pages (place r) i.left i.stands.upto
        i.stands.ahead f in
    let o : InOrder d3 w3 r seen (if b3 then ws ++ x ∷ [] else ws) rs = record {
      ready = z.ready;
      left = if b3 then i.left ++ x ∷ [] else i.left;
      stands = record { pages = z.pages; upto = z.num; ahead = z.ahead };
      order = append_if b3 ws rs i.left x i.order;
      fine = λ m n. i.fine m (omega (arith, z.num, z.grows, i.stands.upto));
    } in
    let same : (b3, w3, d3) ≡ (b, w2, d2) = some-injective (b3, w3, d3) (b, w2, d2) (sym e3 ∙ e) in
    subst (λ (b, w, d). InOrder d w r seen (if b then ws ++ x ∷ [] else ws) rs) same o

called-InOrder :
    (d : Map Page) (w : Writer) (r r2 : Reader) (seen : ℕ) (ws rs : List (List ℕ))
    (res : Option Frame) (ok : Bool)
    → InOrder d w r seen ws rs
    → read (suc (suc w.page_num)) ok seen d r ≡ some (res, r2)
    → InOrder d w r2 0 ws (rs ++ msgs res)
called-InOrder d w r r2 seen ws rs res ok i e =
    let q =
      read_lem d w.page_num ok w.page_num seen r i.left i.stands (omega (arith, i.stands.upto))
        i.fine in
    let o : InOrder d w q.after 0 ws (rs ++ msgs q.res) = record {
      ready = i.ready;
      left = q.rest;
      stands = q.stands;
      order = i.order ∙ (ap (λ t. rs ++ t) q.order ∙ sym (append_assoc rs (msgs q.res) q.rest));
      fine = λ m n. refl;
    } in
    let same : (q.res, q.after) ≡ (res, r2) =
      some-injective (q.res, q.after) (res, r2) (sym q.runs ∙ e) in
    subst (λ (res, r). InOrder d w r 0 ws (rs ++ msgs res)) same o

-- What a reader gets that looks and then reads.
abbrev pub Gets : Map Page → Writer → Reader → List (List ℕ) → List (List ℕ) → Type 0
Gets d w r ws rs =
    (f : Frame) × (r2 : Reader) × (rest : List (List ℕ)) × (read (suc (suc w.page_num)) true
        (status_at d r) d r
      ≡ some (some f, r2))
    × (ws ≡ rs ++ f.buf ∷ rest)

InOrder-Gets :
    (d : Map Page) (w : Writer) (r : Reader) (seen : ℕ) (ws rs : List (List ℕ))
    → InOrder d w r seen ws rs
    → ws ≢ rs
    → Gets d w r ws rs
InOrder-Gets d w r seen ws rs i more =
    let q =
      read_lem d w.page_num true w.page_num (status_at d r) r i.left i.stands
        (omega (arith, i.stands.upto))
        (λ m z. status_fine d r i.stands.pages i.left i.stands.ahead z) in
    elim (Option-cases q.res) as (λ e. Gets d w r ws rs) [
      | inl nothing ↦
          absurd (more (i.order ∙ (ap (λ t. rs ++ t) (q.live refl refl nothing) ∙ append_nil rs)))
      | inr (f, there) ↦ (
        f,
        q.after,
        q.rest,
        q.runs ∙ ap (λ o. some (o, q.after)) there,
        i.order ∙ ap (λ t. rs ++ t) (q.order ∙ ap (λ o. msgs o ++ q.rest) there),
      )
    ]

module _ (d0 : Map Page) (w0 : Writer) (r0 : Reader) where
  -- In every interleaving of a writer's messages of less than 2^31 bytes with their head, and a
  -- reader's calls, each in two steps of which the first loads the page's status, from a writer
  -- on the last page whose tail is within it and a reader before whose place there is no message:
  -- the writer stays on the last page with its tail within the page, and the messages that were
  -- read, followed by those that stand before the reader on the pages, are the messages whose
  -- write returned true, in order. The writer's system calls succeed, the reader's may fail.
  pub Run-InOrder :
      (d : Map Page) (w : Writer) (r : Reader) (seen : ℕ) (ws rs : List (List ℕ))
      → IsReady w0 d0
      → Stands d0 w0.page_num r0 []
      → Run d0 w0 r0 d w r seen ws rs
      → InOrder d w r seen ws rs
  Run-InOrder _ _ _ _ _ _ h s begin = record {
    ready = h;
    left = [];
    stands = s;
    order = refl;
    fine = λ m z. refl;
  }
  Run-InOrder _ _ _ _ _ _ h s (wrote d d2 w w2 r seen ws rs x b f c t small e) =
      wrote-InOrder d d2 w w2 r seen ws rs x b f c (Run-InOrder d w r seen ws rs h s t) small e
  Run-InOrder _ _ _ _ _ _ h s (looked d w r seen ws rs t) =
      let i = Run-InOrder d w r seen ws rs h s t in
      record {
        ready = i.ready;
        left = i.left;
        stands = i.stands;
        order = i.order;
        fine = λ m z. status_fine d r i.stands.pages i.left i.stands.ahead z;
      }
  Run-InOrder _ _ _ _ _ _ h s (called d w r r2 seen ws rs res ok t e) =
      called-InOrder d w r r2 seen ws rs res ok (Run-InOrder d w r seen ws rs h s t) e

  -- In every such interleaving, if not all messages were read, a reader that loads the status and
  -- then reads, with system calls that succeed, gets the first that it has not read.
  pub Run-Gets :
      (d : Map Page) (w : Writer) (r : Reader) (seen : ℕ) (ws rs : List (List ℕ))
      → IsReady w0 d0
      → Stands d0 w0.page_num r0 []
      → Run d0 w0 r0 d w r seen ws rs
      → ws ≢ rs
      → Gets d w r ws rs
  Run-Gets d w r seen ws rs h s t more =
      InOrder-Gets d w r seen ws rs (Run-InOrder d w r seen ws rs h s t) more

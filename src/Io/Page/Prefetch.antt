-- ===== src/Io/Page/Prefetch.antt =====
-- The two ways of writing of src/io/CRawIOWriter.cpp: `write`, and `prefetch` with `commit`.
use Prim.Native.Nat.{◌≤◌, ◌<◌}
use mathlib.Core.Path.{fun_ext}
use nat_framework.Prelude.{
  ℕ, suc, ◌+◌, leb, pos, ◌≡◌, refl, ap, ◌∙◌, true, false, some, List, arith, Bool-cases, inl, inr,
}
use nat_framework.Prelude.Map.{Map, lookup, insert, lookup-insert_self, insert-insert}
use nat_framework.Prelude.Lists.{length}
use nat_framework.Io.Page.{Page, Frame}
use nat_framework.Io.Page.Writer.{
  Writer, Clock, tail_after, write, prefetch, commit, fill_in, sign, set_len, put_frame, roll,
}
use nat_framework.Io.Page.Write.{
  IsReady, IsMsg, room_eq, put, write_fits, next_writer, next_dir, roll_lem, write_next, next_page,
  closed, put_next, tail_after-eq,
}

-- The page after the three steps of a prefetched frame.
abbrev signed : ℕ → List ℕ → Page → Page
signed nano x p = record (sign nano (fill_in p.tail x (set_len (length x) p))) {
  last_nano = pos nano;
  tail = tail_after p (length x);
}

signed_eq : (nano : ℕ) (x : List ℕ) (p : Page) → signed nano x p ≡ put_frame nano x p
signed_eq nano x p =
    let at : (j : ℕ) → (signed nano x p).frames j ≡ (put_frame nano x p).frames j =
      λ j. ground arith in
    ap (λ (fr : ℕ → Frame). record (put_frame nano x p) { frames = fr }) (fun_ext at)

module _ (w : Writer) (d : Map Page) (c : Clock) (x : List ℕ) where
  -- The three steps end with the pages and the writer that `write` ends with, but for
  -- `prefetch_tail`.
  abbrev pub SameAsWrite : ℕ → Type 0
  SameAsWrite f =
      (at : ℕ) × (w1 : Writer) × (d1 : Map Page) × (p : Page) × (d2 : Map Page) × (prefetch true c
          (length x) w d
        ≡ some (some at, w1, d1))
      × (lookup w1.page_num d1 ≡ some p)
      × (commit c w1 (insert w1.page_num (fill_in at x p) d1) ≡ some d2)
      × (write (suc (suc f)) true c x w d
          ≡ some (true, record w1 { prefetch_tail = w.prefetch_tail }, d2))

commit_lem :
    (w : Writer) (d : Map Page) (c : Clock) (x : List ℕ) (p : Page)
    → w.is_mapped ≡ true
    → w.prefetch_tail ≡ tail_after p (length x)
    → commit c w (
        insert w.page_num
          (fill_in p.tail x (set_len (length x) p))
          (insert w.page_num (set_len (length x) p) d))
      ≡ some (insert w.page_num (put_frame c.frame x p) d)
unfolding commit
commit_lem w d c x p m e =
    let filled : Page = fill_in p.tail x (set_len (length x) p) in
    let dir : Map Page = insert w.page_num (set_len (length x) p) d in
    let at : lookup w.page_num (insert w.page_num filled dir) ≡ some filled =
      lookup-insert_self w.page_num filled dir in
    let once : insert w.page_num (put_frame c.frame x p) (insert w.page_num filled dir)
        ≡ insert w.page_num (put_frame c.frame x p) d =
      insert-insert w.page_num (put_frame c.frame x p) filled dir
      ∙ insert-insert w.page_num (put_frame c.frame x p) (set_len (length x) p) d in
    rw (commit, m, at, e, signed_eq c.frame x p) (ap some once)

-- Where the writer's page has room, all on that page.
here_same :
    (w : Writer) (d : Map Page) (r : IsReady w d) (c : Clock) (x : List ℕ)
    → IsMsg x
    → r.page.tail + 20 + length x ≤ w.size
    → (f : ℕ) → SameAsWrite w d c x f
unfolding prefetch
here_same w d r c x small fits f =
    let yes : leb (tail_after r.page (length x)) w.size ≡ true =
      ground (arith, room_eq w d r x small) in
    let w1 : Writer = record w { prefetch_tail = tail_after r.page (length x) } in
    (
      r.page.tail,
      w1,
      insert w.page_num (set_len (length x) r.page) d,
      set_len (length x) r.page,
      put w d r x small c.frame,
      rw (prefetch, r.mapped, r.at, yes)
          (ap
            (λ b. some (
              some r.page.tail,
              record w1 { is_mapped = b },
              insert w.page_num (set_len (length x) r.page) d,
            ))
            r.mapped),
      lookup-insert_self w.page_num (set_len (length x) r.page) d,
      commit_lem w1 d c x r.page r.mapped refl,
      write_fits w d r x small (suc f) c fits,
    )

with_tail :
    (w : Writer) (d : Map Page) (t : ℕ) → IsReady w d → IsReady (record w { prefetch_tail = t }) d
with_tail w d t r = record {
  mapped = r.mapped;
  page = r.page;
  at = r.at;
  is_page = r.is_page;
  writing = r.writing;
  size = r.size;
  after_head = r.after_head;
  within = r.within;
  size_small = r.size_small;
  page_size_small = r.page_size_small;
  room = r.room;
  last = r.last;
}

module _ (w : Writer) (d : Map Page) (r : IsReady w d) (c : Clock) (x : List ℕ)
    (small : IsMsg x) where
  -- Where only the next page has room, the frame is there.
  prefetch_next :
      w.size < r.page.tail + 20 + length x
      → length x + 65 ≤ w.page_size
      → prefetch true c (length x) w d
        ≡ some (
          some 45,
          record (next_writer w d r c) {
            prefetch_tail = tail_after (next_page w d r c) (length x);
          },
          insert (suc w.page_num) (set_len (length x) (next_page w d r c)) (next_dir w d r c),
        )
  unfolding prefetch with_tail
  prefetch_next full fits =
      let t = tail_after r.page (length x) in
      let v : Writer = record w { prefetch_tail = t } in
      let no : leb t w.size ≡ false = ground (arith, room_eq w d r x small) in
      let found : lookup (suc w.page_num) (next_dir w d r c) ≡ some (next_page w d r c) =
        lookup-insert_self (suc w.page_num) (next_page w d r c) (closed w d r c) in
      let rolled : roll true c v r.page d
          ≡ some (record (next_writer w d r c) { prefetch_tail = t }, next_dir w d r c) =
        roll_lem v d (with_tail w d t r) c in
      let yes : leb (tail_after (next_page w d r c) (length x)) w.page_size ≡ true =
        ground (arith, tail_after-eq (next_page w d r c) (length x)) in
      rw (prefetch, r.mapped, r.at, no, rolled, found, yes) refl

  next_same :
      w.size < r.page.tail + 20 + length x
      → length x + 65 ≤ w.page_size
      → (f : ℕ) → SameAsWrite w d c x f
  next_same full fits f = (
    45,
    record (next_writer w d r c) { prefetch_tail = tail_after (next_page w d r c) (length x) },
    insert (suc w.page_num) (set_len (length x) (next_page w d r c)) (next_dir w d r c),
    set_len (length x) (next_page w d r c),
    insert (suc w.page_num) (put_frame c.frame x (next_page w d r c)) (next_dir w d r c),
    prefetch_next full fits,
    lookup-insert_self (suc w.page_num) (set_len (length x) (next_page w d r c)) (next_dir w d r c),
    commit_lem
        (record (next_writer w d r c) { prefetch_tail = tail_after (next_page w d r c) (length x) })
        (next_dir w d r c) c x (next_page w d r c) refl refl,
    write_next w d r c x small f full fits
        ∙ ap (λ e. some (true, next_writer w d r c, e)) (put_next w d r c x small c.frame),
  )

  -- For a writer on the last page whose tail is within it and a message of less than 2^31 bytes
  -- with its head, for which a new page has room: to prefetch a frame, fill it in and commit it
  -- succeeds and ends with the pages and the writer that write ends with, but for prefetch_tail.
  pub commit-same : length x + 65 ≤ w.page_size → (f : ℕ) → SameAsWrite w d c x f
  commit-same fits f =
      elim (Bool-cases (leb (r.page.tail + 20 + length x) w.size)) as (λ e. SameAsWrite w d c x f) [
        | inl here ↦ here_same w d r c x small (ground arith) f
        | inr full ↦ next_same (ground arith) fits f
      ]

-- ===== src/Io/Page/Write.antt =====
-- What the writer of src/io/CRawIOWriter.cpp does to its pages and to what readers have before them.
use Prim.Native.Nat.{◌≤◌, ◌<◌, ◌%◌, ◌^◌}
use native.Mathlib.Nat.{mod-eq_of_lt}
use nat_framework.Prelude.{
  ℕ, suc, ◌+◌, ◌-◌, leb, ◌≡◌, refl, ◌∙◌, Bool, true, false, none, some, List, [], ◌∷◌, ◌++◌,
  if◌then◌else◌, arith, Bool-cases, inl, inr,
}
use nat_framework.Prelude.Map.{Map, lookup, insert, lookup-insert_self, lookup-insert_ne}
use nat_framework.Prelude.Lists.{length}
use nat_framework.Io.Page.{Page, blank, writting, page_head_size, frame_head_size}
use nat_framework.Io.Page.Writer.{
  Writer, Clock, put_frame, finish, fill_head, tail_after, on_page, unload, create_next_page, load,
  roll, write, is_short,
}
use nat_framework.Io.Page.Ahead.{IsPage, Ahead, put-Ahead, roll-Ahead}

-- The writer's page is the last one, and what is written stays within it.
pub record IsReady (w : Writer) (d : Map Page) : Type 0 where
  pub mapped : w.is_mapped ≡ true
  pub page : Page
  pub at : lookup w.page_num d ≡ some page
  pub is_page : IsPage page
  pub writing : page.status ≡ writting
  pub size : page.size ≡ w.size
  pub after_head : page_head_size ≤ page.tail
  pub within : page.tail ≤ w.size
  pub size_small : w.size ≤ 2 ^ 31
  pub page_size_small : w.page_size ≤ 2 ^ 31
  pub room : page_head_size + frame_head_size ≤ w.page_size
  pub last : (j : ℕ) → w.page_num < j → lookup j d ≡ none

abbrev pub IsMsg : List ℕ → Type 0
IsMsg x = length x + frame_head_size < 2 ^ 31

pub tail_after-eq :
    (p : Page) (len : ℕ)
    → p.tail ≤ 2 ^ 31
    → len + frame_head_size < 2 ^ 31
    → tail_after p len ≡ p.tail + 20 + len
tail_after-eq p len h k = mod-eq_of_lt {n = p.tail + 20 + len} {m = 2 ^ 32} (omega arith)

module _ (w : Writer) (d : Map Page) (r : IsReady w d) (x : List ℕ) (small : IsMsg x) where
  pub room_eq : tail_after r.page (length x) ≡ r.page.tail + 20 + length x
  room_eq = tail_after-eq r.page (length x) (omega (arith, r.within, r.size_small)) small

  abbrev pub put : ℕ → Map Page
  put nano = insert w.page_num (put_frame nano x r.page) d

  put-IsReady : (nano : ℕ) → r.page.tail + 20 + length x ≤ w.size → IsReady w (put nano)
  put-IsReady nano fits = record {
    mapped = r.mapped;
    page = put_frame nano x r.page;
    at = lookup-insert_self w.page_num (put_frame nano x r.page) d;
    is_page = record { version = r.is_page.version; size = r.is_page.size };
    writing = r.writing;
    size = r.size;
    after_head = omega (arith, room_eq, r.after_head);
    within = omega (arith, room_eq);
    size_small = r.size_small;
    page_size_small = r.page_size_small;
    room = r.room;
    last = λ j lt.
        lookup-insert_ne j w.page_num (put_frame nano x r.page) d (omega arith) ∙ r.last j lt;
  }

  pub write_fits :
      (n : ℕ) (c : Clock)
      → r.page.tail + 20 + length x ≤ w.size
      → write (suc n) true c x w d ≡ some (true, w, put c.frame)
  unfolding write
  write_fits n c fits = rw (write, r.mapped, r.at) (ground (arith, room_eq))

module _ (w : Writer) (d : Map Page) (r : IsReady w d) (c : Clock) where
  abbrev pub next_page : Page
  next_page = fill_head c.start (blank w.page_size)

  abbrev pub next_writer : Writer
  next_writer = on_page (suc w.page_num) (blank w.page_size) (unload w)

  abbrev pub closed : Map Page
  closed = insert w.page_num (finish c.stop r.page) d

  abbrev pub next_dir : Map Page
  next_dir = insert (suc w.page_num) next_page closed

  pub roll_lem : roll true c w r.page d ≡ some (next_writer, next_dir)
  unfolding roll create_next_page load
  roll_lem =
      let gone : lookup (suc w.page_num) closed ≡ none =
        lookup-insert_ne (suc w.page_num) w.page_num (finish c.stop r.page) d (omega arith)
        ∙ r.last (suc w.page_num) (omega arith) in
      rw (roll, create_next_page, load, gone) refl

  pub next-IsReady : IsReady next_writer next_dir
  next-IsReady = record {
    mapped = refl;
    page = next_page;
    at = lookup-insert_self (suc w.page_num) next_page closed;
    is_page = record { version = refl; size = refl };
    writing = refl;
    size = refl;
    after_head = omega arith;
    within = omega (arith, r.room);
    size_small = r.page_size_small;
    page_size_small = r.page_size_small;
    room = r.room;
    last = λ j lt.
        lookup-insert_ne j (suc w.page_num) next_page closed (omega arith)
        ∙ (lookup-insert_ne j w.page_num (finish c.stop r.page) d (omega arith)
            ∙ r.last j (omega arith));
  }

  write_rolls :
      (n : ℕ) (x : List ℕ)
      → IsMsg x
      → w.size < r.page.tail + 20 + length x
      → write (suc n) true c x w d ≡ elim (is_short (length x) w.page_size) [
        | true ↦ write n true c x next_writer next_dir
        | false ↦ some (false, next_writer, next_dir)
      ]
  unfolding write
  write_rolls n x small full =
      let no : leb (tail_after r.page (length x)) w.size ≡ false =
        ground (arith, room_eq w d r x small) in
      rw (write, r.mapped, r.at, no, roll_lem) refl

is_short_iff :
    (len size : ℕ)
    → page_head_size + frame_head_size ≤ size
    → size ≤ 2 ^ 31
    → is_short len size ≡ leb (len + 65) size
is_short_iff len size lo hi =
    let e : (size + 2 ^ 64 - 65) % 2 ^ 64 ≡ size - 65 = omega arith in ground arith

-- A message is written whole where a page has room for it, and nothing of what readers have before
-- them is lost.
pub record IsWritten (last_num k c : ℕ) (xs : List (List ℕ)) (page_size : ℕ) (x : List ℕ) (b : Bool)
    (w2 : Writer) (d2 : Map Page) : Type 0 where
  pub ready : IsReady w2 d2
  pub size : w2.page_size ≡ page_size
  pub pages : ℕ
  pub num : w2.page_num ≡ k + pages
  pub grows : last_num ≤ w2.page_num
  pub ahead : Ahead d2 k pages c (if b then xs ++ x ∷ [] else xs)
  pub done : length x + 65 ≤ page_size → b ≡ true

module _ (w : Writer) (d : Map Page) (r : IsReady w d) (c : Clock) (x : List ℕ) (small : IsMsg x)
    (k n cur : ℕ) (xs : List (List ℕ)) (num : w.page_num ≡ k + n) (a : Ahead d k n cur xs) where
  write_here :
      r.page.tail + 20 + length x ≤ w.size
      → IsWritten w.page_num k cur xs w.page_size x true w (put w d r x small c.frame)
  write_here fits = record {
    ready = put-IsReady w d r x small c.frame fits;
    size = refl;
    pages = n;
    num = num;
    grows = omega arith;
    ahead = put-Ahead d k n cur c.frame w.page_num xs x r.page num r.at (room_eq w d r x small) a;
    done = λ h. refl;
  }

module _ (w : Writer) (d : Map Page) (r : IsReady w d) (c : Clock) (x : List ℕ)
    (small : IsMsg x) where
  pub next_fits :
      length x + 65 ≤ w.page_size
      → (next-IsReady w d r c).page.tail + 20 + length x ≤ (next_writer w d r c).size
  unfolding next-IsReady
  next_fits fits = omega arith

  pub write_next :
      (f : ℕ)
      → w.size < r.page.tail + 20 + length x
      → length x + 65 ≤ w.page_size
      → write (suc (suc f)) true c x w d
        ≡ some (
          true,
          next_writer w d r c,
          put (next_writer w d r c) (next_dir w d r c) (next-IsReady w d r c) x small c.frame,
        )
  write_next f full fits =
      let short : is_short (length x) w.page_size ≡ true =
        is_short_iff (length x) w.page_size r.room r.page_size_small ∙ ground arith in
      rw (write_rolls w d r c (suc f) x small full, short)
        (write_fits (next_writer w d r c) (next_dir w d r c) (next-IsReady w d r c) x small f c
          (next_fits fits))

  pub put_next :
      (nano : ℕ)
      → put (next_writer w d r c) (next_dir w d r c) (next-IsReady w d r c) x small nano
        ≡ insert (suc w.page_num) (put_frame nano x (next_page w d r c)) (next_dir w d r c)
  unfolding next-IsReady
  put_next nano = refl

  write_refused :
      (f : ℕ)
      → w.size < r.page.tail + 20 + length x
      → w.page_size < length x + 65
      → write (suc (suc f)) true c x w d ≡ some (false, next_writer w d r c, next_dir w d r c)
  write_refused f full long =
      let short : is_short (length x) w.page_size ≡ false =
        is_short_iff (length x) w.page_size r.room r.page_size_small ∙ ground arith in
      rw (write_rolls w d r c (suc f) x small full, short) refl

module _ (w : Writer) (d : Map Page) (r : IsReady w d) (c : Clock) (x : List ℕ) (small : IsMsg x)
    (k n cur : ℕ) (xs : List (List ℕ)) (num : w.page_num ≡ k + n) (a : Ahead d k n cur xs) where
  next-Ahead : Ahead (next_dir w d r c) k (suc n) cur xs
  next-Ahead =
      roll-Ahead d k n cur c.stop w.page_num xs r.page (next_page w d r c) num r.at
        (record { version = refl; size = refl }) refl refl a

  abbrev pub Writes : ℕ → Type 0
  Writes f =
      (b : Bool) × (w2 : Writer) × (d2 : Map Page) × (write (suc (suc f)) true c x w d
        ≡ some (b, w2, d2))
      × IsWritten w.page_num k cur xs w.page_size x b w2 d2

  refused :
      w.page_size < length x + 65
      → IsWritten w.page_num k cur xs w.page_size x false (next_writer w d r c) (next_dir w d r c)
  refused long = record {
    ready = next-IsReady w d r c;
    size = refl;
    pages = suc n;
    num = omega arith;
    grows = omega arith;
    ahead = next-Ahead;
    done = λ h. absurd (omega arith);
  }

  next_here :
      length x + 65 ≤ w.page_size
      → IsWritten w.page_num k cur xs w.page_size x true
          (next_writer w d r c)
          (put (next_writer w d r c) (next_dir w d r c) (next-IsReady w d r c) x small c.frame)
  next_here fits =
      let i =
        write_here (next_writer w d r c) (next_dir w d r c) (next-IsReady w d r c) c x small k
          (suc n) cur xs (omega arith) next-Ahead (next_fits w d r c x small fits) in
      record {
        ready = i.ready;
        size = i.size;
        pages = i.pages;
        num = i.num;
        grows = omega arith;
        ahead = i.ahead;
        done = i.done;
      }

  write_rolled : (f : ℕ) → w.size < r.page.tail + 20 + length x → Writes f
  write_rolled f full = elim (Bool-cases (leb (length x + 65) w.page_size)) as (λ e. Writes f) [
    | inl fits ↦ (
      true,
      next_writer w d r c,
      put (next_writer w d r c) (next_dir w d r c) (next-IsReady w d r c) x small c.frame,
      write_next w d r c x small f full (ground arith),
      next_here (ground arith),
    )
    | inr long ↦ (
      false,
      next_writer w d r c,
      next_dir w d r c,
      write_refused w d r c x small f full (ground arith),
      refused (ground arith),
    )
  ]

  pub write_lem : (f : ℕ) → Writes f
  write_lem f = elim (Bool-cases (leb (r.page.tail + 20 + length x) w.size)) as (λ e. Writes f) [
    | inl fits ↦ (
      true,
      w,
      put w d r x small c.frame,
      write_fits w d r x small (suc f) c (ground arith),
      write_here w d r c x small k n cur xs num a (ground arith),
    )
    | inr full ↦ write_rolled f (ground arith)
  ]

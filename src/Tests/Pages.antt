-- ===== src/Tests/Pages.antt =====
-- The theorems on the pages of messages at concrete inputs.
use nat_framework.Prelude.{ℕ, ◌≡◌, refl, true, false, none, some, List, [], ◌∷◌, ◌++◌, arith}
use nat_framework.Prelude.Map.{Map}
use nat_framework.Io.Page.{Page, blank}
use nat_framework.Io.Page.Writer.{
  Writer, Clock, new_writer, on_page, fill_head, put_frame, write, prefetch,
}
use nat_framework.Io.Page.Reader.{at_start}
use nat_framework.Io.Page.Write.{IsReady}
use nat_framework.Io.Page.Read.{Stands}
use nat_framework.Io.Page.Run.{Run, InOrder, Gets, begin, wrote, Run-InOrder, Run-Gets}
use nat_framework.Io.Page.Fault.{write_fault}
use nat_framework.Io.Page.Prefetch.{SameAsWrite, commit-same}

-- A directory with one empty page of 100 bytes.
abbrev first_page : Page
first_page = fill_head 1 (blank 100)

abbrev pages : Map Page
pages = (0, first_page) ∷ []

abbrev author : Writer
author = on_page 0 (blank 100) (new_writer 100)

abbrev clock : Clock
clock = record { stop = 3; start = 4; frame = 5 }

author-IsReady : IsReady author pages
author-IsReady = record {
  mapped = refl;
  page = first_page;
  at = refl;
  is_page = record { version = refl; size = refl };
  writing = refl;
  size = refl;
  after_head = omega arith;
  within = omega arith;
  size_small = omega arith;
  page_size_small = omega arith;
  room = omega arith;
  last = λ j lt. ground arith;
}

at_tail : Stands pages 0 (at_start 0) []
at_tail = record {
  pages = 0;
  upto = refl;
  ahead = (first_page, refl, record { version = refl; size = refl }, refl, refl);
}

abbrev hello : List ℕ
hello = 104 ∷ 105 ∷ []

abbrev with_hello : Map Page
with_hello = (0, put_frame 5 hello first_page) ∷ []

-- A message is written.
one_wrote : Run pages author (at_start 0) with_hello author (at_start 0) 0 (hello ∷ []) []
unfolding write
one_wrote =
    wrote pages with_hello author author (at_start 0) 0 [] [] hello true 0 clock begin (omega arith)
      refl

Run-InOrder_example : InOrder with_hello author (at_start 0) 0 (hello ∷ []) []
Run-InOrder_example =
    Run-InOrder pages author (at_start 0) with_hello author (at_start 0) 0 (hello ∷ []) []
      author-IsReady at_tail one_wrote

Run-Gets_example : Gets with_hello author (at_start 0) (hello ∷ []) []
Run-Gets_example =
    Run-Gets pages author (at_start 0) with_hello author (at_start 0) 0 (hello ∷ []) []
      author-IsReady at_tail one_wrote (λ e. cc)

-- A message of forty bytes does not fit into the page.
abbrev ten : List ℕ
ten = 0 ∷ 1 ∷ 2 ∷ 3 ∷ 4 ∷ 5 ∷ 6 ∷ 7 ∷ 8 ∷ 9 ∷ []

abbrev forty : List ℕ
forty = ten ++ (ten ++ (ten ++ ten))

write_fault_example :
    (w2 : Writer) × (d2 : Map Page) × (write 1 false clock forty author pages
      ≡ some (false, w2, d2))
    × (write 2 true clock hello w2 d2 ≡ none)
    × (prefetch true clock 2 w2 d2 ≡ none)
unfolding author-IsReady
write_fault_example =
    write_fault author pages author-IsReady forty (omega arith) 0 2 clock clock true hello
      (omega arith)

commit-same_example : SameAsWrite author pages clock hello 0
commit-same_example =
    commit-same author pages author-IsReady clock hello (omega arith) (omega arith) 0

-- ===== src/Io/Page/Writer.antt =====
-- The writer of a directory of pages: src/io/CRawIOWriter.cpp. A system call that fails is an
-- argument: whether those of the call succeed. A file that is too short for a page's head is as
-- one that is not there. Using the memory of a page that is not mapped is a fault, none.
use Prim.Native.Nat.{◌%◌, ◌^◌}
use nat_framework.Prelude.{
  ℕ, zero, suc, ◌+◌, ◌-◌, pos, negsuc, leb, ◌==◌, Bool, true, false, Option, none, some, List,
  if◌then◌else◌,
}
use nat_framework.Prelude.Map.{Map, lookup, insert}
use nat_framework.Prelude.Lists.{length}
use nat_framework.Io.Page.{
  Page, Frame, blank, writting, finished, page_head_ver_1, frame_head_magic, page_head_size,
  frame_head_size, check_page_head, get_tail_num,
}

pub record Writer : Type 0 where
  pub page_num : ℕ
  pub size : ℕ
  pub page_size : ℕ
  pub prefetch_tail : ℕ
  pub is_mapped : Bool

-- The times that a call reads: of the end of a page, of the start of the next, of a frame.
pub record Clock : Type 0 where
  pub stop : ℕ
  pub start : ℕ
  pub frame : ℕ

-- The page of the number as it is mapped: a new one is truncated to the default size.
unfoldable pub load : Bool → ℕ → ℕ → Map Page → Option Page
load ok num page_size d =
    if ok
    then elim (lookup num d) [
      | none ↦ some (blank page_size)
      | some p ↦ if check_page_head p then some p else none
    ]
    else none

abbrev pub fill_head : ℕ → Page → Page
fill_head start p = record p {
  status = writting;
  size = p.file_size;
  tail = page_head_size;
  start_nano = pos start;
  stop_nano = negsuc 0;
  version = page_head_ver_1;
}

abbrev pub on_page : ℕ → Page → Writer → Writer
on_page num p w = record w { page_num = num; size = p.file_size; is_mapped = true }

abbrev pub unload : Writer → Writer
unload w = record w { is_mapped = false }

-- `num` is the number after the writer's.
unfoldable pub create_next_page : Bool → ℕ → ℕ → Writer → Map Page → Option (Writer × Map Page)
create_next_page ok start num w d = elim (load ok num w.page_size d) [
  | none ↦ none
  | some p ↦ some (on_page num p w, insert num (fill_head start p) d)
]

-- The writer that a constructor makes.
abbrev pub new_writer : ℕ → Writer
new_writer page_size = record {
  page_num = 0;
  size = page_size;
  page_size = page_size;
  prefetch_tail = 0;
  is_mapped = false;
}

-- None where the source returns false.
unfoldable pub init : Bool → ℕ → ℕ → Map Page → Option (Writer × Map Page)
init ok start page_size d =
    let w = new_writer page_size in
    elim (get_tail_num d) [
      | none ↦ create_next_page ok start 0 w d
      | some n ↦ elim (load ok n page_size d) [
        | none ↦ none
        | some p ↦
            if p.status == finished
            then create_next_page ok start (suc n) w d
            else some (on_page n p w, d)
      ]
    ]

-- A sum of 32-bit lengths.
abbrev pub tail_after : Page → ℕ → ℕ
tail_after p len = (p.tail + frame_head_size + len) % 2 ^ 32

abbrev pub set_frame : Frame → Page → Page
set_frame f p = record p { frames = λ j. if j == p.tail then f else p.frames j }

abbrev pub put_frame : ℕ → List ℕ → Page → Page
put_frame nano msg p =
    record (set_frame
      (record { magic = frame_head_magic; len = length msg; nano = nano; buf = msg }) p) {
        last_nano = pos nano;
        tail = tail_after p (length msg);
      }

abbrev pub finish : ℕ → Page → Page
finish stop p = record p { stop_nano = pos stop; status = finished }

-- The page is closed and the next one is created.
unfoldable pub roll : Bool → Clock → Writer → Page → Map Page → Option (Writer × Map Page)
roll ok c w p d =
    create_next_page ok c.start (suc w.page_num) (unload w) (insert w.page_num (finish c.stop p) d)

-- Whether a page of the size has room for one frame, in 64-bit subtraction.
abbrev pub is_short : ℕ → ℕ → Bool
is_short len size = leb len ((size + 2 ^ 64 - (page_head_size + frame_head_size)) % 2 ^ 64)

-- A message is written as one frame, on the next page if it does not fit on this one. The call of
-- itself is on fuel.
unfoldable pub write :
    ℕ → Bool → Clock → List ℕ → Writer → Map Page → Option (Bool × Writer × Map Page)
write zero ok c msg w d = none
write (suc n) ok c msg w d = elim (if w.is_mapped then lookup w.page_num d else none) [
  | none ↦ none
  | some p ↦ elim (leb (tail_after p (length msg)) w.size) [
    | true ↦ some (true, w, insert w.page_num (put_frame c.frame msg p) d)
    | false ↦ elim (roll ok c w p d) [
      | none ↦ some (false, unload w, insert w.page_num (finish c.stop p) d)
      | some (w2, d2) ↦ elim (is_short (length msg) w2.size) [
        | true ↦ write n ok c msg w2 d2
        | false ↦ some (false, w2, d2)
      ]
    ]
  ]
]

abbrev pub set_len : ℕ → Page → Page
set_len len p = set_frame (record (p.frames p.tail) { len = len }) p

-- The position of a frame of the length, none where the source returns NULL.
unfoldable pub prefetch :
    Bool → Clock → ℕ → Writer → Map Page → Option (Option ℕ × Writer × Map Page)
prefetch ok c len w d = elim (if w.is_mapped then lookup w.page_num d else none) [
  | none ↦ none
  | some p ↦
      let w1 : Writer = record w { prefetch_tail = tail_after p len } in
      elim (leb (tail_after p len) w.size) [
        | true ↦ some (some p.tail, w1, insert w.page_num (set_len len p) d)
        | false ↦ elim (roll ok c w1 p d) [
          | none ↦ some (none, unload w1, insert w.page_num (finish c.stop p) d)
          | some (w2, d2) ↦ elim (lookup w2.page_num d2) [
            | none ↦ none
            | some q ↦
                let w3 : Writer = record w2 { prefetch_tail = tail_after q len } in
                if leb (tail_after q len) w3.size
                then some (some q.tail, w3, insert w3.page_num (set_len len q) d2)
                else some (none, w3, d2)
          ]
        ]
      ]
]

-- The user writes a message to the place that was given.
abbrev pub fill_in : ℕ → List ℕ → Page → Page
fill_in at msg p = record p {
  frames = λ j. if j == at then record (p.frames at) { buf = msg } else p.frames j;
}

abbrev pub sign : ℕ → Page → Page
sign nano p = set_frame (record (p.frames p.tail) { magic = frame_head_magic; nano = nano }) p

unfoldable pub commit : Clock → Writer → Map Page → Option (Map Page)
commit c w d = elim (if w.is_mapped then lookup w.page_num d else none) [
  | none ↦ none
  | some p ↦ some (
      insert w.page_num
        (record (sign c.frame p) { last_nano = pos c.frame; tail = w.prefetch_tail }) d)
]

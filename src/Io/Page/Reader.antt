-- ===== src/Io/Page/Reader.antt =====
-- A reader of a directory of pages: src/io/CRawIOReader.h and CRawIOReader.cpp. Whether the system
-- calls of a call succeed is an argument. The calls that load a page call themselves, which is on
-- fuel. `seen` is the status of the page, which a call loads before it looks at the page's tail.
use nat_framework.Prelude.{
  ℕ, zero, suc, ◌+◌, ltb, ◌==◌, Bool, true, false, Option, none, some, if◌then◌else◌,
}
use nat_framework.Prelude.Map.{Map, lookup}
use nat_framework.Io.Page.{
  Page, Frame, finished, page_head_size, frame_head_size, check_page_head, check_frame_valid,
  get_tail_num,
}

pub record Reader : Type 0 where
  pub page_num : ℕ
  pub cursor : ℕ
  pub is_mapped : Bool

unfoldable pub load : Bool → Map Page → ℕ → Option Page
load ok d num =
    if ok
    then elim (lookup num d) [ none ↦ none | some p ↦ if check_page_head p then some p else none ]
    else none

abbrev pub at_start : ℕ → Reader
at_start num = record { page_num = num; cursor = page_head_size; is_mapped = true }

abbrev pub without_page : ℕ → Reader → Reader
without_page num r = record r { page_num = num; is_mapped = false }

-- The status of the page that is mapped.
abbrev pub status_at : Map Page → Reader → ℕ
status_at d r = elim (lookup r.page_num d) [ none ↦ 0 | some p ↦ p.status ]

abbrev pub frame_end : ℕ → Frame → ℕ
frame_end cursor f = cursor + frame_head_size + f.len

-- The next frame of the mapped page, at the reader's cursor, if it is before the page's tail.
abbrev pub read_here : Page → Reader → Option Frame × Reader
read_here p r =
    if check_frame_valid (p.frames r.cursor)
    then (some (p.frames r.cursor), record r { cursor = frame_end r.cursor (p.frames r.cursor) })
    else (none, record r { cursor = p.tail })

unfoldable pub read : ℕ → Bool → ℕ → Map Page → Reader → Option (Option Frame × Reader)
read zero ok seen d r = none
read (suc n) ok seen d r = elim r.is_mapped [
  | false ↦ elim (load ok d r.page_num) [
    | none ↦ some (none, r)
    | some p ↦ read n ok p.status d (at_start r.page_num)
  ]
  | true ↦ elim (lookup r.page_num d) [
    | none ↦ none
    | some p ↦ elim (ltb r.cursor p.tail) [
      | true ↦ some (read_here p r)
      | false ↦ elim (seen == finished) [
        | false ↦ some (none, r)
        | true ↦ elim (load ok d (suc r.page_num)) [
          | none ↦ some (none, without_page (suc r.page_num) r)
          | some q ↦ read n ok q.status d (at_start (suc r.page_num))
        ]
      ]
    ]
  ]
]

-- The same without moving past the frame.
unfoldable pub get_cur_frame : ℕ → Bool → ℕ → Map Page → Reader → Option (Option Frame × Reader)
get_cur_frame zero ok seen d r = none
get_cur_frame (suc n) ok seen d r = elim r.is_mapped [
  | false ↦ elim (load ok d r.page_num) [
    | none ↦ some (none, r)
    | some p ↦ get_cur_frame n ok p.status d (at_start r.page_num)
  ]
  | true ↦ elim (lookup r.page_num d) [
    | none ↦ none
    | some p ↦ elim (ltb r.cursor p.tail) [
      | true ↦
          if check_frame_valid (p.frames r.cursor)
          then some (some (p.frames r.cursor), r)
          else some (none, record r { cursor = p.tail })
      | false ↦ elim (seen == finished) [
        | false ↦ some (none, r)
        | true ↦ elim (load ok d (suc r.page_num)) [
          | none ↦ some (none, without_page (suc r.page_num) r)
          | some q ↦ get_cur_frame n ok q.status d (at_start (suc r.page_num))
        ]
      ]
    ]
  ]
]

unfoldable pub pass_frame : Bool → ℕ → Map Page → Reader → Option Reader
pass_frame ok seen d r = elim r.is_mapped [
  | false ↦ elim (load ok d r.page_num) [ none ↦ some r | some p ↦ some (at_start r.page_num) ]
  | true ↦ elim (lookup r.page_num d) [
    | none ↦ none
    | some p ↦
        if ltb r.cursor p.tail
        then some (record r { cursor = frame_end r.cursor (p.frames r.cursor) })
        else if seen == finished
        then elim (load ok d (suc r.page_num)) [
          | none ↦ some (without_page (suc r.page_num) r)
          | some q ↦ some (at_start (suc r.page_num))
        ]
        else some r
  ]
]

-- At most `frame_no` frames are passed.
unfoldable pub seek_from : Page → ℕ → ℕ → ℕ
seek_from p zero cursor = cursor
seek_from p (suc frame_no) cursor =
    let rest = seek_from p frame_no (frame_end cursor (p.frames cursor)) in
    if ltb cursor p.tail then rest else cursor

-- A negative number, which is none here, is the tail.
unfoldable pub seek : Option ℕ → Page → Reader → Reader
seek none p r = record r { cursor = p.tail }
seek (some frame_no) p r = record r { cursor = seek_from p frame_no page_head_size }

-- `init` from the latest frame of the latest page: a reader waits for the first page if there is
-- none.
unfoldable pub init_latest : Bool → Map Page → Reader
init_latest ok d =
    let num : ℕ = elim (get_tail_num d) [ none ↦ 0 | some n ↦ n ] in
    elim (load ok d num) [
      | none ↦ record { page_num = num; cursor = 0; is_mapped = false }
      | some p ↦ record (at_start num) { cursor = p.tail }
    ]

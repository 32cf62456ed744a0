-- ===== src/Io/Page.antt =====
-- The pages in which one process writes messages and others read them: src/io/ioprotocol.h and the
-- tests of src/io/CIOBase.h. A page is a file of the directory, and the directory is a map from
-- the numbers of the files to the pages. The memory of a page is a function from a position to the
-- frame whose head is there. Times are in nanoseconds and below 2 ^ 63.
pub mod Writer
pub mod Reader
pub mod Ahead
pub mod Write
pub mod Read
pub mod Run
pub mod Fault
pub mod Prefetch
use nat_framework.Prelude.{
  ℕ, zero, suc, ℤ, pos, ltb, ◌==◌, Bool, ◌&&◌, Option, none, some, List, [], ◌∷◌, if◌then◌else◌,
}
use nat_framework.Prelude.Map.{Map}

abbrev pub writting : ℕ
writting = 0

abbrev pub finished : ℕ
finished = 1

abbrev pub page_head_ver_1 : ℕ
page_head_ver_1 = 1

abbrev pub frame_head_magic : ℕ
frame_head_magic = 538444835

-- The sizes of the packed heads.
abbrev pub page_head_size : ℕ
page_head_size = 45

abbrev pub frame_head_size : ℕ
frame_head_size = 20

pub record Frame : Type 0 where
  pub magic : ℕ
  pub len : ℕ
  pub nano : ℕ
  pub buf : List ℕ

-- `file_size` is the size of the file, `size` what the head says of it.
pub record Page : Type 0 where
  pub file_size : ℕ
  pub status : ℕ
  pub version : ℕ
  pub size : ℕ
  pub tail : ℕ
  pub start_nano : ℤ
  pub stop_nano : ℤ
  pub last_nano : ℤ
  pub frames : ℕ → Frame

-- A file that was truncated to the size holds zeros.
abbrev pub blank : ℕ → Page
blank n = record {
  file_size = n;
  status = 0;
  version = 0;
  size = 0;
  tail = 0;
  start_nano = pos 0;
  stop_nano = pos 0;
  last_nano = pos 0;
  frames = λ j. record { magic = 0; len = 0; nano = 0; buf = [] };
}

abbrev pub check_frame_valid : Frame → Bool
check_frame_valid f = f.magic == frame_head_magic

-- `size_` is the file's size when the test is made.
abbrev pub check_page_head : Page → Bool
check_page_head p = p.version == page_head_ver_1 && p.size == p.file_size

-- The largest number of a page, none where the source returns -1.
unfoldable pub get_tail_num : Map Page → Option ℕ
get_tail_num [] = none
get_tail_num ((k, p) ∷ d) = elim (get_tail_num d) [
  | none ↦ some k
  | some n ↦ some (if ltb n k then k else n)
]

unfoldable pub get_head_num : Map Page → Option ℕ
get_head_num [] = none
get_head_num ((k, p) ∷ d) = elim (get_head_num d) [
  | none ↦ some k
  | some n ↦ some (if ltb k n then k else n)
]

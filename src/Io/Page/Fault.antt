-- ===== src/Io/Page/Fault.antt =====
-- src/io/CRawIOWriter.cpp where the next page cannot be created.
use Prim.Native.Nat.{◌<◌}
use nat_framework.Prelude.{ℕ, zero, suc, ◌+◌, leb, ◌≡◌, refl, Bool, false, none, some, List, arith}
use nat_framework.Prelude.Map.{Map, insert}
use nat_framework.Prelude.Lists.{length}
use nat_framework.Io.Page.{Page}
use nat_framework.Io.Page.Writer.{
  Writer, Clock, finish, tail_after, unload, create_next_page, load, roll, write, prefetch,
}
use nat_framework.Io.Page.Write.{IsReady, IsMsg, room_eq}

module _ (w : Writer) (d : Map Page) (r : IsReady w d) (x : List ℕ) (small : IsMsg x) where
  unmapped_faults :
      (g : ℕ) (e : Clock) (ok : Bool) (y : List ℕ) (v : Writer) (b : Map Page)
      → write g ok e y (unload v) b ≡ none
  unfolding write
  unmapped_faults zero e ok y v b = refl
  unmapped_faults (suc g) e ok y v b = refl

  -- For a writer on the last page whose tail is within it, if a message of less than 2^31 bytes
  -- with its head does not fit on the page and the next page cannot be created, write returns
  -- false, and the next call of write or of prefetch faults, which stands for the use of memory
  -- that is no longer mapped.
  pub write_fault :
      (f g : ℕ) (c e : Clock) (ok : Bool) (y : List ℕ)
      → w.size < r.page.tail + 20 + length x
      → (w2 : Writer) × (d2 : Map Page) × (write (suc f) false c x w d ≡ some (false, w2, d2))
        × (write g ok e y w2 d2 ≡ none)
        × (prefetch ok e (length y) w2 d2 ≡ none)
  unfolding write prefetch roll create_next_page load
  write_fault f g c e ok y full =
      let no : leb (tail_after r.page (length x)) w.size ≡ false =
        ground (arith, room_eq w d r x small) in
      (
        unload w,
        insert w.page_num (finish c.stop r.page) d,
        rw (write, r.mapped, r.at, no) refl,
        unmapped_faults g e ok y w (insert w.page_num (finish c.stop r.page) d),
        refl,
      )

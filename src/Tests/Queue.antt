-- ===== src/Tests/Queue.antt =====
-- The theorems on the ring buffer at concrete inputs.
use nat_framework.Prelude.{ℕ, ◌≡◌, refl, pos, some, [], ◌∷◌, arith}
use nat_framework.Td.IdQueue.{IdQueue}
use nat_framework.Io.Queue.{MemQueue, write, read, Trace, begin, wrote, got, InOrder, Trace-InOrder}

-- A queue of two cells on its seventh message.
abbrev two_cells : MemQueue ℕ
two_cells = record { seq = 6; elemcnt = 2; cells = λ j. 0 }

filled : Trace two_cells (write 5 (write 4 two_cells)) 6 (4 ∷ 5 ∷ []) []
unfolding write
filled =
    wrote (write 4 two_cells) 6 (4 ∷ []) [] 5
      (wrote two_cells 6 [] [] 4 (begin (omega arith)) (omega arith) (omega arith)) (omega arith)
      (omega arith)

first_read : read (write 5 (write 4 two_cells)) 6 ≡ (some 4, 7)
unfolding read write
first_read = refl

Trace-InOrder_example : InOrder (write 5 (write 4 two_cells)) 7 (4 ∷ 5 ∷ []) (4 ∷ [])
Trace-InOrder_example =
    Trace-InOrder two_cells (write 5 (write 4 two_cells)) 7 (4 ∷ 5 ∷ []) (4 ∷ [])
      (got (write 5 (write 4 two_cells)) 6 7 (4 ∷ 5 ∷ []) [] 4 filled first_read)

abbrev pub no_ids : IdQueue
no_ids = record { front = 0; id = λ i. pos 0 }

-- ===== src/Tests/Orders.antt =====
-- The theorems on an instrument's handlers at concrete inputs.
use nat_framework.Prelude.{ℤ, pos, ◌≡◌, some}
use nat_framework.Account.Vol.{flat}
use nat_framework.Account.Amt
use nat_framework.Account.Pnl
use nat_framework.Account.Instr.{Linked, on_trd}
use nat_framework.Account.Instr.Keeps.{Keeps}
use nat_framework.Account.Instr.Conserve.{trade, handler-Books, handler-Alike}
use nat_framework.Account.Instr.VolRel.{Books, VolRel}
use nat_framework.Account.Instr.Alike.{Start, Alike}
use nat_framework.Account.Instr.Life.{life, life_lem, filled_vol}
use nat_framework.Account.Codes.{buy, sell, open_off, close_yesterday}
use nat_framework.Tests.{whole, held, books, books-Holds}

from_nothing : Start ℤ
from_nothing = record {
  instr_amt = Amt.no_amt ⦃F = whole⦄;
  instr_pnl = Pnl.no_pnl ⦃F = whole⦄;
  prd_amt = Amt.no_amt ⦃F = whole⦄;
  prd_pnl = Pnl.no_pnl ⦃F = whole⦄;
  acc_amt = Amt.no_amt ⦃F = whole⦄;
  acc_pnl = Pnl.no_pnl ⦃F = whole⦄;
}

handler-Books_example :
    Keeps
      (VolRel ⦃F = whole⦄ (Books held))
      (on_trd ⦃F = whole⦄ sell close_yesterday (pos 100) (pos 4) (pos 1) (pos 101) (pos 1))
handler-Books_example =
    handler-Books ⦃F = whole⦄ held _
      (trade sell close_yesterday (pos 100) (pos 4) (pos 1) (pos 101) (pos 1))

handler-Alike_example :
    Keeps
      (Alike ⦃F = whole⦄ from_nothing)
      (on_trd ⦃F = whole⦄ sell close_yesterday (pos 100) (pos 4) (pos 1) (pos 101) (pos 1))
handler-Alike_example =
    handler-Alike ⦃F = whole⦄ from_nothing _
      (trade sell close_yesterday (pos 100) (pos 4) (pos 1) (pos 101) (pos 1))

life_example :
    (c' : Linked ℤ) × (life ⦃F = whole⦄ buy open_off (pos 100) (pos 5) (pos 99) (pos 2) books
      ≡ some c')
    × (c'.instr.unit_vol ≡ filled_vol buy open_off (pos 2) held)
life_example =
    life_lem ⦃F = whole⦄ flat buy open_off (pos 100) (pos 5) (pos 99) (pos 2) books books-Holds

-- ===== src/Account/Codes.antt =====
-- src/include/ATConstants.h: the codes of directions, offsets and order states that the account
-- and the risk checks compare. The source's `int` codes are only tested for equality and for bits.
use Prim.Native.Nat.{bit_and, bit_or}
use nat_framework.Prelude.{ℕ, ◌==◌, Bool, not}

-- `x & mask`, as a condition.
abbrev pub has_bits : ℕ → ℕ → Bool
has_bits x mask = not (bit_and x mask == 0)

-- `x | mask`
abbrev pub with_bits : ℕ → ℕ → ℕ
with_bits x mask = bit_or x mask

-- AT_CHAR_Buy, AT_CHAR_Sell
abbrev pub buy : ℕ
buy = b'0'

abbrev pub sell : ℕ
sell = b'1'

-- AT_CHAR_Open, AT_CHAR_Close, AT_CHAR_CloseToday, AT_CHAR_CloseYesterday, AT_CHAR_Auto
abbrev pub open_off : ℕ
open_off = b'0'

abbrev pub close_off : ℕ
close_off = b'1'

abbrev pub close_today : ℕ
close_today = b'3'

abbrev pub close_yesterday : ℕ
close_yesterday = b'4'

abbrev pub auto_off : ℕ
auto_off = b'A'

-- `emOrderRtnType`: the masks that the account tests. CLOSED is 1, SEND 2 and TDSEND 4, EXECUTION
-- 256; REJECT, MARKET_REJECT and CANCELED are 32, 128 and 1024, each with the bit of CLOSED.
abbrev pub closed_bit : ℕ
closed_bit = 1

-- ODS(SEND) | ODS(TDSEND)
abbrev pub send_mask : ℕ
send_mask = 6

abbrev pub execution_bit : ℕ
execution_bit = 256

-- ODS(REJECT) | ODS(MARKET_REJECT) | ODS(CANCELED)
abbrev pub cancel_mask : ℕ
cancel_mask = 1185

-- ODS(CANCELED)
abbrev pub canceled_mask : ℕ
canceled_mask = 1025

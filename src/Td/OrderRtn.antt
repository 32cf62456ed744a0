-- ===== src/Td/OrderRtn.antt =====
-- src/include/ATConstants.h: the members of `emOrderRtnType` that orders and messages are given.
use nat_framework.Prelude.{ℕ}

abbrev pub send : ℕ
send = 2

abbrev pub td_send : ℕ
td_send = 4

abbrev pub cxling : ℕ
cxling = 8

abbrev pub accept : ℕ
accept = 16

abbrev pub reject : ℕ
reject = 33

abbrev pub market_accept : ℕ
market_accept = 64

abbrev pub execution : ℕ
execution = 256

abbrev pub cancel_reject : ℕ
cancel_reject = 512

abbrev pub canceled : ℕ
canceled = 1025

abbrev pub err : ℕ
err = 2049

abbrev pub closed : ℕ
closed = 1

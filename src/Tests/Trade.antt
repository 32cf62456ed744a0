-- ===== src/Tests/Trade.antt =====
-- The theorem on repeated trades at concrete inputs.
use nat_framework.Prelude.{ℤ, pos, ◌≡◌, ◌≢◌, refl, none, Option, some, List, [], true, arith}
use nat_framework.Account.Codes.{buy, open_off}
use nat_framework.Account.Base
use nat_framework.Risk.InstrTop.{TreapNode}
use nat_framework.Risk.Top
use nat_framework.Risk.InstrTop
use nat_framework.Td.IdQueue.{test, test_ot_id}
use nat_framework.Td.Engine.{OrderRtn, check_request_id}
use nat_framework.Td.Ctp.{req_order_insert, sent}
use nat_framework.Td.Ctp.Trade.{Trade, Filtered, book_trade, on_rtn_trade}
use nat_framework.Td.Ctp.Repeats.{Trades, begin, traded, on_rtn_trade_again}
use nat_framework.Tests.{one_instr, name_hash, whole}
use nat_framework.Tests.Treap.{list_treap}
use nat_framework.Tests.Engine.{blank}
use nat_framework.Tests.Queue.{no_ids}
use nat_framework.Tests.Ctp

abbrev State : Type 0
State = Filtered ℤ (List (TreapNode ℤ))

abbrev accepted : State
accepted = record { ctp = Ctp.after Ctp.insert; filters = λ i. no_ids }

-- Two of the five lots, in a trade of the given number.
abbrev two_lots : ℤ → Trade ℤ
two_lots trade_id = record {
  is_own = true;
  order_ref = pos 1;
  trade_id = trade_id;
  instrument_id = "rb2205";
  price = pos 100;
  volume = pos 2;
  direction = buy;
  offset_flag = open_off;
}

abbrev report : Trade ℤ → State → Option (State × List (OrderRtn ℤ))
report p s = on_rtn_trade ⦃F = whole⦄ list_treap name_hash one_instr blank p s

abbrev then_state : Option (State × List (OrderRtn ℤ)) → State
then_state x = elim x [ none ↦ accepted | some y ↦ y.0 ]

abbrev then_out : Option (State × List (OrderRtn ℤ)) → List (OrderRtn ℤ)
then_out x = elim x [ none ↦ [] | some y ↦ y.1 ]

abbrev first : Option (State × List (OrderRtn ℤ))
first = report (two_lots (pos 7)) accepted

abbrev second : Option (State × List (OrderRtn ℤ))
second = report (two_lots (pos 8)) (then_state first)

booked : first ≡ some (then_state first, then_out first)
unfolding on_rtn_trade book_trade check_request_id test_ot_id test Top.on_rtn Base.on_rtn
    Base.on_known InstrTop.on_trd req_order_insert sent Top.check Top.on_new Base.on_new
    InstrTop.on_new
booked = refl

abbrev third : Option (State × List (OrderRtn ℤ))
third = report (two_lots (pos 7)) (then_state second)

booked_second : second ≡ some (then_state second, then_out second)
unfolding on_rtn_trade book_trade check_request_id test_ot_id test Top.on_rtn Base.on_rtn
    Base.on_known InstrTop.on_trd req_order_insert sent Top.check Top.on_new Base.on_new
    InstrTop.on_new
booked_second = refl

answered : then_out first ≢ []
unfolding on_rtn_trade book_trade check_request_id test_ot_id test Top.on_rtn Base.on_rtn
    Base.on_known InstrTop.on_trd req_order_insert sent Top.check Top.on_new Base.on_new
    InstrTop.on_new
answered = λ e. cc

between :
    Trades ⦃F = whole⦄ list_treap name_hash one_instr blank (then_state first) 1 (then_state second)
between =
    traded 0 (then_state first) (then_state second) (two_lots (pos 8)) (then_out second) begin
      booked_second

on_rtn_trade_again_example : third ≡ some (then_state second, [])
on_rtn_trade_again_example =
    on_rtn_trade_again ⦃F = whole⦄ list_treap name_hash one_instr blank (two_lots (pos 7)) 1
      accepted (then_state first) (then_state second) (then_out first) booked answered between
      (omega arith)

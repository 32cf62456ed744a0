-- ===== src/Tests/Ctp.antt =====
-- The theorems on the orders and cancels of an engine at concrete inputs.
use nat_framework.Prelude.{ℤ, pos, ◌≡◌, refl, Option, some, List, [], ◌∷◌, none, arith}
use nat_framework.Account.Codes.{buy, open_off}
use nat_framework.Risk.InstrTop.{TreapNode}
use nat_framework.Risk.Top
use nat_framework.Risk.InstrTop
use nat_framework.Account.Base
use nat_framework.Td.Engine.{Engine, InputOrder, OrderAction, OrderRtn, check_request_id}
use nat_framework.Td.Ctp.{CtpEngine, req_order_insert, req_order_action, sent}
use nat_framework.Td.Ctp.Tracks.{Tracked}
use nat_framework.Td.Ctp.Served.{
  Served, begin, ordered, canceled, Recovers, Served-Tracked, served-Recovers,
}
use nat_framework.Tests.{one_instr, name_hash, whole}
use nat_framework.Tests.Gate.{no_net}
use nat_framework.Tests.Treap.{list_treap}
use nat_framework.Tests.Top.{engine}
use nat_framework.Tests.Engine.{blank, track_of}

abbrev new_tracks : Engine ℤ
new_tracks = record {
  self_id = pos 5;
  request_id = 1;
  request_id_start = 1;
  request_id_end = 1000000;
  request_track = λ i. track_of i (pos 8) 0;
}

abbrev started : CtpEngine ℤ (List (TreapNode ℤ))
started = record {
  engine = new_tracks;
  acc_utilis = engine ∷ [];
  front_id = λ i. pos 1;
  session_id = λ i. pos 2;
}

-- An order of an instrument that the table does not have, which is not checked.
abbrev bought : InputOrder ℤ
bought = record {
  extra_nano = pos 0;
  from = pos 7;
  local_id = 0;
  acc_idx = pos 0;
  instr_hash = 7;
  instr = "rb2205";
  price = pos 100;
  vol = pos 5;
  dir = buy;
  off = open_off;
  stg_id = pos 0;
}

abbrev pub insert : Option (CtpEngine ℤ (List (TreapNode ℤ)) × List (OrderRtn ℤ))
insert =
    req_order_insert ⦃F = whole⦄ list_treap no_net (λ i. 0) name_hash one_instr blank 1 (pos 9000)
      (pos 0) bought started

abbrev pub after :
    Option (CtpEngine ℤ (List (TreapNode ℤ)) × List (OrderRtn ℤ)) → CtpEngine ℤ (List (TreapNode ℤ))
after x = elim x [ none ↦ started | some y ↦ y.0 ]

abbrev answers : Option (CtpEngine ℤ (List (TreapNode ℤ)) × List (OrderRtn ℤ)) → List (OrderRtn ℤ)
answers x = elim x [ none ↦ [] | some y ↦ y.1 ]

taken : insert ≡ some (after insert, answers insert)
unfolding req_order_insert sent Top.check Top.on_new Base.on_new Base.on_known InstrTop.on_new
taken = refl

one_more :
    Served ⦃F = whole⦄ list_treap no_net
      (λ i. 0)
      name_hash
      one_instr
      blank
      started
      (after insert)
      (bought ∷ [])
unfolding req_order_insert sent Top.check Top.on_new Base.on_new Base.on_known InstrTop.on_new
one_more =
    ordered started (after insert) [] bought 1 (pos 9000) (pos 0) (answers insert) begin taken

-- The cancel of that order, which stays where it is and gets the state of a cancel on its way.
abbrev undo : OrderAction
undo = record {
  from = pos 7;
  local_id = 0;
  acc_idx = pos 0;
  order_ref = pos 1;
  front_id = pos 1;
  session_id = pos 2;
  instr_hash = 7;
  instr = "rb2205";
}

abbrev cancel : Option (CtpEngine ℤ (List (TreapNode ℤ)) × List (OrderRtn ℤ))
cancel =
    req_order_action ⦃F = whole⦄ list_treap no_net (λ i. 0) name_hash one_instr blank (pos 0) undo
      (after insert)

undone : cancel ≡ some (after cancel, answers cancel)
unfolding req_order_insert sent Top.check Top.on_new Base.on_new Base.on_known InstrTop.on_new
    req_order_action check_request_id
undone = refl

both :
    Served ⦃F = whole⦄ list_treap no_net
      (λ i. 0)
      name_hash
      one_instr
      blank
      started
      (after cancel)
      (bought ∷ [])
both =
    canceled (after insert) (after cancel) (bought ∷ []) undo (pos 0) (answers cancel) one_more
      undone

Served-Tracked_example : Tracked 1 (after cancel).engine (bought ∷ [])
Served-Tracked_example =
    Served-Tracked ⦃F = whole⦄ list_treap no_net (λ i. 0) name_hash one_instr blank started
      (after cancel) (bought ∷ []) both refl (omega arith)

served-Recovers_example : Recovers 1 (after cancel).engine (pos 0) 0 bought
served-Recovers_example =
    served-Recovers ⦃F = whole⦄ list_treap no_net (λ i. 0) name_hash one_instr blank started
      (after cancel) (bought ∷ []) (pos 0) 0 bought both refl (omega arith) refl

-- ===== src/Td/Helper.antt =====
-- src/td/ITDHelper.cpp: the tracks of the orders that a client has sent. What the front end's own
-- part of an operation does (doSendOrder, doDelOrder, doGetRtn) is in src/td/CTDHelperFake.cpp.
use Prim.Native.String.{String}
use nat_framework.Prelude.{
  ℕ, ℤ, pos, negsuc, ◌+ℤ◌, leb_ℤ, ◌==◌, ◌&&◌, not, Bool, Option, none, some, List, if◌then◌else◌,
}
use nat_framework.Prelude.Lists.{get_elem?, set}
use nat_framework.Double.{Double, of_int, nil, ◌⊕◌, ◌⊗◌}
use nat_framework.TradeBase.{OrderTrack, RtnMsg}
use nat_framework.Account.Codes.{has_bits, with_bits, closed_bit}
use nat_framework.Td.OrderRtn

module _ {D : Type 0} ⦃F : Double D⦄ where
  -- The track of a new order, with the index that it gets.
  abbrev pub new_track : String → D → ℤ → ℕ → ℕ → ℤ → ℤ → ℕ → ℕ → OrderTrack D
  new_track instr price vol dir off acc_id stg_id instr_hash id = record {
    status = OrderRtn.send;
    instr_hash = instr_hash;
    instr = instr;
    price = price;
    vol = vol;
    dir = dir;
    off = off;
    vol_traded = pos 0;
    amount_traded = nil;
    from = pos 0;
    local_id = id;
    acc_id = acc_id;
    stg_id = stg_id;
    order_ref = negsuc 0;
    front_id = negsuc 0;
    session_id = negsuc 0;
  }

  -- The test of `deleteOrder`.
  abbrev pub can_delete : OrderTrack D → Bool
  can_delete ot =
      leb_ℤ (pos 0) ot.order_ref && has_bits ot.status 340 && not (has_bits ot.status closed_bit)

  -- What `getRtn` does to the track of the message's order.
  abbrev pub on_msg : RtnMsg D → OrderTrack D → OrderTrack D
  on_msg p track =
      let seen : OrderTrack D = record track {
        status = with_bits track.status p.msg_type;
        order_ref = p.order_ref;
        front_id = p.front_id;
        session_id = p.session_id;
      } in
      if p.msg_type == OrderRtn.execution
      then (let filled = track.vol_traded +ℤ p.vol in
          record seen {
            vol_traded = filled;
            amount_traded = track.amount_traded ⊕ of_int p.vol ⊗ p.price;
            status =
                if leb_ℤ track.vol filled then with_bits seen.status closed_bit else seen.status;
          })
      else seen

  -- The tracks after a message, if it is about one of them.
  abbrev pub take_msg : RtnMsg D → List (OrderTrack D) → Option (List (OrderTrack D))
  take_msg p tracks = elim (get_elem? tracks p.local_id) [
    | none ↦ none
    | some track ↦ some (set tracks p.local_id (on_msg p track))
  ]

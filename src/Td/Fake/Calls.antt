-- ===== src/Td/Fake/Calls.antt =====
-- src/td/ITDHelper.cpp and src/td/CTDHelperFake.cpp: what a client and the replay call. An index
-- that is out of range gives none.
use Prim.Native.String.{String}
use text.Mathlib.Text.{◌==◌ as str_eq}
use nat_framework.Prelude.{
  ℕ, ℤ, pos, ◌==ℤ◌, ◌==◌, ◌&&◌, ◌||◌, not, Bool, Option, none, some, List, [], ◌∷◌, ◌++◌,
  if◌then◌else◌, true, false,
}
use nat_framework.Prelude.Lists.{length, get_elem?, set}
use nat_framework.Prelude.Map.{lookup, insert}
use nat_framework.Double.{Double}
use nat_framework.TradeBase.{OrderTrack, RtnMsg}
use nat_framework.Account.Codes.{buy, sell, has_bits, with_bits, closed_bit}
use nat_framework.Td.OrderRtn
use nat_framework.Td.Helper.{new_track, can_delete, take_msg}
use nat_framework.Td.Fake.{
  HelperFake, Tick, MarketData, fill_rtn_msg, post, is_finished, left, match_and_erase, insert_id,
  erase_id,
}

module _ {D : Type 0} ⦃F : Double D⦄ where
  -- The three messages of an order that the market takes.
  abbrev pub accepted_msgs : OrderTrack D → ℕ → List (RtnMsg D)
  accepted_msgs ot id =
      fill_rtn_msg ot id OrderRtn.td_send
      ∷ fill_rtn_msg ot id OrderRtn.accept
      ∷ fill_rtn_msg ot id OrderRtn.market_accept
      ∷ []

  abbrev pub rejected_msg : OrderTrack D → ℕ → RtnMsg D
  rejected_msg ot id = record (fill_rtn_msg ot id OrderRtn.reject) { msg = "direction is invalid." }

  -- The market's own track of a new order: pushed back, then marked.
  abbrev pub push_eng : OrderTrack D → ℕ → HelperFake D → HelperFake D
  push_eng ot mask s = record s {
    eng_order_track = s.eng_order_track ++ record ot { status = with_bits ot.status mask } ∷ [];
  }

  unfoldable pub enqueue : OrderTrack D → ℕ → HelperFake D → HelperFake D
  enqueue ot id s =
      post (accepted_msgs ot id)
        (push_eng ot 84 (record s { queued_track_id = insert_id id s.queued_track_id }))

  unfoldable pub do_send_order : OrderTrack D → ℕ → HelperFake D → Option (HelperFake D)
  do_send_order ot id s =
      if not (ot.dir == buy) && not (ot.dir == sell)
      then some (post (rejected_msg ot id ∷ []) (push_eng ot OrderRtn.reject s))
      else elim (lookup ot.instr_hash s.last_tick_wall) [
        | none ↦ some (enqueue ot id s)
        | some tick ↦ elim (match_and_erase id tick (enqueue ot id s)) [
          | none ↦ none
          | some (s', tick') ↦
              some (record s' { last_tick_wall = insert ot.instr_hash tick' s'.last_tick_wall })
        ]
      ]

  -- A new track, the order's index.
  unfoldable pub send_order :
      String → D → ℤ → ℕ → ℕ → ℤ → ℤ → ℕ → HelperFake D → Option (HelperFake D) × ℕ
  send_order instr price vol dir off acc_id stg_id instr_hash s =
      let id = length s.order_track in
      let track = new_track instr price vol dir off acc_id stg_id instr_hash id in
      (do_send_order track id (record s { order_track = s.order_track ++ track ∷ [] }), id)

  -- The market's answer to a cancel.
  abbrev pub is_late : OrderTrack D → Bool
  is_late ot = has_bits ot.status closed_bit || is_finished ot

  abbrev pub cancel_code : OrderTrack D → ℕ
  cancel_code ot = if is_late ot then OrderRtn.cancel_reject else OrderRtn.canceled

  abbrev pub cancel_msg : OrderTrack D → ℕ → RtnMsg D
  cancel_msg ot id = record (fill_rtn_msg ot id (cancel_code ot)) {
    vol = if is_late ot then ot.vol else left ot;
  }

  abbrev pub with_status : OrderTrack D → ℕ → OrderTrack D
  with_status ot mask = record ot { status = with_bits ot.status mask }

  unfoldable pub do_del_order : ℕ → HelperFake D → Option (HelperFake D)
  do_del_order id s = elim (get_elem? s.eng_order_track id) [
    | none ↦ none
    | some ot ↦ some (record (post (cancel_msg ot id ∷ []) s) {
      eng_order_track = set s.eng_order_track id (with_status ot (cancel_code ot));
      queued_track_id = erase_id id s.queued_track_id;
    })
  ]

  -- True where the source returns 0, false where it returns -1.
  unfoldable pub delete_order : ℕ → HelperFake D → Option (HelperFake D) × Bool
  delete_order id s = elim (get_elem? s.order_track id) [
    | none ↦ (some s, false)
    | some ot ↦
        if can_delete ot
        then (
          (elim (do_del_order id s) [
            | none ↦ none
            | some s' ↦
                some (record s' {
                  order_track = set s'.order_track id (with_status ot OrderRtn.cxling);
                })
          ]),
          true,
        )
        else (some s, false)
  ]

  -- The message that is handed on, if any. One about no track is dropped.
  unfoldable pub get_rtn : HelperFake D → HelperFake D × Option (RtnMsg D)
  get_rtn s = elim s.rtn_msg_queue [
    | [] ↦ (s, none)
    | p ∷ rest ↦ elim (take_msg p s.order_track) [
      | none ↦ (record s { rtn_msg_queue = rest }, none)
      | some tracks ↦ (record s { rtn_msg_queue = rest; order_track = tracks }, some p)
    ]
  ]

  -- The auction of one queued order on a tick of `instr_str`.
  unfoldable pub tick_order : String → ℕ → Tick D → HelperFake D → Option (HelperFake D × Tick D)
  tick_order instr_str id tick s = elim (get_elem? s.eng_order_track id) [
    | none ↦ none
    | some ot ↦ if str_eq ot.instr instr_str then match_and_erase id tick s else some (s, tick)
  ]

  abbrev pub is_spent : Tick D → Bool
  is_spent tick = (tick.ask_vol ==ℤ pos 0) && (tick.bid_vol ==ℤ pos 0)

  -- The loop over the queued orders, oldest first, while the tick has volume.
  abbrev pub tick_walk : String → List ℕ → Tick D → HelperFake D → Option (HelperFake D × Tick D)
  tick_walk instr_str [] tick s = some (s, tick)
  tick_walk instr_str (id ∷ ids) tick s = elim (is_spent tick) [
    | true ↦ some (s, tick)
    | false ↦ elim (tick_order instr_str id tick s) [
      | none ↦ none
      | some (s', tick') ↦ tick_walk instr_str ids tick' s'
    ]
  ]

  -- The tick is kept in `last_tick_wall`, where the auctions change it.
  unfoldable pub on_tick : MarketData D → HelperFake D → Option (HelperFake D)
  on_tick md s = elim (tick_walk md.instr_str s.queued_track_id md.tick s) [
    | none ↦ none
    | some (s', tick') ↦
        some (record s' { last_tick_wall = insert md.instr_hash tick' s'.last_tick_wall })
  ]

  -- The messages stay in their queue.
  unfoldable pub on_switch_day : HelperFake D → HelperFake D
  on_switch_day s = record s {
    order_track = [];
    eng_order_track = [];
    last_tick_wall = [];
    queued_track_id = [];
  }

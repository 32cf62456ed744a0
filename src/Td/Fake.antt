-- ===== src/Td/Fake.antt =====
-- src/td/CTDHelperFake.cpp: a simulated market that fills orders at the first bid and ask.
pub mod Calls
pub mod Auction
pub mod Moved
pub mod Links
pub mod Answers
pub mod Ticks
pub mod Cancel
pub mod Final
pub mod Uncrossed
pub mod Reach
use Prim.Native.String.{String}
use text.Mathlib.Text.{◌==◌ as str_eq}
use nat_framework.Prelude.{
  ℕ, ◌+◌, suc, ltb, ℤ, pos, ◌+ℤ◌, ◌-ℤ◌, leb_ℤ, ltb_ℤ, ◌==ℤ◌, ◌==◌, ◌&&◌, ◌||◌, not, Bool, true,
  false, Option, none, some, List, [], ◌∷◌, ◌++◌, if◌then◌else◌,
}
use nat_framework.Prelude.Lists.{length, get_elem?, set}
use nat_framework.Prelude.Map.{Map, lookup, insert}
use nat_framework.Double.{Double}
use nat_framework.TradeBase.{OrderTrack, RtnMsg}
use nat_framework.Account.Codes.{buy, sell, has_bits, with_bits, closed_bit}
use nat_framework.Td.OrderRtn
use nat_framework.Td.Helper.{new_track, can_delete, take_msg}
use nat_framework.Td.Median.{median}

pub record Tick (D : Type 0) : Type 0 where
  pub last_px : D
  pub ask : D
  pub bid : D
  pub ask_vol : ℤ
  pub bid_vol : ℤ

-- The tracks of the client are `order_track`, those of the market `eng_order_track`. The set of
-- queued ids is an ascending list; `wait_count` is the global counter of the replay.
pub record HelperFake (D : Type 0) : Type 0 where
  pub order_track : List (OrderTrack D)
  pub eng_order_track : List (OrderTrack D)
  pub rtn_msg_queue : List (RtnMsg D)
  pub last_tick_wall : Map (Tick D)
  pub queued_track_id : List ℕ
  pub wait_count : ℕ

-- What is read of a `UnitedMarketData`.
pub record MarketData (D : Type 0) : Type 0 where
  pub instr_hash : ℕ
  pub instr_str : String
  pub tick : Tick D

-- The operations of `set<int>`.
abbrev pub has_id : ℕ → List ℕ → Bool
has_id id [] = false
has_id id (x ∷ xs) = (id == x) || has_id id xs

abbrev pub insert_id : ℕ → List ℕ → List ℕ
insert_id id [] = id ∷ []
insert_id id (x ∷ xs) =
    if id == x then x ∷ xs else if ltb id x then id ∷ x ∷ xs else x ∷ insert_id id xs

abbrev pub erase_id : ℕ → List ℕ → List ℕ
erase_id id [] = []
erase_id id (x ∷ xs) = if id == x then erase_id id xs else x ∷ erase_id id xs

module _ {D : Type 0} ⦃F : Double D⦄ where
  abbrev pub empty : HelperFake D
  empty = record {
    order_track = [];
    eng_order_track = [];
    rtn_msg_queue = [];
    last_tick_wall = [];
    queued_track_id = [];
    wait_count = 0;
  }

  abbrev pub fill_rtn_msg : OrderTrack D → ℕ → ℕ → RtnMsg D
  fill_rtn_msg ot id msg_type = record {
    msg_type = msg_type;
    local_id = id;
    instr_hash = ot.instr_hash;
    instr = ot.instr;
    price = ot.price;
    vol = ot.vol;
    dir = ot.dir;
    off = ot.off;
    order_ref = pos id;
    front_id = pos 0;
    session_id = pos 0;
    errid = pos 0;
    msg = "";
  }

  -- Messages are put at the end of the queue, each with one more to wait for.
  abbrev pub post : List (RtnMsg D) → HelperFake D → HelperFake D
  post msgs s = record s {
    rtn_msg_queue = s.rtn_msg_queue ++ msgs;
    wait_count = s.wait_count + length msgs;
  }

  abbrev pub left : OrderTrack D → ℤ
  left ot = ot.vol -ℤ ot.vol_traded

  -- The smaller of what is offered and what is left.
  abbrev pub trade : OrderTrack D → ℤ → ℤ
  trade ot offered = if ltb_ℤ offered (left ot) then offered else left ot

  abbrev pub crosses_buy : OrderTrack D → Tick D → Bool
  crosses_buy ot tick =
      F.leb tick.ask ot.price && ltb_ℤ (pos 0) tick.ask_vol && ltb_ℤ (pos 0) (left ot)

  abbrev pub crosses_sell : OrderTrack D → Tick D → Bool
  crosses_sell ot tick =
      F.leb ot.price tick.bid && ltb_ℤ (pos 0) tick.bid_vol && ltb_ℤ (pos 0) (left ot)

  abbrev pub execute : OrderTrack D → ℤ → OrderTrack D
  execute ot n = record ot {
    vol_traded = ot.vol_traded +ℤ n;
    status = with_bits ot.status OrderRtn.execution;
  }

  abbrev pub exec_msg : OrderTrack D → ℕ → ℤ → D → RtnMsg D
  exec_msg ot id n px = record (fill_rtn_msg ot id OrderRtn.execution) { vol = n; price = px }

  -- The order and the tick after an auction, and the messages it sends.
  unfoldable pub auction : ℕ → OrderTrack D → Tick D → OrderTrack D × Tick D × List (RtnMsg D)
  auction id ot tick =
      if (ot.dir == buy)
      then (if crosses_buy ot tick
          then (let n = trade ot tick.ask_vol in
              (
                execute ot n,
                record tick { ask_vol = tick.ask_vol -ℤ n },
                exec_msg ot id n (median tick.ask tick.last_px ot.price) ∷ [],
              ))
          else (ot, tick, []))
      else if (ot.dir == sell) && crosses_sell ot tick
      then (let n = trade ot tick.bid_vol in
          (
            execute ot n,
            record tick { bid_vol = tick.bid_vol -ℤ n },
            exec_msg ot id n (median tick.bid tick.last_px ot.price) ∷ [],
          ))
      else (ot, tick, [])

  abbrev pub is_finished : OrderTrack D → Bool
  is_finished ot = leb_ℤ ot.vol ot.vol_traded

  -- A finished order is closed.
  abbrev pub close_finished : OrderTrack D → OrderTrack D
  close_finished ot =
      if is_finished ot then record ot { status = with_bits ot.status closed_bit } else ot

  -- `makeMatch`, with the tick that is left and whether the order is finished.
  unfoldable pub make_match : ℕ → Tick D → HelperFake D → Option (HelperFake D × Tick D × Bool)
  make_match id tick s = elim (get_elem? s.eng_order_track id) [
    | none ↦ none
    | some ot ↦
        let (ot', tick', msgs) = auction id ot tick in
        some (
          record (post msgs s) { eng_order_track = set s.eng_order_track id (close_finished ot') },
          tick',
          is_finished ot',
        )
  ]

  -- `makeMatch`, and a finished order leaves the queue.
  unfoldable pub match_and_erase : ℕ → Tick D → HelperFake D → Option (HelperFake D × Tick D)
  match_and_erase id tick s = elim (make_match id tick s) [
    | none ↦ none
    | some (s', tick', finished) ↦ some (
      (if finished then record s' { queued_track_id = erase_id id s'.queued_track_id } else s'),
      tick',
    )
  ]

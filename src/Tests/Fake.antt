-- ===== src/Tests/Fake.antt =====
-- An order, its messages, a cancel and a tick on the simulated market.
use Prim.Native.String.{String}
use nat_framework.Prelude.{
  ℕ, ℤ, pos, ◌+ℤ◌, ◌≤ℤ◌, ◌≤◌, ◌≡◌, refl, arith, Option, none, some, [], ◌∷◌, List, true, false,
  arith,
}
use nat_framework.Prelude.Int
use nat_framework.Prelude.Map.{lookup}
use nat_framework.Prelude.Lists.{length, get_elem?}
use nat_framework.TradeBase.{OrderTrack, RtnMsg}
use nat_framework.Account.Codes.{buy, open_off}
use nat_framework.Td.Helper.{new_track}
use nat_framework.Td.Median.{IsOrdered, median}
use nat_framework.Td.Fake.{
  HelperFake, Tick, MarketData, empty, auction, has_id, match_and_erase, make_match,
}
use nat_framework.Td.Fake.Calls.{
  send_order, do_send_order, enqueue, delete_order, do_del_order, get_rtn, on_tick, tick_order,
}
use nat_framework.Td.Fake.Auction.{Fair, auction-Fair, crosses}
use nat_framework.Td.Fake.Moved.{Linked}
use nat_framework.Td.Fake.Links.{EndsLinked}
use nat_framework.Td.Fake.Reach.{
  Reach, start, call, sent, answered, ticked, Reach-Linked, calls_total, take_rtns,
  take_rtns-InStep, InStep,
}
use nat_framework.Td.Fake.Final.{here, then_call, delete_order_final}
use nat_framework.Td.Fake.Uncrossed.{Settled, on_tick-Settled}
use nat_framework.Tests.{whole}

pub whole-IsOrdered : IsOrdered whole
whole-IsOrdered = record {
  refl_le = λ a. ground arith;
  trans_le = λ a b c h k. ground arith;
  lt-le = λ a b h. ground arith;
  not_lt-le = λ a b h. ground arith;
  lt-not_le = λ a b h. ground arith;
}

abbrev or_empty : Option (HelperFake ℤ) → HelperFake ℤ
or_empty none = empty ⦃F = whole⦄
or_empty (some s) = s

-- Five lots are asked for at 100; a tick offers three lots at 98.
abbrev five_lots : HelperFake ℤ
five_lots =
    or_empty
      (send_order ⦃F = whole⦄ "ru2205" (pos 100) (pos 5) buy open_off (pos 0) (pos 0) 6
        (empty ⦃F = whole⦄)).0

abbrev offer : MarketData ℤ
offer = record {
  instr_hash = 6;
  instr_str = "ru2205";
  tick = record { last_px = pos 99; ask = pos 98; bid = pos 97; ask_vol = pos 3; bid_vol = pos 0 };
}

abbrev three_filled : HelperFake ℤ
three_filled = or_empty (on_tick ⦃F = whole⦄ offer five_lots)

five_lots_sent :
    (send_order ⦃F = whole⦄ "ru2205"
      (pos 100)
      (pos 5)
      buy
      open_off
      (pos 0)
      (pos 0)
      6
      (empty ⦃F = whole⦄)).0
    ≡ some five_lots
unfolding send_order do_send_order enqueue
five_lots_sent = refl

three_filled_ticked : on_tick ⦃F = whole⦄ offer five_lots ≡ some three_filled
unfolding send_order do_send_order enqueue on_tick tick_order match_and_erase make_match auction
    median Int.◌+ℤ◌ Int.◌-ℤ◌
three_filled_ticked = refl

five_lots-Reach : Reach ⦃F = whole⦄ five_lots
five_lots-Reach =
    call start
      (sent "ru2205" (pos 100) (pos 5) buy open_off (pos 0) (pos 0) 6 (omega arith) five_lots_sent)

three_filled-Reach : Reach ⦃F = whole⦄ three_filled
three_filled-Reach = call five_lots-Reach (ticked offer three_filled_ticked)

Reach-Linked_example : Linked ⦃F = whole⦄ three_filled
Reach-Linked_example = Reach-Linked ⦃F = whole⦄ three_filled-Reach

calls_total_example :
    ((instr : String) (price vol : ℤ) (dir off : ℕ) (acc_id stg_id : ℤ) (h : ℕ)
      → pos 0 ≤ℤ vol
      → EndsLinked ⦃F = whole⦄
          (send_order ⦃F = whole⦄ instr price vol dir off acc_id stg_id h three_filled).0)
    × ((id : ℕ) → EndsLinked ⦃F = whole⦄ (delete_order ⦃F = whole⦄ id three_filled).0)
    × ((md : MarketData ℤ) → EndsLinked ⦃F = whole⦄ (on_tick ⦃F = whole⦄ md three_filled))
    × ((p : RtnMsg ℤ) (rest : List (RtnMsg ℤ))
        → three_filled.rtn_msg_queue ≡ p ∷ rest
        → (get_rtn ⦃F = whole⦄ three_filled).1 ≡ some p)
calls_total_example =
    calls_total ⦃F = whole⦄ three_filled (Reach-Linked ⦃F = whole⦄ three_filled-Reach)

four_messages : length three_filled.rtn_msg_queue ≤ 4
unfolding send_order do_send_order enqueue on_tick tick_order match_and_erase make_match auction
    median Int.◌+ℤ◌ Int.◌-ℤ◌
four_messages = omega arith

take_rtns-InStep_example :
    ((take_rtns ⦃F = whole⦄ 4 three_filled).rtn_msg_queue ≡ [])
    × InStep ⦃F = whole⦄ (take_rtns ⦃F = whole⦄ 4 three_filled)
    × ((take_rtns ⦃F = whole⦄ 4 three_filled).eng_order_track ≡ three_filled.eng_order_track)
take_rtns-InStep_example =
    take_rtns-InStep ⦃F = whole⦄ three_filled three_filled-Reach 4 four_messages

on_tick-Settled_example :
    (tick : Tick ℤ) × (lookup 6 three_filled.last_tick_wall ≡ some tick)
    × ((id : ℕ) → Settled ⦃F = whole⦄ "ru2205" three_filled tick id)
on_tick-Settled_example =
    on_tick-Settled ⦃F = whole⦄ offer five_lots three_filled three_filled_ticked

-- The acknowledged order is canceled, and another tick comes.
abbrev told : HelperFake ℤ
told = take_rtns ⦃F = whole⦄ 4 three_filled

told-Reach : Reach ⦃F = whole⦄ told
told-Reach =
    call (call (call (call three_filled-Reach (answered refl)) (answered refl)) (answered refl))
      (answered refl)

abbrev canceled : HelperFake ℤ
canceled = or_empty (delete_order ⦃F = whole⦄ 0 told).0

canceled_eq : delete_order ⦃F = whole⦄ 0 told ≡ (some canceled, true)
unfolding send_order do_send_order enqueue on_tick tick_order match_and_erase make_match auction
    median get_rtn delete_order do_del_order Int.◌+ℤ◌ Int.◌-ℤ◌
canceled_eq = refl

abbrev held_track : OrderTrack ℤ
held_track =
    record (new_track ⦃F = whole⦄ "ru2205" (pos 100) (pos 5) buy open_off (pos 0) (pos 0) 6 0) {
      status = 342;
      vol_traded = pos 3;
    }

held_eq : get_elem? told.eng_order_track 0 ≡ some held_track
unfolding send_order do_send_order enqueue on_tick tick_order match_and_erase make_match auction
    median get_rtn Int.◌+ℤ◌ Int.◌-ℤ◌
held_eq = refl

abbrev later_on : HelperFake ℤ
later_on = or_empty (on_tick ⦃F = whole⦄ offer canceled)

later_on_ticked : on_tick ⦃F = whole⦄ offer canceled ≡ some later_on
unfolding send_order do_send_order enqueue on_tick tick_order match_and_erase make_match auction
    median get_rtn delete_order do_del_order Int.◌+ℤ◌ Int.◌-ℤ◌
later_on_ticked = refl

delete_order_final_example :
    (u : OrderTrack ℤ) × (get_elem? later_on.eng_order_track 0 ≡ some u)
    × (u.vol_traded ≡ pos 3)
    × (has_id 0 later_on.queued_track_id ≡ false)
delete_order_final_example =
    delete_order_final ⦃F = whole⦄ told canceled later_on 0 held_track told-Reach held_eq
      canceled_eq (then_call here (ticked offer later_on_ticked))

abbrev lot : OrderTrack ℤ
lot = new_track ⦃F = whole⦄ "ru2205" (pos 100) (pos 5) buy open_off (pos 0) (pos 0) 6 0

lot-crosses : crosses ⦃F = whole⦄ lot offer.tick ≡ true
unfolding Int.◌-ℤ◌
lot-crosses = refl

auction-Fair_example :
    (m : RtnMsg ℤ) × ((auction ⦃F = whole⦄ 0 lot offer.tick).2 ≡ m ∷ [])
    × Fair ⦃F = whole⦄ lot offer.tick (auction ⦃F = whole⦄ 0 lot offer.tick).1 m
    × ((auction ⦃F = whole⦄ 0 lot offer.tick).0.vol_traded ≡ lot.vol_traded +ℤ m.vol)
auction-Fair_example = auction-Fair ⦃F = whole⦄ whole-IsOrdered 0 lot offer.tick lot-crosses

-- ===== src/Tests/Engine.antt =====
-- The theorems on the engine's tracks at concrete inputs.
use nat_framework.Prelude.{ℕ, ℤ, pos, ◌≡◌, refl, ◌==◌, some, if◌then◌else◌, arith}
use nat_framework.TradeBase.{OrderTrack, RtnMsg}
use nat_framework.Account.Codes.{buy, open_off}
use nat_framework.Td.Helper.{take_msg}
use nat_framework.Td.Engine.{Engine, rsp_order_track, write_rtn_from_track}
use nat_framework.Td.Engine.Recover.{qry_order_track, answered, recover-take_msg}
use nat_framework.Tests.{name_hash, whole}

abbrev pub track_of : ℕ → ℤ → ℕ → OrderTrack ℤ
track_of id from local_id = record {
  status = 2;
  instr_hash = 6;
  instr = "ru2205";
  price = pos 100;
  vol = pos 1;
  dir = buy;
  off = open_off;
  vol_traded = pos 0;
  amount_traded = pos 0;
  from = from;
  local_id = local_id;
  acc_id = pos 0;
  stg_id = pos 0;
  order_ref = pos id;
  front_id = pos 1;
  session_id = pos 1;
}

-- The client 7 sent the requests 2 and 3, another one the request 1. The first order of the client
-- 9, which is not there, was refused; its second is the request 4.
abbrev engine : Engine ℤ
engine = record {
  self_id = pos 5;
  request_id = 5;
  request_id_start = 1;
  request_id_end = 1000000;
  request_track = λ i.
      if i == 2
      then track_of 2 (pos 7) 0
      else if i == 3
      then track_of 3 (pos 7) 1
      else if i == 4
      then track_of 4 (pos 9) 1
      else track_of i (pos 8) 0;
}

abbrev pub blank : RtnMsg ℤ
blank = record {
  msg_type = 2;
  local_id = 0;
  instr_hash = 0;
  instr = "";
  price = pos 0;
  vol = pos 0;
  dir = 0;
  off = 0;
  order_ref = pos 0;
  front_id = pos 0;
  session_id = pos 0;
  errid = pos 0;
  msg = "";
}

recover-take_msg_example :
    take_msg ⦃F = whole⦄
      (write_rtn_from_track name_hash blank (track_of 3 (pos 7) 1)).rtn_msg
      (qry_order_track (rsp_order_track engine (pos 7) (pos 0)))
    ≡ some (
        answered ⦃F = whole⦄ name_hash
          (qry_order_track (rsp_order_track engine (pos 7) (pos 0)))
          blank
          (track_of 3 (pos 7) 1))
recover-take_msg_example =
    recover-take_msg ⦃F = whole⦄ name_hash engine (pos 7) (pos 0) 2 blank (omega arith) refl refl

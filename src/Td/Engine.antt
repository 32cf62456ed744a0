-- ===== src/Td/Engine.antt =====
-- What every trading engine does: src/td/ITDEngine.h and ITDEngine.cpp. The tracks of the orders
-- stand in a file of 2 ^ 18 places; an id is cut to a place. The front end's parts are parameters.
pub mod Recover
use Prim.Native.String.{String}
use nat_framework.Prelude.{
  ℕ, zero, suc, ◌+◌, ◌-◌, ◌%◌, leb, ltb, ℤ, pos, negsuc, ◌==ℤ◌, ◌==◌, Bool, ◌&&◌, List, [], ◌∷◌,
  if◌then◌else◌, Option, none, some,
}
use nat_framework.Prelude.Lists.{length}
use nat_framework.TradeBase.{OrderTrack, RtnMsg}

-- `tIOInputOrderField`, `tIOrderAction` and `tIOrderRtn`, without the command that each begins with.
pub record InputOrder (D : Type 0) : Type 0 where
  pub extra_nano : ℤ
  pub from : ℤ
  pub local_id : ℕ
  pub acc_idx : ℤ
  pub instr_hash : ℕ
  pub instr : String
  pub price : D
  pub vol : ℤ
  pub dir : ℕ
  pub off : ℕ
  pub stg_id : ℤ

pub record OrderAction : Type 0 where
  pub from : ℤ
  pub local_id : ℕ
  pub acc_idx : ℤ
  pub order_ref : ℤ
  pub front_id : ℤ
  pub session_id : ℤ
  pub instr_hash : ℕ
  pub instr : String

pub record OrderRtn (D : Type 0) : Type 0 where
  pub to : ℤ
  pub rtn_msg : RtnMsg D

-- `tIOrderTrack`, whose `cnt` is the number of its tracks.
pub record OrderTracks (D : Type 0) : Type 0 where
  pub to : ℤ
  pub source : ℤ
  pub back_word : ℤ
  pub cnt : ℕ
  pub track : List (OrderTrack D)

pub record Engine (D : Type 0) : Type 0 where
  pub self_id : ℤ
  pub request_id : ℕ
  pub request_id_start : ℕ
  pub request_id_end : ℕ
  pub request_track : ℕ → OrderTrack D

module _ {D : Type 0} where
  unfoldable pub check_request_id : Engine D → ℕ → Bool
  check_request_id e id = leb e.request_id_start id && leb id e.request_id_end

  -- `id & (MMAP_ORDER_TRACK_SIZE - 1)`: the size is 2 ^ 18, a power of 2, for which it is a rest.
  abbrev pub get_request_track : Engine D → ℕ → OrderTrack D
  get_request_track e id = e.request_track (id % 262144)

  -- The tracks of a client among `n` ids from `i` on.
  abbrev pub own_tracks : Engine D → ℤ → ℕ → ℕ → List (OrderTrack D)
  own_tracks e source zero i = []
  own_tracks e source (suc n) i =
      let ot = get_request_track e i in
      if ot.from ==ℤ source
      then ot ∷ own_tracks e source n (suc i)
      else own_tracks e source n (suc i)

  unfoldable pub rsp_order_track : Engine D → ℤ → ℤ → OrderTracks D
  rsp_order_track e source back_word =
      let tracks = own_tracks e source (e.request_id - e.request_id_start) e.request_id_start in
      record {
        to = source;
        source = e.self_id;
        back_word = back_word;
        cnt = length tracks;
        track = tracks;
      }

  -- The answers that an order, and the cancel of an order, get in case of an error. The fields
  -- that the source leaves as they are in the page are `blank`'s.
  unfoldable pub write_err_rtn : RtnMsg D → InputOrder D → ℤ → String → ℕ → OrderRtn D
  write_err_rtn blank req errid msg msgtp = record {
    to = req.from;
    rtn_msg = record blank {
      msg_type = msgtp;
      local_id = req.local_id;
      instr_hash = req.instr_hash;
      instr = req.instr;
      price = req.price;
      vol = req.vol;
      dir = req.dir;
      off = req.off;
      order_ref = negsuc 0;
      front_id = negsuc 0;
      session_id = negsuc 0;
      errid = errid;
      msg = msg;
    };
  }

  unfoldable pub write_err_action : RtnMsg D → OrderAction → ℤ → String → ℕ → OrderRtn D
  write_err_action blank req errid msg msgtp = record {
    to = req.from;
    rtn_msg = record blank {
      msg_type = msgtp;
      local_id = req.local_id;
      instr_hash = req.instr_hash;
      instr = req.instr;
      order_ref = req.order_ref;
      front_id = req.front_id;
      session_id = req.session_id;
      errid = errid;
      msg = msg;
    };
  }

  unfoldable pub write_rtn_from_track : (String → ℕ) → RtnMsg D → OrderTrack D → OrderRtn D
  write_rtn_from_track hash blank t = record {
    to = t.from;
    rtn_msg = record blank {
      local_id = t.local_id;
      instr = t.instr;
      instr_hash = hash t.instr;
      price = t.price;
      vol = t.vol;
      dir = t.dir;
      off = t.off;
      order_ref = t.order_ref;
      front_id = t.front_id;
      session_id = t.session_id;
    };
  }

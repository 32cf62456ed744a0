-- ===== src/Td/Ctp.antt =====
-- The orders that the engine of one front end takes: `req_order_insert` and `req_order_action` of
-- src/td/CTDEngineCtp.cpp. What the front end's library returns is an argument. A fault, none, is
-- the use of an account that is not there, or one of the account's or of its limits.
pub mod Tracks
pub mod Moves
pub mod Served
pub mod Trade
pub mod Repeats
use Prim.Native.String.{String}
use nat_framework.Prelude.{
  ℕ, suc, ◌%◌, ◌-◌, ltb, ℤ, pos, negsuc, ◌==ℤ◌, ◌==◌, true, false, ◌&&◌, List, [], ◌∷◌,
  if◌then◌else◌, Option, none, some,
}
use nat_framework.Prelude.Map.{Map}
use nat_framework.Prelude.Lists.{get_elem?, set}
use nat_framework.Double.{Double}
use nat_framework.TradeBase.{InstrumentInfo, OrderTrack, RtnMsg}
use nat_framework.Account.Codes.{with_bits}
use nat_framework.Risk.Instr.{ok}
use nat_framework.Risk.InstrTop.{Treap}
use nat_framework.Risk.Top.{RiskTop}
use nat_framework.Risk.Top
use nat_framework.Risk.Conf.{Json}
use nat_framework.Td.OrderRtn.{td_send, cxling, cancel_reject, err}
use nat_framework.Td.Engine.{
  Engine, InputOrder, OrderAction, OrderRtn, get_request_track, check_request_id, write_err_rtn,
  write_err_action,
}

pub record CtpEngine (D T : Type 0) : Type 0 where
  pub engine : Engine D
  pub acc_utilis : List (RiskTop D T)
  pub front_id : ℕ → ℤ
  pub session_id : ℕ → ℤ

-- The index of an account, as an unsigned number: a negative one is too large.
abbrev pub acc_at : {A : Type 0} → List A → ℤ → Option (ℕ × A)
acc_at accs (pos i) = elim (get_elem? accs i) [ none ↦ none | some a ↦ some (i, a) ]
acc_at accs (negsuc i) = none

-- A `long` as the `int` that `checkRequestId` and `get_request_track` take: its low 32 bits.
abbrev low_bits : ℤ → ℕ
low_bits (pos n) = n % 4294967296
low_bits (negsuc n) = 4294967295 - n % 4294967296

abbrev pub to_int : ℤ → ℤ
to_int n =
    if ltb (low_bits n) 2147483648 then pos (low_bits n) else negsuc (4294967295 - low_bits n)

module _ {D : Type 0} where
  abbrev pub put_track : ℕ → OrderTrack D → Engine D → Engine D
  put_track id t e = record e {
    request_track = λ j. if j == id % 262144 then t else e.request_track j;
  }

  -- `amount_traded` and the fields that are not written stay as they were in the place.
  abbrev pub sent_track : InputOrder D → ℕ → ℤ → ℤ → OrderTrack D → OrderTrack D
  sent_track o id front session t = record t {
    status = td_send;
    instr_hash = o.instr_hash;
    instr = o.instr;
    price = o.price;
    vol = o.vol;
    dir = o.dir;
    off = o.off;
    vol_traded = pos 0;
    from = o.from;
    local_id = o.local_id;
    acc_id = o.acc_idx;
    order_ref = pos id;
    front_id = front;
    session_id = session;
    stg_id = o.stg_id;
  }

  abbrev pub ack : RtnMsg D → InputOrder D → ℕ → ℤ → ℤ → OrderRtn D
  ack blank o id front session = record {
    to = o.from;
    rtn_msg = record blank {
      msg_type = td_send;
      local_id = o.local_id;
      instr_hash = o.instr_hash;
      instr = o.instr;
      price = o.price;
      vol = o.vol;
      dir = o.dir;
      off = o.off;
      order_ref = pos id;
      front_id = front;
      session_id = session;
    };
  }

  abbrev pub next_request : Engine D → Engine D
  next_request e = record e { request_id = suc e.request_id }

module _ {D J T : Type 0} ⦃F : Double D⦄ (ops : Treap D T) (json : Json D J) (conf : ℕ → J)
    (hash : String → ℕ) (info : Map InstrumentInfo) (blank : RtnMsg D) where
  -- An order that passed the check and that the library took: it is tracked, acknowledged and
  -- booked.
  unfoldable pub sent :
      InputOrder D
      → ℤ
      → ℕ
      → RiskTop D T
      → CtpEngine D T
      → Option (CtpEngine D T × List (OrderRtn D))
  sent o nano i util s =
      let id = s.engine.request_id in
      let t = sent_track o id (s.front_id i) (s.session_id i) (get_request_track s.engine id) in
      elim (Top.on_new ops hash info o.dir o.off o.price o.vol o.instr_hash (pos id) nano util) [
        | none ↦ none
        | some util2 ↦ some (
          record s {
            engine = next_request (put_track id t s.engine);
            acc_utilis = set s.acc_utilis i util2;
          },
          ack blank o id (s.front_id i) (s.session_id i) ∷ [],
        )
      ]

  -- `ret` is what the library returns, `nano` the time.
  unfoldable pub req_order_insert :
      ℕ → ℤ → ℤ → InputOrder D → CtpEngine D T → Option (CtpEngine D T × List (OrderRtn D))
  req_order_insert fuel nano ret o s = elim (acc_at s.acc_utilis o.acc_idx) [
    | none ↦ some (s, write_err_rtn blank o (negsuc 0) "account idx err." err ∷ [])
    | some (i, util) ↦
        elim (Top.check ops json (conf i) hash info fuel o.dir o.off o.price o.vol o.instr_hash nano
          util) [
            | none ↦ none
            | some (util2, r) ↦
                let s1 : CtpEngine D T = record s { acc_utilis = set s.acc_utilis i util2 } in
                elim (r ==ℤ ok) [
                  | false ↦ some (s1, write_err_rtn blank o r "risk check failed" err ∷ [])
                  | true ↦ elim (ret ==ℤ pos 0) [
                    | false ↦
                        some
                          (s1, write_err_rtn blank o ret "ctp ReqOrderInsert api failed." err ∷ [])
                    | true ↦ sent o nano i util2 s1
                  ]
                ]
          ]
  ]

  abbrev out_of_range : OrderAction → List (OrderRtn D)
  out_of_range a =
      write_err_action blank a (negsuc 0) "cancel order reject by TDEngine: order_ref range err."
        cancel_reject
      ∷ []

  -- `request_track.status |= CXLING` if the library takes the cancel.
  unfoldable pub req_order_action :
      ℤ → OrderAction → CtpEngine D T → Option (CtpEngine D T × List (OrderRtn D))
  req_order_action ret a s = elim (to_int a.order_ref) [
    | negsuc n ↦ some (s, out_of_range a)
    | pos id ↦
        let t = get_request_track s.engine id in
        elim (check_request_id s.engine id) [
          | false ↦ some (s, out_of_range a)
          | true ↦ elim (t.front_id ==ℤ a.front_id && t.session_id ==ℤ a.session_id) [
            | false ↦ some (
              s,
              write_err_action blank a (negsuc 0) "cancel order reject by TDEngine." cancel_reject
                  ∷ [],
            )
            | true ↦ elim (acc_at s.acc_utilis a.acc_idx) [
              | none ↦ none
              | some acc ↦ elim (ret ==ℤ pos 0) [
                | true ↦ some (
                  record s {
                    engine =
                        put_track id (record t { status = with_bits t.status cxling }) s.engine;
                  },
                  [],
                )
                | false ↦ some (
                  s,
                  write_err_action blank a ret "ctp ReqOrderAction api failed." cancel_reject ∷ [],
                )
              ]
            ]
          ]
        ]
  ]

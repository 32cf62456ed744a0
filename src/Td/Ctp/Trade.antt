-- ===== src/Td/Ctp/Trade.antt =====
-- The trades that the exchange reports to an engine: `OnRtnTrade` of src/td/CTDEngineCtp.cpp, with the
-- filters that src/td/ITDEngine.h keeps of the messages that were seen. The fields of the exchange's
-- structure are what its library says; the numbers in its strings are read already.
use Prim.Native.String.{String}
use nat_framework.Prelude.{
  ℕ, leb_ℤ, ℤ, pos, negsuc, ◌+ℤ◌, ◌==ℤ◌, Bool, true, false, List, [], ◌∷◌, if◌then◌else◌, Option,
  none, some,
}
use nat_framework.Prelude.Map.{Map}
use nat_framework.Prelude.Lists.{set}
use nat_framework.Double.{Double, ◌⊕◌, ◌⊗◌}
use nat_framework.TradeBase.{InstrumentInfo, OrderTrack, RtnMsg}
use nat_framework.Account.Codes.{with_bits}
use nat_framework.Risk.InstrTop.{Treap}
use nat_framework.Risk.Top
use nat_framework.Td.OrderRtn.{execution, closed}
use nat_framework.Td.IdQueue.{IdQueue, test_ot_id}
use nat_framework.Td.Engine.{OrderRtn, get_request_track, check_request_id}
use nat_framework.Td.Ctp.{CtpEngine, put_track, acc_at}

-- `CThostFtdcTradeField`; `is_own` tells that `UserID` is the engine's.
pub record Trade (D : Type 0) : Type 0 where
  pub is_own : Bool
  pub order_ref : ℤ
  pub trade_id : ℤ
  pub instrument_id : String
  pub price : D
  pub volume : ℤ
  pub direction : ℕ
  pub offset_flag : ℕ

-- An engine and `otidfilter_`.
pub record Filtered (D T : Type 0) : Type 0 where
  pub ctp : CtpEngine D T
  pub filters : ℕ → IdQueue

module _ {D : Type 0} ⦃F : Double D⦄ where
  abbrev pub with_trade : Trade D → OrderTrack D → OrderTrack D
  with_trade p t =
      let traded = t.vol_traded +ℤ p.volume in
      record t {
        status =
            if leb_ℤ t.vol traded
            then with_bits (with_bits t.status execution) closed
            else with_bits t.status execution;
        vol_traded = traded;
        amount_traded = t.amount_traded ⊕ p.price ⊗ F.of_int p.volume;
      }

  abbrev pub trade_rtn : (String → ℕ) → RtnMsg D → Trade D → ℕ → OrderTrack D → OrderRtn D
  trade_rtn hash blank p id t = record {
    to = t.from;
    rtn_msg = record blank {
      msg_type = execution;
      local_id = t.local_id;
      instr = p.instrument_id;
      instr_hash = hash p.instrument_id;
      price = p.price;
      vol = p.volume;
      dir = p.direction;
      off = p.offset_flag;
      order_ref = pos id;
      front_id = t.front_id;
      session_id = t.session_id;
    };
  }

module _ {D T : Type 0} ⦃F : Double D⦄ (ops : Treap D T) (hash : String → ℕ)
    (info : Map InstrumentInfo) (blank : RtnMsg D) where
  -- A trade of an order that has a track. `engine_on_rtn` uses the account without a test.
  unfoldable pub book_trade :
      ℕ → Trade D → OrderTrack D → CtpEngine D T → Option (CtpEngine D T × List (OrderRtn D))
  book_trade id p t s =
      let t2 = with_trade p t in
      let rtn = trade_rtn hash blank p id t in
      elim (acc_at s.acc_utilis t.acc_id) [
        | none ↦ none
        | some (i, util) ↦ elim (Top.on_rtn ops hash info t2 rtn.rtn_msg util) [
          | none ↦ none
          | some util2 ↦ some (
            record s { engine = put_track id t2 s.engine; acc_utilis = set s.acc_utilis i util2 },
            rtn ∷ [],
          )
        ]
      ]

  unfoldable pub on_rtn_trade : Trade D → Filtered D T → Option (Filtered D T × List (OrderRtn D))
  on_rtn_trade p s = elim p.is_own [
    | false ↦ some (s, [])
    | true ↦ elim p.order_ref [
      | negsuc n ↦ some (s, [])
      | pos id ↦ elim (check_request_id s.ctp.engine id) [
        | false ↦ some (s, [])
        | true ↦
            let (fs, seen) = test_ot_id 262144 4 id p.trade_id s.filters in
            let s1 : Filtered D T = record s { filters = fs } in
            let t = get_request_track s.ctp.engine id in
            elim seen [
              | true ↦ some (s1, [])
              | false ↦ elim (t.from ==ℤ pos 0) [
                | true ↦ some (s1, [])
                | false ↦ elim (book_trade id p t s.ctp) [
                  | none ↦ none
                  | some (c, out) ↦ some (record s1 { ctp = c }, out)
                ]
              ]
            ]
      ]
    ]
  ]

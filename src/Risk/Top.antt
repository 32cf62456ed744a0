-- ===== src/Risk/Top.antt =====
-- The risk management of the engine: src/risk/RiskTop.cpp. The JSON values, the treap, the hash of
-- a name and the table of instruments are parameters. Reading through a pointer that leads nowhere,
-- or what is not in a map, is a fault.
pub mod Unknown
pub mod Passes
use Prim.Native.String.{String}
use nat_framework.Prelude.{
  ℕ, zero, suc, ℤ, pos, negsuc, ◌==ℤ◌, ◌==◌, Bool, true, false, not, ◌&&◌, ◌||◌, Option, none, some,
  [], if◌then◌else◌,
}
use nat_framework.Prelude.Map.{Map, lookup, insert, contains, get_or}
use nat_framework.Double.{Double}
use nat_framework.TradeBase.{InstrumentInfo, OrderTrack, RtnMsg}
use nat_framework.Account.Codes.{auto_off, close_off, has_bits, canceled_mask, execution_bit}
use nat_framework.Account.Vol.{UnitVol, flat}
use nat_framework.Account.Base.{AccBase}
use nat_framework.Account.Base
use nat_framework.Risk.Instr.{ok, code, is_size_correct, is_intensity_normal}
use nat_framework.Risk.Stg.{RiskStg, Pointed, vol_at, instr_at, limits_default}
use nat_framework.Risk.Summary.{RiskPrd, RiskAcc}
use nat_framework.Risk.InstrTop.{RiskInstrTop, Treap, is_self_trade}
use nat_framework.Risk.InstrTop
use nat_framework.Risk.Gate.{by_sums, prd_default}
use nat_framework.Risk.Conf.{Json}
use nat_framework.Risk.Conf
use nat_framework.Risk.Conf.Summary.{init_prd}

pub record RiskTop (D T : Type 0) : Type 0 where
  pub acc_base : AccBase D
  pub map_risk_instr : Map (Pointed (RiskInstrTop D T))
  pub map_risk_prd : Map (Pointed RiskPrd)
  pub risk_acc : RiskAcc D

module _ {D T : Type 0} ⦃F : Double D⦄ (ops : Treap D T) where
  -- The limits as `map_risk_instr_[hash]` makes them.
  abbrev pub top_default : Pointed (RiskInstrTop D T)
  top_default = record {
    p_unit_vol = none;
    limits = record {
      instr = limits_default.limits.instr;
      vec_treap_node = [];
      ask_treap = ops.empty;
      bid_treap = ops.empty;
    };
  }

  -- Whether the instrument's limits read the volumes, so that a pointer is followed.
  abbrev pub reads_volumes : RiskInstrTop D T → ℕ → D → ℤ → ℤ → Bool
  reads_volumes l dir px vol nano =
      not (is_self_trade ops dir px l)
      && l.instr.is_allowed
      && is_size_correct l.instr.allowed_order_size_threshold vol
      && is_intensity_normal l.instr nano

  abbrev pub by_instr : RiskTop D T → Pointed (RiskInstrTop D T) → ℕ → ℕ → D → ℤ → ℤ → Option ℤ
  by_instr s l dir off px vol nano = elim (vol_at (instr_at s.acc_base) l) [
    | some v ↦ some (InstrTop.check ops l.limits v dir off px vol nano)
    | none ↦
        if reads_volumes l.limits dir px vol nano
        then none
        else some (InstrTop.check ops l.limits flat dir off px vol nano)
  ]

  -- What the limits of products and of the account are read from, as in a strategy's check.
  abbrev pub sums_of : RiskTop D T → RiskStg D
  sums_of s = record {
    acc_base = s.acc_base;
    map_risk_instr = [];
    map_risk_prd = s.map_risk_prd;
    risk_acc = s.risk_acc;
  }

  unfoldable pub check_limits :
      RiskTop D T → Pointed (RiskInstrTop D T) → InstrumentInfo → ℕ → ℕ → D → ℤ → ℤ → Option ℤ
  check_limits s l p dir off px vol nano = elim (off == auto_off || off == close_off) [
    | true ↦ some (code 405)
    | false ↦ elim (by_instr s l dir off px vol nano) [
      | none ↦ none
      | some ret ↦ elim (ret ==ℤ ok) [
        | false ↦ some ret
        | true ↦ by_sums (sums_of s) p dir off px vol
      ]
    ]
  ]

  module _ (hash : String → ℕ) (info : Map InstrumentInfo) where
    -- The limits of the instrument as `map_risk_instr_[hash]` finds or makes them.
    abbrev pub limits_of : ℕ → RiskTop D T → Pointed (RiskInstrTop D T)
    limits_of h s = get_or h s.map_risk_instr top_default

    abbrev pub put_limits : ℕ → RiskInstrTop D T → RiskTop D T → RiskTop D T
    put_limits h r s = record s {
      map_risk_instr = insert h (record (limits_of h s) { limits = r }) s.map_risk_instr;
    }

    unfoldable pub on_new : ℕ → ℕ → D → ℤ → ℕ → ℤ → ℤ → RiskTop D T → Option (RiskTop D T)
    on_new dir off px vol h order_ref nano s =
        elim (Base.on_new hash info dir off px vol h s.acc_base) [
          | none ↦ none
          | some b ↦ elim (InstrTop.on_new ops dir px order_ref nano (limits_of h s).limits) [
            | none ↦ none
            | some r ↦ some (put_limits h r (record s { acc_base = b }))
          ]
        ]

    unfoldable pub on_rtn : OrderTrack D → RtnMsg D → RiskTop D T → Option (RiskTop D T)
    on_rtn t msg s = elim (Base.on_rtn hash info t msg s.acc_base) [
      | none ↦ none
      | some b ↦
          let h = t.instr_hash in
          let s1 : RiskTop D T = record s { acc_base = b } in
          let s2 : RiskTop D T =
            if has_bits msg.msg_type canceled_mask
            then put_limits h (InstrTop.on_cxl ops t (limits_of h s1).limits) s1
            else s1 in
          some (
            if has_bits msg.msg_type execution_bit
            then put_limits h (InstrTop.on_trd ops t (limits_of h s2).limits) s2
            else s2)
    ]

    abbrev with_acc : (AccBase D → Option (AccBase D)) → RiskTop D T → Option (RiskTop D T)
    with_acc f s = elim (f s.acc_base) [ none ↦ none | some b ↦ some (record s { acc_base = b }) ]

    unfoldable pub on_order_track : OrderTrack D → RiskTop D T → Option (RiskTop D T)
    on_order_track t = with_acc (Base.on_order_track hash info t)

    unfoldable pub on_tick_px : ℕ → D → RiskTop D T → Option (RiskTop D T)
    on_tick_px instr_hash tick_px = with_acc (Base.on_tick_px hash info instr_hash tick_px)

module _ {D J T : Type 0} ⦃F : Double D⦄ (ops : Treap D T) (json : Json D J) (conf : J)
    (hash : String → ℕ) (info : Map InstrumentInfo) where
  -- Limits that cannot be read stay in the map as far as they were.
  unfoldable pub reg_risk_prd : String → RiskTop D T → RiskTop D T × Bool
  reg_risk_prd prd_name s =
      let (q, done) = init_prd json conf hash prd_name prd_default in
      if contains (hash prd_name) s.map_risk_prd
      then (s, true)
      else (record s { map_risk_prd = insert (hash prd_name) q s.map_risk_prd }, done)

  -- `RiskInstrTop` has the `init` of `RiskInstr`.
  abbrev pub init_top : InstrumentInfo → Pointed (RiskInstrTop D T) × Bool
  init_top p =
      let l = top_default ops in
      let (q, done) =
        Conf.init json conf info p
          (record { limits = l.limits.instr; p_unit_vol = l.p_unit_vol }) in
      (record { limits = record l.limits { instr = q.limits }; p_unit_vol = q.p_unit_vol }, done)

  unfoldable pub reg_risk_instr : String → RiskTop D T → RiskTop D T × Bool
  reg_risk_instr instr_name s =
      if contains (hash instr_name) s.map_risk_instr
      then (s, true)
      else elim (lookup (hash instr_name) info) [
        | none ↦ (s, false)
        | some p ↦
            let (l, done) = init_top p in
            (record s { map_risk_instr = insert (hash instr_name) l s.map_risk_instr }, done)
      ]

  unfoldable pub reg_instr : String → RiskTop D T → RiskTop D T × Bool
  reg_instr instr_name s =
      let (b, known) = Base.reg_instr hash info instr_name s.acc_base in
      let s1 : RiskTop D T = record s { acc_base = b } in
      elim (if known then lookup (hash instr_name) info else none) [
        | none ↦ (s1, false)
        | some p ↦
            let (s2, prd_done) : RiskTop D T × Bool =
              if contains p.product_hash s1.map_risk_prd
              then (s1, true)
              else reg_risk_prd p.product s1 in
            if prd_done
            then (if contains (hash instr_name) s2.map_risk_instr
                then (s2, true)
                else reg_risk_instr instr_name s2)
            else (s2, false)
      ]

  -- The loop of `check` on fuel, as in a strategy's.
  unfoldable pub find_limits :
      ℕ → InstrumentInfo → RiskTop D T → Option (RiskTop D T × Option (Pointed (RiskInstrTop D T)))
  find_limits zero p s = none
  find_limits (suc n) p s = elim (lookup p.instr_hash s.map_risk_instr) [
    | some l ↦ some (s, some l)
    | none ↦
        let (s2, done) = reg_instr p.instr s in
        elim done [ true ↦ find_limits n p s2 | false ↦ some (s2, none) ]
  ]

  -- `false`, which the code returns for an instrument that is not in the table, is 0.
  unfoldable pub check : ℕ → ℕ → ℕ → D → ℤ → ℕ → ℤ → RiskTop D T → Option (RiskTop D T × ℤ)
  check fuel dir off px vol instr_hash nano s = elim (lookup instr_hash info) [
    | none ↦ some (s, ok)
    | some p ↦ elim (find_limits fuel p s) [
      | none ↦ none
      | some (s2, found) ↦ elim found [
        | none ↦ some (s2, code 404)
        | some l ↦ elim (check_limits ops s2 l p dir off px vol nano) [
          | none ↦ none
          | some ret ↦ some (s2, ret)
        ]
      ]
    ]
  ]

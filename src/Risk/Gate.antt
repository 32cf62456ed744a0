-- ===== src/Risk/Gate.antt =====
-- The registration and the check of a strategy's risk management: `regInstr` and `check` of
-- src/risk/RiskStg.cpp. The JSON values are a parameter, as are the hash of a name, the table of
-- instruments and the tick prices in it. Reading through a pointer that leads nowhere, or what is
-- not in a map, is a fault.
pub mod Passes
pub mod Ends
pub mod Retry
use Prim.Native.String.{String}
use nat_framework.Prelude.{
  ℕ, zero, suc, ℤ, pos, ◌==ℤ◌, ◌==◌, Bool, true, false, ◌&&◌, ◌||◌, ◌≡◌, ◌↔◌, refl, Option, none,
  some, if◌then◌else◌, arith,
}
use nat_framework.Prelude.Map.{Map, lookup, insert, contains}
use nat_framework.Double.{Double}
use nat_framework.TradeBase.{InstrumentInfo}
use nat_framework.Account.Codes.{buy, sell, auto_off, close_off}
use nat_framework.Account.Vol.{UnitVol, flat}
use nat_framework.Account.Base.{AccBase}
use nat_framework.Account.Base
use nat_framework.Risk.Instr.{
  RiskInstr, RiskInstrStg, check_stg, parse_auto_offset, ok, code, is_price_correct,
  is_size_correct, is_intensity_normal,
}
use nat_framework.Risk.Stg.{RiskStg, Pointed, vol_at, instr_at, prd_at, limits_default}
use nat_framework.Risk.Summary.{RiskPrd, RiskAcc, check_prd, check_acc}
use nat_framework.Risk.Conf.{Json}
use nat_framework.Risk.Conf.Summary.{init_prd}
use nat_framework.Risk.Conf.Margin.{init_stg}

-- What the check reads of the last tick.
pub record LastTick (D : Type 0) : Type 0 where
  pub ask_px : D
  pub bid_px : D
  pub exch_time : ℤ

abbrev pub prd_default : Pointed RiskPrd
prd_default = record {
  p_unit_vol = none;
  limits = record {
    long_volume_threshold = pos 0;
    short_volume_threshold = pos 0;
    net_volume_threshold = pos 0;
  };
}

module _ {D : Type 0} ⦃F : Double D⦄ where
  -- The offset that is looked for where the order leaves it open, and whether one was found.
  abbrev pub offset_of : RiskInstr D → UnitVol → ℕ → ℕ → ℤ → ℕ × ℤ
  offset_of r v dir off vol =
      if off == auto_off || off == close_off then parse_auto_offset r v dir off vol else (off, ok)

  -- The offset and the result of the instrument's limits.
  abbrev pub by_instr : RiskInstrStg D → UnitVol → ℕ → ℕ → D → ℤ → LastTick D → ℕ × ℤ
  by_instr l v dir off px vol tick =
      let (off2, parsed) = offset_of l.instr v dir off vol in
      (
        off2,
        if parsed ==ℤ ok
            then check_stg l v dir off2 vol px tick.ask_px tick.bid_px tick.exch_time
            else parsed,
      )

  -- Whether the instrument's limits read the volumes, so that a pointer is followed.
  abbrev pub reads_volumes : RiskInstrStg D → ℕ → ℕ → D → ℤ → LastTick D → Bool
  reads_volumes l dir off px vol tick =
      if off == auto_off || off == close_off
      then dir == buy || dir == sell
      else is_price_correct l.allowed_price_margin_threshold px tick.ask_px tick.bid_px
        && l.instr.is_allowed
        && is_size_correct l.instr.allowed_order_size_threshold vol
        && is_intensity_normal l.instr tick.exch_time

  -- The product's limits, then the account's.
  abbrev pub by_sums : RiskStg D → InstrumentInfo → ℕ → ℕ → D → ℤ → Option ℤ
  by_sums s p dir off px vol = elim (lookup p.product_hash s.map_risk_prd) [
    | none ↦ none
    | some q ↦ elim (vol_at (prd_at s.acc_base) q) [
      | none ↦ none
      | some v ↦
          let ret = check_prd q.limits v dir off vol in
          some (
            if ret ==ℤ ok
            then check_acc s.risk_acc s.acc_base.mod_acc dir off px vol p.vol_multiple
            else ret)
    ]
  ]

  unfoldable pub check_limits :
      RiskStg D
      → Pointed (RiskInstrStg D)
      → InstrumentInfo
      → ℕ
      → ℕ
      → D
      → ℤ
      → LastTick D
      → Option (ℕ × ℤ)
  check_limits s l p dir off px vol tick =
      elim (elim (vol_at (instr_at s.acc_base) l) as (λ o. Option (ℕ × ℤ)) [
        | some v ↦ some (by_instr l.limits v dir off px vol tick)
        | none ↦
            if reads_volumes l.limits dir off px vol tick
            then none
            else some (by_instr l.limits flat dir off px vol tick)
      ]) [
        | none ↦ none
        | some (off2, ret) ↦ elim (ret ==ℤ ok) [
          | false ↦ some (off2, ret)
          | true ↦ elim (by_sums s p dir off2 px vol) [ none ↦ none | some r ↦ some (off2, r) ]
        ]
      ]

module _ {D J : Type 0} ⦃F : Double D⦄ (json : Json D J) (conf : J) (hash : String → ℕ)
    (info : Map InstrumentInfo) (tick_price : InstrumentInfo → D) where
  -- Limits that cannot be read stay in the map as far as they were.
  unfoldable pub reg_risk_prd : String → RiskStg D → RiskStg D × Bool
  reg_risk_prd prd_name s =
      let (q, done) = init_prd json conf hash prd_name prd_default in
      if contains (hash prd_name) s.map_risk_prd
      then (s, true)
      else (record s { map_risk_prd = insert (hash prd_name) q s.map_risk_prd }, done)

  unfoldable pub reg_risk_instr : String → RiskStg D → RiskStg D × Bool
  reg_risk_instr instr_name s =
      if contains (hash instr_name) s.map_risk_instr
      then (s, true)
      else elim (lookup (hash instr_name) info) [
        | none ↦ (s, false)
        | some p ↦
            let (l, done) = init_stg json conf info (tick_price p) p limits_default in
            (record s { map_risk_instr = insert (hash instr_name) l s.map_risk_instr }, done)
      ]

  unfoldable pub reg_instr : String → RiskStg D → RiskStg D × Bool
  reg_instr instr_name s =
      let (b, known) = Base.reg_instr hash info instr_name s.acc_base in
      let s1 : RiskStg D = record s { acc_base = b } in
      elim (if known then lookup (hash instr_name) info else none) [
        | none ↦ (s1, false)
        | some p ↦
            let (s2, prd_done) : RiskStg D × Bool =
              if contains p.product_hash s1.map_risk_prd
              then (s1, true)
              else reg_risk_prd p.product s1 in
            if prd_done
            then (if contains (hash instr_name) s2.map_risk_instr
                then (s2, true)
                else reg_risk_instr instr_name s2)
            else (s2, false)
      ]

  -- The limits of the instrument, which is registered while there are none: the loop of `check`,
  -- on fuel. None where it does not end; the limits are none where it gives up.
  unfoldable pub find_limits :
      ℕ → InstrumentInfo → RiskStg D → Option (RiskStg D × Option (Pointed (RiskInstrStg D)))
  find_limits zero p s = none
  find_limits (suc n) p s = elim (lookup p.instr_hash s.map_risk_instr) [
    | some l ↦ some (s, some l)
    | none ↦
        let (s2, done) = reg_instr p.instr s in
        elim done [ true ↦ find_limits n p s2 | false ↦ some (s2, none) ]
  ]

  -- The state, the offset and the result.
  unfoldable pub check :
      ℕ → ℕ → ℕ → D → ℤ → InstrumentInfo → LastTick D → RiskStg D → Option (RiskStg D × ℕ × ℤ)
  check fuel dir off px vol p tick s = elim (find_limits fuel p s) [
    | none ↦ none
    | some (s2, found) ↦ elim found [
      | none ↦ some (s2, off, code 403)
      | some l ↦ elim (check_limits s2 l p dir off px vol tick) [
        | none ↦ none
        | some (off2, ret) ↦ some (s2, off2, ret)
      ]
    ]
  ]

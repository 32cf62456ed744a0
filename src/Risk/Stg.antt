-- ===== src/Risk/Stg.antt =====
-- The risk management of a strategy: src/risk/RiskStg.h and RiskStg.cpp, whose registration and
-- check stand in Risk/Gate. The limits of an instrument or product point into the account: the pointer
-- is the key of the record there, and reading through it where it is null or the account has no
-- record of that key, which is freed memory, is a fault.
use Prim.Native.String.{String}
use nat_framework.Prelude.{
  ℕ, ℤ, pos, ◌≡◌, if◌then◌else◌, true, false, Option, none, some, List, [], ◌∷◌, arith,
}
use nat_framework.Prelude.Map.{Map, lookup, insert, get_or, IsMap}
use nat_framework.Double.{Double, nil}
use nat_framework.TradeBase.{OrderTrack, RtnMsg, InstrumentInfo}
use nat_framework.Account.Vol.{UnitVol}
use nat_framework.Account.Instr.{ModInstr, instr_on_switch_day}
use nat_framework.Account.Base.{AccBase, is_flat, switch_map, erase_all}
use nat_framework.Account.Base
use nat_framework.Account.Base.Switch.{switch_map-kept, lookup-kept}
use nat_framework.Risk.Instr.{RiskInstr, RiskInstrStg}
use nat_framework.Risk.Instr
use nat_framework.Risk.Summary.{RiskPrd, RiskAcc}

-- Limits with their field `p_unit_vol`, which is none where it is null.
pub record Pointed (L : Type 0) : Type 0 where
  pub limits : L
  pub p_unit_vol : Option ℕ

pub record RiskStg (D : Type 0) : Type 0 where
  pub acc_base : AccBase D
  pub map_risk_instr : Map (Pointed (RiskInstrStg D))
  pub map_risk_prd : Map (Pointed RiskPrd)
  pub risk_acc : RiskAcc D

module _ {L : Type 0} where
  -- What the limits' pointer leads to.
  abbrev pub vol_at : (ℕ → Option UnitVol) → Pointed L → Option UnitVol
  vol_at vol l = elim l.p_unit_vol [ none ↦ none | some k ↦ vol k ]

  -- One walk of `onSwitchDay`: the keys of the limits whose volumes are flat, read through the
  -- pointers.
  unfoldable pub flat_keys : (ℕ → Option UnitVol) → Map (Pointed L) → Option (List ℕ)
  flat_keys vol [] = some []
  flat_keys vol ((k, l) ∷ m) =
      let rest = flat_keys vol m in
      elim (vol_at vol l) [
        | none ↦ none
        | some v ↦ elim rest [ none ↦ none | some ks ↦ some (if is_flat v then k ∷ ks else ks) ]
      ]

  unfoldable pub drop_flat : (ℕ → Option UnitVol) → Map (Pointed L) → Option (Map (Pointed L))
  drop_flat vol m = elim (flat_keys vol m) [ none ↦ none | some ks ↦ some (erase_all ks m) ]

  -- A pointer of the map that leads nowhere faults the walk.
  flat_keys_fault :
      (vol : ℕ → Option UnitVol) (k : ℕ) (l : Pointed L) (m : Map (Pointed L))
      → lookup k m ≡ some l
      → vol_at vol l ≡ none
      → flat_keys vol m ≡ none
  unfolding flat_keys
  flat_keys_fault vol k l [] e gone = cc
  flat_keys_fault vol k l ((j, x) ∷ m) e gone = ground (arith, flat_keys_fault vol k l m)

module _ {D : Type 0} where
  -- What the pointers of the limits lead to.
  abbrev pub instr_at : AccBase D → ℕ → Option UnitVol
  instr_at b k = elim (lookup k b.map_instr) [ none ↦ none | some i ↦ some i.unit_vol ]

  abbrev pub prd_at : AccBase D → ℕ → Option UnitVol
  prd_at b k = elim (lookup k b.map_prd) [ none ↦ none | some p ↦ some p.unit_vol ]

module _ {D : Type 0} ⦃F : Double D⦄ where
  -- The limits as `map_risk_instr_[hash]` makes them.
  abbrev pub limits_default : Pointed (RiskInstrStg D)
  limits_default = record {
    p_unit_vol = none;
    limits = record {
      instr = record {
        intensity_cycle_order_count = pos 0;
        intensity_cycle_time_record = pos 0;
        intensity_cycle_order_count_threshold = pos 0;
        intensity_cycle_time_span_threshold = nil;
        is_allowed = false;
        allowed_order_size_threshold = pos 0;
        long_volume_threshold = pos 0;
        short_volume_threshold = pos 0;
        net_volume_threshold = pos 0;
      };
      allowed_price_margin_threshold = nil;
    };
  }

  unfoldable pub on_switch_day : RiskStg D → Option (RiskStg D)
  on_switch_day s =
      let b = Base.on_switch_day s.acc_base in
      elim (drop_flat (instr_at b) s.map_risk_instr) [
        | none ↦ none
        | some instrs ↦ elim (drop_flat (prd_at b) s.map_risk_prd) [
          | none ↦ none
          | some prds ↦
              some (record s { acc_base = b; map_risk_instr = instrs; map_risk_prd = prds })
        ]
      ]

  module _ (hash : String → ℕ) (info : Map InstrumentInfo) where
    -- A call of the account, with the limits as they are.
    abbrev with_acc : (AccBase D → Option (AccBase D)) → RiskStg D → Option (RiskStg D)
    with_acc f s = elim (f s.acc_base) [ none ↦ none | some b ↦ some (record s { acc_base = b }) ]

    unfoldable pub on_order_track : OrderTrack D → RiskStg D → Option (RiskStg D)
    on_order_track t = with_acc (Base.on_order_track hash info t)

    unfoldable pub on_rtn : OrderTrack D → RtnMsg D → RiskStg D → Option (RiskStg D)
    on_rtn t msg = with_acc (Base.on_rtn hash info t msg)

    unfoldable pub on_tick_px : ℕ → D → RiskStg D → Option (RiskStg D)
    on_tick_px instr_hash tick_px = with_acc (Base.on_tick_px hash info instr_hash tick_px)

    unfoldable pub on_new : ℕ → ℕ → D → ℤ → ℕ → ℤ → RiskStg D → Option (RiskStg D)
    on_new dir off px vol instr_hash nano s =
        elim (Base.on_new hash info dir off px vol instr_hash s.acc_base) [
          | none ↦ none
          | some b ↦
              let l = get_or instr_hash s.map_risk_instr limits_default in
              some (record s {
                acc_base = b;
                map_risk_instr =
                    insert instr_hash
                      (record l {
                        limits = record l.limits { instr = Instr.on_new nano l.limits.instr };
                      })
                      s.map_risk_instr;
              })
        ]

  erased :
      (b : AccBase D) (h : ℕ) (i : ModInstr D)
      → IsMap b.map_instr
      → lookup h b.map_instr ≡ some i
      → is_flat i.unit_vol ≡ true
      → instr_at (Base.on_switch_day b) h ≡ none
  unfolding Base.on_switch_day
  erased b h i u e z =
      rw (switch_map-kept ModInstr.unit_vol instr_on_switch_day b.map_instr u)
        (ground (arith, lookup-kept ModInstr.unit_vol instr_on_switch_day h b.map_instr u))

  -- The day change of a strategy's risk management faults, which stands for a read of freed
  -- memory, whenever limits of an instrument point to the account's record of an instrument
  -- without a position; the keys of the account's map must not repeat.
  pub on_switch_day_fault :
      (s : RiskStg D) (k h : ℕ) (l : Pointed (RiskInstrStg D)) (i : ModInstr D)
      → IsMap s.acc_base.map_instr
      → lookup k s.map_risk_instr ≡ some l
      → l.p_unit_vol ≡ some h
      → lookup h s.acc_base.map_instr ≡ some i
      → is_flat i.unit_vol ≡ true
      → on_switch_day s ≡ none
  unfolding on_switch_day drop_flat
  on_switch_day_fault s k h l i u el ep ei z = ground (
    arith,
    flat_keys_fault (instr_at (Base.on_switch_day s.acc_base)) k l s.map_risk_instr el
        (rw ep (erased s.acc_base h i u ei z)),
  )

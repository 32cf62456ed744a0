-- ===== src/Risk/Gate/Passes.antt =====
-- What the check of a strategy's risk management in src/risk/RiskStg.cpp lets through.
use nat_framework.Prelude.{
  ℕ, suc, ℤ, ◌==ℤ◌, true, false, ◌≡◌, ◌↔◌, refl, some, if◌then◌else◌, arith, Bool-cases, ==ℤ→eq,
  ==ℤ_refl, inl, inr,
}
use nat_framework.Prelude.Map.{Map, lookup}
use Prim.Native.String.{String}
use nat_framework.Double.{Double, ◌⊗◌, of_int}
use nat_framework.TradeBase.{InstrumentInfo}
use nat_framework.Account.Vol.{UnitVol}
use nat_framework.Risk.Instr.{RiskInstrStg, check_stg, ok}
use nat_framework.Risk.Stg.{RiskStg, Pointed, vol_at, instr_at, prd_at}
use nat_framework.Risk.Summary.{RiskPrd, check_prd, check_acc, WithinPrdLimits, check_prd_iff}
use nat_framework.Risk.Conf.{Json}
use nat_framework.Risk.Kept.{StgKept, AccKept, stg_iff, acc_iff}
use nat_framework.Risk.Kept.Offset.{OffsetKept, offset_iff}
use nat_framework.Risk.Gate.{
  LastTick, check, check_limits, find_limits, offset_of, by_instr, by_sums,
}

pub not_ok : (a : ℤ) → (a ==ℤ ok) ≡ false → ¬ (a ≡ ok)
not_ok a e h = ground (arith, ==ℤ_refl ok)

pub and_ok : (a b : ℤ) → ((if a ==ℤ ok then b else a) ≡ ok) ↔ ((a ≡ ok) × (b ≡ ok))
and_ok a b = elim (Bool-cases (a ==ℤ ok)) [
  | inl e ↦ let ea : a ≡ ok = ==ℤ→eq a ok e in rw (e) ((λ h. (ea, h)), (λ h. h.1))
  | inr e ↦ let no : ¬ (a ≡ ok) = not_ok a e in rw (e) ((λ h. absurd (no h)), (λ h. h.0))
]

module _ {D : Type 0} ⦃F : Double D⦄ (s : RiskStg D) (l : Pointed (RiskInstrStg D))
    (p : InstrumentInfo) (q : Pointed RiskPrd) (v pv : UnitVol) (dir off : ℕ) (px : D) (vol : ℤ)
    (tick : LastTick D) where
  -- The offset that the check ends with.
  abbrev final_off : ℕ
  final_off = (offset_of l.limits.instr v dir off vol).0

  -- Every part of the check returns 0.
  record Passes : Type 0 where
    offset : (offset_of l.limits.instr v dir off vol).1 ≡ ok
    instr : check_stg l.limits v dir final_off vol px tick.ask_px tick.bid_px tick.exch_time ≡ ok
    prd : check_prd q.limits pv dir final_off vol ≡ ok
    acc : check_acc s.risk_acc s.acc_base.mod_acc dir final_off px vol p.vol_multiple ≡ ok

  -- Every limit is kept with the offset `off2`: those of the instrument, of its product and of the
  -- account.
  pub record Kept (off2 : ℕ) : Type 0 where
    pub offset : OffsetKept l.limits.instr v dir off off2 vol
    pub instr : StgKept l.limits v dir off2 vol px tick.ask_px tick.bid_px tick.exch_time
    pub prd : WithinPrdLimits q.limits pv dir off2 vol
    pub acc :
        AccKept s.risk_acc s.acc_base.mod_acc dir off2 (px ⊗ of_int vol ⊗ of_int p.vol_multiple)

  passes_iff : Passes ↔ Kept final_off
  passes_iff =
      let o = offset_iff l.limits.instr v dir off vol in
      let i = stg_iff l.limits v dir final_off vol px tick.ask_px tick.bid_px tick.exch_time in
      let r = check_prd_iff q.limits pv dir final_off vol in
      let a = acc_iff s.risk_acc s.acc_base.mod_acc dir final_off px vol p.vol_multiple in
      (
        (λ h. record {
          offset = o.0 h.offset;
          instr = i.0 h.instr;
          prd = r.0 h.prd;
          acc = a.0 h.acc;
        }),
        λ h. record {
          offset = o.1 h.offset;
          instr = i.1 h.instr;
          prd = r.1 h.prd;
          acc = a.1 h.acc;
        },
      )

  abbrev by_all : ℤ
  by_all =
      let ret = check_prd q.limits pv dir final_off vol in
      if ret ==ℤ ok
      then check_acc s.risk_acc s.acc_base.mod_acc dir final_off px vol p.vol_multiple
      else ret

  sums_eq :
      lookup p.product_hash s.map_risk_prd ≡ some q
      → vol_at (prd_at s.acc_base) q ≡ some pv
      → by_sums s p dir final_off px vol ≡ some by_all
  sums_eq eq epv = rw (by_sums, eq, epv) refl

  runs_on :
      vol_at (instr_at s.acc_base) l ≡ some v
      → lookup p.product_hash s.map_risk_prd ≡ some q
      → vol_at (prd_at s.acc_base) q ≡ some pv
      → ((by_instr l.limits v dir off px vol tick).1 ==ℤ ok) ≡ true
      → check_limits s l p dir off px vol tick ≡ some (final_off, by_all)
  unfolding check_limits
  runs_on ev eq epv passed = let sums = sums_eq eq epv in rw (check_limits, ev, passed, sums) refl

  stops :
      vol_at (instr_at s.acc_base) l ≡ some v
      → ((by_instr l.limits v dir off px vol tick).1 ==ℤ ok) ≡ false
      → check_limits s l p dir off px vol tick
        ≡ some (final_off, (by_instr l.limits v dir off px vol tick).1)
  unfolding check_limits
  stops ev stopped = rw (check_limits, ev, stopped) refl

  all_iff :
      vol_at (instr_at s.acc_base) l ≡ some v
      → lookup p.product_hash s.map_risk_prd ≡ some q
      → vol_at (prd_at s.acc_base) q ≡ some pv
      → (ret : ℤ) × (check_limits s l p dir off px vol tick ≡ some (final_off, ret))
        × ((ret ≡ ok) ↔ Passes)
  unfolding check_limits
  all_iff ev eq epv =
      elim (Bool-cases ((by_instr l.limits v dir off px vol tick).1 ==ℤ ok))
        as (λ e.
          (ret : ℤ) × (check_limits s l p dir off px vol tick ≡ some (final_off, ret))
          × ((ret ≡ ok) ↔ Passes)) [
            | inl passed ↦ (
              by_all,
              runs_on ev eq epv passed,
              (
                (λ h.
                    let (o, i) =
                      (and_ok _ _).0
                        (==ℤ→eq (by_instr l.limits v dir off px vol tick).1 ok passed) in
                    let (a, b) = (and_ok _ _).0 h in
                    record { offset = o; instr = i; prd = a; acc = b }),
                (λ h. (and_ok _ _).1 (h.prd, h.acc)),
              ),
            )
            | inr stopped ↦ (
              (by_instr l.limits v dir off px vol tick).1,
              stops ev stopped,
              (
                (λ h. absurd (not_ok (by_instr l.limits v dir off px vol tick).1 stopped h)),
                (λ h. absurd (
                    not_ok (by_instr l.limits v dir off px vol tick).1 stopped
                      ((and_ok _ _).1 (h.offset, h.instr)))),
              ),
            )
          ]

module _ {D J : Type 0} ⦃F : Double D⦄ (json : Json D J) (conf : J) (hash : String → ℕ)
    (info : Map InstrumentInfo) (tick_price : InstrumentInfo → D) where
  -- If a strategy has limits of an instrument and of its product, and their pointers lead to
  -- volumes of the account, the check of an order ends without a change of the state, with some
  -- offset, and it returns 0 exactly if with that offset: an order that leaves its offset open,
  -- or is only to close, gets one that closes volume that is held and free or opens what the
  -- limit allows, yesterday's position before a new one and, unless it is only to close, a new
  -- one before today's, and another order keeps its own; the price is within the margin of the
  -- prices of the market that are set; the instrument is allowed and not ordered too often; the
  -- size, the positions that an opening order builds up and the net positions are within the
  -- limits of the instrument and its product; and the open orders and the amounts within those of
  -- the account.
  pub check_passes :
      (n dir off : ℕ) (px : D) (vol : ℤ) (p : InstrumentInfo) (tick : LastTick D) (s : RiskStg D)
      (l : Pointed (RiskInstrStg D)) (q : Pointed RiskPrd) (v pv : UnitVol)
      → lookup p.instr_hash s.map_risk_instr ≡ some l
      → vol_at (instr_at s.acc_base) l ≡ some v
      → lookup p.product_hash s.map_risk_prd ≡ some q
      → vol_at (prd_at s.acc_base) q ≡ some pv
      → (off2 : ℕ) × (ret : ℤ) × (check json conf hash info tick_price
            (suc n)
            dir
            off
            px
            vol
            p
            tick
            s
          ≡ some (s, off2, ret))
        × ((ret ≡ ok) ↔ Kept s l p q v pv dir off px vol tick off2)
  unfolding check find_limits
  check_passes n dir off px vol p tick s l q v pv el ev eq epv =
      let (ret, runs, iff) = all_iff s l p q v pv dir off px vol tick ev eq epv in
      let kept = passes_iff s l p q v pv dir off px vol tick in
      (
        final_off s l p q v pv dir off px vol tick,
        ret,
        rw (check, find_limits, el, runs) refl,
        ((λ h. kept.0 (iff.0 h)), λ h. iff.1 (kept.1 h)),
      )

-- ===== src/Risk/Top/Passes.antt =====
-- What the check of the engine's risk management in src/risk/RiskTop.cpp lets through.
use Prim.Native.String.{String}
use nat_framework.Prelude.{
  ℕ, suc, ℤ, ◌==ℤ◌, ◌==◌, false, ◌||◌, ◌≡◌, ◌↔◌, refl, some, if◌then◌else◌, Bool-cases, inl, inr,
}
use nat_framework.Prelude.Map.{Map, lookup}
use nat_framework.Double.{Double, ◌⊗◌, of_int}
use nat_framework.TradeBase.{InstrumentInfo}
use nat_framework.Account.Codes.{auto_off, close_off}
use nat_framework.Account.Vol.{UnitVol}
use nat_framework.Risk.Instr.{ok}
use nat_framework.Risk.InstrTop.{RiskInstrTop, Treap}
use nat_framework.Risk.InstrTop
use nat_framework.Risk.Stg.{Pointed, vol_at, instr_at, prd_at}
use nat_framework.Risk.Summary.{RiskPrd, check_prd, check_acc, WithinPrdLimits, check_prd_iff}
use nat_framework.Risk.Conf.{Json}
use nat_framework.Risk.Kept.{AccKept, acc_iff}
use nat_framework.Risk.Kept.Own.{TopKept, top_iff}
use nat_framework.Risk.Gate.{by_sums}
use nat_framework.Risk.Gate.Passes.{and_ok}
use nat_framework.Risk.Top.{RiskTop, check, check_limits, find_limits, sums_of}

module _ {D T : Type 0} ⦃F : Double D⦄ (ops : Treap D T) (s : RiskTop D T)
    (l : Pointed (RiskInstrTop D T)) (p : InstrumentInfo) (q : Pointed RiskPrd) (v pv : UnitVol)
    (dir off : ℕ) (px : D) (vol nano : ℤ) where
  -- Every limit is kept: those of the instrument, of its product and of the account.
  pub record TopPasses : Type 0 where
    pub instr : TopKept ops l.limits v dir off px vol nano
    pub prd : WithinPrdLimits q.limits pv dir off vol
    pub acc :
        AccKept s.risk_acc s.acc_base.mod_acc dir off (px ⊗ of_int vol ⊗ of_int p.vol_multiple)

  abbrev by_all : ℤ
  by_all =
      let ret = check_prd q.limits pv dir off vol in
      if ret ==ℤ ok
      then check_acc s.risk_acc s.acc_base.mod_acc dir off px vol p.vol_multiple
      else ret

  abbrev of_instr : ℤ
  of_instr = InstrTop.check ops l.limits v dir off px vol nano

  abbrev result : ℤ
  result = if of_instr ==ℤ ok then by_all else of_instr

  runs_to :
      (off == auto_off || off == close_off) ≡ false
      → vol_at (instr_at s.acc_base) l ≡ some v
      → lookup p.product_hash s.map_risk_prd ≡ some q
      → vol_at (prd_at s.acc_base) q ≡ some pv
      → check_limits ops s l p dir off px vol nano ≡ some result
  unfolding check_limits
  runs_to plain ev eq epv =
      let sums : by_sums (sums_of ops s) p dir off px vol ≡ some by_all =
        rw (by_sums, eq, epv) refl in
      elim (Bool-cases (of_instr ==ℤ ok))
        as (λ e. check_limits ops s l p dir off px vol nano ≡ some result) [
          | inl passed ↦ rw (check_limits, plain, ev, passed, sums) refl
          | inr stopped ↦ rw (check_limits, plain, ev, stopped) refl
        ]

  result_iff : (result ≡ ok) ↔ TopPasses
  result_iff =
      let i = top_iff ops l.limits v dir off px vol nano in
      let r = check_prd_iff q.limits pv dir off vol in
      let a = acc_iff s.risk_acc s.acc_base.mod_acc dir off px vol p.vol_multiple in
      (
        (λ h.
            let (ei, rest) = (and_ok of_instr by_all).0 h in
            let (er, ea) = (and_ok _ _).0 rest in
            record { instr = i.0 ei; prd = r.0 er; acc = a.0 ea }),
        λ h. (and_ok of_instr by_all).1 (i.1 h.instr, (and_ok _ _).1 (r.1 h.prd, a.1 h.acc)),
      )

module _ {D J T : Type 0} ⦃F : Double D⦄ (ops : Treap D T) (json : Json D J) (conf : J)
    (hash : String → ℕ) (info : Map InstrumentInfo) where
  -- If the engine has limits of an instrument of the table and of its product, and their pointers
  -- lead to volumes of the account, the check of an order whose offset is neither left open nor
  -- only to close ends without a change of the state and returns 0 exactly if: the best own order
  -- that rests on the other side has not a price that the order reaches; the instrument is
  -- allowed and not ordered too often; the size, the positions that an opening order builds up
  -- and the net positions are within the limits of the instrument and its product; and the open
  -- orders and the amounts within those of the account.
  pub top_passes :
      (n dir off : ℕ) (px : D) (vol nano : ℤ) (h : ℕ) (p : InstrumentInfo) (s : RiskTop D T)
      (l : Pointed (RiskInstrTop D T)) (q : Pointed RiskPrd) (v pv : UnitVol)
      → lookup h info ≡ some p
      → (off == auto_off || off == close_off) ≡ false
      → lookup p.instr_hash s.map_risk_instr ≡ some l
      → vol_at (instr_at s.acc_base) l ≡ some v
      → lookup p.product_hash s.map_risk_prd ≡ some q
      → vol_at (prd_at s.acc_base) q ≡ some pv
      → (ret : ℤ) × (check ops json conf hash info (suc n) dir off px vol h nano s ≡ some (s, ret))
        × ((ret ≡ ok) ↔ TopPasses ops s l p q v pv dir off px vol nano)
  unfolding check find_limits
  top_passes n dir off px vol nano h p s l q v pv ei plain el ev eq epv =
      let runs = runs_to ops s l p q v pv dir off px vol nano plain ev eq epv in
      (
        result ops s l p q v pv dir off px vol nano,
        rw (check, ei, find_limits, el, runs) refl,
        result_iff ops s l p q v pv dir off px vol nano,
      )

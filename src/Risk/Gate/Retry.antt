-- ===== src/Risk/Gate/Retry.antt =====
-- The registration of src/risk/RiskStg.cpp, as `check` calls it.
use Prim.Native.String.{String}
use nat_framework.Prelude.{
  ℕ, suc, ℤ, Bool, true, false, ◌≡◌, refl, ap, ◌∙◌, none, some, arith, inl, inr, Option-cases,
}
use nat_framework.Prelude.Map.{Map, lookup, insert, contains, lookup-insert_self}
use nat_framework.Double.{Double}
use nat_framework.TradeBase.{InstrumentInfo}
use nat_framework.Account.Base.{AccBase}
use nat_framework.Account.Base
use nat_framework.Risk.Instr.{RiskInstrStg, code}
use nat_framework.Risk.Stg.{RiskStg, Pointed, limits_default}
use nat_framework.Risk.Conf.{Json}
use nat_framework.Risk.Conf.Margin.{init_stg}
use nat_framework.Risk.Gate.{LastTick, check, check_limits, find_limits, reg_instr, reg_risk_instr}

contains_lem :
    {V : Type 0} (k : ℕ) (m : Map V) → contains k m ≡ true → (v : V) × (lookup k m ≡ some v)
contains_lem k m e = elim (Option-cases (lookup k m)) [
  | inl gone ↦ absurd (ground (arith, gone))
  | inr there ↦ there
]

module _ {D J : Type 0} ⦃F : Double D⦄ (json : Json D J) (conf : J) (hash : String → ℕ)
    (info : Map InstrumentInfo) (tick_price : InstrumentInfo → D) where
  abbrev reg : String → RiskStg D → RiskStg D × Bool
  reg = reg_instr json conf hash info tick_price

  module _ (p : InstrumentInfo) (s : RiskStg D) where
    -- The limits as far as they were read, and the state in which they are kept.
    abbrev pub half_read : Pointed (RiskInstrStg D)
    half_read = (init_stg json conf info (tick_price p) p limits_default).0

    abbrev pub half_done : RiskStg D
    half_done = record s {
      acc_base = (Base.reg_instr hash info p.instr s.acc_base).0;
      map_risk_instr = insert (hash p.instr) half_read s.map_risk_instr;
    }

    instr_half :
        (t : RiskStg D)
        → lookup (hash p.instr) info ≡ some p
        → contains (hash p.instr) t.map_risk_instr ≡ false
        → (init_stg json conf info (tick_price p) p limits_default).1 ≡ false
        → reg_risk_instr json conf hash info tick_price p.instr t
          ≡ (record t { map_risk_instr = insert (hash p.instr) half_read t.map_risk_instr }, false)
    unfolding reg_risk_instr
    instr_half t ei new unread = rw (reg_risk_instr, new, ei, unread) refl

    reg_half :
        lookup (hash p.instr) info ≡ some p
        → contains (hash p.instr) s.map_risk_instr ≡ false
        → (Base.reg_instr hash info p.instr s.acc_base).1 ≡ true
        → contains p.product_hash s.map_risk_prd ≡ true
        → (init_stg json conf info (tick_price p) p limits_default).1 ≡ false
        → reg p.instr s ≡ (half_done, false)
    unfolding reg_instr
    reg_half ei new known prd unread =
        let t : RiskStg D = record s {
          acc_base = (Base.reg_instr hash info p.instr s.acc_base).0;
        } in
        rw (reg_instr, known, ei, prd, new) (instr_half t ei new unread)

    -- If an instrument is in the table under its hash, is new to a strategy whose account can
    -- register it and which has limits of its product, and its limits cannot be read whole from
    -- the configuration, the check of an order returns -403 and keeps the limits as far as they
    -- were read; the next check of the instrument does not register it again, but judges its
    -- order by those limits.
    pub check_retry :
        (n m dir dir2 off off2 : ℕ) (px px2 : D) (vol vol2 : ℤ) (tick tick2 : LastTick D)
        → p.instr_hash ≡ hash p.instr
        → lookup (hash p.instr) info ≡ some p
        → lookup p.instr_hash s.map_risk_instr ≡ none
        → (Base.reg_instr hash info p.instr s.acc_base).1 ≡ true
        → contains p.product_hash s.map_risk_prd ≡ true
        → (init_stg json conf info (tick_price p) p limits_default).1 ≡ false
        → (check json conf hash info tick_price (suc n) dir off px vol p tick s
            ≡ some (half_done, off, code 403))
          × (check json conf hash info tick_price (suc m) dir2 off2 px2 vol2 p tick2 half_done
              ≡ elim (check_limits half_done half_read p dir2 off2 px2 vol2 tick2) [
                | none ↦ none
                | some (o, ret) ↦ some (half_done, o, ret)
              ])
    unfolding check find_limits
    check_retry n m dir dir2 off off2 px px2 vol vol2 tick tick2 eh ei gone known prd unread =
        let new : contains (hash p.instr) s.map_risk_instr ≡ false = ground (arith, gone, eh) in
        let half : reg p.instr s ≡ (half_done, false) = reg_half ei new known prd unread in
        let there : lookup p.instr_hash half_done.map_risk_instr ≡ some half_read =
          ap (λ k. lookup k half_done.map_risk_instr) eh
          ∙ lookup-insert_self (hash p.instr) half_read s.map_risk_instr in
        let no : (reg p.instr s).1 ≡ false = ap (λ r. r.1) half in
        let state : (reg p.instr s).0 ≡ half_done = ap (λ r. r.0) half in
        (
          rw (check, find_limits, gone, no) (ap (λ t. some (t, off, code 403)) state),
          rw (check, find_limits, there) refl,
        )

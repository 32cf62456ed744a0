-- ===== src/Risk/Gate/Ends.antt =====
-- The loop of `check` in src/risk/RiskStg.cpp that registers an instrument ends.
use Prim.Native.String.{String}
use nat_framework.Prelude.{
  ℕ, suc, Bool, true, false, ◌≡◌, refl, sym, ap, ◌∙◌, Option, none, some, if◌then◌else◌, arith,
  Bool-cases, inl, inr, Option-cases,
}
use nat_framework.Prelude.Map.{Map, lookup, insert, contains, lookup-insert_self}
use nat_framework.Double.{Double}
use nat_framework.TradeBase.{InstrumentInfo}
use nat_framework.Account.Base
use nat_framework.Risk.Instr.{RiskInstrStg}
use nat_framework.Risk.Stg.{RiskStg, Pointed, limits_default}
use nat_framework.Risk.Conf.{Json}
use nat_framework.Risk.Conf.Margin.{init_stg}
use nat_framework.Risk.Gate.{find_limits, reg_instr, reg_risk_instr, reg_risk_prd}

module _ {V : Type 0} where
  contains-insert : (k : ℕ) (v : V) (m : Map V) → contains k (insert k v m) ≡ true
  contains-insert k v m =
      ap (λ o. elim o as (λ x. Bool) [ none ↦ false | some v ↦ true ]) (lookup-insert_self k v m)

  contains_lem : (k : ℕ) (m : Map V) → contains k m ≡ true → (v : V) × (lookup k m ≡ some v)
  contains_lem k m e = elim (Option-cases (lookup k m)) [
    | inl gone ↦ absurd (ground (arith, gone))
    | inr there ↦ there
  ]

module _ {D J : Type 0} ⦃F : Double D⦄ (json : Json D J) (conf : J) (hash : String → ℕ)
    (info : Map InstrumentInfo) (tick_price : InstrumentInfo → D) (name : String) where
  abbrev Has : RiskStg D × Bool → Type 0
  Has r = r.1 ≡ true → contains (hash name) r.0.map_risk_instr ≡ true

  reg_one : RiskStg D → RiskStg D × Bool
  reg_one = reg_risk_instr json conf hash info tick_price name

  reg_new-Has : (t : RiskStg D) → contains (hash name) t.map_risk_instr ≡ false → Has (reg_one t)
  unfolding reg_one reg_risk_instr
  reg_new-Has t fresh e = elim (Option-cases (lookup (hash name) info)) [
    | inl gone ↦ absurd (ground (arith, gone))
    | inr (p, there) ↦
        let l = (init_stg json conf info (tick_price p) p limits_default).0 in
        let made : (reg_one t).0.map_risk_instr ≡ insert (hash name) l t.map_risk_instr =
          rw (reg_risk_instr, fresh, there) refl in
        ap (contains (hash name)) made ∙ contains-insert (hash name) l t.map_risk_instr
  ]

  -- The last step of the registration.
  abbrev last_step : RiskStg D → RiskStg D × Bool
  last_step t = if contains (hash name) t.map_risk_instr then (t, true) else reg_one t

  last_step-Has : (t : RiskStg D) → Has (last_step t)
  last_step-Has t e = elim (Bool-cases (contains (hash name) t.map_risk_instr)) [
    | inl held ↦
        ap (λ b. contains (hash name) (if b then (t, true) else reg_one t).0.map_risk_instr) held
        ∙ held
    | inr fresh ↦
        ap (λ b. contains (hash name) (if b then (t, true) else reg_one t).0.map_risk_instr) fresh
        ∙ reg_new-Has t fresh (sym (ap (λ b. (if b then (t, true) else reg_one t).1) fresh) ∙ e)
  ]

  prd_step-Has : (b : Bool) (t : RiskStg D) → Has (if b then last_step t else (t, false))
  prd_step-Has true t = last_step-Has t
  prd_step-Has false t = λ e. cc

  info_step-Has :
      (o : Option InstrumentInfo) (t : RiskStg D) (f : InstrumentInfo → RiskStg D × Bool)
      → Has (elim o as (λ x. RiskStg D × Bool) [
        | none ↦ (t, false)
        | some p ↦ if (f p).1 then last_step (f p).0 else ((f p).0, false)
      ])
  info_step-Has none t f = λ e. cc
  info_step-Has (some p) t f = prd_step-Has (f p).1 (f p).0

  pub reg_instr-Has : (s : RiskStg D) → Has (reg_instr json conf hash info tick_price name s)
  unfolding reg_instr reg_one
  reg_instr-Has s =
      let (b, known) = Base.reg_instr hash info name s.acc_base in
      let t : RiskStg D = record s { acc_base = b } in
      info_step-Has (if known then lookup (hash name) info else none) t λ p.
        if contains p.product_hash t.map_risk_prd
        then (t, true)
        else reg_risk_prd json conf hash info tick_price p.product t

module _ {D J : Type 0} ⦃F : Double D⦄ (json : Json D J) (conf : J) (hash : String → ℕ)
    (info : Map InstrumentInfo) (tick_price : InstrumentInfo → D) where
  abbrev reg : InstrumentInfo → RiskStg D → RiskStg D × Bool
  reg p s = reg_instr json conf hash info tick_price p.instr s

  found_at :
      (n : ℕ) (p : InstrumentInfo) (s : RiskStg D) (l : Pointed (RiskInstrStg D))
      → lookup p.instr_hash s.map_risk_instr ≡ some l
      → find_limits json conf hash info tick_price (suc n) p s ≡ some (s, some l)
  unfolding find_limits
  found_at n p s l there = rw (find_limits, there) refl

  Ends : ℕ → InstrumentInfo → RiskStg D → Type 0
  Ends n p s =
      (r : RiskStg D × Option (Pointed (RiskInstrStg D))) × (find_limits json conf hash info
          tick_price n p s
        ≡ some r)

  turn :
      (n : ℕ) (p : InstrumentInfo) (s : RiskStg D) (b : Bool)
      → p.instr_hash ≡ hash p.instr
      → lookup p.instr_hash s.map_risk_instr ≡ none
      → (reg p s).1 ≡ b
      → Ends (suc (suc n)) p s
  unfolding find_limits Ends
  turn n p s false eh gone done = (((reg p s).0, none), rw (find_limits, gone, done) refl)
  turn n p s true eh gone done =
      let (l, at) =
        contains_lem (hash p.instr) (reg p s).0.map_risk_instr
          (reg_instr-Has json conf hash info tick_price p.instr s done) in
      let there : lookup p.instr_hash (reg p s).0.map_risk_instr ≡ some l =
        ap (λ k. lookup k (reg p s).0.map_risk_instr) eh ∙ at in
      (((reg p s).0, some l), rw (find_limits, gone, done) (found_at n p (reg p s).0 l there))

  -- For an instrument under the hash of its name, the loop of the check ends after at most two
  -- turns.
  find_limits_total :
      (n : ℕ) (p : InstrumentInfo) (s : RiskStg D)
      → p.instr_hash ≡ hash p.instr
      → Ends (suc (suc n)) p s
  unfolding Ends
  find_limits_total n p s eh = elim (Option-cases (lookup p.instr_hash s.map_risk_instr)) [
    | inr (l, there) ↦ ((s, some l), found_at (suc n) p s l there)
    | inl gone ↦ turn n p s (reg p s).1 eh gone refl
  ]

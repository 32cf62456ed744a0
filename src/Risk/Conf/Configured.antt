-- ===== src/Risk/Conf/Configured.antt =====
-- What the reading of an instrument's limits in src/risk/RiskInstr.cpp ends with.
use Prim.Native.String.{String}
use nat_framework.Prelude.{
  pos, Bool, true, false, ◌≡◌, refl, Option, none, some, List, arith, ◌⊎◌, inl, inr, ◌↔◌, sym, ◌∙◌,
  Option-cases,
}
use nat_framework.Prelude.Map.{Map}
use nat_framework.Double.{Double, of_int, ◌⊗◌}
use nat_framework.TradeBase.{InstrumentInfo}
use nat_framework.TradeBase.Info.{product_or_instrument_to_instr_set, has}
use nat_framework.TradeBase.Meant.{NamedOrItself, product_or_instrument_to_instr_set_iff}
use nat_framework.Risk.Instr.{RiskInstr}
use nat_framework.Risk.Stg.{Pointed}
use nat_framework.Risk.Conf.{
  Json, get_value, read_into, put_size, put_count, put_span, put_long, put_short, put_net, value_at,
  allowed_names, allow, conf_size, conf_count, conf_span, conf_long, conf_short, conf_net,
  with_allowed, with_size, with_count, with_span, with_long, with_short, init_limits, init,
}

module _ {D J : Type 0} ⦃F : Double D⦄ (json : Json D J) (conf : J)
    (info : Map InstrumentInfo) where
  -- The value stands under the instrument's name; or, if there is none, under its product's; or, if
  -- there is none either, under "default".
  abbrev Under : J → InstrumentInfo → J → Type 0
  Under c p v =
      (json.find p.instr c ≡ some v)
      ⊎ (((json.find p.instr c ≡ none) × (json.find p.product c ≡ some v))
          ⊎ ((json.find p.instr c ≡ none)
              × (json.find p.product c ≡ none)
              × (json.find "default" c ≡ some v)))

  -- The configuration has `a` at the path for the instrument.
  pub Gives : {A : Type 0} → String → (J → Option A) → InstrumentInfo → A → Type 0
  Gives path conv p a =
      (c : J) × (json.at path conf ≡ some c) × (v : J) × Under c p v × (conv v ≡ some a)

  -- Every limit is the one that the configuration has.
  pub record IsConfigured (p : InstrumentInfo) (r : RiskInstr D) : Type 0 where
    pub size : Gives "/RiskForOrder/allowed_order_size" json.to_int p r.allowed_order_size_threshold
    pub count :
        Gives "/RiskForOrder/intensity_cycle_order_count" json.to_int p
          r.intensity_cycle_order_count_threshold
    pub span :
        (x : D) × Gives "/RiskForOrder/intensity_cycle_time_span" json.to_double p x
        × (r.intensity_cycle_time_span_threshold ≡ x ⊗ of_int (pos 1000000000))
    pub long : Gives "/RiskForInstrument/allowed_long_volume" json.to_int p r.long_volume_threshold
    pub short :
        Gives "/RiskForInstrument/allowed_short_volume" json.to_int p r.short_volume_threshold
    pub net : Gives "/RiskForInstrument/allowed_net_volume" json.to_int p r.net_volume_threshold
    pub allowed :
        (c : J) × (json.at "/RiskForGeneral/allowed_instrument" conf ≡ some c)
        × (names : List String) × (json.to_names c ≡ some names)
        × ((r.is_allowed ≡ true) ↔ NamedOrItself p.instr names info)

  Under-value :
      {A : Type 0} (conv : J → Option A) (c : J) (p : InstrumentInfo) (a : A)
      → get_value json.find conv c p.product p.instr ≡ some a
      → (v : J) × Under c p v × (conv v ≡ some a)
  Under-value conv c p a e = elim (Option-cases (json.find p.instr c)) [
    | inr (v, own) ↦ (v, inl own, rw (get_value, own) at e)
    | inl n1 ↦ elim (Option-cases (json.find p.product c)) [
      | inr (v, of_prd) ↦ (v, inr (inl (n1, of_prd)), rw (get_value, n1, of_prd) at e)
      | inl n2 ↦ elim (Option-cases (json.find "default" c)) [
        | inr (v, rest) ↦ (v, inr (inr (n1, n2, rest)), rw (get_value, n1, n2, rest) at e)
        | inl n3 ↦ absurd (ground (arith, rw (get_value, n1, n2, n3) at e))
      ]
    ]
  ]

  value_at-Gives :
      {A : Type 0} (conv : J → Option A) (path : String) (p : InstrumentInfo) (a : A)
      → value_at json conf info conv path p ≡ some a
      → Gives path conv p a
  unfolding Gives
  value_at-Gives conv path p a e = elim (Option-cases (json.at path conf)) [
    | inr (c, at_path) ↦
        let (v, under, made) = Under-value conv c p a (rw (value_at, at_path) at e) in
        (c, at_path, v, under, made)
    | inl gone ↦ absurd (ground (arith, rw (value_at, gone) at e))
  ]

  names_given :
      (names : List String)
      → (allowed_names json conf info) ≡ some names
      → (c : J) × (json.at "/RiskForGeneral/allowed_instrument" conf ≡ some c)
        × (json.to_names c ≡ some names)
  names_given names e = elim (Option-cases (json.at "/RiskForGeneral/allowed_instrument" conf)) [
    | inr (c, there) ↦ (c, there, rw (allowed_names, there) at e)
    | inl gone ↦ absurd (ground (arith, rw (allowed_names, gone) at e))
  ]

  allow-allowed :
      (p : InstrumentInfo) (names : List String) (r : RiskInstr D)
      → r.is_allowed ≡ false
      → (allow json conf info p names r).is_allowed
        ≡ has p.instr (product_or_instrument_to_instr_set names info)
  allow-allowed p names r f = ground arith

  read_into_lem :
      {A : Type 0} (v : Option A) (put : A → RiskInstr D → RiskInstr D) (s : RiskInstr D × Bool)
      → (read_into v put s).1 ≡ true
      → (a : A) × (v ≡ some a) × (s.1 ≡ true) × ((read_into v put s).0 ≡ put a s.0)
  read_into_lem none put (r, true) e = absurd (ground arith)
  read_into_lem (some a) put (r, true) e = (a, refl, refl, refl)
  read_into_lem v put (r, false) e = absurd (ground arith)

  init_limits-IsConfigured :
      (p : InstrumentInfo) (r : RiskInstr D)
      → r.is_allowed ≡ false
      → (init_limits json conf info p r).1 ≡ true
      → IsConfigured p (init_limits json conf info p r).0
  unfolding init_limits
  init_limits-IsConfigured p r f e =
      let (a6, e6, t6, q6) =
        read_into_lem (conf_net json conf info p) put_net (with_short json conf info p r) e in
      let (a5, e5, t5, q5) =
        read_into_lem (conf_short json conf info p) put_short (with_long json conf info p r) t6 in
      let (a4, e4, t4, q4) =
        read_into_lem (conf_long json conf info p) put_long (with_span json conf info p r) t5 in
      let (a3, e3, t3, q3) =
        read_into_lem (conf_span json conf info p) put_span (with_count json conf info p r) t4 in
      let (a2, e2, t2, q2) =
        read_into_lem (conf_count json conf info p) put_count (with_size json conf info p r) t3 in
      let (a1, e1, t1, q1) =
        read_into_lem (conf_size json conf info p) put_size (with_allowed json conf info p r) t2 in
      let (names, e0, t0, q0) =
        read_into_lem (allowed_names json conf info) (allow json conf info p) (r, true) t1 in
      let q : (init_limits json conf info p r).0
          ≡ put_net a6 (
              put_short a5 (
                put_long a4
                  (put_span a3 (put_count a2 (put_size a1 (allow json conf info p names r)))))) =
        ground (arith, q0, q1, q2, q3, q4, q5, q6) in
      let (c, path, listed) = names_given names e0 in
      let same = allow-allowed p names r f in
      let meant = product_or_instrument_to_instr_set_iff p.instr names info in
      rw (q) (record {
        size = value_at-Gives json.to_int "/RiskForOrder/allowed_order_size" p a1 e1;
        count = value_at-Gives json.to_int "/RiskForOrder/intensity_cycle_order_count" p a2 e2;
        span = (
          a3,
          value_at-Gives json.to_double "/RiskForOrder/intensity_cycle_time_span" p a3 e3,
          refl,
        );
        long = value_at-Gives json.to_int "/RiskForInstrument/allowed_long_volume" p a4 e4;
        short = value_at-Gives json.to_int "/RiskForInstrument/allowed_short_volume" p a5 e5;
        net = value_at-Gives json.to_int "/RiskForInstrument/allowed_net_volume" p a6 e6;
        allowed = (c, path, names, listed, (λ h. meant.0 (sym same ∙ h), λ h. same ∙ meant.1 h));
      })

  -- If the reading of an instrument's limits from the configuration succeeds, and the instrument
  -- was not allowed before, every limit is the value that the configuration has at its path under
  -- the instrument's name, or else under its product's, or else under "default", the time span is
  -- that value in seconds turned into nanoseconds, and the instrument is allowed exactly if one
  -- of the allowed names means an instrument of the table that is called as it is, or is its name
  -- and does not mean some instrument of the table.
  pub init-IsConfigured :
      (p : InstrumentInfo) (l : Pointed (RiskInstr D))
      → l.limits.is_allowed ≡ false
      → (init json conf info p l).1 ≡ true
      → IsConfigured p (init json conf info p l).0.limits
  unfolding init init_limits
  init-IsConfigured p l f e = init_limits-IsConfigured p l.limits f e

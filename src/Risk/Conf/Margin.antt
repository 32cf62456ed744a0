-- ===== src/Risk/Conf/Margin.antt =====
-- The `init` of src/risk/RiskInstrStg.cpp: a strategy's limits of an instrument, with the price
-- margin. `getValue` stands in a condition as a factor: `! getValue(...) * tick_price`, a double
-- that counts as true where it is not 0. `tick_price` is the field of the instrument's
-- information.
use nat_framework.Prelude.{pos, Bool, true, false, ◌≡◌, refl, Option, none, some, if◌then◌else◌}
use nat_framework.Prelude.Map.{Map}
use nat_framework.Double.{Double, of_int, ◌⊗◌, is_nonzero}
use nat_framework.TradeBase.{InstrumentInfo}
use nat_framework.Risk.Instr.{RiskInstrStg}
use nat_framework.Risk.Stg.{Pointed}
use nat_framework.Risk.Conf.{Json, get_value}
use nat_framework.Risk.Conf

module _ {D J : Type 0} ⦃F : Double D⦄ (json : Json D J) (conf : J)
    (info : Map InstrumentInfo) where
  -- The value that `getValue` takes, before it is turned into a double; none for its `false`.
  abbrev pub margin_node : J → InstrumentInfo → Option J
  margin_node c p = get_value json.find some c p.product p.instr

  -- Whether the condition holds, where `getValue` returns `found`.
  abbrev pub is_refused : D → Bool → Bool
  is_refused tick_price found =
      is_nonzero ((if found then of_int (pos 0) else of_int (pos 1)) ⊗ tick_price)

  -- What follows the condition: the margin is turned into a price, then the other limits are read.
  abbrev pub rest_of_init :
      D → InstrumentInfo → Pointed (RiskInstrStg D) → Pointed (RiskInstrStg D) × Bool
  rest_of_init tick_price p l =
      let (q, ok) =
        Conf.init json conf info p
          (record { limits = l.limits.instr; p_unit_vol = l.p_unit_vol }) in
      (
        record {
          limits = record {
            instr = q.limits;
            allowed_price_margin_threshold = l.limits.allowed_price_margin_threshold ⊗ tick_price;
          };
          p_unit_vol = q.p_unit_vol;
        },
        ok,
      )

  abbrev pub put_margin : D → Pointed (RiskInstrStg D) → Pointed (RiskInstrStg D)
  put_margin x l = record l { limits = record l.limits { allowed_price_margin_threshold = x } }

  unfoldable pub init_stg :
      D → InstrumentInfo → Pointed (RiskInstrStg D) → Pointed (RiskInstrStg D) × Bool
  init_stg tick_price p l = elim (json.at "/RiskForOrder/allowed_price_tick" conf) [
    | none ↦ (l, false)
    | some c ↦ elim (margin_node c p) [
      | none ↦ if is_refused tick_price false then (l, false) else rest_of_init tick_price p l
      | some n ↦ elim (json.to_double n) [
        | none ↦ (l, false)
        | some x ↦
            if is_refused tick_price true
            then (put_margin x l, false)
            else rest_of_init tick_price p (put_margin x l)
      ]
    ]
  ]

  -- Where the configuration gives no margin and the tick price times one is zero, the margin that
  -- was there is kept, times the tick price, and the other limits decide the result.
  init_stg_unset :
      (tick_price : D) (p : InstrumentInfo) (l : Pointed (RiskInstrStg D)) (c : J)
      → json.at "/RiskForOrder/allowed_price_tick" conf ≡ some c
      → margin_node c p ≡ none
      → is_refused tick_price false ≡ false
      → init_stg tick_price p l ≡ rest_of_init tick_price p l
  unfolding init_stg
  init_stg_unset tick_price p l c e f g = rw (init_stg, e, f, g) refl

  -- A margin is taken, times the tick price, where the tick price times zero is zero.
  init_stg_set :
      (tick_price : D) (p : InstrumentInfo) (l : Pointed (RiskInstrStg D)) (c n : J) (x : D)
      → json.at "/RiskForOrder/allowed_price_tick" conf ≡ some c
      → margin_node c p ≡ some n
      → json.to_double n ≡ some x
      → is_refused tick_price true ≡ false
      → (init_stg tick_price p l).0.limits.allowed_price_margin_threshold ≡ x ⊗ tick_price
  unfolding init_stg
  init_stg_set tick_price p l c n x e f g h = rw (init_stg, e, f, g, h) refl

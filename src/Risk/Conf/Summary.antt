-- ===== src/Risk/Conf/Summary.antt =====
-- The `init` of src/risk/RiskPrd.cpp and of src/risk/RiskAcc.cpp: the limits of a product and of
-- the account from the configuration. The account that the code is given is not null.
use Prim.Native.String.{String}
use nat_framework.Prelude.{ℕ, ℤ, Bool, true, false, ◌≡◌, refl, Option, none, some}
use nat_framework.Risk.Conf.{Json, get_value, read_into}
use nat_framework.Risk.Stg.{Pointed}
use nat_framework.Risk.Summary.{RiskPrd, RiskAcc}

module _ {D J : Type 0} (json : Json D J) (conf : J) where
  -- The value of a product: the name of an instrument is left empty.
  abbrev pub prd_value : String → String → Option ℤ
  prd_value path prd = elim (json.at path conf) [
    | none ↦ none
    | some c ↦ get_value json.find json.to_int c prd ""
  ]

  unfoldable pub prd_limits : String → RiskPrd → RiskPrd × Bool
  prd_limits prd r =
      read_into (prd_value "/RiskForProduct/allowed_net_volume" prd)
        (λ x q. record q { net_volume_threshold = x })
        (read_into (prd_value "/RiskForProduct/allowed_short_volume" prd)
          (λ x q. record q { short_volume_threshold = x })
          (read_into (prd_value "/RiskForProduct/allowed_long_volume" prd)
            (λ x q. record q { long_volume_threshold = x }) (r, true)))

  -- The pointer is set to the product's record in the account, of the key `hash prd`.
  unfoldable pub init_prd : (String → ℕ) → String → Pointed RiskPrd → Pointed RiskPrd × Bool
  init_prd hash prd l =
      let (r, ok) = prd_limits prd l.limits in
      (record { limits = r; p_unit_vol = some (hash prd) }, ok)

  -- One entry of the configuration, without a choice by name.
  abbrev pub entry : {A : Type 0} → (J → Option A) → String → Option A
  entry conv path = elim (json.at path conf) [ none ↦ none | some c ↦ conv c ]

  unfoldable pub init_acc : RiskAcc D → RiskAcc D × Bool
  init_acc r =
      read_into (entry json.to_double "/RiskForAccount/allowed_net_amount")
        (λ x q. record q { net_amt_threshold = x })
        (read_into (entry json.to_double "/RiskForAccount/allowed_short_amount")
          (λ x q. record q { amt_short_threshold = x })
          (read_into (entry json.to_double "/RiskForAccount/allowed_long_amount")
            (λ x q. record q { amt_long_threshold = x })
            (read_into (entry json.to_int "/RiskForGeneral/allowed_max_unfilled_order_number")
              (λ x q. record q { unfilled_ord_cnt_threshold = x }) (r, true))))

  -- Where each of the three limits has a value, a product's limits are those values.
  init_prd_reads :
      (hash : String → ℕ) (prd : String) (l : Pointed RiskPrd) (long short net : ℤ)
      → prd_value "/RiskForProduct/allowed_long_volume" prd ≡ some long
      → prd_value "/RiskForProduct/allowed_short_volume" prd ≡ some short
      → prd_value "/RiskForProduct/allowed_net_volume" prd ≡ some net
      → init_prd hash prd l ≡ (
        record {
          limits = record {
            long_volume_threshold = long;
            short_volume_threshold = short;
            net_volume_threshold = net;
          };
          p_unit_vol = some (hash prd);
        },
        true,
      )
  unfolding init_prd prd_limits
  init_prd_reads hash prd l long short net a b c = rw (a, b, c) refl

  -- The account's limits are not read if the number of open orders is not there.
  init_acc_missing :
      (r : RiskAcc D)
      → entry json.to_int "/RiskForGeneral/allowed_max_unfilled_order_number" ≡ none
      → init_acc r ≡ (r, false)
  unfolding init_acc
  init_acc_missing r e = rw (e) refl

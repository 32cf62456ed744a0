-- ===== src/Risk/Exposure.antt =====
-- src/risk/RiskInstr.cpp with src/account/ModInstr.cpp: one instrument that is traded behind its
-- checks. An order is sent only if `RiskInstr::check` returns 0; cancels and trades come back for
-- volumes that are not negative.
use nat_framework.Prelude.{ℕ, ℤ, pos, ◌+ℤ◌, ◌-ℤ◌, ◌≤ℤ◌, ◌≡◌, some, arith, int_laws}
use nat_framework.Double.{Double}
use nat_framework.Account.Vol.{
  UnitVol, on_buy_opn_new, on_buy_opn_cxl, on_buy_opn_trd, on_sell_opn_new, on_sell_opn_cxl,
  on_sell_opn_trd, on_buy_cls_yd_new, on_buy_cls_yd_cxl, on_buy_cls_yd_trd, on_sell_cls_yd_new,
  on_sell_cls_yd_cxl, on_sell_cls_yd_trd, on_buy_cls_td_new, on_buy_cls_td_cxl, on_buy_cls_td_trd,
  on_sell_cls_td_new, on_sell_cls_td_cxl, on_sell_cls_td_trd,
}
use nat_framework.Account.Instr.{Linked}
use nat_framework.Account.Instr
use nat_framework.Account.Instr.Effect.{
  new_vol, cxl_vol, trd_vol, on_new_vol, on_cxl_vol, on_trd_vol, on_tick_px_vol,
}
use nat_framework.Risk.Instr.{ok, RiskInstr, check, on_new}
use nat_framework.Risk.Limits.{WithinLimits, check_iff}

-- An instrument, its two summaries and its limits.
pub record Trader (D : Type 0) : Type 0 where
  pub risk : RiskInstr D
  pub books : Linked D

-- The positions, with what open orders can still add to them, are within the limits.
pub record WithinExposure {D : Type 0} (r : RiskInstr D) (v : UnitVol) : Type 0 where
  pub long : v.pos_long +ℤ v.pos_long_td_opn_ing ≤ℤ r.long_volume_threshold
  pub short : v.pos_short +ℤ v.pos_short_td_opn_ing ≤ℤ r.short_volume_threshold
  pub net_long :
      v.pos_long -ℤ v.pos_short +ℤ v.pos_short_yd_cls_ing +ℤ v.pos_long_td_opn_ing
        +ℤ v.pos_short_td_cls_ing
      ≤ℤ r.net_volume_threshold
  pub net_short :
      v.pos_short -ℤ v.pos_long +ℤ v.pos_long_yd_cls_ing +ℤ v.pos_short_td_opn_ing
        +ℤ v.pos_long_td_cls_ing
      ≤ℤ r.net_volume_threshold

module _ {D : Type 0} ⦃F : Double D⦄ where
  new-WithinExposure :
      (r : RiskInstr D) (v : UnitVol) (dir off : ℕ) (vol : ℤ)
      → WithinLimits r v dir off vol
      → WithinExposure r v
      → WithinExposure r (new_vol dir off vol v)
  unfolding new_vol on_buy_opn_new on_sell_opn_new on_buy_cls_yd_new on_sell_cls_yd_new
      on_buy_cls_td_new on_sell_cls_td_new
  new-WithinExposure r v dir off vol w e = record {
    long = grind (int_laws, e.long, w.long);
    short = grind (int_laws, e.short, w.short);
    net_long = grind (int_laws, e.net_long, w.net_long);
    net_short = grind (int_laws, e.net_short, w.net_short);
  }

  cxl-WithinExposure :
      (r : RiskInstr D) (v : UnitVol) (dir off : ℕ) (vol : ℤ)
      → pos 0 ≤ℤ vol
      → WithinExposure r v
      → WithinExposure r (cxl_vol dir off vol v)
  unfolding cxl_vol on_buy_opn_cxl on_sell_opn_cxl on_buy_cls_yd_cxl on_sell_cls_yd_cxl
      on_buy_cls_td_cxl on_sell_cls_td_cxl
  cxl-WithinExposure r v dir off vol nonneg e = record {
    long = grind (int_laws, e.long);
    short = grind (int_laws, e.short);
    net_long = grind (int_laws, e.net_long);
    net_short = grind (int_laws, e.net_short);
  }

  trd-WithinExposure :
      (r : RiskInstr D) (v : UnitVol) (dir off : ℕ) (vol : ℤ)
      → pos 0 ≤ℤ vol
      → WithinExposure r v
      → WithinExposure r (trd_vol dir off vol v)
  unfolding trd_vol on_buy_opn_trd on_sell_opn_trd on_buy_cls_yd_trd on_sell_cls_yd_trd
      on_buy_cls_td_trd on_sell_cls_td_trd
  trd-WithinExposure r v dir off vol nonneg e = record {
    long = grind (int_laws, e.long);
    short = grind (int_laws, e.short);
    net_long = grind (int_laws, e.net_long);
    net_short = grind (int_laws, e.net_short);
  }

  -- The count of orders does not touch the limits.
  count-WithinExposure :
      (r : RiskInstr D) (v : UnitVol) (nano : ℤ)
      → WithinExposure r v
      → WithinExposure (on_new nano r) v
  unfolding on_new
  count-WithinExposure r v nano e = record {
    long = ground (arith, e.long);
    short = ground (arith, e.short);
    net_long = ground (arith, e.net_long);
    net_short = ground (arith, e.net_short);
  }

  -- What can happen: an order that passes the check is sent, an order or the rest of it is
  -- cancelled, an order is traded, and a price arrives.
  pub data TraderStep : Trader D → Trader D → Type 0 where
    send :
        (r : RiskInstr D) (dir off : ℕ) (px : D) (vol nano : ℤ) (c c' : Linked D)
        → check r c.instr.unit_vol dir off vol nano ≡ ok
        → Instr.on_new dir off px vol c ≡ some c'
        → TraderStep (record { risk = r; books = c }) (record { risk = on_new nano r; books = c' })
    cancel :
        (r : RiskInstr D) (dir off : ℕ) (px : D) (vol : ℤ) (c c' : Linked D)
        → pos 0 ≤ℤ vol
        → Instr.on_cxl dir off px vol c ≡ some c'
        → TraderStep (record { risk = r; books = c }) (record { risk = r; books = c' })
    trade :
        (r : RiskInstr D) (dir off : ℕ) (px : D) (vol vol_traded : ℤ) (trd_px : D) (trd : ℤ)
        (c c' : Linked D)
        → pos 0 ≤ℤ trd
        → Instr.on_trd dir off px vol vol_traded trd_px trd c ≡ some c'
        → TraderStep (record { risk = r; books = c }) (record { risk = r; books = c' })
    tick :
        (r : RiskInstr D) (px : D) (c c' : Linked D)
        → Instr.on_tick_px px c ≡ some c'
        → TraderStep (record { risk = r; books = c }) (record { risk = r; books = c' })

  pub data TraderRun : Trader D → Trader D → Type 0 where
    stay : (t : Trader D) → TraderRun t t
    then_step : (t u v : Trader D) → TraderRun t u → TraderStep u v → TraderRun t v

  abbrev pub IsSafe : Trader D → Type 0
  IsSafe t = WithinExposure t.risk t.books.instr.unit_vol

  step-IsSafe : (t u : Trader D) → TraderStep t u → IsSafe t → IsSafe u
  step-IsSafe _ _ (send r dir off px vol nano c c' passed e) safe =
      rw (on_new_vol dir off px vol c c' e) (
        count-WithinExposure r _ nano (
          new-WithinExposure r _ dir off vol
            ((check_iff r c.instr.unit_vol dir off vol nano).0 passed).2 safe))
  step-IsSafe _ _ (cancel r dir off px vol c c' nonneg e) safe =
      rw (on_cxl_vol dir off px vol c c' e) (cxl-WithinExposure r _ dir off vol nonneg safe)
  step-IsSafe _ _ (trade r dir off px vol vol_traded trd_px trd c c' nonneg e) safe =
      rw (on_trd_vol dir off px vol vol_traded trd_px trd c c' e)
        (trd-WithinExposure r _ dir off trd nonneg safe)
  step-IsSafe _ _ (tick r px c c' e) safe = rw (on_tick_px_vol px c c' e) safe

  -- In every run of one instrument's trading, where an order is booked only if the instrument's
  -- check returns 0, and cancels and trades of volumes that are not negative and ticks come in
  -- any order, the long, the short and both net positions stay within the limits, counted with
  -- what open orders can still add, if they were at the start.
  pub run-IsSafe : (t u : Trader D) → TraderRun t u → IsSafe t → IsSafe u
  run-IsSafe _ _ (stay t) safe = safe
  run-IsSafe _ _ (then_step t u v run s) safe = step-IsSafe u v s (run-IsSafe t u run safe)

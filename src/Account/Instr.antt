-- ===== src/Account/Instr.antt =====
-- One instrument of an account and its event handlers: src/account/ModInstr.h and ModInstr.cpp. A
-- handler changes the instrument and, through two pointers, the product's and the account's
-- summary. `Linked` holds the three; a pointer that is null is `none` there, and a handler that
-- goes through it faults, which is the result `none`.
pub mod Keeps
pub mod Rules
pub mod VolRel
pub mod Alike
pub mod Effect
pub mod Life
pub mod Conserve
use Prim.Native.String.{String}
use nat_framework.Prelude.{
  ℕ, ℤ, pos, negsuc, ◌+ℤ◌, ltb_ℤ, ◌==ℤ◌, ◌==◌, if◌then◌else◌, Bool, true, false, Option, none, some,
}
use nat_framework.Double.{Double, ◌⊗◌, of_int, is_nonzero}
use nat_framework.Account.Codes.{buy, sell, open_off, close_today, close_yesterday}
use nat_framework.Account.Vol
use nat_framework.Account.Vol.{UnitVol}
use nat_framework.Account.Amt
use nat_framework.Account.Amt.{UnitAmt}
use nat_framework.Account.Pnl
use nat_framework.Account.Pnl.{UnitPnl}
use nat_framework.Account.Px
use nat_framework.Account.Px.{UnitPx}
use nat_framework.Account.Mods.{ModPrd, ModAcc}

pub record ModInstr (D : Type 0) : Type 0 where
  pub unit_vol : UnitVol
  pub unit_amt : UnitAmt D
  pub unit_px : UnitPx D
  pub unit_pnl : UnitPnl D
  -- The key in `map_prd_` of the product that the pointer names; `none` is a null pointer.
  pub p_prd : Option ℕ
  -- Whether the pointer is set: it can only name the account that owns the instrument.
  pub p_acc : Bool
  pub instr_name : String
  pub vol_multiple : ℤ

pub record Linked (D : Type 0) : Type 0 where
  pub instr : ModInstr D
  pub prd : Option (ModPrd D)
  pub acc : Option (ModAcc D)

-- A statement of a handler.
abbrev pub Step : Type 0 → Type 0
Step D = Linked D → Option (Linked D)

infixl 5 ◌>>◌
abbrev pub ◌>>◌ : {D : Type 0} → Step D → Step D → Step D
◌>>◌ m k c = elim (m c) [ none ↦ none | some c' ↦ k c' ]

module _ {D : Type 0} where
  abbrev pub skip : Step D
  skip c = some c

  -- `unit_vol.f()`, `p_prd->unit_vol.f()` and so on for the other parts.
  unfoldable pub instr_vol : (UnitVol → UnitVol) → Step D
  instr_vol f c = some (record c { instr = record c.instr { unit_vol = f c.instr.unit_vol } })

  unfoldable pub prd_vol : (UnitVol → UnitVol) → Step D
  prd_vol f c = elim c.prd [
    | none ↦ none
    | some p ↦ some (record c { prd = some (record p { unit_vol = f p.unit_vol }) })
  ]

  unfoldable pub instr_amt : (UnitAmt D → UnitAmt D) → Step D
  instr_amt f c = some (record c { instr = record c.instr { unit_amt = f c.instr.unit_amt } })

  unfoldable pub prd_amt : (UnitAmt D → UnitAmt D) → Step D
  prd_amt f c = elim c.prd [
    | none ↦ none
    | some p ↦ some (record c { prd = some (record p { unit_amt = f p.unit_amt }) })
  ]

  unfoldable pub acc_amt : (UnitAmt D → UnitAmt D) → Step D
  acc_amt f c = elim c.acc [
    | none ↦ none
    | some a ↦ some (record c { acc = some (record a { unit_amt = f a.unit_amt }) })
  ]

  unfoldable pub instr_pnl : (UnitPnl D → UnitPnl D) → Step D
  instr_pnl f c = some (record c { instr = record c.instr { unit_pnl = f c.instr.unit_pnl } })

  unfoldable pub prd_pnl : (UnitPnl D → UnitPnl D) → Step D
  prd_pnl f c = elim c.prd [
    | none ↦ none
    | some p ↦ some (record c { prd = some (record p { unit_pnl = f p.unit_pnl }) })
  ]

  unfoldable pub acc_pnl : (UnitPnl D → UnitPnl D) → Step D
  acc_pnl f c = elim c.acc [
    | none ↦ none
    | some a ↦ some (record c { acc = some (record a { unit_pnl = f a.unit_pnl }) })
  ]

  unfoldable pub instr_px : (UnitPx D → UnitPx D) → Step D
  instr_px f c = some (record c { instr = record c.instr { unit_px = f c.instr.unit_px } })

  -- `p_acc->unfilled_order_cnt += n`
  unfoldable pub acc_unfilled : ℤ → Step D
  acc_unfilled n c = elim c.acc [
    | none ↦ none
    | some a ↦
        some (record c { acc = some (record a { unfilled_order_cnt = a.unfilled_order_cnt +ℤ n }) })
  ]

  -- The rows of two and three statements that the handlers repeat.
  unfoldable pub both_vol : (UnitVol → UnitVol) → Step D
  both_vol f = do instr_vol f; prd_vol f

  unfoldable pub all_amt : (UnitAmt D → UnitAmt D) → Step D
  all_amt f = do instr_amt f; prd_amt f; acc_amt f

  unfoldable pub all_pnl : (UnitPnl D → UnitPnl D) → Step D
  all_pnl f = do instr_pnl f; prd_pnl f; acc_pnl f

module _ {D : Type 0} ⦃F : Double D⦄ where
  -- The fields' default values, before `init` and before the account sets the pointers.
  abbrev pub instr_default : ModInstr D
  instr_default = record {
    unit_vol = Vol.flat;
    unit_amt = Amt.no_amt;
    unit_px = Px.no_px;
    unit_pnl = Pnl.no_pnl;
    p_prd = none;
    p_acc = false;
    instr_name = "";
    vol_multiple = pos 0;
  }

  -- The new record, and whether `init` succeeds.
  unfoldable pub instr_init : String → ℤ → ModInstr D → ModInstr D × Bool
  instr_init name vm i =
      if ltb_ℤ vm (pos 0)
      then (i, false)
      else (record i { instr_name = name; vol_multiple = vm }, true)

  unfoldable pub instr_on_switch_day : ModInstr D → ModInstr D
  instr_on_switch_day i = record i {
    unit_vol = Vol.on_switch_day i.unit_vol;
    unit_amt = Amt.on_switch_day i.unit_amt;
    unit_px = Px.on_switch_day i.unit_px;
    unit_pnl = Pnl.on_switch_day i.unit_pnl;
  }

  -- `if (0.0 != delta) m`
  unfoldable pub unless_zero : D → Step D → Step D
  unless_zero delta m = if is_nonzero delta then m else skip

  -- The four changes of `onTickPx`, each made only if it is not zero.
  unfoldable pub long_change : D → Step D
  long_change delta = unless_zero delta (all_amt (Amt.on_amt_long_change delta))

  unfoldable pub short_change : D → Step D
  short_change delta = unless_zero delta (all_amt (Amt.on_amt_short_change delta))

  unfoldable pub pos_pnl_change : D → Step D
  pos_pnl_change delta = unless_zero delta (all_pnl (Pnl.on_pos_pnl_change delta))

  unfoldable pub trd_pnl_change : D → Step D
  trd_pnl_change delta = unless_zero delta (all_pnl (Pnl.on_trd_pnl_change delta))

  unfoldable pub tick_long : D → Step D
  tick_long tick_px c =
      let i = c.instr in
      long_change
        (Amt.calc_amt_change_on_px_change tick_px i.unit_px.last_px i.unit_vol.pos_long
          i.vol_multiple)
        c

  unfoldable pub tick_short : D → Step D
  tick_short tick_px c =
      let i = c.instr in
      short_change
        (Amt.calc_amt_change_on_px_change tick_px i.unit_px.last_px i.unit_vol.pos_short
          i.vol_multiple)
        c

  unfoldable pub tick_pos_pnl : D → Step D
  tick_pos_pnl tick_px c =
      let i = c.instr in
      pos_pnl_change
        (Pnl.calc_pos_pnl_change_on_px_change tick_px i.unit_px.last_px i.unit_vol.pos_long_yd_ini
          i.unit_vol.pos_short_yd_ini i.vol_multiple)
        c

  unfoldable pub tick_trd_pnl : D → Step D
  tick_trd_pnl tick_px c =
      let i = c.instr in
      trd_pnl_change
        (Pnl.calc_trd_pnl_change_on_px_change tick_px i.unit_px.last_px i.unit_vol.pos_buy
          i.unit_vol.pos_sell i.vol_multiple)
        c

  unfoldable pub set_last_px : D → UnitPx D → UnitPx D
  set_last_px px p = record p { last_px = px }

  unfoldable pub on_tick_px : D → Step D
  on_tick_px tick_px = do
    tick_long tick_px
    tick_short tick_px
    tick_pos_pnl tick_px
    tick_trd_pnl tick_px
    instr_px (set_last_px tick_px)

  -- The branches of `onNew` by direction. An unknown offset only raises an alert.
  unfoldable pub new_buy : ℕ → ℤ → D → Step D
  new_buy off vol amt_ing_chg =
      if off == open_off
      then (do
        both_vol (Vol.on_buy_opn_new vol)
        all_amt (Amt.on_amt_long_td_add_ing_change amt_ing_chg))
      else if off == close_yesterday
      then (do
        both_vol (Vol.on_buy_cls_yd_new vol)
        all_amt (Amt.on_amt_short_yd_sub_ing_change amt_ing_chg))
      else if off == close_today
      then (do
        both_vol (Vol.on_buy_cls_td_new vol)
        all_amt (Amt.on_amt_short_td_sub_ing_change amt_ing_chg))
      else skip

  unfoldable pub new_sell : ℕ → ℤ → D → Step D
  new_sell off vol amt_ing_chg =
      if off == open_off
      then (do
        both_vol (Vol.on_sell_opn_new vol)
        all_amt (Amt.on_amt_short_td_add_ing_change amt_ing_chg))
      else if off == close_yesterday
      then (do
        both_vol (Vol.on_sell_cls_yd_new vol)
        all_amt (Amt.on_amt_long_yd_sub_ing_change amt_ing_chg))
      else if off == close_today
      then (do
        both_vol (Vol.on_sell_cls_td_new vol)
        all_amt (Amt.on_amt_long_td_sub_ing_change amt_ing_chg))
      else skip

  -- `onNew` below its first line, which computes the amount.
  unfoldable pub new_body : ℕ → ℕ → ℤ → D → Step D
  new_body dir off vol amt_ing_chg = do
    acc_unfilled (pos 1)
    (if dir == buy
        then new_buy off vol amt_ing_chg
        else if dir == sell
        then new_sell off vol amt_ing_chg
        else skip)

  unfoldable pub on_new : ℕ → ℕ → D → ℤ → Step D
  on_new dir off px vol c =
      new_body dir off vol (Amt.calc_amt_ing_change_on_new_cxl_trd px vol c.instr.vol_multiple) c

  unfoldable pub cxl_buy : ℕ → ℤ → D → Step D
  cxl_buy off vol amt_ing_chg =
      if off == open_off
      then (do
        both_vol (Vol.on_buy_opn_cxl vol)
        all_amt (Amt.on_amt_long_td_add_ing_change amt_ing_chg))
      else if off == close_yesterday
      then (do
        both_vol (Vol.on_buy_cls_yd_cxl vol)
        all_amt (Amt.on_amt_short_yd_sub_ing_change amt_ing_chg))
      else if off == close_today
      then (do
        both_vol (Vol.on_buy_cls_td_cxl vol)
        all_amt (Amt.on_amt_short_td_sub_ing_change amt_ing_chg))
      else skip

  unfoldable pub cxl_sell : ℕ → ℤ → D → Step D
  cxl_sell off vol amt_ing_chg =
      if off == open_off
      then (do
        both_vol (Vol.on_sell_opn_cxl vol)
        all_amt (Amt.on_amt_short_td_add_ing_change amt_ing_chg))
      else if off == close_yesterday
      then (do
        both_vol (Vol.on_sell_cls_yd_cxl vol)
        all_amt (Amt.on_amt_long_yd_sub_ing_change amt_ing_chg))
      else if off == close_today
      then (do
        both_vol (Vol.on_sell_cls_td_cxl vol)
        all_amt (Amt.on_amt_long_td_sub_ing_change amt_ing_chg))
      else skip

  -- `onCxl` below its first line, which computes the amount.
  unfoldable pub cxl_body : ℕ → ℕ → ℤ → D → Step D
  cxl_body dir off cxl_vol amt_ing_chg = do
    acc_unfilled (negsuc 0)
    (if dir == buy
        then cxl_buy off cxl_vol amt_ing_chg
        else if dir == sell
        then cxl_sell off cxl_vol amt_ing_chg
        else skip)

  unfoldable pub on_cxl : ℕ → ℕ → D → ℤ → Step D
  on_cxl dir off px cxl_vol c =
      cxl_body dir off cxl_vol
        (of_int (negsuc 0) ⊗ Amt.calc_amt_ing_change_on_new_cxl_trd px cxl_vol c.instr.vol_multiple)
        c

  unfoldable pub trd_buy : ℕ → ℤ → D → D → Step D
  trd_buy off vol amt_ing_chg amt_chg =
      if off == open_off
      then (do
        both_vol (Vol.on_buy_opn_trd vol)
        all_amt (Amt.on_amt_long_td_add_ing_change amt_ing_chg)
        all_amt (Amt.on_amt_long_change amt_chg))
      else if off == close_yesterday
      then (do
        both_vol (Vol.on_buy_cls_yd_trd vol)
        all_amt (Amt.on_amt_short_yd_sub_ing_change amt_ing_chg)
        all_amt (Amt.on_amt_short_change (of_int (negsuc 0) ⊗ amt_chg)))
      else if off == close_today
      then (do
        both_vol (Vol.on_buy_cls_td_trd vol)
        all_amt (Amt.on_amt_short_td_sub_ing_change amt_ing_chg)
        all_amt (Amt.on_amt_short_change (of_int (negsuc 0) ⊗ amt_chg)))
      else skip

  unfoldable pub trd_sell : ℕ → ℤ → D → D → Step D
  trd_sell off vol amt_ing_chg amt_chg =
      if off == open_off
      then (do
        both_vol (Vol.on_sell_opn_trd vol)
        all_amt (Amt.on_amt_short_td_add_ing_change amt_ing_chg)
        all_amt (Amt.on_amt_short_change amt_chg))
      else if off == close_yesterday
      then (do
        both_vol (Vol.on_sell_cls_yd_trd vol)
        all_amt (Amt.on_amt_long_yd_sub_ing_change amt_ing_chg)
        all_amt (Amt.on_amt_long_change (of_int (negsuc 0) ⊗ amt_chg)))
      else if off == close_today
      then (do
        both_vol (Vol.on_sell_cls_td_trd vol)
        all_amt (Amt.on_amt_long_td_sub_ing_change amt_ing_chg)
        all_amt (Amt.on_amt_long_change (of_int (negsuc 0) ⊗ amt_chg)))
      else skip

  -- What `onTrd` does after the offset's branch: the amount bought or sold, and its average price.
  unfoldable pub set_avg_px_buy : D → UnitPx D → UnitPx D
  set_avg_px_buy px p = record p { avg_px_buy = px }

  unfoldable pub average_buy : Step D
  average_buy c =
      let i = c.instr in
      instr_px
        (set_avg_px_buy (Px.calc_avg_px i.unit_amt.amt_buy i.unit_vol.pos_buy i.vol_multiple)) c

  unfoldable pub bought : D → Step D
  bought amt_chg = do instr_amt (Amt.on_amt_buy_change amt_chg); average_buy

  unfoldable pub set_avg_px_sell : D → UnitPx D → UnitPx D
  set_avg_px_sell px p = record p { avg_px_sell = px }

  unfoldable pub average_sell : Step D
  average_sell c =
      let i = c.instr in
      instr_px
        (set_avg_px_sell (Px.calc_avg_px i.unit_amt.amt_sell i.unit_vol.pos_sell i.vol_multiple)) c

  unfoldable pub sold : D → Step D
  sold amt_chg = do instr_amt (Amt.on_amt_sell_change amt_chg); average_sell

  -- `onTrd` below its tick and its two amounts; `filled` says that this trade fills the order.
  unfoldable pub trd_body : ℕ → ℕ → Bool → ℤ → D → D → Step D
  trd_body dir off filled trd_vol amt_ing_chg amt_chg = do
    (if filled then acc_unfilled (negsuc 0) else skip)
    (if dir == buy
        then (do trd_buy off trd_vol amt_ing_chg amt_chg; bought amt_chg)
        else if dir == sell
        then (do trd_sell off trd_vol amt_ing_chg amt_chg; sold amt_chg)
        else skip)

  unfoldable pub book_trd : ℕ → ℕ → D → Bool → D → ℤ → Step D
  book_trd dir off px filled trd_px trd_vol c =
      trd_body dir off filled trd_vol
        (of_int (negsuc 0) ⊗ Amt.calc_amt_ing_change_on_new_cxl_trd px trd_vol c.instr.vol_multiple)
        (Amt.calc_amt_change_on_trd trd_px trd_vol c.instr.vol_multiple) c

  unfoldable pub on_trd : ℕ → ℕ → D → ℤ → ℤ → D → ℤ → Step D
  on_trd dir off px vol vol_traded trd_px trd_vol = do
    on_tick_px trd_px
    book_trd dir off px (vol ==ℤ vol_traded) trd_px trd_vol

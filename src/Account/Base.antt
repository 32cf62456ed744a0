-- ===== src/Account/Base.antt =====
-- A trading account: src/account/AccBase.h and AccBase.cpp. It holds a record for each instrument,
-- a summary for each product and one for the account; an instrument points to its two summaries.
-- The configuration and the account's name, which only make file names, are left out, and so are
-- the log lines. A method that goes through a null pointer faults: its result is `none`.
pub mod Sums
pub mod Valid
pub mod Register
pub mod Events
pub mod Switch
pub mod Day
pub mod Reach
pub mod Getters
use Prim.Native.String.{String}
use nat_framework.Prelude.{
  ℕ, ℤ, pos, ◌-ℤ◌, ◌==ℤ◌, ◌==◌, if◌then◌else◌, Bool, true, false, not, ◌&&◌, Option, none, some,
  List, [], ◌∷◌,
}
use nat_framework.Prelude.Map.{Map, lookup, contains, insert, erase, get_or}
use nat_framework.Double.{Double, ◌⊘◌, of_int, nil}
use nat_framework.TradeBase.{InstrumentInfo, OrderTrack, RtnMsg}
use nat_framework.Account.Codes.{has_bits, closed_bit, send_mask, execution_bit, cancel_mask}
use nat_framework.Account.Vol.{UnitVol}
use nat_framework.Account.Amt
use nat_framework.Account.Pnl
use nat_framework.Account.Mods.{
  ModPrd, ModAcc, prd_default, prd_init, prd_on_switch_day, acc_on_switch_day,
}
use nat_framework.Account.Instr.{
  ModInstr, Linked, Step, ◌>>◌, skip, instr_default, instr_init, instr_on_switch_day,
}
use nat_framework.Account.Instr

pub record AccBase (D : Type 0) : Type 0 where
  pub map_instr : Map (ModInstr D)
  pub map_prd : Map (ModPrd D)
  pub mod_acc : ModAcc D

-- `0 == pos_long && 0 == pos_short`
abbrev pub is_flat : UnitVol → Bool
is_flat v = (pos 0 ==ℤ v.pos_long) && (pos 0 ==ℤ v.pos_short)

module _ {V : Type 0} where
  -- The first walk of `onSwitchDay` over a map: records with no position are noted for erasure, the
  -- others are switched.
  unfoldable pub switch_walk : (V → UnitVol) → (V → V) → Map V → Map V × List ℕ
  switch_walk vol switch [] = ([], [])
  switch_walk vol switch ((k, v) ∷ m) =
      let (m', erased) = switch_walk vol switch m in
      if is_flat (vol v) then ((k, v) ∷ m', k ∷ erased) else ((k, switch v) ∷ m', erased)

  unfoldable pub erase_all : List ℕ → Map V → Map V
  erase_all [] m = m
  erase_all (k ∷ ks) m = erase_all ks (erase k m)

  unfoldable pub switch_map : (V → UnitVol) → (V → V) → Map V → Map V
  switch_map vol switch m = let (m', erased) = switch_walk vol switch m in erase_all erased m'

module _ {D : Type 0} where
  -- `ModInstr& mod_instr = map_instr_[h]` and its two pointers.
  unfoldable pub linked : ModInstr D → AccBase D → Linked D
  linked i b = record {
    instr = i;
    prd = elim i.p_prd [ none ↦ none | some k ↦ lookup k b.map_prd ];
    acc = if i.p_acc then some b.mod_acc else none;
  }

  -- The account with the three records that a handler has changed.
  unfoldable pub stored : ℕ → Linked D → AccBase D → AccBase D
  stored h c b = record {
    map_instr = insert h c.instr b.map_instr;
    map_prd = elim c.instr.p_prd [
      | none ↦ b.map_prd
      | some k ↦ elim c.prd [ none ↦ b.map_prd | some p ↦ insert k p b.map_prd ]
    ];
    mod_acc = elim c.acc [ none ↦ b.mod_acc | some a ↦ a ];
  }

module _ {D : Type 0} ⦃F : Double D⦄ where
  -- A new account, with the fields' default values.
  abbrev pub empty : AccBase D
  empty = record {
    map_instr = [];
    map_prd = [];
    mod_acc = record { unfilled_order_cnt = pos 0; unit_amt = Amt.no_amt; unit_pnl = Pnl.no_pnl };
  }

  unfoldable pub with_instr : ℕ → Step D → AccBase D → Option (AccBase D)
  with_instr h m b = elim (m (linked (get_or h b.map_instr instr_default) b)) [
    | none ↦ none
    | some c ↦ some (stored h c b)
  ]

  unfoldable pub on_switch_day : AccBase D → AccBase D
  on_switch_day b = record {
    mod_acc = acc_on_switch_day b.mod_acc;
    map_prd = switch_map ModPrd.unit_vol prd_on_switch_day b.map_prd;
    map_instr = switch_map ModInstr.unit_vol instr_on_switch_day b.map_instr;
  }

  module _ (hash : String → ℕ) (info : Map InstrumentInfo) where
    -- The new account, and what the method returns.
    unfoldable pub reg_mod_prd : String → AccBase D → AccBase D × Bool
    reg_mod_prd prd_name b =
        let h = hash prd_name in
        if contains h b.map_prd
        then (b, true)
        else (record b { map_prd = insert h (prd_init prd_name prd_default) b.map_prd }, true)

    unfoldable pub reg_mod_instr : String → AccBase D → AccBase D × Bool
    reg_mod_instr instr_name b =
        let h = hash instr_name in
        if contains h b.map_instr then (b, true) else elim (lookup h info) [
          | none ↦ (b, false)
          | some p ↦
              let (i, done) = instr_init instr_name p.vol_multiple instr_default in
              (record b { map_instr = insert h i b.map_instr }, done)
        ]

    -- `map_instr_[h].p_prd = &map_prd_[prd_hash]; map_instr_[h].p_acc = &mod_acc_;`
    unfoldable pub link : ℕ → ℕ → AccBase D → AccBase D
    link h prd_hash b = record b {
      map_prd = insert prd_hash (get_or prd_hash b.map_prd prd_default) b.map_prd;
      map_instr =
          insert h
            (record (get_or h b.map_instr instr_default) { p_prd = some prd_hash; p_acc = true })
            b.map_instr;
    }

    unfoldable pub reg_new_instr : String → ℕ → AccBase D → AccBase D × Bool
    reg_new_instr instr_name prd_hash b =
        let h = hash instr_name in
        if contains h b.map_instr
        then (b, true)
        else let (b', done) = reg_mod_instr instr_name b in
          if done then (link h prd_hash b', true) else (b', false)

    -- The product of a known instrument, registered if it is new.
    unfoldable pub reg_prd : InstrumentInfo → AccBase D → AccBase D × Bool
    reg_prd p b = if contains p.product_hash b.map_prd then (b, true) else reg_mod_prd p.product b

    unfoldable pub reg_instr : String → AccBase D → AccBase D × Bool
    reg_instr instr_name b = elim (lookup (hash instr_name) info) [
      | none ↦ (b, false)
      | some p ↦
          let (b', done) = reg_prd p b in
          if done then reg_new_instr instr_name p.product_hash b' else (b', false)
    ]

    -- What every event begins with: an unknown instrument or one that cannot be registered is
    -- passed over with an alert.
    unfoldable pub on_known : ℕ → Step D → AccBase D → Option (AccBase D)
    on_known h m b = elim (lookup h info) [
      | none ↦ some b
      | some p ↦ let (b', done) = reg_instr p.instr b in if done then with_instr h m b' else some b'
    ]

    unfoldable pub on_new : ℕ → ℕ → D → ℤ → ℕ → AccBase D → Option (AccBase D)
    on_new dir off px vol instr_hash = on_known instr_hash (Instr.on_new dir off px vol)

    -- The price of a trade that is read off an order: 0 if nothing was traded.
    unfoldable pub trd_px : OrderTrack D → D
    trd_px t = if pos 0 ==ℤ t.vol_traded then nil else t.amount_traded ⊘ of_int t.vol_traded

    unfoldable pub track_steps : OrderTrack D → Step D
    track_steps t = do
      (if has_bits t.status send_mask then Instr.on_new t.dir t.off t.price t.vol else skip)
      (if has_bits t.status closed_bit && not (t.vol ==ℤ t.vol_traded)
          then Instr.on_cxl t.dir t.off t.price (t.vol -ℤ t.vol_traded)
          else skip)
      (if has_bits t.status execution_bit
          then Instr.on_trd t.dir t.off t.price t.vol t.vol_traded (trd_px t) t.vol_traded
          else skip)

    unfoldable pub on_order_track : OrderTrack D → AccBase D → Option (AccBase D)
    on_order_track t = on_known t.instr_hash (track_steps t)

    unfoldable pub rtn_steps : OrderTrack D → RtnMsg D → Step D
    rtn_steps t msg = do
      (if has_bits msg.msg_type cancel_mask then Instr.on_cxl t.dir t.off t.price msg.vol else skip)
      (if has_bits msg.msg_type execution_bit
          then Instr.on_trd t.dir t.off t.price t.vol t.vol_traded msg.price msg.vol
          else skip)

    unfoldable pub on_rtn : OrderTrack D → RtnMsg D → AccBase D → Option (AccBase D)
    on_rtn t msg = on_known t.instr_hash (rtn_steps t msg)

    unfoldable pub on_tick_px : ℕ → D → AccBase D → Option (AccBase D)
    on_tick_px instr_hash tick_px = on_known instr_hash (Instr.on_tick_px tick_px)

-- ===== src/Risk/Instr.antt =====
-- The checks of one instrument: src/risk/RiskInstr.h, RiskInstr.cpp, RiskInstrStg.h and
-- RiskInstrStg.cpp. `p_unit_vol` leads to the volumes of the instrument in the account, which the
-- checks take as an argument.
use nat_framework.Prelude.{
  ℕ, ℤ, pos, negsuc, ◌-◌, ◌+ℤ◌, ◌-ℤ◌, leb_ℤ, ltb_ℤ, ◌==◌, if◌then◌else◌, Bool, true, false, not,
  ◌&&◌,
}
use nat_framework.Double.{Double, ◌⊕◌, ◌⊖◌, of_int, nil}
use nat_framework.Account.Codes.{buy, sell, open_off, close_off, close_today, close_yesterday}
use nat_framework.Account.Vol.{UnitVol}

-- The code -n, for n above 0.
abbrev pub code : ℕ → ℤ
code n = negsuc (n - 1)

-- What a check returns where the order passes.
abbrev pub ok : ℤ
ok = pos 0

pub record RiskInstr (D : Type 0) : Type 0 where
  pub intensity_cycle_order_count : ℤ
  pub intensity_cycle_time_record : ℤ
  pub intensity_cycle_order_count_threshold : ℤ
  pub intensity_cycle_time_span_threshold : D
  pub is_allowed : Bool
  pub allowed_order_size_threshold : ℤ
  pub long_volume_threshold : ℤ
  pub short_volume_threshold : ℤ
  pub net_volume_threshold : ℤ

unfoldable pub is_size_correct : ℤ → ℤ → Bool
is_size_correct threshold size = leb_ℤ size threshold

-- `pos_long + pos_long_td_opn_ing + vol <= threshold`, for an instrument or a product.
unfoldable pub is_long_volume_correct : ℤ → UnitVol → ℤ → Bool
is_long_volume_correct threshold v vol =
    leb_ℤ (v.pos_long +ℤ v.pos_long_td_opn_ing +ℤ vol) threshold

unfoldable pub is_short_volume_correct : ℤ → UnitVol → ℤ → Bool
is_short_volume_correct threshold v vol =
    leb_ℤ (v.pos_short +ℤ v.pos_short_td_opn_ing +ℤ vol) threshold

unfoldable pub is_net_volume_correct : ℤ → UnitVol → ℕ → ℤ → Bool
is_net_volume_correct threshold v dir vol =
    if dir == buy
    then leb_ℤ
        (v.pos_long -ℤ v.pos_short +ℤ v.pos_short_yd_cls_ing +ℤ v.pos_long_td_opn_ing
          +ℤ v.pos_short_td_cls_ing +ℤ vol)
        threshold
    else leb_ℤ
        (v.pos_short -ℤ v.pos_long +ℤ v.pos_long_yd_cls_ing +ℤ v.pos_short_td_opn_ing
          +ℤ v.pos_long_td_cls_ing +ℤ vol)
        threshold

module _ {D : Type 0} ⦃F : Double D⦄ where
  unfoldable pub is_intensity_normal : RiskInstr D → ℤ → Bool
  is_intensity_normal r exch_time =
      if leb_ℤ r.intensity_cycle_order_count_threshold r.intensity_cycle_order_count
        && F.ltb (of_int (exch_time -ℤ r.intensity_cycle_time_record))
            r.intensity_cycle_time_span_threshold
      then false
      else true

  unfoldable pub check : RiskInstr D → UnitVol → ℕ → ℕ → ℤ → ℤ → ℤ
  check r v dir off vol nano =
      if not r.is_allowed
      then code 200
      else if not (is_size_correct r.allowed_order_size_threshold vol)
      then code 202
      else if not (is_intensity_normal r nano)
      then code 203
      else if off == open_off
          && dir == buy
          && not (is_long_volume_correct r.long_volume_threshold v vol)
      then code 210
      else if off == open_off
          && not (dir == buy)
          && not (is_short_volume_correct r.short_volume_threshold v vol)
      then code 211
      else if not (is_net_volume_correct r.net_volume_threshold v dir vol)
      then code 212
      else ok

  -- The new offset, and what the method returns; the source writes the offset through a reference.
  unfoldable pub parse_auto_offset : RiskInstr D → UnitVol → ℕ → ℕ → ℤ → ℕ × ℤ
  parse_auto_offset r v dir off vol =
      if dir == buy
      then (if leb_ℤ vol (v.pos_short_yd -ℤ v.pos_short_yd_cls_ing)
          then (close_yesterday, ok)
          else if not (off == close_off)
              && leb_ℤ vol (r.long_volume_threshold -ℤ v.pos_long -ℤ v.pos_long_td_opn_ing)
          then (open_off, ok)
          else if leb_ℤ vol (v.pos_short_td -ℤ v.pos_short_td_cls_ing)
          then (close_today, ok)
          else (off, code 270))
      else if dir == sell
      then (if leb_ℤ vol (v.pos_long_yd -ℤ v.pos_long_yd_cls_ing)
          then (close_yesterday, ok)
          else if not (off == close_off)
              && leb_ℤ vol (r.short_volume_threshold -ℤ v.pos_short -ℤ v.pos_short_td_opn_ing)
          then (open_off, ok)
          else if leb_ℤ vol (v.pos_long_td -ℤ v.pos_long_td_cls_ing)
          then (close_today, ok)
          else (off, code 271))
      else (off, code 272)

  unfoldable pub on_new : ℤ → RiskInstr D → RiskInstr D
  on_new nano r =
      let count = r.intensity_cycle_order_count +ℤ pos 1 in
      if ltb_ℤ r.intensity_cycle_order_count_threshold count
      then record r { intensity_cycle_order_count = pos 1; intensity_cycle_time_record = nano }
      else record r { intensity_cycle_order_count = count }

-- `RiskInstrStg`: the same, and a margin around the best prices of the market.
pub record RiskInstrStg (D : Type 0) : Type 0 where
  pub instr : RiskInstr D
  pub allowed_price_margin_threshold : D

module _ {D : Type 0} ⦃F : Double D⦄ where
  unfoldable pub is_price_correct : D → D → D → D → Bool
  is_price_correct margin px ask bid =
      if not (F.eqb ask nil) && not (F.eqb ask F.dbl_max) && F.ltb (ask ⊕ margin) px
      then false
      else if not (F.eqb bid nil) && not (F.eqb bid F.dbl_max) && F.ltb px (bid ⊖ margin)
      then false
      else true

  unfoldable pub check_stg : RiskInstrStg D → UnitVol → ℕ → ℕ → ℤ → D → D → D → ℤ → ℤ
  check_stg r v dir off vol px ask bid nano =
      if not (is_price_correct r.allowed_price_margin_threshold px ask bid)
      then code 201
      else check r.instr v dir off vol nano

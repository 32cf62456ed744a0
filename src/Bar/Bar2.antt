-- ===== src/Bar/Bar2.antt =====
-- src/bar/Bar2.cpp: one bar, whose times are seconds within the day until it is settled.
use Prim.Native.String.{String}
use nat_framework.Prelude.{
  ℕ, ℤ, pos, negsuc, ◌+ℤ◌, ◌-ℤ◌, ◌*ℤ◌, leb_ℤ, ltb_ℤ, ◌==ℤ◌, Bool, false, ◌&&◌, ◌||◌, not,
  if◌then◌else◌,
}
use nat_framework.Double.{Double, nil, ◌⊖◌}
use nat_framework.Bar.Time.{get_base_sec, get_base_interval_from_nano}

-- What is read of a `UnitedMarketData`.
pub record UnitedMarketData (D : Type 0) : Type 0 where
  pub instr_hash : ℕ
  pub last_px : D
  pub cum_vol : ℤ
  pub cum_turnover : D
  pub open_interest : D
  pub exch_time : ℤ

pub record Bar2 (D : Type 0) : Type 0 where
  pub instr_hash : ℕ
  pub instr_str : String
  pub cycle_sec : ℤ
  pub bob : ℤ
  pub eob : ℤ
  pub open_px : D
  pub high : D
  pub low : D
  pub close_px : D
  pub delta_close : D
  pub cum_vol : ℤ
  pub vol : ℤ
  pub cum_turnover : D
  pub turnover : D
  pub open_int : D
  pub delta_open_int : D
  pub is_auction : Bool
  pub adjust_bob : ℤ
  pub adjust_eob : ℤ
  pub base_sec : ℤ
  pub pre_base_sec : ℤ
  pub pre_close : D
  pub pre_cum_vol : ℤ
  pub pre_cum_turnover : D
  pub pre_open_int : D
  pub settle_sec : ℤ

module _ {D : Type 0} ⦃F : Double D⦄ where
  -- A new bar of an instrument.
  abbrev pub new_bar : ℕ → String → ℤ → Bar2 D
  new_bar hash name cycle = record {
    instr_hash = hash;
    instr_str = name;
    cycle_sec = cycle;
    bob = pos 0;
    eob = pos 0;
    open_px = nil;
    high = nil;
    low = nil;
    close_px = nil;
    delta_close = nil;
    cum_vol = pos 0;
    vol = pos 0;
    cum_turnover = nil;
    turnover = nil;
    open_int = nil;
    delta_open_int = nil;
    is_auction = false;
    adjust_bob = pos 0;
    adjust_eob = pos 0;
    base_sec = pos 0;
    pre_base_sec = pos 0;
    pre_close = nil;
    pre_cum_vol = pos 0;
    pre_cum_turnover = nil;
    pre_open_int = nil;
    settle_sec = pos 0;
  }

  -- `x == 0.0`
  abbrev pub is_nil : D → Bool
  is_nil x = F.eqb x nil

  unfoldable pub is_in_cur_bar : ℤ → Bar2 D → ℤ
  is_in_cur_bar sec b =
      if leb_ℤ b.adjust_bob sec && ltb_ℤ sec b.adjust_eob
      then pos 0
      else if leb_ℤ b.adjust_eob sec
      then pos 1
      else negsuc 0

  abbrev pub is_within : ℤ → Bar2 D → Bool
  is_within sec b = leb_ℤ b.bob sec && ltb_ℤ sec b.eob

  abbrev pub is_settle_time : ℤ → Bar2 D → Bool
  is_settle_time sec b = not (b.settle_sec ==ℤ pos 0) && (sec ==ℤ b.settle_sec)

  module _ (base : ℤ) (umd : UnitedMarketData D) where
    abbrev pub is_need_update_open : Bar2 D → Bool
    is_need_update_open b =
        if b.is_auction
        then is_within (get_base_interval_from_nano base umd.exch_time) b
        else is_nil b.open_px

    abbrev pub is_need_update_pre : Bar2 D → Bool
    is_need_update_pre b = is_nil b.pre_close

    abbrev pub is_need_update_ohlc : Bar2 D → Bool
    is_need_update_ohlc b =
        let sec = get_base_interval_from_nano base umd.exch_time in
        is_within sec b || is_settle_time sec b

    abbrev pub is_need_settle : Bar2 D → Bool
    is_need_settle b =
        let sec = get_base_interval_from_nano base umd.exch_time in
        if b.is_auction then is_within sec b else is_settle_time sec b

    abbrev pub update_open : Bar2 D → Bar2 D
    update_open b = record b { open_px = umd.last_px }

    unfoldable pub update_bar : Bar2 D → Bar2 D
    update_bar b = record b {
      high = if F.ltb b.high umd.last_px then umd.last_px else b.high;
      low = if F.ltb umd.last_px b.low || is_nil b.low then umd.last_px else b.low;
      close_px = umd.last_px;
      cum_vol = umd.cum_vol;
      cum_turnover = umd.cum_turnover;
      open_int = umd.open_interest;
      base_sec = if b.base_sec ==ℤ pos 0 then get_base_sec base umd.exch_time else b.base_sec;
    }

    unfoldable pub update_pre : Bar2 D → Bar2 D
    update_pre b = record b {
      pre_base_sec = get_base_sec base umd.exch_time;
      pre_close = umd.last_px;
      pre_cum_vol = umd.cum_vol;
      pre_cum_turnover = umd.cum_turnover;
      pre_open_int = umd.open_interest;
    }

    -- A bar without a price takes the prices before it.
    abbrev pub fill_empty : Bar2 D → Bar2 D
    fill_empty b =
        if is_nil b.open_px
        then record b {
          open_px = b.pre_close;
          high = b.pre_close;
          low = b.pre_close;
          close_px = b.pre_close;
          cum_vol = b.pre_cum_vol;
          cum_turnover = b.pre_cum_turnover;
          open_int = b.pre_open_int;
          base_sec = get_base_sec base umd.exch_time;
        }
        else b

    unfoldable pub settle : Bar2 D → Bar2 D
    settle b0 =
        let b = fill_empty b0 in
        record b {
          delta_close = b.close_px ⊖ b.pre_close;
          vol = b.cum_vol -ℤ b.pre_cum_vol;
          turnover = b.cum_turnover ⊖ b.pre_cum_turnover;
          delta_open_int = b.open_int ⊖ b.pre_open_int;
          bob = (b.bob +ℤ b.base_sec) *ℤ pos 1000000000;
          eob = (b.eob +ℤ b.base_sec) *ℤ pos 1000000000;
        }

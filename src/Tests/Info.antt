-- ===== src/Tests/Info.antt =====
-- A table of one instrument.
use nat_framework.Prelude.{◌≡◌, ◌↔◌, refl, true, [], ◌∷◌, arith}
use nat_framework.Prelude.Map.{lookup}
use nat_framework.TradeBase.{IsSound}
use nat_framework.TradeBase.Info.{
  TradeBaseInfo, TdBaseInfo, set_info, update, to_sys_io_struct, add_instr_info,
  product_to_instr_set,
}
use nat_framework.TradeBase.Names.{IsKeyed, set_info-to_sys_io_struct}
use nat_framework.TradeBase.Meant.{Named, product_to_instr_set_iff}
use mathlib.Core.List.{Memᴰ}
use nat_framework.TradeBase.Sound.{update-IsSound}
use nat_framework.Tests.{name_hash, ru2205, one_instr, one_instr-IsSound}

abbrev table : TradeBaseInfo
table = record {
  is_init = true;
  trading_day = "20220501";
  instr_info = one_instr;
  is_called_back = true;
  calls = [];
}

abbrev next_day : TdBaseInfo
next_day = record { trading_day = "20220502"; instr = ru2205 ∷ [] }

set_info-to_sys_io_struct_example :
    ((set_info (to_sys_io_struct table) table).trading_day ≡ "20220501")
    × (lookup 6 (set_info (to_sys_io_struct table) table).instr_info ≡ lookup 6 one_instr)
    × IsKeyed (set_info (to_sys_io_struct table) table).instr_info
set_info-to_sys_io_struct_example =
    set_info-to_sys_io_struct table table 6 (refl, refl, tt) (omega arith)

product_to_instr_set_iff_example :
    Memᴰ "ru2205" (product_to_instr_set ("ru" ∷ []) one_instr)
    ↔ Named "ru2205" ("ru" ∷ []) one_instr
product_to_instr_set_iff_example = product_to_instr_set_iff "ru2205" ("ru" ∷ []) one_instr

update-IsSound_example :
    IsSound name_hash (update next_day table).0.instr_info
    × IsSound name_hash (add_instr_info ru2205 table).instr_info
update-IsSound_example =
    update-IsSound name_hash next_day ru2205 table one_instr-IsSound
      (record { keyed = refl; product_keyed = refl; multiple = omega arith }, tt)
      (record { keyed = refl; product_keyed = refl; multiple = omega arith })

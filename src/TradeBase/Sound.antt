-- ===== src/TradeBase/Sound.antt =====
-- src/common/CTradeBaseInfo.cpp: the table that the account relies on.
use Prim.Native.String.{String}
use text.Mathlib.Text.{◌==◌ as str_eq}
use nat_framework.Prelude.{
  Bool-cases, inl, inr, if◌then◌else◌, ℕ, pos, ◌≤ℤ◌, ◌≡◌, List, [], ◌∷◌, arith,
}
use nat_framework.Prelude.Map.{Map, insert, lookup-insert}
use nat_framework.TradeBase.{InstrumentInfo, IsSound}
use nat_framework.TradeBase.Info.{
  TradeBaseInfo, TdBaseInfo, add_all, set_info, update, add_instr_info,
}

-- The hashes of the names, and a multiple that is not below 0.
pub record IsGenuine (hash : String → ℕ) (p : InstrumentInfo) : Type 0 where
  pub keyed : hash p.instr ≡ p.instr_hash
  pub product_keyed : hash p.product ≡ p.product_hash
  pub multiple : pos 0 ≤ℤ p.vol_multiple

abbrev pub AllGenuine : (String → ℕ) → List InstrumentInfo → Type 0
AllGenuine hash [] = Unit
AllGenuine hash (p ∷ ps) = IsGenuine hash p × AllGenuine hash ps

insert-IsSound :
    (hash : String → ℕ) (p : InstrumentInfo) (m : Map InstrumentInfo)
    → IsGenuine hash p
    → IsSound hash m
    → IsSound hash (insert p.instr_hash p m)
insert-IsSound hash p m g s = record {
  keyed = λ h q e. ground (arith, lookup-insert h p.instr_hash p m, s.keyed h q, g.keyed);
  product_keyed = λ h q e.
      ground (arith, lookup-insert h p.instr_hash p m, s.product_keyed h q, g.product_keyed);
  multiple = λ h q e. ground (arith, lookup-insert h p.instr_hash p m, s.multiple h q, g.multiple);
}

add_all-IsSound :
    (hash : String → ℕ) (ps : List InstrumentInfo) (m : Map InstrumentInfo)
    → AllGenuine hash ps
    → IsSound hash m
    → IsSound hash (add_all ps m)
add_all-IsSound hash [] m g s = s
add_all-IsSound hash (p ∷ ps) m g s = add_all-IsSound hash ps _ g.1 (insert-IsSound hash p m g.0 s)

none-IsSound : (hash : String → ℕ) → IsSound hash []
none-IsSound hash = record {
  keyed = λ h p e. cc;
  product_keyed = λ h p e. cc;
  multiple = λ h p e. cc;
}

update-instr_info :
    (msg : TdBaseInfo) (t : TradeBaseInfo)
    → (update msg t).0.instr_info
      ≡ (if str_eq t.trading_day msg.trading_day then t.instr_info else add_all msg.instr [])
unfolding update set_info
update-instr_info msg t = ground arith

-- If a table of instruments is sound, it is still sound after an update by a message whose
-- instruments have the hashes of their names and no negative multiple, on the same day or on
-- another, and after such an instrument is added.
pub update-IsSound :
    (hash : String → ℕ) (msg : TdBaseInfo) (p : InstrumentInfo) (t : TradeBaseInfo)
    → IsSound hash t.instr_info
    → AllGenuine hash msg.instr
    → IsGenuine hash p
    → IsSound hash (update msg t).0.instr_info × IsSound hash (add_instr_info p t).instr_info
unfolding add_instr_info
update-IsSound hash msg p t s all g = (
  (elim (Bool-cases (str_eq t.trading_day msg.trading_day)) [
    | inl same ↦ rw (update-instr_info msg t, same) s
    | inr other ↦
        rw (update-instr_info msg t, other)
          (add_all-IsSound hash msg.instr [] all (none-IsSound hash))
  ]),
  insert-IsSound hash p t.instr_info g s,
)

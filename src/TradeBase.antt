-- ===== src/TradeBase.antt =====
-- The instruments that can be traded, orders and messages: src/include/ATStructure.h.
-- The account and the risk checks look an instrument up by the hash of its name. The hash is
-- MurmurHash2 with a fixed seed (src/utility/MurmurHash2.cpp, a copy of another project's code),
-- and is the parameter `hash`.
pub mod Info
pub mod Names
pub mod Meant
pub mod Sound
pub mod Exchange
use Prim.Native.String.{String}
use nat_framework.Prelude.{ℕ, ℤ, pos, ◌≤ℤ◌, ◌≡◌, Bool, some}
use nat_framework.Prelude.Map.{Map, lookup}

pub record InstrumentInfo : Type 0 where
  pub instr_hash : ℕ
  pub instr : String
  pub exch : ℕ
  pub product : String
  pub product_hash : ℕ
  pub vol_multiple : ℤ
  pub is_trading : Bool

-- `tOrderTrack`. A name is kept whole, where the source cuts it at 30 characters.
pub record OrderTrack (D : Type 0) : Type 0 where
  pub status : ℕ
  pub instr_hash : ℕ
  pub instr : String
  pub price : D
  pub vol : ℤ
  pub dir : ℕ
  pub off : ℕ
  pub vol_traded : ℤ
  pub amount_traded : D
  pub from : ℤ
  pub local_id : ℕ
  pub acc_id : ℤ
  pub stg_id : ℤ
  pub order_ref : ℤ
  pub front_id : ℤ
  pub session_id : ℤ

-- `tRtnMsg`
pub record RtnMsg (D : Type 0) : Type 0 where
  pub msg_type : ℕ
  pub local_id : ℕ
  pub instr_hash : ℕ
  pub instr : String
  pub price : D
  pub vol : ℤ
  pub dir : ℕ
  pub off : ℕ
  pub order_ref : ℤ
  pub front_id : ℤ
  pub session_id : ℤ
  pub errid : ℤ
  pub msg : String

-- The table holds the hashes of the names that it holds, and no negative multiple.
pub record IsSound (hash : String → ℕ) (info : Map InstrumentInfo) : Type 0 where
  pub keyed : (h : ℕ) (p : InstrumentInfo) → lookup h info ≡ some p → hash p.instr ≡ h
  pub product_keyed :
      (h : ℕ) (p : InstrumentInfo) → lookup h info ≡ some p → hash p.product ≡ p.product_hash
  pub multiple : (h : ℕ) (p : InstrumentInfo) → lookup h info ≡ some p → pos 0 ≤ℤ p.vol_multiple

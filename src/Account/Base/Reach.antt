-- ===== src/Account/Base/Reach.antt =====
-- src/account/AccBase.cpp: the events of an account as steps, and the sequences of them.
use Prim.Native.String.{String}
use mathlib.Core.Path.{subst}
use nat_framework.Prelude.{ℕ, ℤ, ◌≡◌, sym, ◌∙◌, Option, some}
use nat_framework.Prelude.Map.{Map, lookup}
use nat_framework.Double.{Double}
use nat_framework.TradeBase.{OrderTrack, RtnMsg, InstrumentInfo, IsSound}
use nat_framework.Account.Instr
use nat_framework.Account.Instr.Rules
use nat_framework.Account.Instr.VolRel.{Books-Rules}
use nat_framework.Account.Base.{
  AccBase, empty, reg_instr, on_new, on_order_track, on_rtn, on_tick_px, track_steps, rtn_steps,
  on_switch_day,
}
use nat_framework.Account.Base.Valid.{IsValid}
use nat_framework.Account.Base.Register.{reg_instr-Registered}
use nat_framework.Account.Base.Events.{
  EndsValid, on_known-IsValid, track_steps-KeepsBooks, rtn_steps-KeepsBooks,
}
use nat_framework.Account.Base.Day.{AllHeld, on_switch_day-IsValid}

module _ {D : Type 0} ⦃F : Double D⦄ (hash : String → ℕ) (info : Map InstrumentInfo) where
  -- A call of one of the account's callbacks within a trading day, and the account that it leaves.
  -- A fault leaves none.
  pub data Event (b : AccBase D) : AccBase D → Type 0 where
    register :
        {b' : AccBase D} (h : ℕ) (p : InstrumentInfo)
        → lookup h info ≡ some p
        → (reg_instr hash info p.instr b).0 ≡ b'
        → Event b b'
    order :
        {b' : AccBase D} (dir off : ℕ) (px : D) (vol : ℤ) (h : ℕ)
        → on_new hash info dir off px vol h b ≡ some b'
        → Event b b'
    track :
        {b' : AccBase D} (t : OrderTrack D) → on_order_track hash info t b ≡ some b' → Event b b'
    answer :
        {b' : AccBase D} (t : OrderTrack D) (msg : RtnMsg D)
        → on_rtn hash info t msg b ≡ some b'
        → Event b b'
    tick : {b' : AccBase D} (h : ℕ) (px : D) → on_tick_px hash info h px b ≡ some b' → Event b b'

  -- What an account can become: events, and changes of the day while no position is below zero.
  pub data Reach : AccBase D → Type 0 where
    start : Reach empty
    event : {b b' : AccBase D} → Reach b → Event b b' → Reach b'
    day : {b : AccBase D} → Reach b → AllHeld b.map_instr → Reach (on_switch_day b)

  module _ (sound : IsSound hash info) where
    on_new-IsValid :
        (dir off : ℕ) (px : D) (vol : ℤ) (h : ℕ) (b : AccBase D)
        → IsValid b
        → EndsValid (on_new hash info dir off px vol h b)
    unfolding on_new
    on_new-IsValid dir off px vol h b v =
        on_known-IsValid hash info sound h (Instr.on_new dir off px vol) b v
          (λ w. Rules.on_new-Keeps _ (Books-Rules w) dir off px vol)

    on_order_track-IsValid :
        (t : OrderTrack D) (b : AccBase D) → IsValid b → EndsValid (on_order_track hash info t b)
    unfolding on_order_track
    on_order_track-IsValid t b v =
        on_known-IsValid hash info sound t.instr_hash (track_steps hash info t) b v
          (track_steps-KeepsBooks hash info sound t)

    on_rtn-IsValid :
        (t : OrderTrack D) (msg : RtnMsg D) (b : AccBase D)
        → IsValid b
        → EndsValid (on_rtn hash info t msg b)
    unfolding on_rtn
    on_rtn-IsValid t msg b v =
        on_known-IsValid hash info sound t.instr_hash (rtn_steps hash info t msg) b v
          (rtn_steps-KeepsBooks hash info sound t msg)

    on_tick_px-IsValid :
        (h : ℕ) (px : D) (b : AccBase D) → IsValid b → EndsValid (on_tick_px hash info h px b)
    unfolding on_tick_px
    on_tick_px-IsValid h px b v =
        on_known-IsValid hash info sound h (Instr.on_tick_px px) b v
          (λ w. Rules.on_tick_px-Keeps _ (Books-Rules w) px)

    -- On a valid account with a sound table of instruments none of the four callbacks faults,
    -- whatever its arguments: each ends in an account, which is valid again.
    pub events_total :
        (b : AccBase D)
        → IsValid b
        → ((dir off : ℕ) (px : D) (vol : ℤ) (h : ℕ)
            → EndsValid (on_new hash info dir off px vol h b))
          × ((t : OrderTrack D) → EndsValid (on_order_track hash info t b))
          × ((t : OrderTrack D) (msg : RtnMsg D) → EndsValid (on_rtn hash info t msg b))
          × ((h : ℕ) (px : D) → EndsValid (on_tick_px hash info h px b))
    events_total b v = (
      (λ dir off px vol h. on_new-IsValid dir off px vol h b v),
      (λ t. on_order_track-IsValid t b v),
      (λ t msg. on_rtn-IsValid t msg b v),
      (λ h px. on_tick_px-IsValid h px b v),
    )

    some-injective : (a b : AccBase D) → some a ≡ some b → a ≡ b
    some-injective a b e = cc

    same_end : {b' : AccBase D} (r : Option (AccBase D)) → EndsValid r → r ≡ some b' → IsValid b'
    same_end {b'} r (c, e, v) e' = subst IsValid (some-injective c b' (sym e ∙ e')) v

    Event-IsValid : {b b' : AccBase D} → Event b b' → IsValid b → IsValid b'
    Event-IsValid {b} (register h p ep e) v =
        subst IsValid e (reg_instr-Registered hash info sound h p b v ep).1
    Event-IsValid {b} (order dir off px vol h e) v =
        same_end _ (on_new-IsValid dir off px vol h b v) e
    Event-IsValid {b} (track t e) v = same_end _ (on_order_track-IsValid t b v) e
    Event-IsValid {b} (answer t msg e) v = same_end _ (on_rtn-IsValid t msg b v) e
    Event-IsValid {b} (tick h px e) v = same_end _ (on_tick_px-IsValid h px b v) e

    empty-IsValid : IsValid {D = D} empty
    empty-IsValid = record {
      instrs = tt;
      prds = tt;
      links = λ h i e. cc;
      balanced = λ h i e. cc;
      prd_balanced = λ k p e. cc;
      sums = λ k p e. cc;
    }

    -- Every account that is reached from a new one by registering known instruments, by calls of
    -- the four callbacks that do not fault, and by day changes at which no position is below
    -- zero, is valid: no pointer of an instrument is null or leads to no product, the volumes of
    -- every instrument and product balance, and a product's volumes are the sums over its
    -- instruments. The table of instruments must be sound.
    pub Reach-IsValid : {b : AccBase D} → Reach b → IsValid b
    Reach-IsValid start = empty-IsValid
    Reach-IsValid (event r e) = Event-IsValid e (Reach-IsValid r)
    Reach-IsValid (day {b} r held) = on_switch_day-IsValid b (Reach-IsValid r) held

-- ===== src/Account/Instr/Conserve.antt =====
-- src/account/ModInstr.cpp: the four handlers of an instrument, listed.
use nat_framework.Prelude.{ℕ, ℤ}
use nat_framework.Double.{Double}
use nat_framework.Account.Vol.{UnitVol}
use nat_framework.Account.Instr.{Step, on_new, on_cxl, on_trd, on_tick_px}
use nat_framework.Account.Instr.Keeps.{Rel, Keeps}
use nat_framework.Account.Instr.Rules.{
  Rules, on_new-Keeps, on_cxl-Keeps, on_trd-Keeps, on_tick_px-Keeps,
}
use nat_framework.Account.Instr.VolRel.{Books, VolRel, Books-Rules}
use nat_framework.Account.Instr.Alike.{Start, Alike, Alike-Rules}

module _ {D : Type 0} ⦃F : Double D⦄ where
  -- The handlers of an instrument's events, at any arguments.
  pub data InstrHandler : Step D → Type 0 where
    new_order : (dir off : ℕ) (px : D) (vol : ℤ) → InstrHandler (on_new dir off px vol)
    cancel : (dir off : ℕ) (px : D) (vol : ℤ) → InstrHandler (on_cxl dir off px vol)
    trade :
        (dir off : ℕ) (px : D) (vol vol_traded : ℤ) (trd_px : D) (trd_vol : ℤ)
        → InstrHandler (on_trd dir off px vol vol_traded trd_px trd_vol)
    tick : (px : D) → InstrHandler (on_tick_px px)

  handler-Keeps : (P : Rel D) → Rules P → (m : Step D) → InstrHandler m → Keeps P m
  handler-Keeps P rules _ (new_order dir off px vol) = on_new-Keeps P rules dir off px vol
  handler-Keeps P rules _ (cancel dir off px vol) = on_cxl-Keeps P rules dir off px vol
  handler-Keeps P rules _ (trade dir off px vol vol_traded trd_px trd_vol) =
      on_trd-Keeps P rules dir off px vol vol_traded trd_px trd_vol
  handler-Keeps P rules _ (tick px) = on_tick_px-Keeps P rules px

  -- Every handler of an instrument, from linked summaries where the product's volumes are the
  -- instrument's plus a rest and both balance, ends without a fault and leaves this so with the
  -- same rest.
  pub handler-Books : (w : UnitVol) (m : Step D) → InstrHandler m → Keeps (VolRel (Books w)) m
  handler-Books w = handler-Keeps (VolRel (Books w)) (Books-Rules w)

  -- Every handler of an instrument, from linked summaries, ends without a fault, and if since
  -- some moment the instrument, its product and the account had the same amounts added, in the
  -- same order, to each of the amounts and profits that all three keep, this is so after it: the
  -- three differ only by what they started with, however each addition rounds. The amounts bought
  -- and sold, which are kept per instrument only, are not among these amounts.
  pub handler-Alike : (t : Start D) (m : Step D) → InstrHandler m → Keeps (Alike t) m
  handler-Alike t = handler-Keeps (Alike t) (Alike-Rules t)

-- ===== src/Risk/Intensity.antt =====
-- src/risk/RiskInstr.cpp: how often orders are let through.
use nat_framework.Prelude.{
  ℕ, ℤ, pos, ◌+ℤ◌, ◌-ℤ◌, ◌≤ℤ◌, leb_ℤ, ltb_ℤ, ◌≡◌, ◌⊎◌, inl, inr, true, false, arith, int_laws,
  pos_part, neg_part, ◌+◌, ◌<◌, Bool-cases,
}
use nat_framework.Double.{Double, of_int}
use nat_framework.Account.Vol.{UnitVol}
use nat_framework.Risk.Instr.{ok, RiskInstr, is_intensity_normal, check, on_new}
use nat_framework.Risk.Limits.{check_iff, le→leb_ℤ}

less : (t b : ℤ) → ltb_ℤ t b ≡ true → pos_part t + neg_part b < pos_part b + neg_part t
less t b h = ground arith

full : (a t : ℤ) → ltb_ℤ t (a +ℤ pos 1) ≡ true → leb_ℤ t a ≡ true
full a t h = le→leb_ℤ t a (omega (int_laws, less t (a +ℤ pos 1) h))

room_left : (a t : ℤ) → ltb_ℤ t a ≡ false → a ≤ℤ t
room_left a t h = ground arith

module _ {D : Type 0} ⦃F : Double D⦄ where
  -- An order that counts into the running cycle, which has room for it.
  pub record Counted (r r' : RiskInstr D) : Type 0 where
    pub same_cycle : r'.intensity_cycle_time_record ≡ r.intensity_cycle_time_record
    pub counted : r'.intensity_cycle_order_count ≡ r.intensity_cycle_order_count +ℤ pos 1
    pub room : r'.intensity_cycle_order_count ≤ℤ r.intensity_cycle_order_count_threshold

  -- An order that starts a new cycle, after the span of the last.
  pub record Restarted (r r' : RiskInstr D) (nano : ℤ) : Type 0 where
    pub new_cycle : r'.intensity_cycle_time_record ≡ nano
    pub first : r'.intensity_cycle_order_count ≡ pos 1
    pub elapsed :
        F.ltb (of_int (nano -ℤ r.intensity_cycle_time_record)) r.intensity_cycle_time_span_threshold
        ≡ false

  -- An order for which the instrument's check returns 0, once it is counted, either counts into
  -- the running cycle, whose count is then at most the threshold, or starts a new cycle at its
  -- time with count 1, and then the span of the last cycle is over at that time.
  pub on_new_rate :
      (r : RiskInstr D) (v : UnitVol) (dir off : ℕ) (vol nano : ℤ)
      → check r v dir off vol nano ≡ ok
      → Counted r (on_new nano r) ⊎ Restarted r (on_new nano r) nano
  unfolding on_new is_intensity_normal
  on_new_rate r v dir off vol nano e =
      elim (Bool-cases
        (ltb_ℤ r.intensity_cycle_order_count_threshold (r.intensity_cycle_order_count +ℤ pos 1))) [
          | inl h ↦ inr (record {
            new_cycle = ground arith;
            first = ground arith;
            elapsed = ground (
              arith,
              ((check_iff r v dir off vol nano).0 e).1,
              full r.intensity_cycle_order_count r.intensity_cycle_order_count_threshold h,
            );
          })
          | inr h ↦ inl (record {
            same_cycle = ground arith;
            counted = ground arith;
            room = ground (
              arith,
              room_left (r.intensity_cycle_order_count +ℤ pos 1)
                  r.intensity_cycle_order_count_threshold h,
            );
          })
        ]

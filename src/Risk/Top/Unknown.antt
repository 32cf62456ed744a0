-- ===== src/Risk/Top/Unknown.antt =====
-- What src/risk/RiskTop.cpp does with orders of an instrument that is not in the table.
use Prim.Native.String.{String}
use Prim.Native.Nat.{◌≤◌, ◌<◌}
use nat_framework.Prelude.{
  ℕ, suc, ◌+◌, ltb, ℤ, ◌==◌, true, ◌≡◌, refl, ap, ◌∙◌, none, some, List, [], ◌∷◌, ◌++◌,
  if◌then◌else◌, arith,
}
use nat_framework.Prelude.Map.{Map, lookup, lookup-insert_self}
use nat_framework.Prelude.Lists.{length, length-append_last}
use nat_framework.Double.{Double}
use nat_framework.TradeBase.{InstrumentInfo}
use nat_framework.Account.Base
use nat_framework.Account.Codes.{buy}
use nat_framework.Risk.Instr.{ok}
use nat_framework.Risk.Instr
use nat_framework.Risk.Stg.{Pointed}
use nat_framework.Risk.InstrTop.{RiskInstrTop, Treap, TreapNode}
use nat_framework.Risk.InstrTop
use nat_framework.Risk.Conf.{Json}
use nat_framework.Risk.Top.{RiskTop, check, on_new, limits_of, put_limits, top_default}

pub record Order (D : Type 0) : Type 0 where
  pub dir : ℕ
  pub off : ℕ
  pub px : D
  pub vol : ℤ
  pub order_ref : ℤ
  pub nano : ℤ

module _ {D J T : Type 0} ⦃F : Double D⦄ (ops : Treap D T) (json : Json D J) (conf : J)
    (hash : String → ℕ) (info : Map InstrumentInfo) (h : ℕ) where
  -- Orders of one instrument, each checked and, if the check returns 0, booked.
  pub data Booked : RiskTop D T → List (Order D) → RiskTop D T → Type 0 where
    begin : (s : RiskTop D T) → Booked s [] s
    booked :
        (s t u v : RiskTop D T) (o : Order D) (os : List (Order D))
        → check ops json conf hash info 1 o.dir o.off o.px o.vol h o.nano s ≡ some (t, ok)
        → on_new ops hash info o.dir o.off o.px o.vol h o.order_ref o.nano t ≡ some u
        → Booked u os v
        → Booked s (o ∷ os) v

  -- The orders that are kept of the instrument.
  abbrev pub nodes : RiskTop D T → ℕ
  nodes s = length (limits_of ops hash info h s).limits.vec_treap_node

  check_unknown :
      (o : Order D) (s : RiskTop D T)
      → lookup h info ≡ none
      → check ops json conf hash info 1 o.dir o.off o.px o.vol h o.nano s ≡ some (s, ok)
  unfolding check
  check_unknown o s e = rw (check, e) refl

  abbrev pub limits_at : RiskTop D T → RiskInstrTop D T
  limits_at s = (limits_of ops hash info h s).limits

  acc_unknown :
      (o : Order D) (s : RiskTop D T)
      → lookup h info ≡ none
      → Base.on_new hash info o.dir o.off o.px o.vol h s.acc_base ≡ some s.acc_base
  unfolding Base.on_new Base.on_known
  acc_unknown o s e = rw (Base.on_new, Base.on_known, e) refl

  abbrev node : Order D → TreapNode D
  node o = record { order_ref = o.order_ref; price = o.px; dir = o.dir }

  abbrev with_node : Order D → RiskInstrTop D T → RiskInstrTop D T
  with_node o l =
      record (if o.dir == buy
        then record l { bid_treap = ops.push_back (node o) l.bid_treap }
        else record l { ask_treap = ops.push_back (node o) l.ask_treap }) {
          instr = Instr.on_new o.nano l.instr;
          vec_treap_node = l.vec_treap_node ++ node o ∷ [];
        }

  node_new :
      (o : Order D) (l : RiskInstrTop D T)
      → length l.vec_treap_node < 1024
      → (r : RiskInstrTop D T) × (InstrTop.on_new ops o.dir o.px o.order_ref o.nano l ≡ some r)
        × (length r.vec_treap_node ≡ suc (length l.vec_treap_node))
  unfolding InstrTop.on_new
  node_new o l room =
      let less : ltb (length l.vec_treap_node) 1024 ≡ true = ground arith in
      (with_node o l, rw (InstrTop.on_new, less) refl, length-append_last l.vec_treap_node (node o))

  Kept : Order D → RiskTop D T → Type 0
  Kept o s =
      (t : RiskTop D T) × (on_new ops hash info o.dir o.off o.px o.vol h o.order_ref o.nano s
        ≡ some t)
      × (t.acc_base ≡ s.acc_base)
      × (nodes t ≡ suc (nodes s))

  new_unknown : (o : Order D) (s : RiskTop D T) → lookup h info ≡ none → nodes s < 1024 → Kept o s
  unfolding on_new Kept
  new_unknown o s e room =
      let (r, made, more) = node_new o (limits_at s) room in
      let t = put_limits ops hash info h r s in
      let there : lookup h t.map_risk_instr
          ≡ some (record (limits_of ops hash info h s) { limits = r }) =
        lookup-insert_self h (record (limits_of ops hash info h s) { limits = r })
          s.map_risk_instr in
      (
        t,
        rw (on_new, acc_unknown o s e, made) refl,
        refl,
        ap
              (λ q.
                length
                  (elim q as (λ x. Pointed (RiskInstrTop D T)) [
                    | none ↦ top_default ops
                    | some v ↦ v
                  ]).limits.vec_treap_node)
              there
            ∙ more,
      )

  -- Orders of an instrument that the table does not have, whatever their volumes, pass the
  -- engine's check one after the other and are booked, while there is room for 1024 orders of the
  -- instrument, and leave the account as it was.
  pub unknown_unchecked :
      (os : List (Order D)) (s : RiskTop D T)
      → lookup h info ≡ none
      → nodes s + length os ≤ 1024
      → (t : RiskTop D T) × Booked s os t × (t.acc_base ≡ s.acc_base)
  unfolding Kept
  unknown_unchecked [] s e room = (s, begin s, refl)
  unknown_unchecked (o ∷ os) s e room =
      let (t, made, same, more) = new_unknown o s e (omega arith) in
      let (u, rest, kept) = unknown_unchecked os t e (omega arith) in
      (u, booked s s t u o os (check_unknown o s e) made rest, kept ∙ same)

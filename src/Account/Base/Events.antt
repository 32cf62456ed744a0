-- ===== src/Account/Base/Events.antt =====
-- src/account/AccBase.cpp: the invariant of an account at the callbacks.
use Prim.Native.String.{String}
use nat_framework.Prelude.{
  ℕ, ◌≡◌, refl, ◌∙◌, sym, Bool, true, Option, none, some, arith, Option-cases, inl, inr,
}
use nat_framework.Prelude.Map.{Map, lookup, erase}
use nat_framework.Double.{Double}
use nat_framework.TradeBase.{OrderTrack, RtnMsg, InstrumentInfo, IsSound}
use nat_framework.Account.Vol.{UnitVol}
use nat_framework.Account.Vol.Laws.{◌⊞◌}
use nat_framework.Account.Mods.{ModPrd, ModAcc}
use nat_framework.Account.Instr.{ModInstr, Linked, Step}
use nat_framework.Account.Instr.Keeps.{Keeps, Holds, Keeps-seq, Keeps-if, Keeps-skip}
use nat_framework.Account.Instr.VolRel.{VolRel, Books, Books-Rules}
use nat_framework.Account.Instr.Rules
use nat_framework.Account.Base.{
  AccBase, linked, stored, with_instr, reg_instr, on_known, track_steps, rtn_steps,
}
use nat_framework.Account.Base.Sums.{vol_of, vol_of-erase}
use nat_framework.Account.Base.Register.{Registered, reg_instr-Registered}
use nat_framework.Account.Base.Valid.{IsValid, PointsTo, replaced, replaced-IsValid}

module _ {D : Type 0} ⦃F : Double D⦄ where
  -- A step that keeps the books of its instrument and product, whatever the rest of the product is.
  abbrev pub KeepsBooks : Step D → Type 0
  KeepsBooks m = (w : UnitVol) → Keeps (VolRel (Books w)) m

  abbrev pub EndsValid : Option (AccBase D) → Type 0
  EndsValid r = (b' : AccBase D) × (r ≡ some b') × IsValid b'

  with_instr-replaced :
      (h k : ℕ) (m : Step D) (b : AccBase D) (x : ModInstr D) (c : Linked D) (p : ModPrd D)
      (a : ModAcc D)
      → lookup h b.map_instr ≡ some x
      → m (linked x b) ≡ some c
      → c.instr.p_prd ≡ some k
      → c.prd ≡ some p
      → c.acc ≡ some a
      → with_instr h m b ≡ some (replaced h c.instr k p a b)
  unfolding with_instr stored
  with_instr-replaced h k m b x c p a ex em ek ep ea = ground arith

  linked-prd :
      (i : ModInstr D) (b : AccBase D) (k : ℕ)
      → i.p_prd ≡ some k
      → (linked i b).prd ≡ lookup k b.map_prd
  unfolding linked
  linked-prd i b k e = ground arith

  linked-acc : (i : ModInstr D) (b : AccBase D) → i.p_acc ≡ true → (linked i b).acc ≡ some b.mod_acc
  unfolding linked
  linked-acc i b e = ground arith

  vol_of-linked :
      (b : AccBase D) (h k : ℕ) (x : ModInstr D) (q : ModPrd D)
      → IsValid b
      → lookup h b.map_instr ≡ some x
      → x.p_prd ≡ some k
      → lookup k b.map_prd ≡ some q
      → q.unit_vol ≡ x.unit_vol ⊞ vol_of k (erase h b.map_instr)
  vol_of-linked b h k x q v ex ek eq = ground (arith, v.sums k q, vol_of-erase k h x b.map_instr)

  with_instr-IsValid :
      (h : ℕ) (m : Step D) (b : AccBase D) (x : ModInstr D)
      → IsValid b
      → lookup h b.map_instr ≡ some x
      → KeepsBooks m
      → EndsValid (with_instr h m b)
  unfolding linked
  with_instr-IsValid h m b x v ex keeps = finish (v.links h x ex)
    where
      finish : PointsTo b x → EndsValid (with_instr h m b)
      finish (k, q, ek, eq, ea) =
          let held : Holds (VolRel (Books (vol_of k (erase h b.map_instr)))) (linked x b) = (
            q,
            b.mod_acc,
            linked-prd x b k ek ∙ eq,
            linked-acc x b ea,
            (vol_of-linked b h k x q v ex ek eq, v.balanced h x ex, v.prd_balanced k q eq),
          ) in
          let (c, em, (p, a, ep, ea', books), same) =
            (keeps (vol_of k (erase h b.map_instr))).run (linked x b) held in
          (
            replaced h c.instr k p a b,
            with_instr-replaced h k m b x c p a ex em (sym same.p_prd ∙ ek) ep ea',
            replaced-IsValid b h k x c.instr q p a v ex ek eq same books,
          )

  module _ (hash : String → ℕ) (info : Map InstrumentInfo) (sound : IsSound hash info) where
    on_known_lem :
        (h : ℕ) (m : Step D) (p : InstrumentInfo) (b b' : AccBase D)
        → lookup h info ≡ some p
        → reg_instr hash info p.instr b ≡ (b', true)
        → on_known hash info h m b ≡ with_instr h m b'
    unfolding on_known
    on_known_lem h m p b b' ep e = ground arith

    on_unknown :
        (h : ℕ) (m : Step D) (b : AccBase D)
        → lookup h info ≡ none
        → on_known hash info h m b ≡ some b
    unfolding on_known
    on_unknown h m b e = ground arith

    pub on_known-IsValid :
        (h : ℕ) (m : Step D) (b : AccBase D)
        → IsValid b
        → KeepsBooks m
        → EndsValid (on_known hash info h m b)
    on_known-IsValid h m b v keeps = elim (Option-cases (lookup h info)) [
      | inl e ↦ (b, on_unknown h m b e, v)
      | inr (p, e) ↦
          finish p e (reg_instr hash info p.instr b) refl
            (reg_instr-Registered hash info sound h p b v e)
    ]
      where
        finish :
            (p : InstrumentInfo)
            → lookup h info ≡ some p
            → (r : AccBase D × Bool) → reg_instr hash info p.instr b ≡ r
            → Registered hash info sound h r
            → EndsValid (on_known hash info h m b)
        finish p e (b', done) er (ok, v', (i, ei)) =
            let (b'', e'', v'') = with_instr-IsValid h m b' i v' ei keeps in
            (b'', on_known_lem h m p b b' e (ground (arith, er, ok)) ∙ e'', v'')

    -- `track_steps` and `rtn_steps` keep the books, since the handlers do.
    pub track_steps-KeepsBooks : (t : OrderTrack D) → KeepsBooks (track_steps hash info t)
    unfolding track_steps
    track_steps-KeepsBooks t w =
        search
          (
            Keeps-seq,
            Keeps-if,
            Keeps-skip,
            Books-Rules w,
            Rules.on_new-Keeps,
            Rules.on_cxl-Keeps,
            Rules.on_trd-Keeps,
          )
          depth 7

    pub rtn_steps-KeepsBooks :
        (t : OrderTrack D) (msg : RtnMsg D) → KeepsBooks (rtn_steps hash info t msg)
    unfolding rtn_steps
    rtn_steps-KeepsBooks t msg w =
        search
          (Keeps-seq, Keeps-if, Keeps-skip, Books-Rules w, Rules.on_cxl-Keeps, Rules.on_trd-Keeps)
          depth 7

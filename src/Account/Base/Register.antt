-- ===== src/Account/Base/Register.antt =====
-- src/account/AccBase.cpp: registering an instrument that the table of instruments knows.
use Prim.Native.String.{String}
use nat_framework.Prelude.{
  ℕ, ℤ, ◌≡◌, refl, ◌∙◌, ◌==◌, Bool, true, false, none, some, arith, int_laws, Bool-cases,
  Option-cases, inl, inr,
}
use nat_framework.Prelude.Map.{
  Map, lookup, insert, insert-IsMap, lookup-insert_self, lookup-insert, insert-insert,
}
use nat_framework.Double.{Double}
use nat_framework.TradeBase.{InstrumentInfo, IsSound}
use nat_framework.Account.Vol.{flat}
use nat_framework.Account.Vol.Balance.{IsBalanced}
use nat_framework.Account.Mods.{ModPrd, prd_default, prd_init}
use nat_framework.Account.Instr.{ModInstr, instr_default, instr_init}
use nat_framework.Account.Base.{
  AccBase, reg_mod_prd, reg_mod_instr, link, reg_new_instr, reg_prd, reg_instr,
}
use nat_framework.Account.Base.Sums.{points, vol_of-flat, vol_of-insert_new}
use nat_framework.Account.Base.Valid.{IsValid, PointsTo}

flat-IsBalanced : IsBalanced flat
flat-IsBalanced = grind int_laws

module _ {D : Type 0} ⦃F : Double D⦄ where
  -- The account with one more product, which holds nothing.
  abbrev with_prd : ℕ → String → AccBase D → AccBase D
  with_prd k name b = record b { map_prd = insert k (prd_init name prd_default) b.map_prd }

  no_pointer :
      (k : ℕ) (b : AccBase D)
      → IsValid b
      → lookup k b.map_prd ≡ none
      → (h : ℕ) (i : ModInstr D) → lookup h b.map_instr ≡ some i
      → points k i ≡ false
  no_pointer k b v gone h i e = fresh (v.links h i e)
    where
      fresh : PointsTo b i → points k i ≡ false
      fresh (j, p, ej, ep, ea) = ground arith

  with_prd-IsValid :
      (k : ℕ) (name : String) (b : AccBase D)
      → IsValid b
      → lookup k b.map_prd ≡ none
      → IsValid (with_prd k name b)
  unfolding prd_init
  with_prd-IsValid k name b v gone = record {
    instrs = v.instrs;
    prds = insert-IsMap k (prd_init name prd_default) b.map_prd v.prds;
    links = λ h i e. still i (v.links h i e);
    balanced = v.balanced;
    prd_balanced = λ j p e. ground (
      arith,
      flat-IsBalanced,
      v.prd_balanced j p,
      lookup-insert j k (prd_init name prd_default) b.map_prd,
    );
    sums = λ j p e. ground (
      arith,
      v.sums j p,
      lookup-insert j k (prd_init name prd_default) b.map_prd,
      vol_of-flat k b.map_instr v.instrs (no_pointer k b v gone),
    );
  }
    where
      still : (i : ModInstr D) → PointsTo b i → PointsTo (with_prd k name b) i
      still i (j, p, ej, ep, ea) =
          (j, p, ej, ground (arith, lookup-insert j k (prd_init name prd_default) b.map_prd), ea)

  -- The account with one more instrument, which holds nothing and points to product `k`; the
  -- product's summary `q` is written back as it was read.
  abbrev with_new : ℕ → ModInstr D → ℕ → ModPrd D → AccBase D → AccBase D
  with_new h i k q b = record b {
    map_prd = insert k q b.map_prd;
    map_instr = insert h i b.map_instr;
  }

  lookup-same :
      (j k : ℕ) (q : ModPrd D) (b : AccBase D)
      → lookup k b.map_prd ≡ some q
      → lookup j (insert k q b.map_prd) ≡ lookup j b.map_prd
  lookup-same j k q b e = ground (arith, lookup-insert j k q b.map_prd)

  with_new-IsValid :
      (h : ℕ) (i : ModInstr D) (k : ℕ) (q : ModPrd D) (b : AccBase D)
      → IsValid b
      → lookup h b.map_instr ≡ none
      → lookup k b.map_prd ≡ some q
      → i.unit_vol ≡ flat
      → i.p_prd ≡ some k
      → i.p_acc ≡ true
      → IsValid (with_new h i k q b)
  with_new-IsValid h i k q b v gone eq z ek ea = record {
    instrs = insert-IsMap h i b.map_instr v.instrs;
    prds = insert-IsMap k q b.map_prd v.prds;
    links = λ j y e. elim (Bool-cases (j == h)) [
      | inl same ↦ (
        k,
        q,
        ground (arith, lookup-insert j h i b.map_instr),
        lookup-insert_self k q b.map_prd,
        ground (arith, lookup-insert j h i b.map_instr),
      )
      | inr other ↦ still y (v.links j y (ground (arith, lookup-insert j h i b.map_instr)))
    ];
    balanced =
        λ j y e. ground (arith, flat-IsBalanced, v.balanced j y, lookup-insert j h i b.map_instr);
    prd_balanced = λ j y e. ground (arith, v.prd_balanced j y, lookup-same j k q b);
    sums = λ j y e.
        ground (arith, v.sums j y, lookup-same j k q b, vol_of-insert_new j h i b.map_instr);
  }
    where
      still : (y : ModInstr D) → PointsTo b y → PointsTo (with_new h i k q b) y
      still y (j, p, ej, ep, ea') = (j, p, ej, lookup-same j k q b eq ∙ ep, ea')

  module _ (hash : String → ℕ) (info : Map InstrumentInfo) (sound : IsSound hash info) where
    -- What registering a known instrument ends in.
    abbrev pub Registered : ℕ → AccBase D × Bool → Type 0
    Registered h r =
        (r.1 ≡ true) × IsValid r.0 × ((i : ModInstr D) × (lookup h r.0.map_instr ≡ some i))

    new_instr : String → ℕ → ℤ → ModInstr D
    new_instr name k vm = record instr_default {
      instr_name = name;
      vol_multiple = vm;
      p_prd = some k;
      p_acc = true;
    }

    reg_new_instr_lem :
        (h k : ℕ) (p : InstrumentInfo) (q : ModPrd D) (b : AccBase D)
        → lookup h info ≡ some p
        → lookup h b.map_instr ≡ none
        → lookup k b.map_prd ≡ some q
        → reg_new_instr hash info p.instr k b
          ≡ (with_new h (new_instr p.instr k p.vol_multiple) k q b, true)
    unfolding reg_new_instr reg_mod_instr instr_init link new_instr
    reg_new_instr_lem h k p q b ep gone eq = ground (
      arith,
      sound.keyed h p,
      sound.multiple h p,
      lookup-insert_self h
          (record instr_default { instr_name = p.instr; vol_multiple = p.vol_multiple })
          b.map_instr,
      insert-insert h (new_instr p.instr k p.vol_multiple)
          (record instr_default { instr_name = p.instr; vol_multiple = p.vol_multiple })
          b.map_instr,
    )

    reg_old_instr :
        (h k : ℕ) (p : InstrumentInfo) (i : ModInstr D) (b : AccBase D)
        → lookup h info ≡ some p
        → lookup h b.map_instr ≡ some i
        → reg_new_instr hash info p.instr k b ≡ (b, true)
    unfolding reg_new_instr
    reg_old_instr h k p i b ep known = ground (arith, sound.keyed h p)

    reg_new_instr-Registered :
        (h k : ℕ) (p : InstrumentInfo) (q : ModPrd D) (b : AccBase D)
        → IsValid b
        → lookup h info ≡ some p
        → lookup k b.map_prd ≡ some q
        → Registered h (reg_new_instr hash info p.instr k b)
    unfolding new_instr
    reg_new_instr-Registered h k p q b v ep eq = elim (Option-cases (lookup h b.map_instr)) [
      | inl gone ↦ rw (reg_new_instr_lem h k p q b ep gone eq) (
        refl,
        with_new-IsValid h (new_instr p.instr k p.vol_multiple) k q b v gone eq refl refl refl,
        (new_instr p.instr k p.vol_multiple, lookup-insert_self h _ b.map_instr),
      )
      | inr (i, known) ↦ rw (reg_old_instr h k p i b ep known) (refl, v, (i, known))
    ]

    reg_prd_new :
        (h : ℕ) (p : InstrumentInfo) (b : AccBase D)
        → lookup h info ≡ some p
        → lookup p.product_hash b.map_prd ≡ none
        → reg_prd hash info p b ≡ (with_prd p.product_hash p.product b, true)
    unfolding reg_prd reg_mod_prd
    reg_prd_new h p b ep gone = ground (arith, sound.product_keyed h p)

    reg_prd_old :
        (p : InstrumentInfo) (b : AccBase D) (q : ModPrd D)
        → lookup p.product_hash b.map_prd ≡ some q
        → reg_prd hash info p b ≡ (b, true)
    unfolding reg_prd
    reg_prd_old p b q known = ground arith

    reg_instr_lem :
        (h : ℕ) (p : InstrumentInfo) (b b' : AccBase D)
        → lookup h info ≡ some p
        → reg_prd hash info p b ≡ (b', true)
        → reg_instr hash info p.instr b ≡ reg_new_instr hash info p.instr p.product_hash b'
    unfolding reg_instr
    reg_instr_lem h p b b' ep e = ground (arith, sound.keyed h p)

    -- On a valid account and with a sound table of instruments, registering an instrument that
    -- the table knows succeeds, leaves the account valid, and the account then has a record of
    -- the instrument.
    pub reg_instr-Registered :
        (h : ℕ) (p : InstrumentInfo) (b : AccBase D)
        → IsValid b
        → lookup h info ≡ some p
        → Registered h (reg_instr hash info p.instr b)
    reg_instr-Registered h p b v ep = elim (Option-cases (lookup p.product_hash b.map_prd)) [
      | inl gone ↦
          let b' = with_prd p.product_hash p.product b in
          rw (reg_instr_lem h p b b' ep (reg_prd_new h p b ep gone)) (
            reg_new_instr-Registered h p.product_hash p (prd_init p.product prd_default) b'
              (with_prd-IsValid p.product_hash p.product b v gone) ep
              (lookup-insert_self p.product_hash _ b.map_prd))
      | inr (q, known) ↦
          rw (reg_instr_lem h p b b ep (reg_prd_old p b q known))
            (reg_new_instr-Registered h p.product_hash p q b v ep known)
    ]

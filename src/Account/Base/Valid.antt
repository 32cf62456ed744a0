-- ===== src/Account/Base/Valid.antt =====
-- src/account/AccBase.cpp: the invariant of an account.
use nat_framework.Prelude.{
  ℕ, ◌≡◌, ◌∙◌, sym, ◌==◌, true, some, arith, Bool-cases, Option-cases, inl, inr,
}
use nat_framework.Prelude.Map.{
  lookup, insert, erase, IsMap, insert-IsMap, lookup-insert_self, lookup-insert,
}
use nat_framework.Account.Vol.Balance.{IsBalanced}
use nat_framework.Account.Mods.{ModPrd, ModAcc}
use nat_framework.Account.Instr.{ModInstr}
use nat_framework.Account.Instr.Keeps.{SameMeta}
use nat_framework.Account.Instr.VolRel.{Books}
use nat_framework.Account.Base.{AccBase}
use nat_framework.Account.Base.Sums.{vol_of, vol_of-erase, vol_of-insert}

module _ {D : Type 0} where
  -- Both pointers of the instrument are set, and the product's summary is in the map.
  abbrev pub PointsTo : AccBase D → ModInstr D → Type 0
  PointsTo b i =
      (k : ℕ) × (p : ModPrd D) × (i.p_prd ≡ some k)
      × (lookup k b.map_prd ≡ some p)
      × (i.p_acc ≡ true)

  -- No instrument has a null or dangling pointer, the volumes of every record balance, and those of
  -- a product are the sums over its instruments.
  pub record IsValid (b : AccBase D) : Type 0 where
    pub instrs : IsMap b.map_instr
    pub prds : IsMap b.map_prd
    pub links : (h : ℕ) (i : ModInstr D) → lookup h b.map_instr ≡ some i → PointsTo b i
    pub balanced : (h : ℕ) (i : ModInstr D) → lookup h b.map_instr ≡ some i → IsBalanced i.unit_vol
    pub prd_balanced : (k : ℕ) (p : ModPrd D) → lookup k b.map_prd ≡ some p → IsBalanced p.unit_vol
    pub sums :
        (k : ℕ) (p : ModPrd D) → lookup k b.map_prd ≡ some p → p.unit_vol ≡ vol_of k b.map_instr

  -- The account with one instrument, its product and the account's summary replaced.
  abbrev pub replaced : ℕ → ModInstr D → ℕ → ModPrd D → ModAcc D → AccBase D → AccBase D
  replaced h i k p a b = record {
    map_instr = insert h i b.map_instr;
    map_prd = insert k p b.map_prd;
    mod_acc = a;
  }

  PointsTo-replaced :
      (b : AccBase D) (h k : ℕ) (y i : ModInstr D) (p : ModPrd D) (a : ModAcc D)
      → PointsTo b y
      → PointsTo (replaced h i k p a b) y
  PointsTo-replaced b h k y i p a (j, q, ej, eq, ea) =
      elim (Option-cases (lookup j (insert k p b.map_prd))) [
        | inl gone ↦ absurd (ground (arith, lookup-insert j k p b.map_prd))
        | inr (r, er) ↦ (j, r, ej, er, ea)
      ]

  links-replaced :
      (b : AccBase D) (h k : ℕ) (i : ModInstr D) (p : ModPrd D) (a : ModAcc D)
      → IsValid b
      → i.p_prd ≡ some k
      → i.p_acc ≡ true
      → (j : ℕ) (y : ModInstr D) → lookup j (insert h i b.map_instr) ≡ some y
      → PointsTo (replaced h i k p a b) y
  links-replaced b h k i p a v ek ea j y e = elim (Bool-cases (j == h)) [
    | inl same ↦ (
      k,
      p,
      ground (arith, lookup-insert j h i b.map_instr),
      lookup-insert_self k p b.map_prd,
      ground (arith, lookup-insert j h i b.map_instr),
    )
    | inr other ↦
        PointsTo-replaced b h k y i p a
          (v.links j y (ground (arith, lookup-insert j h i b.map_instr)))
  ]

  pub replaced-IsValid :
      (b : AccBase D) (h k : ℕ) (x i : ModInstr D) (q p : ModPrd D) (a : ModAcc D)
      → IsValid b
      → lookup h b.map_instr ≡ some x
      → x.p_prd ≡ some k
      → lookup k b.map_prd ≡ some q
      → SameMeta x i
      → Books (vol_of k (erase h b.map_instr)) i.unit_vol p.unit_vol
      → IsValid (replaced h i k p a b)
  replaced-IsValid b h k x i q p a v ex ek eq same books = record {
    instrs = insert-IsMap h i b.map_instr v.instrs;
    prds = insert-IsMap k p b.map_prd v.prds;
    links = links-replaced b h k i p a v (sym same.p_prd ∙ ek) (ground (arith, v.links h x ex));
    balanced = λ j y e. ground (arith, v.balanced j y, lookup-insert j h i b.map_instr);
    prd_balanced = λ j y e. ground (arith, v.prd_balanced j y, lookup-insert j k p b.map_prd);
    sums = λ j y e. ground (
      arith,
      v.sums j y,
      lookup-insert j k p b.map_prd,
      vol_of-erase j h x b.map_instr,
      vol_of-insert j h i x b.map_instr,
    );
  }

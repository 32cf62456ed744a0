-- ===== src/Account/Instr/Keeps.antt =====
-- src/account/ModInstr.cpp: rules for the handlers. A statement keeps a relation between an
-- instrument and its summaries if, from linked summaries, it ends without a fault and the relation
-- holds again.
use nat_framework.Prelude.{◌≡◌, refl, ◌∙◌, Bool, true, false, Option, some, if◌then◌else◌}
use nat_framework.Account.Mods.{ModPrd, ModAcc}
use nat_framework.Account.Instr.{ModInstr, Linked, Step, ◌>>◌, skip}

-- A relation between an instrument, its product's summary and the account's.
abbrev pub Rel : Type 0 → Type 1
Rel D = ModInstr D → ModPrd D → ModAcc D → Type 0

module _ {D : Type 0} where
  -- The pointers, and what `init` sets once.
  pub record SameMeta (i j : ModInstr D) : Type 0 where
    pub p_prd : i.p_prd ≡ j.p_prd
    pub p_acc : i.p_acc ≡ j.p_acc
    pub instr_name : i.instr_name ≡ j.instr_name
    pub vol_multiple : i.vol_multiple ≡ j.vol_multiple

  pub SameMeta-refl : (i : ModInstr D) → SameMeta i i
  SameMeta-refl i = record { p_prd = refl; p_acc = refl; instr_name = refl; vol_multiple = refl }

  pub SameMeta-trans : {i j k : ModInstr D} → SameMeta i j → SameMeta j k → SameMeta i k
  SameMeta-trans e f = record {
    p_prd = e.p_prd ∙ f.p_prd;
    p_acc = e.p_acc ∙ f.p_acc;
    instr_name = e.instr_name ∙ f.instr_name;
    vol_multiple = e.vol_multiple ∙ f.vol_multiple;
  }

  module _ (P : Rel D) where
    -- Both pointers lead to a summary, and the relation holds between the three.
    abbrev pub Holds : Linked D → Type 0
    Holds c = (p : ModPrd D) × (a : ModAcc D) × (c.prd ≡ some p) × (c.acc ≡ some a) × P c.instr p a

    abbrev pub Ends : Linked D → Option (Linked D) → Type 0
    Ends c r = (c' : Linked D) × (r ≡ some c') × Holds c' × SameMeta c.instr c'.instr

    pub record Keeps (m : Step D) : Type 0 where
      pub run : (c : Linked D) → Holds c → Ends c (m c)

    pub Keeps-skip : Keeps skip
    Keeps-skip = record { run = λ c h. (c, refl, h, SameMeta-refl c.instr) }

    pub Keeps-if : (b : Bool) (m k : Step D) → Keeps m → Keeps k → Keeps (if b then m else k)
    Keeps-if true m k hm hk = hm
    Keeps-if false m k hm hk = hk

    pub Keeps-seq : (m k : Step D) → Keeps m → Keeps k → Keeps (m >> k)
    Keeps-seq m k hm hk = record { run = λ c h. follow c (hm.run c h) }
      where
        follow : (c : Linked D) → Ends c (m c) → Ends c ((m >> k) c)
        follow c (c', e, h', same) =
            let (c'', e', h'', same') = hk.run c' h' in
            (c'', rw (e, ◌>>◌) e', h'', SameMeta-trans same same')

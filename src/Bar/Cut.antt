-- ===== src/Bar/Cut.antt =====
-- src/bar/BarMaker.cpp, generateVecBar: one span is cut into bars.
use nat_framework.Prelude.{
  ℕ, zero, suc, ℤ, pos, ◌+ℤ◌, ◌≤ℤ◌, leb_ℤ, ltb_ℤ, ◌==ℤ◌, ◌≡◌, ◌⊎◌, refl, arith, int_laws, true,
  false, ◌&&◌, Option, some, List, [], ◌∷◌, ◌++◌, Bool-cases, inl, inr, +ℤ_parts,
}
use nat_framework.Bar.Spans.{TimeSpan, Ascending}
use nat_framework.Bar.Bar2.{Bar2}
use nat_framework.Bar.Generate.{Cursor, cut, enter, leave_span, trade_span, bar_at}

-- Where the cursor stands after the spans up to `lo`.
pub record IsPlaced (cycle lo : ℤ) (c : Cursor) : Type 0 where
  pub some_left : pos 0 ≤ℤ c.leave
  pub less : c.leave +ℤ pos 1 ≤ℤ cycle
  pub before : c.bob ≤ℤ lo ⊎ c.leave ≤ℤ pos 0
  pub proper : c.bob +ℤ pos 1 +ℤ c.leave ≤ℤ c.eob ⊎ c.leave ≤ℤ pos 0

within :
    (n : ℕ) (cycle end_sec bob eob : ℤ)
    → pos 1 ≤ℤ cycle
    → bob +ℤ pos 1 ≤ℤ eob
    → end_sec +ℤ pos 1 ≤ℤ eob +ℤ pos (suc n)
    → (ltb_ℤ bob end_sec && leb_ℤ eob end_sec) ≡ true
    → (eob +ℤ pos 1 ≤ℤ eob +ℤ cycle)
      × (eob ≤ℤ end_sec)
      × (end_sec +ℤ pos 1 ≤ℤ eob +ℤ cycle +ℤ pos n)
within n cycle end_sec bob eob hc hl hf more =
    let le : eob ≤ℤ end_sec = ground arith in (omega int_laws, le, omega int_laws)

-- A cycle that is not whole is carried into the next span.
carried :
    (cycle lo : ℤ) (c : Cursor)
    → IsPlaced cycle lo c
    → (c.leave ==ℤ pos 0) ≡ false
    → (pos 1 ≤ℤ c.leave) × (c.bob ≤ℤ lo) × (c.bob +ℤ pos 1 +ℤ c.leave ≤ℤ c.eob)
carried cycle lo c pl h =
    let one : pos 1 ≤ℤ c.leave = ground (arith, pl.some_left) in
    (one, ground (arith, pl.before), ground (arith, pl.proper))

entered :
    (cycle lo : ℤ) (ts : TimeSpan) (c : Cursor)
    → pos 1 ≤ℤ cycle
    → IsPlaced cycle lo c
    → pos 0 ≤ℤ lo
    → lo ≤ℤ ts.bgn_sec
    → ts.bgn_sec +ℤ pos 1 ≤ℤ ts.end_sec
    → ts.end_sec ≤ℤ pos 86400
    → ((enter cycle ts c).0 +ℤ pos 1 ≤ℤ (enter cycle ts c).1)
      × ((enter cycle ts c).0 +ℤ pos 1 ≤ℤ ts.end_sec)
      × (ts.end_sec +ℤ pos 1 ≤ℤ (enter cycle ts c).1 +ℤ pos 86401)
      × ((enter cycle ts c).1 +ℤ pos 1 ≤ℤ ts.end_sec +ℤ cycle)
entered cycle lo ts c hc pl h0 hlo hts hend = elim (Bool-cases (c.leave ==ℤ pos 0)) [
  | inl z ↦ rw (z) (omega int_laws, omega int_laws, omega int_laws, omega int_laws)
  | inr nz ↦
      let (h1, h2, h3) = carried cycle lo c pl nz in
      rw (nz) (omega int_laws, omega int_laws, omega int_laws, omega (int_laws, pl.less))
]

pub later-IsPlaced :
    (cycle lo hi : ℤ) (c : Cursor) → lo ≤ℤ hi → IsPlaced cycle lo c → IsPlaced cycle hi c
later-IsPlaced cycle lo hi c h pl = record {
  some_left = pl.some_left;
  less = pl.less;
  before = elim pl.before [ inl b ↦ inl (omega arith) | inr z ↦ inr z ];
  proper = pl.proper;
}

pub begin-IsPlaced :
    (cycle : ℤ)
    → pos 1 ≤ℤ cycle
    → IsPlaced cycle (pos 0) (record { bob = pos 0; eob = pos 0; leave = pos 0 })
begin-IsPlaced cycle h = record {
  some_left = omega arith;
  less = omega int_laws;
  before = inl (omega arith);
  proper = inr (omega arith);
}

pub Ascending-end : (lo : ℤ) (spans : List TimeSpan) → Ascending lo spans → lo ≤ℤ pos 86400
Ascending-end lo [] a = a
Ascending-end lo (ts ∷ spans) (a1, a2, a3) =
    omega (int_laws, a1, a2, Ascending-end ts.end_sec spans a3)

left-IsPlaced :
    (cycle lo : ℤ) (ts : TimeSpan) (c : Cursor) (bob eob : ℤ)
    → IsPlaced cycle lo c
    → bob ≤ℤ ts.end_sec
    → ((bob ==ℤ ts.end_sec) ≡ false
        → (ts.end_sec +ℤ pos 1 ≤ℤ eob) × (eob +ℤ pos 1 ≤ℤ ts.end_sec +ℤ cycle))
    → ((bob ==ℤ ts.end_sec) ≡ true → bob +ℤ cycle ≤ℤ eob)
    → IsPlaced cycle ts.end_sec (leave_span ts c.leave bob eob)
left-IsPlaced cycle lo ts c bob eob pl hb hw hx = elim (Bool-cases (bob ==ℤ ts.end_sec)) [
  | inl same ↦
      let h = hx same in
      record {
        some_left = rw (same) pl.some_left;
        less = rw (same) pl.less;
        before = inl hb;
        proper = inl (rw (same) omega (int_laws, pl.less));
      }
  | inr differs ↦
      let (h1, h2) = hw differs in
      let lt : bob +ℤ pos 1 ≤ℤ ts.end_sec = ground (arith, +ℤ_parts bob (pos 1)) in
      record {
        some_left = rw (differs) omega int_laws;
        less = rw (differs) omega int_laws;
        before = inl hb;
        proper = inl (rw (differs) omega int_laws);
      }
]

module _ {D : Type 0} where
  -- Every bar ends after it begins.
  abbrev pub AllProper : List (Bar2 D) → Type 0
  AllProper [] = Unit
  AllProper (b ∷ bars) = (b.bob +ℤ pos 1 ≤ℤ b.eob) × AllProper bars

  pub AllProper-++ : (xs ys : List (Bar2 D)) → AllProper xs → AllProper ys → AllProper (xs ++ ys)
  AllProper-++ [] ys p q = q
  AllProper-++ (x ∷ xs) ys p q = (p.0, AllProper-++ xs ys p.1 q)

  -- What the inner loop comes to.
  record IsCut (cycle end_sec bob eob : ℤ) (r : Option (List (Bar2 D) × ℤ × ℤ)) : Type 0 where
    bars : List (Bar2 D)
    bob' : ℤ
    eob' : ℤ
    result : r ≡ some (bars, bob', eob')
    proper : AllProper bars
    inside : bob' ≤ℤ end_sec
    longer : bob' +ℤ pos 1 ≤ℤ eob'
    over : (bob' ==ℤ end_sec) ≡ false → end_sec +ℤ pos 1 ≤ℤ eob'
    whole : ((bob' ≡ bob) × (eob' ≡ eob)) ⊎ (eob' ≡ bob' +ℤ cycle)

  stopped-IsCut :
      (n : ℕ) (cycle : ℤ) (bar : Bar2 D) (end_sec bob eob : ℤ)
      → bob +ℤ pos 1 ≤ℤ eob
      → bob ≤ℤ end_sec
      → (ltb_ℤ bob end_sec && leb_ℤ eob end_sec) ≡ false
      → IsCut cycle end_sec bob eob (cut (suc n) cycle bar end_sec bob eob)
  unfolding cut
  stopped-IsCut n cycle bar end_sec bob eob hl hb out = record {
    bars = [];
    bob' = bob;
    eob' = eob;
    result = ground arith;
    proper = tt;
    inside = hb;
    longer = hl;
    over = λ ne. ground (arith, +ℤ_parts end_sec (pos 1));
    whole = inl (refl, refl);
  }

  -- Enough fuel for the inner loop.
  cut-IsCut :
      (n : ℕ) (cycle : ℤ) (bar : Bar2 D) (end_sec bob eob : ℤ)
      → pos 1 ≤ℤ cycle
      → bob +ℤ pos 1 ≤ℤ eob
      → bob ≤ℤ end_sec
      → end_sec +ℤ pos 1 ≤ℤ eob +ℤ pos n
      → IsCut cycle end_sec bob eob (cut (suc n) cycle bar end_sec bob eob)
  unfolding cut
  cut-IsCut zero cycle bar end_sec bob eob hc hl hb hf =
      stopped-IsCut zero cycle bar end_sec bob eob hl hb
        (ground (arith, +ℤ_parts end_sec (pos 1), +ℤ_parts eob (pos 0)))
  cut-IsCut (suc n) cycle bar end_sec bob eob hc hl hb hf =
      elim (Bool-cases (ltb_ℤ bob end_sec && leb_ℤ eob end_sec)) [
        | inr out ↦ stopped-IsCut (suc n) cycle bar end_sec bob eob hl hb out
        | inl more ↦
            let (h1, h2, h3) = within n cycle end_sec bob eob hc hl hf more in
            let r = cut-IsCut n cycle bar end_sec eob (eob +ℤ cycle) hc h1 h2 h3 in
            record {
              bars = bar_at bar bob eob ∷ r.bars;
              bob' = r.bob';
              eob' = r.eob';
              result = ground (arith, r.result);
              proper = (hl, r.proper);
              inside = r.inside;
              longer = r.longer;
              over = r.over;
              whole = elim r.whole [ inl (a, b) ↦ inr (rw (a, b) refl) | inr w ↦ inr w ];
            }
      ]

  -- A continuous span.
  abbrev pub IsTraded : ℤ → ℤ → Option (List (Bar2 D) × Cursor) → Type 0
  IsTraded cycle hi r =
      (bars : List (Bar2 D)) × (c : Cursor) × (r ≡ some (bars, c))
      × AllProper bars
      × IsPlaced cycle hi c

  short :
      (cycle end_sec bob eob : ℤ) (x : Option (List (Bar2 D) × ℤ × ℤ))
      (r : IsCut cycle end_sec bob eob x)
      → eob +ℤ pos 1 ≤ℤ end_sec +ℤ cycle
      → (r.bob' ==ℤ end_sec) ≡ false
      → r.eob' +ℤ pos 1 ≤ℤ end_sec +ℤ cycle
  short cycle end_sec bob eob x r h ne = elim r.whole [
    | inl (a, b) ↦ rw (b) h
    | inr w ↦
        let lt : r.bob' +ℤ pos 1 ≤ℤ end_sec = ground (arith, +ℤ_parts r.bob' (pos 1), r.inside) in
        rw (w) omega int_laws
  ]

  full :
      (cycle end_sec bob eob : ℤ) (x : Option (List (Bar2 D) × ℤ × ℤ))
      (r : IsCut cycle end_sec bob eob x)
      → bob +ℤ pos 1 ≤ℤ end_sec
      → (r.bob' ==ℤ end_sec) ≡ true
      → r.bob' +ℤ cycle ≤ℤ r.eob'
  full cycle end_sec bob eob x r h eq = elim r.whole [
    | inl (a, b) ↦ absurd (ground (arith, +ℤ_parts bob (pos 1)))
    | inr w ↦ rw (w) omega arith
  ]

  pub trade_span-IsTraded :
      (cycle lo : ℤ) (bar : Bar2 D) (ts : TimeSpan) (c : Cursor)
      → pos 1 ≤ℤ cycle
      → IsPlaced cycle lo c
      → pos 0 ≤ℤ lo
      → lo ≤ℤ ts.bgn_sec
      → ts.bgn_sec +ℤ pos 1 ≤ℤ ts.end_sec
      → ts.end_sec ≤ℤ pos 86400
      → IsTraded cycle ts.end_sec (trade_span 86402 cycle bar ts c)
  unfolding trade_span
  trade_span-IsTraded cycle lo bar ts c hc pl h0 hlo hts hend =
      let (e1, e2, e3, e4) = entered cycle lo ts c hc pl h0 hlo hts hend in
      let r =
        cut-IsCut 86401 cycle bar ts.end_sec (enter cycle ts c).0 (enter cycle ts c).1 hc e1
          (omega (int_laws, e2)) e3 in
      (
        r.bars,
        leave_span ts c.leave r.bob' r.eob',
        ground (arith, r.result),
        r.proper,
        left-IsPlaced cycle lo ts c r.bob' r.eob' pl r.inside
            (λ ne. (
              r.over ne,
              short cycle ts.end_sec (enter cycle ts c).0 (enter cycle ts c).1 _ r e4 ne,
            ))
            (λ eq. full cycle ts.end_sec (enter cycle ts c).0 (enter cycle ts c).1 _ r e2 eq),
      )

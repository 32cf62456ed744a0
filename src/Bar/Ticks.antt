-- ===== src/Bar/Ticks.antt =====
-- src/bar/BarMaker.cpp: what ticks and the end of a run do to the bars.
use nat_framework.Prelude.{
  ℕ, zero, suc, ◌≤◌, ◌<◌, ℤ, pos, ◌≡◌, refl, arith, ltb, ◌==ℤ◌, ◌==◌, Bool, true, false, ◌&&◌, not,
  if◌then◌else◌, Option, some, List, [], ◌∷◌, map, ◌+◌, ◌-◌, Bool-cases, inl, inr, ◌∙◌,
}
use nat_framework.Prelude.Lists.{
  length, get_elem?, drop, get_elem?-take, get_elem?-drop, get_elem?-of_drop, length-take,
  length-drop, length-map, get_elem?-map,
}
use nat_framework.Double.{Double}
use nat_framework.Bar.Time.{get_base_interval_from_nano}
use nat_framework.Bar.Bar2.{
  Bar2, UnitedMarketData, is_in_cur_bar, update_pre, update_bar, update_open, is_need_update_open,
  is_need_update_pre, settle,
}
use nat_framework.Bar.Maker.{BarMaker, index_of, walk, on_tick, on_finish, open_next, update_cur}

module _ {D : Type 0} ⦃F : Double D⦄ (base : ℤ) where
  length-open_next :
      (umd : UnitedMarketData D) (bars : List (Bar2 D))
      → length (open_next base umd bars) ≡ length bars
  length-open_next umd [] = refl
  length-open_next umd (b ∷ bars) = refl

  -- The loop keeps the number of bars, and moves past none but them.
  walk-length :
      (last umd : UnitedMarketData D) (moved : Bool) (bars : List (Bar2 D))
      → (length (walk base last umd moved bars).0 ≡ length bars)
        × ((walk base last umd moved bars).1 ≤ length bars)
  unfolding walk
  walk-length last umd moved [] = (refl, omega arith)
  walk-length last umd moved (b ∷ bars) =
      ground (arith, walk-length last umd true bars, length-open_next umd bars)

  -- A bar that the tick settled, from one with the times of `b0`.
  abbrev pub SettledOf : UnitedMarketData D → Bar2 D → Option (Bar2 D) → Type 0
  SettledOf umd b0 r =
      (b : Bar2 D) × (r ≡ some (settle base umd b)) × (b.bob ≡ b0.bob) × (b.eob ≡ b0.eob)

  update_pre-times :
      (umd : UnitedMarketData D) (b : Bar2 D)
      → ((update_pre base umd b).bob ≡ b.bob) × ((update_pre base umd b).eob ≡ b.eob)
  unfolding update_pre
  update_pre-times umd b = (refl, refl)

  update_bar-times :
      (umd : UnitedMarketData D) (b : Bar2 D)
      → ((update_bar base umd b).bob ≡ b.bob) × ((update_bar base umd b).eob ≡ b.eob)
  unfolding update_bar
  update_bar-times umd b = (refl, refl)

  update_cur-times :
      (umd : UnitedMarketData D) (b : Bar2 D)
      → ((update_cur base umd b).bob ≡ b.bob) × ((update_cur base umd b).eob ≡ b.eob)
  unfolding update_cur
  update_cur-times umd b =
      let b1 = if is_need_update_open base umd b then update_open base umd b else b in
      let b2 = if is_need_update_pre base umd b1 then update_pre base umd b1 else b1 in
      ground (arith, update_pre-times umd b1, update_bar-times umd b2)

  -- The bar as the loop finds it.
  abbrev found : UnitedMarketData D → Bool → Bar2 D → Bar2 D
  found last moved b0 = if moved && not (last.instr_hash == 0) then update_pre base last b0 else b0

  walk-settles :
      (last umd : UnitedMarketData D) (moved : Bool) (bars : List (Bar2 D)) (j : ℕ) (b0 : Bar2 D)
      → get_elem? bars j ≡ some b0
      → j < (walk base last umd moved bars).1
      → SettledOf umd b0 (get_elem? (walk base last umd moved bars).0 j)
  unfolding walk
  walk-settles last umd moved [] j b0 e h = absurd (ground arith)
  walk-settles last umd moved (b ∷ bars) zero b0 e h =
      let c = found last moved b in
      let eb : b ≡ b0 = ground arith in
      let tc : (c.bob ≡ b0.bob) × (c.eob ≡ b0.eob) = ground (arith, update_pre-times last b) in
      let tu = update_cur-times umd c in
      elim (Bool-cases
        (is_in_cur_bar (get_base_interval_from_nano base umd.exch_time) c ==ℤ pos 0)) [
          | inl cur ↦ (update_cur base umd c, ground arith, tu.0 ∙ tc.0, tu.1 ∙ tc.1)
          | inr past ↦ (c, ground arith, tc.0, tc.1)
        ]
  walk-settles last umd moved (b ∷ bars) (suc j) b0 e h =
      let rest = walk base last umd true bars in
      let lt : j < rest.1 = ground arith in
      let (u, eu, t1, t2) = walk-settles last umd true bars j b0 e lt in (u, ground arith, t1, t2)

  on_tick-settles :
      (umd : UnitedMarketData D) (m : BarMaker D)
      → index_of m.bar_idx ≤ length m.vec_bar
      → (j : ℕ) (b0 : Bar2 D) → index_of m.bar_idx ≤ j
      → j < index_of (on_tick base umd m).bar_idx
      → get_elem? m.vec_bar j ≡ some b0
      → SettledOf umd b0 (get_elem? (on_tick base umd m).vec_bar j)
  unfolding on_tick
  on_tick-settles umd m h j b0 le lt e =
      let n = index_of m.bar_idx in
      let k = j - n in
      let ek : j ≡ n + k = ground arith in
      let old = get_elem?-of_drop m.vec_bar n k j ek ∙ e in
      let (u, eu, t1, t2) =
        walk-settles m.last_umd umd false (drop n m.vec_bar) k b0 old (ground arith) in
      let eq =
        get_elem?-drop m.vec_bar (walk base m.last_umd umd false (drop n m.vec_bar)).0 n k j h ek in
      (u, ground arith, t1, t2)

  -- If the current bar's index is at most the number of bars, a tick keeps the number of bars,
  -- does not move the index back or past them, leaves the bars before the current one as they
  -- are, and each bar that the index moves past in this tick ends as a bar that this tick settled
  -- last, whose times before that were those of the bar that stood there before the tick.
  pub on_tick-keeps :
      (umd : UnitedMarketData D) (m : BarMaker D)
      → index_of m.bar_idx ≤ length m.vec_bar
      → (length (on_tick base umd m).vec_bar ≡ length m.vec_bar)
        × (index_of m.bar_idx ≤ index_of (on_tick base umd m).bar_idx)
        × (index_of (on_tick base umd m).bar_idx ≤ length m.vec_bar)
        × ((j : ℕ)
            → j < index_of m.bar_idx
            → get_elem? (on_tick base umd m).vec_bar j ≡ get_elem? m.vec_bar j)
        × ((j : ℕ) (b0 : Bar2 D)
            → index_of m.bar_idx ≤ j
            → j < index_of (on_tick base umd m).bar_idx
            → get_elem? m.vec_bar j ≡ some b0
            → SettledOf umd b0 (get_elem? (on_tick base umd m).vec_bar j))
  unfolding on_tick
  on_tick-keeps umd m h =
      let w = walk-length m.last_umd umd false (drop (index_of m.bar_idx) m.vec_bar) in
      let l = length-drop m.vec_bar (index_of m.bar_idx) h in
      (
        ground (
          arith,
          length-take m.vec_bar
              (walk base m.last_umd umd false (drop (index_of m.bar_idx) m.vec_bar)).0
              (index_of m.bar_idx) h,
          w,
        ),
        ground arith,
        ground (arith, w, l),
        (λ j lt. ground (
          arith,
          get_elem?-take m.vec_bar
              (walk base m.last_umd umd false (drop (index_of m.bar_idx) m.vec_bar)).0
              (index_of m.bar_idx) j lt h,
        )),
        on_tick-settles umd m h,
      )

  -- If the current bar's index is at most the number of bars, the end of a run moves the index
  -- past all bars, settles those from the current one on with the last tick, and leaves the
  -- others.
  pub on_finish-settles :
      (m : BarMaker D)
      → index_of m.bar_idx ≤ length m.vec_bar
      → (length (on_finish base m).vec_bar ≡ length m.vec_bar)
        × ((on_finish base m).bar_idx ≡ pos (length m.vec_bar))
        × ((j : ℕ) (b : Bar2 D)
            → get_elem? m.vec_bar j ≡ some b
            → get_elem? (on_finish base m).vec_bar j
              ≡ some (if ltb j (index_of m.bar_idx) then b else settle base m.last_umd b))
  unfolding on_finish
  on_finish-settles m h =
      let n = index_of m.bar_idx in
      let rest = map (settle base m.last_umd) (drop n m.vec_bar) in
      (
        length-take m.vec_bar rest n h (length-map (settle base m.last_umd) (drop n m.vec_bar)),
        ground arith,
        (λ j b e. elim (Bool-cases (ltb j n)) [
          | inl lt ↦ ground (arith, get_elem?-take m.vec_bar rest n j (ground arith) h)
          | inr ge ↦
              let k = j - n in
              let ek : j ≡ n + k = ground arith in
              let old = get_elem?-of_drop m.vec_bar n k j ek ∙ e in
              rw (ge) (
                get_elem?-drop m.vec_bar rest n k j h ek
                ∙ get_elem?-map (settle base m.last_umd) (drop n m.vec_bar) k b old)
        ]),
      )

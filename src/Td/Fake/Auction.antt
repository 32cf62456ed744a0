-- ===== src/Td/Fake/Auction.antt =====
-- src/td/CTDHelperFake.cpp: what one auction of an order does.
use nat_framework.Prelude.{
  ℕ, ℤ, pos, ◌+ℤ◌, ◌≤ℤ◌, ◌-ℤ◌, int_laws, arith, ◌==◌, ◌&&◌, ◌||◌, Bool, List, [], ◌∷◌, ◌++◌,
  if◌then◌else◌, true, false, ◌≡◌, ◌≢◌, ◌⊎◌, inl, inr, refl, Bool-cases, +ℤ_assoc, +ℤ_zero,
}
use nat_framework.Double.{Double}
use nat_framework.TradeBase.{OrderTrack, RtnMsg}
use nat_framework.Account.Codes.{buy, sell}
use nat_framework.Td.OrderRtn
use nat_framework.Td.Median.{median, median_up, median_down, IsOrdered}
use nat_framework.Td.Fake.{Tick, auction, execute, exec_msg, left, trade, crosses_buy, crosses_sell}

module _ {D : Type 0} ⦃F : Double D⦄ where
  -- What the messages tell of an order's trades.
  abbrev pub pending : ℕ → List (RtnMsg D) → ℤ
  pending id [] = pos 0
  pending id (m ∷ ms) =
      if (m.local_id == id) && (m.msg_type == OrderRtn.execution)
      then m.vol +ℤ pending id ms
      else pending id ms

  abbrev pub AllOf : ℕ → List (RtnMsg D) → Type 0
  AllOf id [] = Unit
  AllOf id (m ∷ ms) = (m.local_id ≡ id) × AllOf id ms

  pub pending-++ :
      (id : ℕ) (xs ys : List (RtnMsg D)) → pending id (xs ++ ys) ≡ pending id xs +ℤ pending id ys
  pending-++ id [] ys = omega int_laws
  pending-++ id (m ∷ ms) ys =
      elim (Bool-cases ((m.local_id == id) && (m.msg_type == OrderRtn.execution))) [
        | inl t ↦ simp (t, pending-++ id ms ys, +ℤ_assoc)
        | inr f ↦ simp (f, pending-++ id ms ys)
      ]

  pub pending-AllOf :
      (id j : ℕ) (ms : List (RtnMsg D)) → AllOf id ms → id ≢ j → pending j ms ≡ pos 0
  pending-AllOf id j [] h ne = refl
  pending-AllOf id j (m ∷ ms) h ne = ground (arith, pending-AllOf id j ms h.1 ne)

  -- A trade of `n` at the message's price: no more than is left, and no worse than the limit.
  pub record Fair (ot : OrderTrack D) (tick tick' : Tick D) (m : RtnMsg D) : Type 0 where
    pub positive : pos 1 ≤ℤ m.vol
    pub room : m.vol ≤ℤ left ot
    pub bought :
        ot.dir ≡ buy
        → (F.leb tick.ask m.price ≡ true)
          × (F.leb m.price ot.price ≡ true)
          × (tick'.ask_vol +ℤ m.vol ≡ tick.ask_vol)
          × (pos 0 ≤ℤ tick'.ask_vol)
          × (tick'.bid_vol ≡ tick.bid_vol)
    pub sold :
        ot.dir ≡ sell
        → (F.leb ot.price m.price ≡ true)
          × (F.leb m.price tick.bid ≡ true)
          × (tick'.bid_vol +ℤ m.vol ≡ tick.bid_vol)
          × (pos 0 ≤ℤ tick'.bid_vol)
          × (tick'.ask_vol ≡ tick.ask_vol)

  pub trade_buy :
      (ot : OrderTrack D) (tick : Tick D)
      → crosses_buy ot tick ≡ true
      → (pos 1 ≤ℤ trade ot tick.ask_vol)
        × (trade ot tick.ask_vol ≤ℤ left ot)
        × (trade ot tick.ask_vol ≤ℤ tick.ask_vol)
        × (F.leb tick.ask ot.price ≡ true)
  trade_buy ot tick h = ground arith

  pub trade_sell :
      (ot : OrderTrack D) (tick : Tick D)
      → crosses_sell ot tick ≡ true
      → (pos 1 ≤ℤ trade ot tick.bid_vol)
        × (trade ot tick.bid_vol ≤ℤ left ot)
        × (trade ot tick.bid_vol ≤ℤ tick.bid_vol)
        × (F.leb ot.price tick.bid ≡ true)
  trade_sell ot tick h = ground arith

  pub auction-buy :
      (id : ℕ) (ot : OrderTrack D) (tick : Tick D)
      → ot.dir ≡ buy
      → crosses_buy ot tick ≡ true
      → auction id ot tick ≡ (
        execute ot (trade ot tick.ask_vol),
        record tick { ask_vol = tick.ask_vol -ℤ trade ot tick.ask_vol },
        exec_msg ot id (trade ot tick.ask_vol) (median tick.ask tick.last_px ot.price) ∷ [],
      )
  unfolding auction
  auction-buy id ot tick d c = ground arith

  pub auction-sell :
      (id : ℕ) (ot : OrderTrack D) (tick : Tick D)
      → ot.dir ≡ sell
      → crosses_sell ot tick ≡ true
      → auction id ot tick ≡ (
        execute ot (trade ot tick.bid_vol),
        record tick { bid_vol = tick.bid_vol -ℤ trade ot tick.bid_vol },
        exec_msg ot id (trade ot tick.bid_vol) (median tick.bid tick.last_px ot.price) ∷ [],
      )
  unfolding auction
  auction-sell id ot tick d c = ground arith

  -- Whether the order can be filled.
  abbrev pub crosses : OrderTrack D → Tick D → Bool
  crosses ot tick =
      ((ot.dir == buy) && crosses_buy ot tick) || ((ot.dir == sell) && crosses_sell ot tick)

  pub auction_idle :
      (id : ℕ) (ot : OrderTrack D) (tick : Tick D)
      → crosses ot tick ≡ false
      → auction id ot tick ≡ (ot, tick, [])
  unfolding auction
  auction_idle id ot tick h = ground arith

  pub crosses-cases :
      (ot : OrderTrack D) (tick : Tick D)
      → (((ot.dir ≡ buy) × (crosses_buy ot tick ≡ true))
          ⊎ ((ot.dir ≡ sell) × (crosses_sell ot tick ≡ true)))
        ⊎ (crosses ot tick ≡ false)
  crosses-cases ot tick = ground arith

  -- If the prices are ordered as numbers are, an order that can be filled on a tick gets one
  -- execution, of at least 1 and at most what is left of it, at a price between the first ask or
  -- bid and its limit; what it trades is taken from that side of the tick, which does not fall
  -- below 0, and the other side is unchanged.
  pub auction-Fair :
      IsOrdered F
      → (id : ℕ) (ot : OrderTrack D) (tick : Tick D) → crosses ot tick ≡ true
      → (m : RtnMsg D) × ((auction id ot tick).2 ≡ m ∷ [])
        × Fair ot tick (auction id ot tick).1 m
        × ((auction id ot tick).0.vol_traded ≡ ot.vol_traded +ℤ m.vol)
  auction-Fair ordered id ot tick h = elim (crosses-cases ot tick) [
    | inl (inl (d, c)) ↦
        let (p, r, o, l) = trade_buy ot tick c in
        rw (auction-buy id ot tick d c) (
          _,
          refl,
          record {
            positive = p;
            room = r;
            bought = λ _.
                (let (u, w) = median_up ordered tick.ask tick.last_px ot.price l in
                  (u, w, omega int_laws, omega (int_laws, o), refl));
            sold = λ e. absurd (ground arith);
          },
          refl,
        )
    | inl (inr (d, c)) ↦
        let (p, r, o, l) = trade_sell ot tick c in
        rw (auction-sell id ot tick d c) (
          _,
          refl,
          record {
            positive = p;
            room = r;
            bought = λ e. absurd (ground arith);
            sold = λ _.
                (let (u, w) = median_down ordered tick.bid tick.last_px ot.price l in
                  (u, w, omega int_laws, omega (int_laws, o), refl));
          },
          refl,
        )
    | inr n ↦ absurd (ground arith)
  ]

  exec-pending :
      (ot : OrderTrack D) (id : ℕ) (n : ℤ) (px : D) → pending id (exec_msg ot id n px ∷ []) ≡ n
  exec-pending ot id n px = ground (arith, +ℤ_zero n)

  -- What an auction keeps and adds.
  pub record Kept (id : ℕ) (ot ot' : OrderTrack D) (ms : List (RtnMsg D)) : Type 0 where
    pub all_of : AllOf id ms
    pub vol : ot'.vol ≡ ot.vol
    pub total : ot'.vol_traded ≡ ot.vol_traded +ℤ pending id ms
    pub more : ot.vol_traded ≤ℤ ot'.vol_traded
    pub bounded : ot.vol_traded ≤ℤ ot.vol → ot'.vol_traded ≤ℤ ot.vol

  pub auction-Kept :
      (id : ℕ) (ot : OrderTrack D) (tick : Tick D)
      → Kept id ot (auction id ot tick).0 (auction id ot tick).2
  auction-Kept id ot tick = elim (crosses-cases ot tick) [
    | inl (inl (d, c)) ↦
        let (p, r, o, l) = trade_buy ot tick c in
        rw (auction-buy id ot tick d c) (record {
          all_of = (refl, tt);
          vol = refl;
          total =
              simp (
                exec-pending ot id (trade ot tick.ask_vol) (median tick.ask tick.last_px ot.price));
          more = omega (int_laws, p);
          bounded = λ _. omega (int_laws, r);
        })
    | inl (inr (d, c)) ↦
        let (p, r, o, l) = trade_sell ot tick c in
        rw (auction-sell id ot tick d c) (record {
          all_of = (refl, tt);
          vol = refl;
          total =
              simp (
                exec-pending ot id (trade ot tick.bid_vol) (median tick.bid tick.last_px ot.price));
          more = omega (int_laws, p);
          bounded = λ _. omega (int_laws, r);
        })
    | inr n ↦ rw (auction_idle id ot tick n) (record {
      all_of = tt;
      vol = refl;
      total = omega int_laws;
      more = omega arith;
      bounded = λ h. h;
    })
  ]

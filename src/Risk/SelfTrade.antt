-- ===== src/Risk/SelfTrade.antt =====
-- src/risk/RiskInstrTop.cpp: the account's own orders never cross.
use mathlib.Core.Path.{subst}
use nat_framework.Prelude.{
  ℕ, ℤ, ◌==ℤ◌, ◌==◌, true, false, ◌≡◌, refl, some, List, [], ◌∷◌, ◌++◌, if◌then◌else◌, arith,
  Bool-cases, Option-cases, inl, inr,
}
use nat_framework.Double.{Double}
use nat_framework.TradeBase.{OrderTrack}
use nat_framework.Account.Codes.{buy}
use nat_framework.Account.Vol.{UnitVol}
use nat_framework.Td.Median.{IsOrdered}
use nat_framework.Risk.Instr.{RiskInstr, ok}
use nat_framework.Risk.InstrTop
use nat_framework.Risk.InstrTop.{
  TreapNode, Treap, AllNodes, without, IsLast, IsTreap, RiskInstrTop, priority_order, is_self_trade,
  erase_order,
}
use nat_framework.Risk.Nodes.{AllNodes-map, AllNodes-append_last, AllNodes-without, AllNodes-both}

module _ {D T : Type 0} ⦃F : Double D⦄ (ops : Treap D T) (treap : IsTreap ops) where
  open treap use {elements}

  -- No buying order's price reaches a selling order's.
  abbrev pub Apart : List (TreapNode D) → List (TreapNode D) → Type 0
  Apart bids asks = AllNodes (λ b. AllNodes (λ a. F.leb a.price b.price ≡ false) asks) bids

  pub record IsUncrossed (r : RiskInstrTop D T) : Type 0 where
    pub buying : AllNodes (λ n. (n.dir == buy) ≡ true) (elements r.bid_treap)
    pub selling : AllNodes (λ n. (n.dir == buy) ≡ false) (elements r.ask_treap)
    pub apart : Apart (elements r.bid_treap) (elements r.ask_treap)

  erase_buy :
      (t : OrderTrack D) (r : RiskInstrTop D T)
      → (t.dir == buy) ≡ true
      → record r { bid_treap = ops.erase t.order_ref r.bid_treap } ≡ erase_order ops t r
  erase_buy t r b = ground arith

  erase_sell :
      (t : OrderTrack D) (r : RiskInstrTop D T)
      → (t.dir == buy) ≡ false
      → record r { ask_treap = ops.erase t.order_ref r.ask_treap } ≡ erase_order ops t r
  erase_sell t r b = ground arith

  module _ (ordered : IsOrdered F) where
    -- A buying price that does not reach the top reaches no selling order.
    below_asks :
        (r : RiskInstrTop D T) (dir : ℕ) (px : D)
        → (dir == buy) ≡ true
        → is_self_trade ops dir px r ≡ false
        → AllNodes (λ n. (n.dir == buy) ≡ false) (elements r.ask_treap)
        → AllNodes (λ a. F.leb a.price px ≡ false) (elements r.ask_treap)
    below_asks r dir px d h s = elim (Option-cases (ops.top r.ask_treap)) [
      | inl out ↦ rw (treap.top_none r.ask_treap out) tt
      | inr (n, e) ↦
          let far : F.leb n.price px ≡ false = ground arith in
          AllNodes-map _ _ (elements r.ask_treap)
            (λ m p.
              ground
                (arith, p, ordered.not_lt-le m.price n.price, ordered.trans_le n.price m.price px))
            (AllNodes-both _ _ (elements r.ask_treap) s (treap.top_first r.ask_treap n false s e))
    ]

    above_bids :
        (r : RiskInstrTop D T) (dir : ℕ) (px : D)
        → (dir == buy) ≡ false
        → is_self_trade ops dir px r ≡ false
        → AllNodes (λ n. (n.dir == buy) ≡ true) (elements r.bid_treap)
        → AllNodes (λ b. F.leb px b.price ≡ false) (elements r.bid_treap)
    above_bids r dir px d h s = elim (Option-cases (ops.top r.bid_treap)) [
      | inl out ↦ rw (treap.top_none r.bid_treap out) tt
      | inr (n, e) ↦
          let far : F.leb px n.price ≡ false = ground arith in
          AllNodes-map _ _ (elements r.bid_treap)
            (λ m p.
              ground
                (arith, p, ordered.not_lt-le n.price m.price, ordered.trans_le px m.price n.price))
            (AllNodes-both _ _ (elements r.bid_treap) s (treap.top_first r.bid_treap n true s e))
    ]

    bought-IsUncrossed :
        (r r' : RiskInstrTop D T) (n : TreapNode D)
        → elements r'.bid_treap ≡ elements r.bid_treap ++ n ∷ []
        → elements r'.ask_treap ≡ elements r.ask_treap
        → (n.dir == buy) ≡ true
        → is_self_trade ops n.dir n.price r ≡ false
        → IsUncrossed r
        → IsUncrossed r'
    bought-IsUncrossed r r' n eb ea d h u = record {
      buying = rw (eb) (AllNodes-append_last _ (elements r.bid_treap) n u.buying d);
      selling = rw (ea) u.selling;
      apart =
          rw (eb, ea)
            (AllNodes-append_last _ (elements r.bid_treap) n u.apart
              (below_asks r n.dir n.price d h u.selling));
    }

    sold-IsUncrossed :
        (r r' : RiskInstrTop D T) (n : TreapNode D)
        → elements r'.bid_treap ≡ elements r.bid_treap
        → elements r'.ask_treap ≡ elements r.ask_treap ++ n ∷ []
        → (n.dir == buy) ≡ false
        → is_self_trade ops n.dir n.price r ≡ false
        → IsUncrossed r
        → IsUncrossed r'
    sold-IsUncrossed r r' n eb ea d h u = record {
      buying = rw (eb) u.buying;
      selling = rw (ea) (AllNodes-append_last _ (elements r.ask_treap) n u.selling d);
      apart =
          rw (eb, ea)
            (AllNodes-map _ _ (elements r.bid_treap)
              (λ b p. AllNodes-append_last _ (elements r.ask_treap) n p.0 p.1)
              (AllNodes-both _ _ (elements r.bid_treap) u.apart
                (above_bids r n.dir n.price d h u.buying)));
    }

    erased-IsUncrossed :
        (t : OrderTrack D) (r : RiskInstrTop D T)
        → IsUncrossed r
        → IsUncrossed (erase_order ops t r)
    erased-IsUncrossed t r u = elim (Bool-cases (t.dir == buy)) [
      | inl b ↦
          let e = treap.elements_erase t.order_ref r.bid_treap in
          subst IsUncrossed (erase_buy t r b) (record {
            buying = rw (e) (AllNodes-without _ t.order_ref (elements r.bid_treap) u.buying);
            selling = u.selling;
            apart = rw (e) (AllNodes-without _ t.order_ref (elements r.bid_treap) u.apart);
          })
      | inr s ↦
          let e = treap.elements_erase t.order_ref r.ask_treap in
          subst IsUncrossed (erase_sell t r s) (record {
            buying = u.buying;
            selling = rw (e) (AllNodes-without _ t.order_ref (elements r.ask_treap) u.selling);
            apart = rw (e) (
                AllNodes-map _ _ (elements r.bid_treap)
                  (λ b p. AllNodes-without _ t.order_ref (elements r.ask_treap) p) u.apart);
          })
    ]

    checked :
        (r : RiskInstrTop D T) (v : UnitVol) (dir off : ℕ) (px : D) (vol nano : ℤ)
        → InstrTop.check ops r v dir off px vol nano ≡ ok
        → is_self_trade ops dir px r ≡ false
    unfolding InstrTop.check
    checked r v dir off px vol nano e = ground arith

    on_new-IsUncrossed :
        (r r' : RiskInstrTop D T) (v : UnitVol) (dir off : ℕ) (px : D) (vol nano ref : ℤ)
        → InstrTop.check ops r v dir off px vol nano ≡ ok
        → IsLast ref (elements r.bid_treap)
        → IsLast ref (elements r.ask_treap)
        → InstrTop.on_new ops dir px ref nano r ≡ some r'
        → IsUncrossed r
        → IsUncrossed r'
    unfolding InstrTop.on_new
    on_new-IsUncrossed r r' v dir off px vol nano ref c lb la e u =
        let n : TreapNode D = record { order_ref = ref; price = px; dir = dir } in
        let h = checked r v dir off px vol nano c in
        elim (Bool-cases (dir == buy)) [
          | inl b ↦
              bought-IsUncrossed r r' n (ground (arith, treap.elements_push_back n r.bid_treap lb))
                (ground arith) b h u
          | inr s ↦
              sold-IsUncrossed r r' n (ground arith)
                (ground (arith, treap.elements_push_back n r.ask_treap la)) s h u
        ]

    -- Orders that were checked, and what is told of them.
    pub data Reach (r0 : RiskInstr D) : RiskInstrTop D T → Type 0 where
      start :
          Reach r0 (record {
            instr = r0;
            vec_treap_node = [];
            ask_treap = ops.empty;
            bid_treap = ops.empty;
          })
      ordered_new :
          {r r' : RiskInstrTop D T} (v : UnitVol) (dir off : ℕ) (px : D) (vol nano ref : ℤ)
          → Reach r0 r
          → InstrTop.check ops r v dir off px vol nano ≡ ok
          → IsLast ref (elements r.bid_treap)
          → IsLast ref (elements r.ask_treap)
          → InstrTop.on_new ops dir px ref nano r ≡ some r'
          → Reach r0 r'
      cxl :
          {r : RiskInstrTop D T} (t : OrderTrack D)
          → Reach r0 r
          → Reach r0 (InstrTop.on_cxl ops t r)
      trd :
          {r : RiskInstrTop D T} (t : OrderTrack D)
          → Reach r0 r
          → Reach r0 (InstrTop.on_trd ops t r)
      day : {r : RiskInstrTop D T} → Reach r0 r → Reach r0 (InstrTop.on_switch_day ops r)

    empty-IsUncrossed :
        (r : RiskInstrTop D T) → r.bid_treap ≡ ops.empty → r.ask_treap ≡ ops.empty → IsUncrossed r
    empty-IsUncrossed r eb ea = record {
      buying = rw (eb, treap.elements_empty) tt;
      selling = rw (ea, treap.elements_empty) tt;
      apart = rw (eb, treap.elements_empty) tt;
    }

    on_cxl-IsUncrossed :
        (t : OrderTrack D) (r : RiskInstrTop D T)
        → IsUncrossed r
        → IsUncrossed (InstrTop.on_cxl ops t r)
    unfolding InstrTop.on_cxl
    on_cxl-IsUncrossed t r u = erased-IsUncrossed t r u

    on_trd-IsUncrossed :
        (t : OrderTrack D) (r : RiskInstrTop D T)
        → IsUncrossed r
        → IsUncrossed (InstrTop.on_trd ops t r)
    unfolding InstrTop.on_trd
    on_trd-IsUncrossed t r u =
        elim (t.vol_traded ==ℤ t.vol) as (λ b. IsUncrossed (if b then erase_order ops t r else r)) [
          | true ↦ erased-IsUncrossed t r u
          | false ↦ u
        ]

    on_switch_day-IsUncrossed : (r : RiskInstrTop D T) → IsUncrossed (InstrTop.on_switch_day ops r)
    unfolding InstrTop.on_switch_day
    on_switch_day-IsUncrossed r = empty-IsUncrossed _ refl refl

    -- If the prices are ordered as numbers are and the treaps keep what their library says of
    -- them, then in every state of the engine's limits of an instrument that is reached by orders
    -- for which the check returned 0, each with the largest reference yet and while the vector of
    -- nodes has room, by cancels, trades and day changes, no buying order that rests has a price
    -- that reaches that of a selling order that rests.
    pub Reach-IsUncrossed : (r0 : RiskInstr D) {r : RiskInstrTop D T} → Reach r0 r → IsUncrossed r
    Reach-IsUncrossed r0 start = empty-IsUncrossed _ refl refl
    Reach-IsUncrossed r0 (ordered_new {r} {r'} v dir off px vol nano ref w c lb la e) =
        on_new-IsUncrossed r r' v dir off px vol nano ref c lb la e (Reach-IsUncrossed r0 w)
    Reach-IsUncrossed r0 (cxl {r} t w) = on_cxl-IsUncrossed t r (Reach-IsUncrossed r0 w)
    Reach-IsUncrossed r0 (trd {r} t w) = on_trd-IsUncrossed t r (Reach-IsUncrossed r0 w)
    Reach-IsUncrossed r0 (day {r} w) = on_switch_day-IsUncrossed r

-- ===== src/Risk/InstrTop.antt =====
-- src/risk/RiskInstrTop.cpp: the engine's checks of one instrument. The treaps are another
-- library's; they are a type with the operations that the code calls.
use nat_framework.Prelude.{
  ℕ, ltb, ℤ, negsuc, ◌==ℤ◌, ◌==◌, ltb_ℤ, Bool, true, false, ◌≡◌, Option, none, some, List, [], ◌∷◌,
  ◌++◌, if◌then◌else◌,
}
use nat_framework.Prelude.Lists.{length}
use nat_framework.Double.{Double}
use nat_framework.TradeBase.{OrderTrack}
use nat_framework.Account.Codes.{buy}
use nat_framework.Account.Vol.{UnitVol}
use nat_framework.Risk.Instr
use nat_framework.Risk.Instr.{RiskInstr, ok}

pub record TreapNode (D : Type 0) : Type 0 where
  pub order_ref : ℤ
  pub price : D
  pub dir : ℕ

pub record Treap (D T : Type 0) : Type 0 where
  pub empty : T
  pub push_back : TreapNode D → T → T
  pub erase : ℤ → T → T
  pub top : T → Option (TreapNode D)

module _ {D : Type 0} where
  abbrev pub AllNodes : (TreapNode D → Type 0) → List (TreapNode D) → Type 0
  AllNodes P [] = Unit
  AllNodes P (n ∷ ns) = P n × AllNodes P ns

  abbrev pub without : ℤ → List (TreapNode D) → List (TreapNode D)
  without ref [] = []
  without ref (n ∷ ns) = if n.order_ref ==ℤ ref then without ref ns else n ∷ without ref ns

  -- `order_ref` of a new node is the largest yet.
  abbrev pub IsLast : ℤ → List (TreapNode D) → Type 0
  IsLast ref ns = AllNodes (λ n. ltb_ℤ n.order_ref ref ≡ true) ns

module _ {D : Type 0} ⦃F : Double D⦄ where
  -- Whether `a` stands above `b`.
  abbrev pub priority_order : TreapNode D → TreapNode D → Bool
  priority_order a b = if a.dir == buy then F.ltb b.price a.price else F.ltb a.price b.price

  -- What the library says of its treap: which nodes it holds after each operation, a node being
  -- appended that is not before another, and that none stands above the top while all are on one
  -- side.
  pub record IsTreap {T : Type 0} (ops : Treap D T) : Type 0 where
    pub elements : T → List (TreapNode D)
    pub elements_empty : elements ops.empty ≡ []
    pub elements_push_back :
        (n : TreapNode D) (t : T)
        → IsLast n.order_ref (elements t)
        → elements (ops.push_back n t) ≡ elements t ++ n ∷ []
    pub elements_erase : (ref : ℤ) (t : T) → elements (ops.erase ref t) ≡ without ref (elements t)
    pub top_none : (t : T) → ops.top t ≡ none → elements t ≡ []
    pub top_first :
        (t : T) (n : TreapNode D) (is_buying : Bool)
        → AllNodes (λ m. (m.dir == buy) ≡ is_buying) (elements t)
        → ops.top t ≡ some n
        → AllNodes (λ m. priority_order m n ≡ false) (elements t)

-- The treaps link the nodes of the vector. It has room for 1024 and moves them when it grows.
pub record RiskInstrTop (D T : Type 0) : Type 0 where
  pub instr : RiskInstr D
  pub vec_treap_node : List (TreapNode D)
  pub ask_treap : T
  pub bid_treap : T

module _ {D T : Type 0} ⦃F : Double D⦄ (ops : Treap D T) where
  -- The links dangle once the vector has moved its nodes, which gives none.
  unfoldable pub on_new : ℕ → D → ℤ → ℤ → RiskInstrTop D T → Option (RiskInstrTop D T)
  on_new dir px order_ref nano r =
      let node : TreapNode D = record { order_ref = order_ref; price = px; dir = dir } in
      let pushed : RiskInstrTop D T =
        if dir == buy
        then record r { bid_treap = ops.push_back node r.bid_treap }
        else record r { ask_treap = ops.push_back node r.ask_treap } in
      if ltb (length r.vec_treap_node) 1024
      then some (record pushed {
        instr = Instr.on_new nano r.instr;
        vec_treap_node = r.vec_treap_node ++ node ∷ [];
      })
      else none

  abbrev pub erase_order : OrderTrack D → RiskInstrTop D T → RiskInstrTop D T
  erase_order t r =
      if t.dir == buy
      then record r { bid_treap = ops.erase t.order_ref r.bid_treap }
      else record r { ask_treap = ops.erase t.order_ref r.ask_treap }

  unfoldable pub on_cxl : OrderTrack D → RiskInstrTop D T → RiskInstrTop D T
  on_cxl t r = erase_order t r

  unfoldable pub on_trd : OrderTrack D → RiskInstrTop D T → RiskInstrTop D T
  on_trd t r = if t.vol_traded ==ℤ t.vol then erase_order t r else r

  -- The order would trade with the best of the account's own orders.
  abbrev pub is_self_trade : ℕ → D → RiskInstrTop D T → Bool
  is_self_trade dir px r =
      if dir == buy
      then elim (ops.top r.ask_treap) [ none ↦ false | some n ↦ F.leb n.price px ]
      else elim (ops.top r.bid_treap) [ none ↦ false | some n ↦ F.leb px n.price ]

  unfoldable pub check : RiskInstrTop D T → UnitVol → ℕ → ℕ → D → ℤ → ℤ → ℤ
  check r v dir off px vol nano =
      if is_self_trade dir px r
      then (if dir == buy then negsuc 229 else negsuc 230)
      else Instr.check r.instr v dir off vol nano

  unfoldable pub on_switch_day : RiskInstrTop D T → RiskInstrTop D T
  on_switch_day r = record r { bid_treap = ops.empty; ask_treap = ops.empty; vec_treap_node = [] }

-- ===== src/Risk/Nodes.antt =====
-- src/risk/RiskInstrTop.h: lists of the nodes of a treap.
use nat_framework.Prelude.{ℤ, true, false, if◌then◌else◌, ◌==ℤ◌, List, [], ◌∷◌, ◌++◌}
use nat_framework.Risk.InstrTop.{TreapNode, AllNodes, without}

module _ {D : Type 0} where
  pub AllNodes-map :
      (P Q : TreapNode D → Type 0) (ns : List (TreapNode D))
      → ((n : TreapNode D) → P n → Q n)
      → AllNodes P ns
      → AllNodes Q ns
  AllNodes-map P Q [] f a = tt
  AllNodes-map P Q (n ∷ ns) f a = (f n a.0, AllNodes-map P Q ns f a.1)

  pub AllNodes-append_last :
      (P : TreapNode D → Type 0) (ns : List (TreapNode D)) (n : TreapNode D)
      → AllNodes P ns
      → P n
      → AllNodes P (ns ++ n ∷ [])
  AllNodes-append_last P [] n a p = (p, tt)
  AllNodes-append_last P (m ∷ ns) n a p = (a.0, AllNodes-append_last P ns n a.1 p)

  pub AllNodes-without :
      (P : TreapNode D → Type 0) (ref : ℤ) (ns : List (TreapNode D))
      → AllNodes P ns
      → AllNodes P (without ref ns)
  AllNodes-without P ref [] a = tt
  AllNodes-without P ref (n ∷ ns) a =
      elim (n.order_ref ==ℤ ref)
        as (λ b. AllNodes P (if b then without ref ns else n ∷ without ref ns)) [
          | true ↦ AllNodes-without P ref ns a.1
          | false ↦ (a.0, AllNodes-without P ref ns a.1)
        ]

  pub AllNodes-both :
      (P Q : TreapNode D → Type 0) (ns : List (TreapNode D))
      → AllNodes P ns
      → AllNodes Q ns
      → AllNodes (λ n. P n × Q n) ns
  AllNodes-both P Q [] a b = tt
  AllNodes-both P Q (n ∷ ns) a b = ((a.0, b.0), AllNodes-both P Q ns a.1 b.1)

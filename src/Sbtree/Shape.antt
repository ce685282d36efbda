-- ===== src/Sbtree/Shape.antt =====
-- src/sbtree.c: what a tree of nodes is to be, and what a rotation keeps of it.
use concentrator.Common.{ℕ, ◌+◌, ◌*◌, ◌≤◌, ◌≡◌, refl, ◌∙◌, ◌∷◌, arith, length, length-append}
use concentrator.Sbtree.{Tree, null, node, is_null, size, inorder}

module _ {ℓ} {A : Type ℓ} where
  -- The nodes of a tree, counted.
  abbrev pub count : Tree A → ℕ
  count null = 0
  count (node l s x r) = count l + count r + 1

  -- Every node stores the number of nodes below it, itself included.
  abbrev pub IsSized : Tree A → Type 0
  IsSized null = Unit
  IsSized (node l s x r) = IsSized l × (s ≡ count l + count r + 1) × IsSized r

  -- The sum of all sizes: a rotation that `sbtree_maintain` makes lowers it.
  abbrev pub weight : Tree A → ℕ
  weight null = 0
  weight (node l s x r) = weight l + weight r + (count l + count r + 1)

  pub size-eq-count : (t : Tree A) → IsSized t → size t ≡ count t
  size-eq-count null h = refl
  size-eq-count (node l s x r) h = h.1

  pub count-eq-length : (t : Tree A) → count t ≡ length (inorder t)
  count-eq-length null = refl
  count-eq-length (node l s x r) =
      omega (arith, length-append (inorder l) (x ∷ inorder r), count-eq-length l, count-eq-length r)

  -- What a rotation or a rebalancing keeps.
  pub record Kept (t t' : Tree A) : Type ℓ where
    pub same_order : inorder t' ≡ inorder t
    pub sized : IsSized t'
    pub lighter : weight t' ≤ weight t
    pub there : is_null t' ≡ is_null t

  pub Kept-refl : (t : Tree A) → IsSized t → Kept t t
  Kept-refl t h = record { same_order = refl; sized = h; lighter = omega arith; there = refl }

  pub Kept-trans : {t u v : Tree A} → Kept t u → Kept u v → Kept t v
  Kept-trans p q = record {
    same_order = q.same_order ∙ p.same_order;
    sized = q.sized;
    lighter = omega (arith, p.lighter, q.lighter);
    there = q.there ∙ p.there;
  }

  -- The weight of a tree is at most the square of its count.
  pub weight-le : (t : Tree A) → weight t ≤ count t * count t
  weight-le null = omega arith
  weight-le (node l s x r) = grind (arith, weight-le l, weight-le r)

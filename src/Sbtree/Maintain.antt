-- ===== src/Sbtree/Maintain.antt =====
-- src/sbtree.c, `sbtree_maintain`: it follows no null pointer, it ends, it keeps the order of the
-- nodes, and it leaves every stored size right.
use concentrator.Common.{
  ℕ, zero, suc, ◌<◌, ◌≡◌, refl, ap, ◌∙◌, Bool, true, false, Option, List, ◌∷◌, ◌++◌, arith, sym,
  length,
}
use concentrator.Common.Outcome.{Outcome, done}
use concentrator.Sbtree.{
  Tree, null, node, is_null, left, right, rebalance, maintain_parts, sbtree_maintain, inorder,
}
use concentrator.Sbtree.Shape.{count, count-eq-length, IsSized, weight, Kept, Kept-refl, Kept-trans}
use concentrator.Sbtree.Rotate.{Rebalanced, stays, turned, rebalance-Rebalanced}

module _ {ℓ} {A : Type ℓ} where
  same_count : {t t' : Tree A} → Kept t t' → count t' ≡ count t
  same_count {t} {t'} k = count-eq-length t' ∙ ap length k.same_order ∙ sym (count-eq-length t)

  -- Work on a child is work on the tree.
  left_part :
      (l l' r : Tree A) (s : ℕ) (x : A)
      → IsSized (node l s x r)
      → Kept l l'
      → Kept (node l s x r) (node l' s x r)
  left_part l l' r s x h k = record {
    same_order = ap (λ (q : List A). q ++ x ∷ inorder r) k.same_order;
    sized = (k.sized, omega (arith, h.1, same_count k), h.2);
    lighter = omega (arith, k.lighter, same_count k);
    there = refl;
  }

  right_part :
      (l r r' : Tree A) (s : ℕ) (x : A)
      → IsSized (node l s x r)
      → Kept r r'
      → Kept (node l s x r) (node l s x r')
  right_part l r r' s x h k = record {
    same_order = ap (λ (q : List A). inorder l ++ x ∷ q) k.same_order;
    sized = (h.0, omega (arith, h.1, same_count k), k.sized);
    lighter = omega (arith, k.lighter, same_count k);
    there = refl;
  }

  -- A call that returns, with a tree that is kept.
  abbrev pub Maintains : Tree A → Outcome (Tree A) → Type ℓ
  Maintains t o = (t' : Tree A) × (o ≡ done t') × Kept t t'

  maintain_parts-Maintains :
      (maintain : Tree A → Bool → Outcome (Tree A)) (fuel : ℕ)
      → ((u : Tree A) (flag : Bool)
          → IsSized u
          → is_null u ≡ false
          → weight u < fuel
          → Maintains u (maintain u flag))
      → (t : Tree A) → IsSized t
      → is_null (left t) ≡ false
      → is_null (right t) ≡ false
      → weight t < fuel
      → Maintains t (maintain_parts maintain t)
  unfolding maintain_parts
  maintain_parts-Maintains maintain fuel works null h nl nr lt = cc
  maintain_parts-Maintains maintain fuel works (node l s x r) h nl nr lt =
      let (l', el, kl) = works l false h.0 nl (omega arith) in
      let (r', er, kr) = works r true h.2 nr (omega arith) in
      let first = left_part l l' r s x h kl in
      let both = Kept-trans first (right_part l' r r' s x first.sized kr) in
      let (t₁, e₁, k₁) =
        works (node l' s x r') false both.sized refl (omega (arith, both.lighter)) in
      let so_far = Kept-trans both k₁ in
      let (t₂, e₂, k₂) = works t₁ true so_far.sized so_far.there (omega (arith, so_far.lighter)) in
      (t₂, rw (el, er, e₁) e₂, Kept-trans so_far k₂)

  after_rebalance :
      (fuel : ℕ)
      → ((u : Tree A) (flag : Bool)
          → IsSized u
          → is_null u ≡ false
          → weight u < fuel
          → Maintains u (sbtree_maintain fuel u flag))
      → (t : Tree A) (flag : Bool) → IsSized t
      → weight t < suc fuel
      → {o : Outcome (Option (Tree A))} → Rebalanced t o
      → rebalance t flag ≡ o
      → Maintains t (sbtree_maintain (suc fuel) t flag)
  unfolding sbtree_maintain
  after_rebalance fuel works t flag h lt stays e = (t, rw (e, sbtree_maintain) refl, Kept-refl t h)
  after_rebalance fuel works t flag h lt (turned t' kept lighter nl nr) e =
      let (t'', e', kept') =
        maintain_parts-Maintains (sbtree_maintain fuel) fuel works t' kept.sized nl nr
          (omega arith) in
      (t'', rw (e, sbtree_maintain) e', Kept-trans kept kept')

  -- On a tree with right sizes and fuel above its weight, the call returns: the fuel suffices and no
  -- null pointer is followed. The nodes keep their order and every stored size is right.
  pub sbtree_maintain-Maintains :
      (fuel : ℕ) (t : Tree A) (flag : Bool)
      → IsSized t
      → is_null t ≡ false
      → weight t < fuel
      → Maintains t (sbtree_maintain fuel t flag)
  sbtree_maintain-Maintains zero t flag h n lt = absurd (omega arith)
  sbtree_maintain-Maintains (suc fuel) t flag h n lt =
      after_rebalance fuel (sbtree_maintain-Maintains fuel) t flag h lt
        (rebalance-Rebalanced t flag h n) refl

-- ===== src/Sbtree/Insert.antt =====
-- src/sbtree.c, `sbtree_insert`: it returns, and is an insertion into the ordered list of the nodes.
use concentrator.Common.{
  ℕ, ◌+◌, ◌*◌, ◌≤◌, ◌<◌, ◌≡◌, refl, sym, ap, ◌∙◌, inl, inr, Bool, false, List, [], ◌∷◌, ◌++◌, arith,
  leb, ltb, length, Bool-cases,
}
use concentrator.Common.Outcome.{Outcome, done}
use concentrator.Sbtree.{Tree, null, node, is_null, sbtree_maintain, sbtree_insert, inorder}
use concentrator.Sbtree.Shape.{count, count-eq-length, IsSized, weight, weight-le}
use concentrator.Sbtree.Maintain.{sbtree_maintain-Maintains}
use concentrator.Sbtree.Order.{IsSorted, place, place_left, place_right, Around, around}

module _ {ℓ} {A : Type ℓ} (getkey : A → ℕ) where
  length-place : (x : A) (xs : List A) → length (place getkey x xs) ≡ length xs + 1
  unfolding place
  length-place x [] = omega arith
  length-place x (y ∷ ys) = ground (arith, length-place x ys)

  -- A call that returns a tree with right sizes, whose nodes in order are the old ones with `x` in
  -- its place.
  abbrev pub Inserts : Tree A → A → Outcome (Tree A) → Type ℓ
  Inserts t x o =
      (t' : Tree A) × (o ≡ done t') × IsSized t' × (inorder t' ≡ place getkey x (inorder t))

  grown : (t t' : Tree A) (x : A) → inorder t' ≡ place getkey x (inorder t) → count t' ≡ count t + 1
  grown t t' x e =
      omega (arith, count-eq-length t, count-eq-length t', length-place x (inorder t), ap length e)

  -- The end of a call: the subtree has been replaced, and the tree is rebalanced.
  finish :
      (fuel : ℕ) (t : Tree A) (x : A) (t₁ : Tree A) (flag : Bool)
      → IsSized t₁
      → is_null t₁ ≡ false
      → inorder t₁ ≡ place getkey x (inorder t)
      → (count t + 1) * (count t + 1) < fuel
      → Inserts t x (sbtree_maintain fuel t₁ flag)
  finish fuel t x t₁ flag h n e room =
      let light : weight t₁ < fuel =
        omega (arith, weight-le t₁, ap (λ (k : ℕ). k * k) (grown t t₁ x e)) in
      let (t', e', kept) = sbtree_maintain-Maintains fuel t₁ flag h n light in
      (t', e', kept.sized, kept.same_order ∙ e)

  square_mono : (a b : ℕ) → a ≤ b → (a + 1) * (a + 1) ≤ (b + 1) * (b + 1)
  square_mono a b h = grind arith

  -- On a tree with right sizes and ordered keys, with fuel above the square of the new count, the call
  -- returns; the new tree has right sizes, and its nodes are the old ones in order with the new node
  -- before the first one whose key is not smaller.
  pub sbtree_insert-Inserts :
      (fuel : ℕ) (t : Tree A) (x : A)
      → IsSized t
      → IsSorted getkey (inorder t)
      → (count t + 1) * (count t + 1) < fuel
      → Inserts t x (sbtree_insert getkey fuel t x)
  unfolding sbtree_insert
  sbtree_insert-Inserts fuel null x h s room =
      (node null 1 x null, refl, (tt, omega arith, tt), unfold place in refl)
  sbtree_insert-Inserts fuel (node l c y r) x h s room =
      elim (Bool-cases (leb (getkey x) (getkey y))) [
        | inl le ↦
            let (l', e, hl, o) =
              sbtree_insert-Inserts fuel l x h.0 parts.before
                (omega (arith, square_mono (count l) (count (node l c y r)) (omega arith))) in
            rw (le, e)
              (finish fuel (node l c y r) x (node l' (c + 1) y r) (ltb (getkey y) (getkey x))
                (hl, omega (arith, h.1, grown l l' x o), h.2) refl
                (ap (λ q. q ++ y ∷ inorder r) o
                  ∙ sym (place_left getkey x y (inorder l) (inorder r) (ground arith)))
                room)
        | inr gt ↦
            let (r', e, hr, o) =
              sbtree_insert-Inserts fuel r x h.2 parts.after
                (omega (arith, square_mono (count r) (count (node l c y r)) (omega arith))) in
            rw (gt, e)
              (finish fuel (node l c y r) x (node l (c + 1) y r') (ltb (getkey y) (getkey x))
                (h.0, omega (arith, h.1, grown r r' x o), hr) refl
                (ap (λ q. inorder l ++ y ∷ q) o
                  ∙ sym (place_right getkey x y (inorder l) (inorder r) (ground arith) parts.below))
                room)
      ]
    where
      parts : Around getkey (inorder l) y (inorder r)
      parts = around getkey (inorder l) y (inorder r) s

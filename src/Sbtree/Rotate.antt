-- ===== src/Sbtree/Rotate.antt =====
-- src/sbtree.c, `sbtree_maintain`: the rotations of one call, before its recursive calls. They
-- follow no null pointer, keep the order and the sizes, and make the tree lighter.
use concentrator.Common.{
  ℕ, ◌+◌, ◌<◌, ◌≡◌, refl, inl, inr, Bool, true, false, Option, none, some, append_assoc, arith,
  Bool-cases,
}
use concentrator.Common.Outcome.{Outcome, done}
use concentrator.Sbtree.{Tree, null, node, is_null, size, left, right, heavier, rebalance}
use concentrator.Sbtree.Shape.{count, IsSized, weight, size-eq-count, Kept}

module _ {ℓ} {A : Type ℓ} where
  -- One call's rotations: none, or a strictly lighter tree of the same nodes with two children.
  pub data Rebalanced (t : Tree A) : Outcome (Option (Tree A)) → Type ℓ where
    stays : Rebalanced t (done none)
    turned :
        (t' : Tree A)
        → Kept t t'
        → weight t' < weight t
        → is_null (left t') ≡ false
        → is_null (right t') ≡ false
        → Rebalanced t (done (some t'))

  heavier-lt : (a r : Tree A) → IsSized a → IsSized r → heavier a r ≡ true → count r < count a
  unfolding heavier
  heavier-lt null r ha hr e = cc
  heavier-lt (node a s x b) null ha hr e = omega arith
  heavier-lt (node a s x b) (node c s' y d) ha hr e = ground arith

  -- The trees that the rotations make of a tree that is heavy on one side.
  right_single :
      (a b c : Tree A) (s s' : ℕ) (x y : A)
      → IsSized (node (node a s' y b) s x c)
      → count c < count a
      → (t : Tree A) → t ≡ node a s y (node b (size b + size c + 1) x c)
      → Kept (node (node a s' y b) s x c) t × (weight t < weight (node (node a s' y b) s x c))
  right_single a b c s s' x y h lt t e = rw e (
    record {
      same_order = rw append_assoc;
      sized = (
        h.0.0,
        omega arith,
        (h.0.2, omega (arith, size-eq-count b h.0.2, size-eq-count c h.2), h.2),
      );
      lighter = omega arith;
      there = refl;
    },
    omega arith,
  )

  left_single :
      (a b c : Tree A) (s s' : ℕ) (x y : A)
      → IsSized (node a s x (node b s' y c))
      → count a < count c
      → (t : Tree A) → t ≡ node (node a (size a + size b + 1) x b) s y c
      → Kept (node a s x (node b s' y c)) t × (weight t < weight (node a s x (node b s' y c)))
  left_single a b c s s' x y h lt t e = rw e (
    record {
      same_order = rw append_assoc;
      sized = (
        (h.0, omega (arith, size-eq-count a h.0, size-eq-count b h.2.0), h.2.0),
        omega arith,
        h.2.2,
      );
      lighter = omega arith;
      there = refl;
    },
    omega arith,
  )

  right_double :
      (a b c d : Tree A) (s s' s'' : ℕ) (x y z : A)
      → IsSized (node (node a s' y (node b s'' z c)) s x d)
      → count d < count b + count c + 1
      → (t : Tree A)
      → t ≡ node (node a (size a + size b + 1) y b) s z (node c (size c + size d + 1) x d)
      → Kept (node (node a s' y (node b s'' z c)) s x d) t
        × (weight t < weight (node (node a s' y (node b s'' z c)) s x d))
  right_double a b c d s s' s'' x y z h lt t e = rw e (
    record {
      same_order = simp append_assoc;
      sized = (
        (h.0.0, omega (arith, size-eq-count a h.0.0, size-eq-count b h.0.2.0), h.0.2.0),
        omega arith,
        (h.0.2.2, omega (arith, size-eq-count c h.0.2.2, size-eq-count d h.2), h.2),
      );
      lighter = omega arith;
      there = refl;
    },
    omega arith,
  )

  left_double :
      (a b c d : Tree A) (s s' s'' : ℕ) (x y z : A)
      → IsSized (node a s x (node (node b s'' z c) s' y d))
      → count a < count b + count c + 1
      → (t : Tree A)
      → t ≡ node (node a (size a + size b + 1) x b) s z (node c (size c + size d + 1) y d)
      → Kept (node a s x (node (node b s'' z c) s' y d)) t
        × (weight t < weight (node a s x (node (node b s'' z c) s' y d)))
  left_double a b c d s s' s'' x y z h lt t e = rw e (
    record {
      same_order = simp append_assoc;
      sized = (
        (h.0, omega (arith, size-eq-count a h.0, size-eq-count b h.2.0.0), h.2.0.0),
        omega arith,
        (h.2.0.2, omega (arith, size-eq-count c h.2.0.2, size-eq-count d h.2.2), h.2.2),
      );
      lighter = omega arith;
      there = refl;
    },
    omega arith,
  )

  -- The second test of each side, where the first has failed.
  inner_left :
      (a b c : Tree A) (s s' : ℕ) (x y : A)
      → IsSized (node (node a s' y b) s x c)
      → heavier a c ≡ false
      → Rebalanced (node (node a s' y b) s x c) (rebalance (node (node a s' y b) s x c) false)
  unfolding rebalance heavier
  inner_left a null c s s' x y h e = rw (e, heavier) stays
  inner_left a (node b s'' z d) c s s' x y h e = elim (Bool-cases (heavier (node b s'' z d) c)) [
    | inl more ↦
        let (kept, lt) =
          right_double a b d c s s' s'' x y z h (heavier-lt (node b s'' z d) c h.0.2 h.2 more) _
            refl in
        rw (e, more) (turned _ kept lt refl refl)
    | inr less ↦ rw (e, less) stays
  ]

  inner_right :
      (a b c : Tree A) (s s' : ℕ) (x y : A)
      → IsSized (node a s x (node b s' y c))
      → heavier c a ≡ false
      → Rebalanced (node a s x (node b s' y c)) (rebalance (node a s x (node b s' y c)) true)
  unfolding rebalance heavier
  inner_right a null c s s' x y h e = rw (e, heavier) stays
  inner_right a (node b s'' z d) c s s' x y h e = elim (Bool-cases (heavier (node b s'' z d) a)) [
    | inl more ↦
        let (kept, lt) =
          left_double a b d c s s' s'' x y z h (heavier-lt (node b s'' z d) a h.2.0 h.0 more) _
            refl in
        rw (e, more) (turned _ kept lt refl refl)
    | inr less ↦ rw (e, less) stays
  ]

  outer_left :
      (a b c : Tree A) (s s' : ℕ) (x y : A)
      → IsSized (node (node a s' y b) s x c)
      → Rebalanced (node (node a s' y b) s x c) (rebalance (node (node a s' y b) s x c) false)
  unfolding rebalance
  outer_left null b c s s' x y h = inner_left null b c s s' x y h (unfold heavier in refl)
  outer_left (node a s'' z d) b c s s' x y h = elim (Bool-cases (heavier (node a s'' z d) c)) [
    | inl more ↦
        let (kept, lt) =
          right_single (node a s'' z d) b c s s' x y h
            (heavier-lt (node a s'' z d) c h.0.0 h.2 more) _ refl in
        rw more (turned _ kept lt refl refl)
    | inr less ↦ inner_left (node a s'' z d) b c s s' x y h less
  ]

  outer_right :
      (a b c : Tree A) (s s' : ℕ) (x y : A)
      → IsSized (node a s x (node b s' y c))
      → Rebalanced (node a s x (node b s' y c)) (rebalance (node a s x (node b s' y c)) true)
  unfolding rebalance
  outer_right a b null s s' x y h = inner_right a b null s s' x y h (unfold heavier in refl)
  outer_right a b (node c s'' z d) s s' x y h = elim (Bool-cases (heavier (node c s'' z d) a)) [
    | inl more ↦
        let (kept, lt) =
          left_single a b (node c s'' z d) s s' x y h (heavier-lt (node c s'' z d) a h.2.2 h.0 more)
            _ refl in
        rw more (turned _ kept lt refl refl)
    | inr less ↦ inner_right a b (node c s'' z d) s s' x y h less
  ]

  pub rebalance-Rebalanced :
      (t : Tree A) (flag : Bool) → IsSized t → is_null t ≡ false → Rebalanced t (rebalance t flag)
  unfolding rebalance heavier
  rebalance-Rebalanced null flag h n = cc
  rebalance-Rebalanced (node null s x c) false h n = stays
  rebalance-Rebalanced (node a s x null) true h n = stays
  rebalance-Rebalanced (node (node a s' y b) s x c) false h n = outer_left a b c s s' x y h
  rebalance-Rebalanced (node a s x (node b s' y c)) true h n = outer_right a b c s s' x y h

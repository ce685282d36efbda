-- ===== src/Sbtree/Delete.antt =====
-- src/sbtree.c, `sbtree_delete`: it unlinks one node and keeps the order of the others.
use concentrator.Common.{
  ℕ, ◌+◌, ◌-◌, ◌^◌, ◌≤◌, ◌<◌, ◌≡◌, ◌≢◌, sym, ◌⊎◌, inl, inr, true, false, ◌||◌, List, [], ◌∷◌, ◌++◌,
  append_assoc, append-nil, arith, All, All-append, u32, length, Bool-cases, dec_lt, ℕ_discrete,
}
use mathlib.Core.Path.{subst}
use concentrator.Common.Outcome.{done}
use concentrator.Sbtree.{Tree, null, node, is_null, stops_at, sbtree_delete, inorder}
use concentrator.Sbtree.Shape.{count, count-eq-length, IsSized}
use concentrator.Sbtree.Unlink.{
  delete_here, delete_swap, delete_left, delete_right, shrunk_last, delete_rightmost,
}
use concentrator.Sbtree.Order.{
  IsSorted, Around, around, Removes, here, there, Removes-prepend, Removes-append,
}

module _ {ℓ} {A : Type ℓ} (getkey : A → ℕ) where
  -- The call returns; the node that it unlinks was in the tree, the others keep their order and every
  -- stored size is right; and the node has the key unless no node has it.
  pub record Deleted (t : Tree A) (key : ℕ) (t' : Tree A) (d : A) : Type ℓ where
    pub returns : sbtree_delete getkey t key ≡ done (t', d)
    pub sized : IsSized t'
    pub removed : Removes d (inorder t) (inorder t')
    pub right_key : (getkey d ≡ key) ⊎ All (λ x. getkey x ≢ key) (inorder t)

  shrunk : {d : A} {xs ys : List A} → Removes d xs ys → length xs ≡ length ys + 1
  shrunk here = omega arith
  shrunk (there r) = omega (arith, shrunk r)

  count_removed :
      (t t' : Tree A) {d : A} → Removes d (inorder t) (inorder t') → count t ≡ count t' + 1
  count_removed t t' r = omega (arith, count-eq-length t, count-eq-length t', shrunk r)

  All-above :
      (key bound : ℕ) (xs : List A)
      → key < bound
      → All (λ x. bound ≤ getkey x) xs
      → All (λ x. getkey x ≢ key) xs
  All-above key bound [] h a = tt
  All-above key bound (x ∷ xs) h a = (omega (arith, a.0), All-above key bound xs h a.1)

  All-below :
      (key bound : ℕ) (xs : List A)
      → bound < key
      → All (λ x. getkey x ≤ bound) xs
      → All (λ x. getkey x ≢ key) xs
  All-below key bound [] h a = tt
  All-below key bound (x ∷ xs) h a = (omega (arith, a.0), All-below key bound xs h a.1)

  under_next :
      (key : ℕ) (xs : List A) → All (λ x. getkey x ≤ key) xs → All (λ x. getkey x < key + 1) xs
  under_next key [] a = tt
  under_next key (x ∷ xs) a = (omega (arith, a.0), under_next key xs a.1)

  go_left :
      (l r l' : Tree A) (c key : ℕ) (y d : A)
      → IsSized (node l c y r)
      → Around getkey (inorder l) y (inorder r)
      → stops_at getkey key l y r ≡ false
      → key < getkey y
      → Deleted l key l' d
      → Deleted (node l c y r) key (node l' (c - 1) y r) d
  go_left l r l' c key y d h parts go lt rest = record {
    returns = delete_left getkey l r l' c key y d go lt rest.returns;
    sized = (rest.sized, omega (arith, h.1, count_removed l l' rest.removed), h.2);
    removed = Removes-append (y ∷ inorder r) rest.removed;
    right_key = elim (rest.right_key) [
      | inl e ↦ inl e
      | inr none_left ↦ inr (
          All-append (λ x. getkey x ≢ key) (inorder l) (y ∷ inorder r) none_left
            (omega arith, All-above key (getkey y) (inorder r) lt parts.above))
    ];
  }

  go_right :
      (l r r' : Tree A) (c key : ℕ) (y d : A)
      → IsSized (node l c y r)
      → Around getkey (inorder l) y (inorder r)
      → stops_at getkey key l y r ≡ false
      → getkey y < key
      → Deleted r key r' d
      → Deleted (node l c y r) key (node l (c - 1) y r') d
  go_right l r r' c key y d h parts go lt rest = record {
    returns = delete_right getkey l r r' c key y d go (omega arith) rest.returns;
    sized = (h.0, omega (arith, h.1, count_removed r r' rest.removed), rest.sized);
    removed = Removes-prepend (inorder l) (there rest.removed);
    right_key = elim (rest.right_key) [
      | inl e ↦ inl e
      | inr none_right ↦ inr (
          All-append (λ x. getkey x ≢ key) (inorder l) (y ∷ inorder r)
            (All-below key (getkey y) (inorder l) lt parts.below) (omega arith, none_right))
    ];
  }

  -- A node with both children is replaced by the last node of its left subtree.
  replace_root :
      (l r : Tree A) (c key : ℕ) (y : A)
      → IsSized (node l c y r)
      → Around getkey (inorder l) y (inorder r)
      → key ≡ getkey y
      → key + 1 < 2 ^ 32
      → is_null l ≡ false
      → is_null r ≡ false
      → (t' : Tree A) × (d : A) × Deleted (node l c y r) key t' d
  replace_root l r c key y h parts e small nl nr =
      let next : u32 (key + 1) ≡ key + 1 = omega arith in
      let (l', d, e', hl, o) =
        delete_rightmost getkey l (key + 1) h.0 nl
          (under_next key (inorder l) (rw e parts.below)) in
      (
        node l' (c - 1) d r,
        y,
        record {
          returns =
              delete_swap getkey l r l' c key y d (unfold stops_at in ground arith) (rw (nl, nr))
                (rw next e');
          sized = (hl, omega (arith, h.1, shrunk_last getkey l l' d o), h.2);
          removed = rw (o, append_assoc) (Removes-prepend (inorder l') (there here));
          right_key = inl (sym e);
        },
      )

  -- Where the walk stops, the node has the key or no node has it.
  key_or_none :
      (l r : Tree A) (key : ℕ) (y : A)
      → Around getkey (inorder l) y (inorder r)
      → stops_at getkey key l y r ≡ true
      → (getkey y ≡ key) ⊎ All (λ x. getkey x ≢ key) (inorder l ++ y ∷ inorder r)
  unfolding stops_at
  key_or_none null r key y parts stop = elim (dec_lt key (getkey y)) [
    | yes lt ↦ inr (omega arith, All-above key (getkey y) (inorder r) lt parts.above)
    | no ge ↦ alone r stop ge
  ]
    where
      alone :
          (r : Tree A)
          → stops_at getkey key null y r ≡ true
          → ¬ (key < getkey y)
          → (getkey y ≡ key) ⊎ ((getkey y ≢ key) × All (λ x. getkey x ≢ key) (inorder r))
      alone null stop ge = elim (ℕ_discrete (getkey y) key) [ yes e ↦ inl e | no ne ↦ inr (ne, tt) ]
      alone (node a s x b) stop ge = inl (ground arith)
  key_or_none (node a s x b) null key y parts stop = elim (dec_lt (getkey y) key) [
    | yes gt ↦ inr (
        All-append (λ x. getkey x ≢ key) (inorder (node a s x b)) (y ∷ [])
          (All-below key (getkey y) (inorder (node a s x b)) gt parts.below) (omega arith, tt))
    | no le ↦ inl (ground arith)
  ]
  key_or_none (node a s x b) (node a' s' x' b') key y parts stop = inl (ground arith)

  -- A node with one child at most is replaced by that child.
  lift_child :
      (l r : Tree A) (c key : ℕ) (y : A)
      → IsSized (node l c y r)
      → Around getkey (inorder l) y (inorder r)
      → stops_at getkey key l y r ≡ true
      → (is_null l || is_null r) ≡ true
      → (t' : Tree A) × (d : A) × Deleted (node l c y r) key t' d
  lift_child null r c key y h parts stop single = (
    r,
    y,
    record {
      returns = delete_here getkey null r c key y stop single;
      sized = h.2;
      removed = here;
      right_key = key_or_none null r key y parts stop;
    },
  )
  lift_child (node a s x b) null c key y h parts stop single = (
    node a s x b,
    y,
    record {
      returns = delete_here getkey (node a s x b) null c key y stop single;
      sized = h.0;
      removed =
          subst (Removes y (inorder (node a s x b) ++ y ∷ [])) (append-nil (inorder (node a s x b)))
            (Removes-prepend (inorder (node a s x b)) (here {xs = []}));
      right_key = key_or_none (node a s x b) null key y parts stop;
    },
  )
  lift_child (node a s x b) (node a' s' x' b') c key y h parts stop single = cc

  -- On a tree that is not null, with right sizes and ordered keys, and for a key whose successor does
  -- not wrap, the call follows no null pointer and returns. One node is unlinked, the others keep
  -- their order, and every stored size is right. The unlinked node has the key, unless no node has it.
  pub sbtree_delete-Deleted :
      (t : Tree A) (key : ℕ)
      → IsSized t
      → IsSorted getkey (inorder t)
      → is_null t ≡ false
      → key + 1 < 2 ^ 32
      → (t' : Tree A) × (d : A) × Deleted t key t' d
  sbtree_delete-Deleted null key h s n small = cc
  sbtree_delete-Deleted (node l c y r) key h s n small =
      elim (Bool-cases (stops_at getkey key l y r)) [
        | inl stop ↦ elim (Bool-cases (is_null l || is_null r)) [
          | inl single ↦ lift_child l r c key y h parts stop single
          | inr both ↦
              replace_root l r c key y h parts (unfold stops_at in ground arith) small
                (ground arith) (ground arith)
        ]
        | inr go ↦ elim (dec_lt key (getkey y)) [
          | yes lt ↦
              let (l', d, rest) =
                sbtree_delete-Deleted l key h.0 parts.before (unfold stops_at in ground arith)
                  small in
              (node l' (c - 1) y r, d, go_left l r l' c key y d h parts go lt rest)
          | no ge ↦
              let gt : getkey y < key = unfold stops_at in ground arith in
              let (r', d, rest) =
                sbtree_delete-Deleted r key h.2 parts.after (unfold stops_at in ground arith)
                  small in
              (node l (c - 1) y r', d, go_right l r r' c key y d h parts go gt rest)
        ]
      ]
    where
      parts : Around getkey (inorder l) y (inorder r)
      parts = around getkey (inorder l) y (inorder r) s

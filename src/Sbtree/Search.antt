-- ===== src/Sbtree/Search.antt =====
-- src/sbtree.c, `sbtree_search` and `sbtree_sequence`.
use concentrator.Common.{
  ℕ, ◌≤◌, ◌<◌, ◌≡◌, ◌≢◌, refl, false, Option, none, some, List, [], ◌∷◌, ◌++◌, arith, All,
  All-append, Bool-cases, inl, inr, ◌==◌, ltb,
}
use concentrator.Common.Outcome.{done}
use concentrator.Sbtree.{Tree, null, node, is_null, sbtree_search, sbtree_sequence, inorder}
use concentrator.Sbtree.Order.{
  IsSorted, Around, around, Removes, here, there, Removes-prepend, Removes-append,
}

module _ {ℓ} {A : Type ℓ} (getkey : A → ℕ) where
  -- A hit is one of the nodes and has the key; a miss means that no node has it.
  pub data Searches (xs : List A) (key : ℕ) : Option A → Type ℓ where
    found : {x : A} {ys : List A} → getkey x ≡ key → Removes x xs ys → Searches xs key (some x)
    missing : All (λ x. getkey x ≢ key) xs → Searches xs key none

  no_larger :
      (key bound : ℕ) (xs : List A)
      → key < bound
      → All (λ x. bound ≤ getkey x) xs
      → All (λ x. getkey x ≢ key) xs
  no_larger key bound [] h a = tt
  no_larger key bound (x ∷ xs) h a = (omega (arith, a.0), no_larger key bound xs h a.1)

  no_smaller :
      (key bound : ℕ) (xs : List A)
      → bound < key
      → All (λ x. getkey x ≤ bound) xs
      → All (λ x. getkey x ≢ key) xs
  no_smaller key bound [] h a = tt
  no_smaller key bound (x ∷ xs) h a = (omega (arith, a.0), no_smaller key bound xs h a.1)

  in_left :
      (y : A) (xs ys : List A) (key : ℕ)
      → key < getkey y
      → All (λ z. getkey y ≤ getkey z) ys
      → {o : Option A} → Searches xs key o
      → Searches (xs ++ y ∷ ys) key o
  in_left y xs ys key lt above (found e r) = found e (Removes-append (y ∷ ys) r)
  in_left y xs ys key lt above (missing a) = missing (
      All-append (λ z. getkey z ≢ key) xs (y ∷ ys) a
        (omega arith, no_larger key (getkey y) ys lt above))

  in_right :
      (y : A) (xs ys : List A) (key : ℕ)
      → getkey y < key
      → All (λ z. getkey z ≤ getkey y) xs
      → {o : Option A} → Searches ys key o
      → Searches (xs ++ y ∷ ys) key o
  in_right y xs ys key lt below (found e r) = found e (Removes-prepend xs (there r))
  in_right y xs ys key lt below (missing a) = missing (
      All-append (λ z. getkey z ≢ key) xs (y ∷ ys) (no_smaller key (getkey y) xs lt below)
        (omega arith, a))

  -- On ordered keys the search is sound and complete: what it returns is a node of the tree with the
  -- key, and it returns null only if no node has the key.
  pub sbtree_search-Searches :
      (t : Tree A) (key : ℕ)
      → IsSorted getkey (inorder t)
      → Searches (inorder t) key (sbtree_search getkey t key)
  unfolding sbtree_search
  sbtree_search-Searches null key s = missing tt
  sbtree_search-Searches (node l c y r) key s = elim (Bool-cases (getkey y == key)) [
    | inl hit ↦ rw hit (found (ground arith) (Removes-prepend (inorder l) here))
    | inr other ↦ elim (Bool-cases (ltb key (getkey y))) [
      | inl lt ↦
          rw (other, lt)
            (in_left y (inorder l) (inorder r) key (ground arith) parts.above
              (sbtree_search-Searches l key parts.before))
      | inr gt ↦
          rw (other, gt)
            (in_right y (inorder l) (inorder r) key (ground arith) parts.below
              (sbtree_search-Searches r key parts.after))
    ]
  ]
    where
      parts : Around getkey (inorder l) y (inorder r)
      parts = around getkey (inorder l) y (inorder r) s

module _ {ℓ κ} {A : Type ℓ} {S : Type κ} where
  -- `seq` called on each node of a list in turn.
  abbrev pub visit : (A → S → S) → List A → S → S
  visit seq [] st = st
  visit seq (x ∷ xs) st = visit seq xs (seq x st)

  visit-append :
      (seq : A → S → S) (xs ys : List A) (st : S)
      → visit seq (xs ++ ys) st ≡ visit seq ys (visit seq xs st)
  visit-append seq [] ys st = refl
  visit-append seq (x ∷ xs) ys st = visit-append seq xs ys (seq x st)

  -- On a tree that is not null, the traversal follows no null pointer and calls `seq` on every node
  -- once, in order.
  pub sbtree_sequence-visit :
      (t : Tree A) (seq : A → S → S) (st : S)
      → is_null t ≡ false
      → sbtree_sequence t seq st ≡ done (visit seq (inorder t) st)
  unfolding sbtree_sequence
  sbtree_sequence-visit null seq st n = cc
  sbtree_sequence-visit (node null c x null) seq st n = refl
  sbtree_sequence-visit (node null c x (node a d y b)) seq st n =
      sbtree_sequence-visit (node a d y b) seq (seq x st) refl
  sbtree_sequence-visit (node (node a d y b) c x null) seq st n = rw (
    sbtree_sequence-visit (node a d y b) seq st refl,
    visit-append seq (inorder (node a d y b)) (x ∷ []) st,
  )
  sbtree_sequence-visit (node (node a d y b) c x (node a' d' y' b')) seq st n =
      rw
        (
          sbtree_sequence-visit (node a d y b) seq st refl,
          visit-append seq (inorder (node a d y b)) (x ∷ inorder (node a' d' y' b')) st,
        )
        (sbtree_sequence-visit (node a' d' y' b') seq
          (seq x (visit seq (inorder (node a d y b)) st)) refl)

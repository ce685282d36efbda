-- ===== src/Sbtree/Unlink.antt =====
-- src/sbtree.c, `sbtree_delete`: the ways through one call, and the last node of a subtree.
use concentrator.Common.{
  ℕ, ◌+◌, ◌-◌, ◌≤◌, ◌<◌, ◌≡◌, refl, ap, true, false, ◌||◌, [], ◌∷◌, ◌++◌, append_assoc, arith, All,
  ltb, u32, length, length-append, if◌then◌else◌,
}
use concentrator.Common.Outcome.{done}
use concentrator.Sbtree.{Tree, null, node, is_null, stops_at, sbtree_delete, inorder}
use concentrator.Sbtree.Shape.{count, count-eq-length, IsSized}
use concentrator.Sbtree.Order.{All-split}

module _ {ℓ} {A : Type ℓ} (getkey : A → ℕ) where
  lt→ltb : (a b : ℕ) → a < b → ltb a b ≡ true
  lt→ltb a b h = ground arith

  le→ltb : (a b : ℕ) → b ≤ a → ltb a b ≡ false
  le→ltb a b h = ground arith

  -- The four ways through a call.
  pub delete_here :
      (l r : Tree A) (c key : ℕ) (y : A)
      → stops_at getkey key l y r ≡ true
      → (is_null l || is_null r) ≡ true
      → sbtree_delete getkey (node l c y r) key ≡ done (if is_null l then r else l, y)
  unfolding sbtree_delete
  delete_here l r c key y stop single = rw (stop, single)

  pub delete_swap :
      (l r l' : Tree A) (c key : ℕ) (y d : A)
      → stops_at getkey key l y r ≡ true
      → (is_null l || is_null r) ≡ false
      → sbtree_delete getkey l (u32 (key + 1)) ≡ done (l', d)
      → sbtree_delete getkey (node l c y r) key ≡ done (node l' (c - 1) d r, y)
  unfolding sbtree_delete
  delete_swap l r l' c key y d stop both e = rw (stop, both, e)

  pub delete_left :
      (l r l' : Tree A) (c key : ℕ) (y d : A)
      → stops_at getkey key l y r ≡ false
      → key < getkey y
      → sbtree_delete getkey l key ≡ done (l', d)
      → sbtree_delete getkey (node l c y r) key ≡ done (node l' (c - 1) y r, d)
  unfolding sbtree_delete
  delete_left l r l' c key y d go lt e = rw (go, lt→ltb key (getkey y) lt, e)

  pub delete_right :
      (l r r' : Tree A) (c key : ℕ) (y d : A)
      → stops_at getkey key l y r ≡ false
      → getkey y ≤ key
      → sbtree_delete getkey r key ≡ done (r', d)
      → sbtree_delete getkey (node l c y r) key ≡ done (node l (c - 1) y r', d)
  unfolding sbtree_delete
  delete_right l r r' c key y d go le e = rw (go, le→ltb key (getkey y) le, e)

  pub shrunk_last :
      (t t' : Tree A) (d : A) → inorder t ≡ inorder t' ++ (d ∷ []) → count t ≡ count t' + 1
  shrunk_last t t' d e = omega (
    arith,
    count-eq-length t,
    count-eq-length t',
    ap length e,
    length-append (inorder t') (d ∷ []),
  )

  -- The last node of a subtree whose keys are all below the key that is asked for.
  abbrev pub Last : Tree A → ℕ → Type ℓ
  Last t key =
      (t' : Tree A) × (d : A) × (sbtree_delete getkey t key ≡ done (t', d))
      × IsSized t'
      × (inorder t ≡ inorder t' ++ (d ∷ []))

  no_right :
      (l : Tree A) (c : ℕ) (y : A) (key : ℕ)
      → IsSized l
      → getkey y < key
      → Last (node l c y null) key
  no_right null c y key h lt =
      (null, y, delete_here null null c key y (unfold stops_at in ground arith) refl, tt, refl)
  no_right (node a s x b) c y key h lt = (
    node a s x b,
    y,
    delete_here (node a s x b) null c key y (unfold stops_at in ground arith) refl,
    h,
    refl,
  )

  pub delete_rightmost :
      (t : Tree A) (key : ℕ)
      → IsSized t
      → is_null t ≡ false
      → All (λ x. getkey x < key) (inorder t)
      → Last t key
  delete_rightmost null key h n a = cc
  delete_rightmost (node l c y null) key h n a =
      no_right l c y key h.0 (All-split (λ x. getkey x < key) (inorder l) y [] a).1
  delete_rightmost (node l c y (node a' s' y' b')) key h n a =
      let (below, here_too, rest) =
        All-split (λ x. getkey x < key) (inorder l) y (inorder (node a' s' y' b')) a in
      let (r', d, e, hr, o) = delete_rightmost (node a' s' y' b') key h.2 refl rest in
      (
        node l (c - 1) y r',
        d,
        delete_right l (node a' s' y' b') r' c key y d (unfold stops_at in ground arith)
            (omega arith) e,
        (h.0, omega (arith, h.1, shrunk_last (node a' s' y' b') r' d o), hr),
        rw append_assoc (ap (λ q. inorder l ++ y ∷ q) o),
      )

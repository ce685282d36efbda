-- ===== src/Sbtree.antt =====
-- src/sbtree.c: a size-balanced search tree. Each node is owned by one parent, so a tree of nodes
-- is a value, and a function that takes `sbtree_t **` returns the new tree. A node's key comes from
-- the function `getkey`; `size` is stored, as in the source. A count of allocated nodes does not
-- wrap, so sizes are plain numbers; keys are `size_t`, 32 bits wide on the target.
pub mod Shape
pub mod Rotate
pub mod Maintain
pub mod Order
pub mod Insert
pub mod Search
pub mod Unlink
pub mod Delete
mod Tests
use concentrator.Common.{
  ℕ, zero, suc, ◌+◌, ◌-◌, Bool, true, false, ◌&&◌, ◌||◌, not, Option, none, some, List, [], ◌∷◌,
  ◌++◌, ltb, leb, ◌==◌, if◌then◌else◌, u32,
}
use concentrator.Common.Outcome.{Outcome, done, fault, out_of_fuel, ◌>>=◌}

-- A pointer to a node: `null`, or the fields `left` and `size`, the node's own data, and `right`.
pub data Tree {ℓ} (A : Type ℓ) : Type ℓ where
  null : Tree A
  node : Tree A → ℕ → A → Tree A → Tree A

module _ {ℓ} {A : Type ℓ} where
  abbrev pub is_null : Tree A → Bool
  is_null null = true
  is_null (node l s x r) = false

  -- `(!t)? 0: SBTREE_SIZE(t)`
  abbrev pub size : Tree A → ℕ
  size null = 0
  size (node l s x r) = s

  -- The fields, read only where the source has tested the pointer.
  abbrev pub left : Tree A → Tree A
  left null = null
  left (node l s x r) = l

  abbrev pub right : Tree A → Tree A
  right null = null
  right (node l s x r) = r

  abbrev pub set_left : Tree A → Tree A → Tree A
  set_left null l' = null
  set_left (node l s x r) l' = node l' s x r

  abbrev pub set_right : Tree A → Tree A → Tree A
  set_right null r' = null
  set_right (node l s x r) r' = node l s x r'

  unfoldable pub sbtree_left_rotate : Tree A → Outcome (Tree A)
  sbtree_left_rotate null = fault
  sbtree_left_rotate (node a s x null) = fault
  sbtree_left_rotate (node a s x (node b s' y c)) =
      done (node (node a (size a + size b + 1) x b) s y c)

  unfoldable pub sbtree_right_rotate : Tree A → Outcome (Tree A)
  sbtree_right_rotate null = fault
  sbtree_right_rotate (node null s y c) = fault
  sbtree_right_rotate (node (node a s' x b) s y c) =
      done (node a s x (node b (size b + size c + 1) y c))

  -- The four tests of `sbtree_maintain`: a grandchild on the left or on the right is there, and the
  -- child on the other side is missing or smaller.
  unfoldable pub heavier : (grandchild other : Tree A) → Bool
  heavier grandchild other =
      not (is_null grandchild) && (is_null other || ltb (size other) (size grandchild))

  -- The rotations of one call, before its recursive calls; `none` is the early `return`.
  unfoldable pub rebalance : Tree A → (flag : Bool) → Outcome (Option (Tree A))
  unfolding sbtree_left_rotate sbtree_right_rotate
  rebalance null flag = fault
  rebalance (node l s x r) false =
      if not (is_null l) && heavier (left l) r
      then (do t ← sbtree_right_rotate (node l s x r); done (some t))
      else (if not (is_null l) && heavier (right l) r
          then (do
            l' ← sbtree_left_rotate l
            t ← sbtree_right_rotate (node l' s x r)
            done (some t))
          else done none)
  rebalance (node l s x r) true =
      if not (is_null r) && heavier (right r) l
      then (do t ← sbtree_left_rotate (node l s x r); done (some t))
      else (if not (is_null r) && heavier (left r) l
          then (do
            r' ← sbtree_right_rotate r
            t ← sbtree_left_rotate (node l s x r')
            done (some t))
          else done none)

  -- The four recursive calls of `sbtree_maintain`, given the function that they call.
  unfoldable pub maintain_parts :
      (Tree A → (flag : Bool) → Outcome (Tree A)) → Tree A → Outcome (Tree A)
  maintain_parts maintain t = do
    l ← maintain (left t) false
    r ← maintain (right (set_left t l)) true
    t' ← maintain (set_right (set_left t l) r) false
    maintain t' true

  -- The fuel bounds the depth of the calls.
  unfoldable pub sbtree_maintain : ℕ → Tree A → (flag : Bool) → Outcome (Tree A)
  unfolding rebalance maintain_parts
  sbtree_maintain zero t flag = out_of_fuel
  sbtree_maintain (suc fuel) t flag = elim (rebalance t flag) [
    | fault ↦ fault
    | out_of_fuel ↦ out_of_fuel
    | done none ↦ done t
    | done (some t') ↦ maintain_parts (sbtree_maintain fuel) t'
  ]

  -- In order, as `sbtree_sequence` visits the nodes.
  abbrev pub inorder : Tree A → List A
  inorder null = []
  inorder (node l s x r) = inorder l ++ x ∷ inorder r

module _ {ℓ} {A : Type ℓ} (getkey : A → ℕ) where
  unfoldable pub sbtree_insert : ℕ → Tree A → A → Outcome (Tree A)
  unfolding sbtree_maintain
  sbtree_insert fuel null x = done (node null 1 x null)
  sbtree_insert fuel (node l s y r) x = do
    t ←
        if leb (getkey x) (getkey y)
        then (do l' ← sbtree_insert fuel l x; done (node l' (s + 1) y r))
        else (do r' ← sbtree_insert fuel r x; done (node l (s + 1) y r'))
    sbtree_maintain fuel t (ltb (getkey y) (getkey x))

  -- The test of `sbtree_delete`: the node to unlink is this one, or there is no node to go on to.
  unfoldable pub stops_at : ℕ → Tree A → A → Tree A → Bool
  stops_at key l y r =
      key == getkey y || ltb key (getkey y) && is_null l || ltb (getkey y) key && is_null r

  -- The new tree and the data of the node that was unlinked.
  unfoldable pub sbtree_delete : Tree A → ℕ → Outcome (Tree A × A)
  unfolding stops_at
  sbtree_delete null key = fault
  sbtree_delete (node l s y r) key =
      if stops_at key l y r
      then (if is_null l || is_null r
          then done (if is_null l then r else l, y)
          else (do (l', d) ← sbtree_delete l (u32 (key + 1)); done (node l' (s - 1) d r, y)))
      else (if ltb key (getkey y)
          then (do (l', d) ← sbtree_delete l key; done (node l' (s - 1) y r, d))
          else (do (r', d) ← sbtree_delete r key; done (node l (s - 1) y r', d)))

  unfoldable pub sbtree_search : Tree A → ℕ → Option A
  sbtree_search null key = none
  sbtree_search (node l s y r) key =
      if getkey y == key
      then some y
      else (if ltb key (getkey y) then sbtree_search l key else sbtree_search r key)

module _ {ℓ κ} {A : Type ℓ} {S : Type κ} where
  -- `seq` acts on the state that its `data` argument points to; a null tree is not to be passed.
  unfoldable pub sbtree_sequence : Tree A → (A → S → S) → S → Outcome S
  sbtree_sequence null seq st = fault
  sbtree_sequence (node l s x r) seq st = do
    before ← if is_null l then done st else sbtree_sequence l seq st
    if is_null r then done (seq x before) else sbtree_sequence r seq (seq x before)

-- ===== src/Sbtree/Tests.antt =====
-- Runs of src/sbtree.c on nodes that are their own keys.
use concentrator.Common.{ℕ, ◌≡◌, refl, true, List, [], ◌∷◌, ◌++◌, arith}
use concentrator.Common.Outcome.{done}
use concentrator.Sbtree.{
  Tree, null, node, inorder, heavier, rebalance, maintain_parts, sbtree_left_rotate,
  sbtree_maintain, sbtree_insert, stops_at, sbtree_delete, sbtree_search, sbtree_sequence,
}
use concentrator.Sbtree.Shape.{IsSized}
use concentrator.Sbtree.Order.{IsSorted}
use concentrator.Sbtree.Maintain.{Maintains, sbtree_maintain-Maintains}
use concentrator.Sbtree.Insert.{Inserts, sbtree_insert-Inserts}
use concentrator.Sbtree.Search.{Searches, sbtree_search-Searches}
use concentrator.Sbtree.Delete.{Deleted, sbtree_delete-Deleted}

abbrev key_of : ℕ → ℕ
key_of k = k

-- A chain to the right, as insertions without rebalancing would leave it.
abbrev chain : Tree ℕ
chain = node null 3 10 (node null 2 20 (node null 1 30 null))

abbrev three : Tree ℕ
three = node (node null 1 10 null) 3 20 (node null 1 30 null)

three-IsSized : IsSized three
three-IsSized = ((tt, refl, tt), refl, (tt, refl, tt))

three-IsSorted : IsSorted key_of (inorder three)
three-IsSorted = ((omega arith, (omega arith, tt)), ((omega arith, tt), (tt, tt)))

abbrev noted : ℕ → List ℕ → List ℕ
noted x st = st ++ x ∷ []

sbtree_maintain-Maintains_example : Maintains chain (sbtree_maintain 7 chain true)
sbtree_maintain-Maintains_example =
    sbtree_maintain-Maintains 7 chain true (tt, refl, (tt, refl, (tt, refl, tt))) refl (omega arith)

-- One rotation balances the chain.
sbtree_maintain-chain : sbtree_maintain 7 chain true ≡ done three
unfolding sbtree_maintain rebalance maintain_parts sbtree_left_rotate heavier
sbtree_maintain-chain = refl

sbtree_insert-Inserts_example : Inserts key_of three 25 (sbtree_insert key_of 17 three 25)
sbtree_insert-Inserts_example =
    sbtree_insert-Inserts key_of 17 three 25 three-IsSized three-IsSorted (omega arith)

sbtree_search-Searches_example : Searches key_of (inorder three) 30 (sbtree_search key_of three 30)
sbtree_search-Searches_example = sbtree_search-Searches key_of three 30 three-IsSorted

sbtree_delete-Deleted_example : (t' : Tree ℕ) × (d : ℕ) × Deleted key_of three 20 t' d
sbtree_delete-Deleted_example =
    sbtree_delete-Deleted key_of three 20 three-IsSized three-IsSorted refl (omega arith)

-- The node to delete has two children: the last node of the left subtree takes its place.
sbtree_delete_middle :
    sbtree_delete key_of three 20 ≡ done (node null 2 10 (node null 1 30 null), 20)
unfolding sbtree_delete stops_at
sbtree_delete_middle = refl

sbtree_sequence-three : sbtree_sequence three noted [] ≡ done (10 ∷ 20 ∷ 30 ∷ [])
unfolding sbtree_sequence
sbtree_sequence-three = refl

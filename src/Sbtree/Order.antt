-- ===== src/Sbtree/Order.antt =====
-- Lists of nodes in key order, and the list operations that `sbtree_insert` and `sbtree_delete`
-- stand for.
use native.Mathlib.Nat.{le_trans}
use concentrator.Common.{ℕ, ◌≤◌, ◌<◌, ◌≡◌, List, [], ◌∷◌, ◌++◌, arith, All, leb, if◌then◌else◌}

module _ {ℓ} {A : Type ℓ} where
  -- `d` stands in `xs`, and `ys` is the rest, in the same order.
  pub data Removes (d : A) : List A → List A → Type ℓ where
    here : {xs : List A} → Removes d (d ∷ xs) xs
    there : {x : A} {xs ys : List A} → Removes d xs ys → Removes d (x ∷ xs) (x ∷ ys)

  pub Removes-prepend :
      {d : A} (ps : List A) {xs ys : List A} → Removes d xs ys → Removes d (ps ++ xs) (ps ++ ys)
  Removes-prepend [] r = r
  Removes-prepend (p ∷ ps) r = there (Removes-prepend ps r)

  pub Removes-append :
      {d : A} {xs ys : List A} (ps : List A) → Removes d xs ys → Removes d (xs ++ ps) (ys ++ ps)
  Removes-append ps here = here
  Removes-append ps (there r) = there (Removes-append ps r)

  pub All-split {κ} :
      (P : A → Type κ) (xs : List A) (y : A) (ys : List A)
      → All P (xs ++ y ∷ ys)
      → All P xs × P y × All P ys
  All-split P [] y ys a = (tt, a.0, a.1)
  All-split P (x ∷ xs) y ys a = let (l, m, r) = All-split P xs y ys a.1 in ((a.0, l), m, r)

module _ {ℓ} {A : Type ℓ} (getkey : A → ℕ) where
  -- Equal keys may stand side by side.
  abbrev pub IsSorted : List A → Type 0
  IsSorted [] = Unit
  IsSorted (x ∷ xs) = All (λ y. getkey x ≤ getkey y) xs × IsSorted xs

  -- A new node goes before the first node whose key is not smaller.
  unfoldable pub place : A → List A → List A
  place x [] = x ∷ []
  place x (y ∷ ys) = if leb (getkey x) (getkey y) then x ∷ y ∷ ys else y ∷ place x ys

  pub place_left :
      (x y : A) (xs ys : List A)
      → getkey x ≤ getkey y
      → place x (xs ++ y ∷ ys) ≡ place x xs ++ y ∷ ys
  unfolding place
  place_left x y [] ys h = ground arith
  place_left x y (z ∷ xs) ys h = ground (arith, place_left x y xs ys h)

  pub place_right :
      (x y : A) (xs ys : List A)
      → getkey y < getkey x
      → All (λ z. getkey z ≤ getkey y) xs
      → place x (xs ++ y ∷ ys) ≡ xs ++ y ∷ place x ys
  unfolding place
  place_right x y [] ys h a = ground arith
  place_right x y (z ∷ xs) ys h a = ground (arith, place_right x y xs ys h a.1)

  pub All-place {κ} : (P : A → Type κ) (x : A) (xs : List A) → P x → All P xs → All P (place x xs)
  unfolding place
  All-place P x [] p a = (p, tt)
  All-place P x (y ∷ ys) p a = ground (arith, All-place P x ys p a.1)

  weaken : (a b : ℕ) (xs : List A) → a ≤ b → All (λ y. b ≤ getkey y) xs → All (λ y. a ≤ getkey y) xs
  weaken a b [] h all = tt
  weaken a b (x ∷ xs) h all = (le_trans h all.0, weaken a b xs h all.1)

  pub place-IsSorted : (x : A) (xs : List A) → IsSorted xs → IsSorted (place x xs)
  unfolding place
  place-IsSorted x [] s = (tt, tt)
  place-IsSorted x (y ∷ ys) s = ground (
    arith,
    weaken (getkey x) (getkey y) ys,
    place-IsSorted x ys s.1,
    All-place (λ z. getkey y ≤ getkey z) x ys,
  )

  -- Taking a sorted list apart at one of its nodes.
  pub record Around (xs : List A) (y : A) (ys : List A) : Type ℓ where
    pub before : IsSorted xs
    pub after : IsSorted ys
    pub below : All (λ z. getkey z ≤ getkey y) xs
    pub above : All (λ z. getkey y ≤ getkey z) ys

  pub around : (xs : List A) (y : A) (ys : List A) → IsSorted (xs ++ y ∷ ys) → Around xs y ys
  around [] y ys s = record { before = tt; after = s.1; below = tt; above = s.0 }
  around (x ∷ xs) y ys s =
      let rest = around xs y ys s.1 in
      let (l, m, r) = All-split (λ z. getkey x ≤ getkey z) xs y ys s.0 in
      record {
        before = (l, rest.before);
        after = rest.after;
        below = (m, rest.below);
        above = rest.above;
      }

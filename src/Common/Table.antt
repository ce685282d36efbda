-- ===== src/Common/Table.antt =====
-- A `map` from numbers, as the list of its entries in the order of the keys.
use concentrator.Common.{
  ℕ, ◌≡◌, refl, true, false, Option, none, some, List, [], ◌∷◌, if◌then◌else◌, ◌==◌, ltb, arith,
  Bool-cases, Option-cases, inl, inr,
}

module _ {ℓ} {A : Type ℓ} where
  unfoldable pub lookup : List (ℕ × A) → ℕ → Option A
  lookup [] k = none
  lookup (e ∷ es) k = if e.0 == k then some e.1 else lookup es k

  unfoldable pub replace : List (ℕ × A) → ℕ → A → List (ℕ × A)
  replace [] k a = []
  replace (e ∷ es) k a = let rest = replace es k a in if e.0 == k then (e.0, a) ∷ es else e ∷ rest

  unfoldable pub insert_new : List (ℕ × A) → ℕ → A → List (ℕ × A)
  insert_new [] k a = (k, a) ∷ []
  insert_new (e ∷ es) k a =
      let rest = insert_new es k a in if ltb k e.0 then (k, a) ∷ e ∷ es else e ∷ rest

  -- `m[k] = a`
  unfoldable pub put : List (ℕ × A) → ℕ → A → List (ℕ × A)
  put es k a = elim (lookup es k) [ none ↦ insert_new es k a | some old ↦ replace es k a ]

  lookup-replace :
      (es : List (ℕ × A)) (k j : ℕ) (a old : A)
      → lookup es k ≡ some old
      → lookup (replace es k a) j ≡ (if k == j then some a else lookup es j)
  unfolding lookup replace
  lookup-replace [] k j a old found = cc
  lookup-replace (e ∷ es) k j a old found = elim (Bool-cases (e.0 == k)) [
    | inl here ↦
        let same : e.0 ≡ k = ground (arith, here) in
        elim (Bool-cases (k == j)) [
          | inl now ↦
              let at : (e.0 == j) ≡ true = ground (arith, now, same) in rw (here, at, now) refl
          | inr other ↦
              let off : (e.0 == j) ≡ false = ground (arith, other, same) in
              rw (here, off, other) refl
        ]
    | inr there ↦
        let ih : lookup (replace es k a) j ≡ (if k == j then some a else lookup es j) =
          lookup-replace es k j a old (rw there at found) in
        elim (Bool-cases (e.0 == j)) [
          | inl now ↦
              let off : (k == j) ≡ false = ground (arith, now, there) in rw (there, now, off) refl
          | inr other ↦ rw (there, other) ih
        ]
  ]

  lookup-insert_new :
      (es : List (ℕ × A)) (k j : ℕ) (a : A)
      → lookup es k ≡ none
      → lookup (insert_new es k a) j ≡ (if k == j then some a else lookup es j)
  unfolding lookup insert_new
  lookup-insert_new [] k j a absent = refl
  lookup-insert_new (e ∷ es) k j a absent = elim (Bool-cases (e.0 == k)) [
    | inl same ↦ cc (rw same at absent)
    | inr there ↦ elim (Bool-cases (ltb k e.0)) [
      | inl first ↦ rw first refl
      | inr later ↦
          let ih : lookup (insert_new es k a) j ≡ (if k == j then some a else lookup es j) =
            lookup-insert_new es k j a (rw there at absent) in
          elim (Bool-cases (e.0 == j)) [
            | inl now ↦
                let off : (k == j) ≡ false = ground (arith, now, there) in rw (later, now, off) refl
            | inr other ↦ rw (later, other) ih
          ]
    ]
  ]

  pub lookup-put :
      (es : List (ℕ × A)) (k j : ℕ) (a : A)
      → lookup (put es k a) j ≡ (if k == j then some a else lookup es j)
  unfolding put
  lookup-put es k j a = elim (Option-cases (lookup es k)) [
    | inl absent ↦ rw (absent, put) (lookup-insert_new es k j a absent)
    | inr (old, found) ↦ rw (found, put) (lookup-replace es k j a old found)
  ]

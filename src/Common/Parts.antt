-- ===== src/Common/Parts.antt =====
-- The parts of a list before and behind a place, and of an append.
use concentrator.Common.{
  ℕ, zero, suc, ◌+◌, ◌≤◌, ◌<◌, ◌≡◌, refl, ap, List, [], ◌∷◌, ◌++◌, arith, length, get_or, take,
  drop,
}

module _ {ℓ} {A : Type ℓ} where
  pub take_then_take : (n j : ℕ) (xs : List A) → take n xs ++ take j (drop n xs) ≡ take (n + j) xs
  take_then_take zero j xs = let e : 0 + j ≡ j = omega arith in rw e refl
  take_then_take (suc n) zero [] = let e : suc n + 0 ≡ suc n = omega arith in rw e refl
  take_then_take (suc n) (suc j) [] =
      let e : suc n + suc j ≡ suc (n + suc j) = omega arith in rw e refl
  take_then_take (suc n) j (x ∷ xs) =
      let e : suc n + j ≡ suc (n + j) = omega arith in
      rw e (ap (λ l. x ∷ l) (take_then_take n j xs))

  pub drop-drop : (n j : ℕ) (xs : List A) → drop j (drop n xs) ≡ drop (n + j) xs
  drop-drop zero j xs = let e : 0 + j ≡ j = omega arith in rw e refl
  drop-drop (suc n) zero [] = let e : suc n + 0 ≡ suc n = omega arith in rw e refl
  drop-drop (suc n) (suc j) [] = let e : suc n + suc j ≡ suc (n + suc j) = omega arith in rw e refl
  drop-drop (suc n) j (x ∷ xs) =
      let e : suc n + j ≡ suc (n + j) = omega arith in rw e (drop-drop n j xs)

  pub take-drop : (n : ℕ) (xs : List A) → take n xs ++ drop n xs ≡ xs
  take-drop zero xs = refl
  take-drop (suc n) [] = refl
  take-drop (suc n) (x ∷ xs) = ap (λ l. x ∷ l) (take-drop n xs)

  pub take_of_append : (j : ℕ) (xs ys : List A) → j ≤ length xs → take j (xs ++ ys) ≡ take j xs
  take_of_append zero xs ys h = refl
  take_of_append (suc j) [] ys h = absurd (omega arith)
  take_of_append (suc j) (x ∷ xs) ys h = ap (λ l. x ∷ l) (take_of_append j xs ys (omega arith))

  pub drop_of_append :
      (j : ℕ) (xs ys : List A) → j ≤ length xs → drop j (xs ++ ys) ≡ drop j xs ++ ys
  drop_of_append zero xs ys h = refl
  drop_of_append (suc j) [] ys h = absurd (omega arith)
  drop_of_append (suc j) (x ∷ xs) ys h = drop_of_append j xs ys (omega arith)

  pub get_or-take : (n i : ℕ) (xs : List A) (d : A) → i < n → get_or (take n xs) i d ≡ get_or xs i d
  get_or-take zero i xs d h = absurd (omega arith)
  get_or-take (suc n) i [] d h = refl
  get_or-take (suc n) zero (x ∷ xs) d h = refl
  get_or-take (suc n) (suc i) (x ∷ xs) d h = get_or-take n i xs d (omega arith)

  pub get_or-append :
      (xs ys : List A) (i : ℕ) (d : A) → get_or (xs ++ ys) (length xs + i) d ≡ get_or ys i d
  get_or-append [] ys i d = let e : 0 + i ≡ i = omega arith in rw e refl
  get_or-append (x ∷ xs) ys i d =
      let e : suc (length xs) + i ≡ suc (length xs + i) = omega arith in
      rw e (get_or-append xs ys i d)

  pub get_or-append_left :
      (xs ys : List A) (i : ℕ) (d : A) → i < length xs → get_or (xs ++ ys) i d ≡ get_or xs i d
  get_or-append_left [] ys i d h = absurd (omega arith)
  get_or-append_left (x ∷ xs) ys zero d h = refl
  get_or-append_left (x ∷ xs) ys (suc i) d h = get_or-append_left xs ys i d (omega arith)

  pub drop-cons :
      (i : ℕ) (xs : List A) (d : A) → i < length xs → drop i xs ≡ get_or xs i d ∷ drop (suc i) xs
  drop-cons i [] d h = absurd (omega arith)
  drop-cons zero (x ∷ xs) d h = refl
  drop-cons (suc i) (x ∷ xs) d h = drop-cons i xs d (omega arith)

  pub drop_all_of : (n : ℕ) (xs : List A) → length xs ≤ n → drop n xs ≡ []
  drop_all_of zero [] h = refl
  drop_all_of (suc n) [] h = refl
  drop_all_of zero (x ∷ xs) h = absurd (omega arith)
  drop_all_of (suc n) (x ∷ xs) h = drop_all_of n xs (omega arith)

  pub drop_of_length :
      (xs : List A) (n : ℕ) (ys : List A) → drop (length xs + n) (xs ++ ys) ≡ drop n ys
  drop_of_length [] n ys = let e : 0 + n ≡ n = omega arith in rw e refl
  drop_of_length (x ∷ xs) n ys =
      let e : suc (length xs) + n ≡ suc (length xs + n) = omega arith in
      rw e (drop_of_length xs n ys)

  pub drop-take : (k n : ℕ) (xs : List A) → drop k (take (k + n) xs) ≡ take n (drop k xs)
  drop-take zero n xs = let e : 0 + n ≡ n = omega arith in rw e refl
  drop-take (suc k) zero [] = let e : suc k + 0 ≡ suc k = omega arith in rw e refl
  drop-take (suc k) (suc n) [] = let e : suc k + suc n ≡ suc (k + suc n) = omega arith in rw e refl
  drop-take (suc k) n (x ∷ xs) =
      let e : suc k + n ≡ suc (k + n) = omega arith in rw e (drop-take k n xs)

  pub take_shorter : (k n : ℕ) (xs : List A) → k ≤ n → take k (take n xs) ≡ take k xs
  take_shorter zero n xs h = refl
  take_shorter (suc k) zero xs h = absurd (omega arith)
  take_shorter (suc k) (suc n) [] h = refl
  take_shorter (suc k) (suc n) (x ∷ xs) h = ap (λ l. x ∷ l) (take_shorter k n xs (omega arith))

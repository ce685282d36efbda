-- ===== src/Serial/Found.antt =====
-- src/CSerialComm.cpp: what the searches for the flags find.
use concentrator.Common.{
  ℕ, zero, suc, ◌+◌, ◌-◌, ◌≤◌, ◌≡◌, refl, true, some, List, [], ◌∷◌, ◌==◌, arith, Bool-cases, inl,
  inr,
}
use mathlib.Core.Path.{subst}
use concentrator.Common.Upto.{and_both}
use concentrator.Cardhost.Command.{same_bytes}
use concentrator.Serial.{flag_at, find_begin, find_end}

pub same_bytes-eq : (xs ys : List ℕ) → same_bytes xs ys ≡ true → xs ≡ ys
same_bytes-eq [] [] e = refl
same_bytes-eq [] (y ∷ ys) e = cc
same_bytes-eq (x ∷ xs) [] e = cc
same_bytes-eq (x ∷ xs) (y ∷ ys) e =
    let (head, tail) = and_both (x == y) (same_bytes xs ys) e in
    let same : x ≡ y = ground (arith, head) in rw (same, same_bytes-eq xs ys tail) refl

pub find_begin-found :
    (buffer flag : List ℕ) (left index : ℕ) {b : ℕ}
    → find_begin buffer flag left index ≡ some b
    → (flag_at buffer flag b ≡ true) × (b ≤ index + left)
unfolding find_begin
find_begin-found buffer flag zero index {b} e = elim (Bool-cases (flag_at buffer flag index)) [
  | inl at ↦
      let same : index ≡ b = cc (rw at at e) in
      (subst (λ k. flag_at buffer flag k ≡ true) same at, omega (arith, same))
  | inr off ↦ cc (rw off at e)
]
find_begin-found buffer flag (suc left) index {b} e =
    elim (Bool-cases (flag_at buffer flag index)) [
      | inl at ↦
          let same : index ≡ b = cc (rw at at e) in
          (subst (λ k. flag_at buffer flag k ≡ true) same at, omega (arith, same))
      | inr off ↦
          let (at, bound) = find_begin-found buffer flag left (index + 1) (rw off at e) in
          (at, omega (arith, bound))
    ]

pub find_end-found :
    (buffer flag : List ℕ) (steps index : ℕ) {n : ℕ}
    → find_end buffer flag steps index ≡ some n
    → (flag_at buffer flag n ≡ true) × (n ≤ index) × (index ≤ n + steps)
unfolding find_end
find_end-found buffer flag zero index {n} e = elim (Bool-cases (flag_at buffer flag index)) [
  | inl at ↦
      let same : index ≡ n = cc (rw at at e) in
      (subst (λ k. flag_at buffer flag k ≡ true) same at, omega (arith, same), omega (arith, same))
  | inr off ↦ cc (rw off at e)
]
find_end-found buffer flag (suc steps) index {n} e = elim (Bool-cases (flag_at buffer flag index)) [
  | inl at ↦
      let same : index ≡ n = cc (rw at at e) in
      (subst (λ k. flag_at buffer flag k ≡ true) same at, omega (arith, same), omega (arith, same))
  | inr off ↦
      let (at, above, below) = find_end-found buffer flag steps (index - 1) (rw off at e) in
      (at, omega (arith, above), omega (arith, below))
]

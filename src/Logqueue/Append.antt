-- ===== src/Logqueue/Append.antt =====
-- src/logqueue.c: how the three files grow.
use concentrator.Common.{
  ℕ, zero, suc, ◌-◌, ◌^◌, ◌<◌, ◌≡◌, refl, sym, ap, ◌∙◌, List, [], ◌∷◌, ◌++◌, append_assoc,
  append-nil, arith, length, length-append, take, drop, drop-append, Bool-cases, ltb, inl, inr,
}
use concentrator.Common.File.{le32, of_le32-le32, length-le32, take_enough}
use concentrator.Logqueue.{lqidx_bytes}
use concentrator.Logqueue.Contents.{pointer, StandsAt, Lists}

empty_at_nil : (n : ℕ) (m : List ℕ) → take n [] ≡ m → m ≡ []
empty_at_nil zero m e = sym e
empty_at_nil (suc n) m e = sym e

drop_nil : (n : ℕ) → drop {A = ℕ} n [] ≡ []
drop_nil zero = refl
drop_nil (suc n) = refl

take_extend : (n : ℕ) (xs ys : List ℕ) → length (take n xs) ≡ n → take n (xs ++ ys) ≡ take n xs
take_extend zero xs ys e = refl
take_extend (suc n) [] ys e = absurd (omega arith)
take_extend (suc n) (x ∷ xs) ys e = ap (λ l. x ∷ l) (take_extend n xs ys (omega arith))

-- A message stays where it is when the data file grows.
stands_extend :
    (stored more : List ℕ) (off : ℕ) (m : List ℕ)
    → StandsAt stored off m
    → StandsAt (stored ++ more) off m
stands_extend [] more off m at =
    let nothing = empty_at_nil (length m) m (rw drop_nil at at) in rw nothing refl
stands_extend (x ∷ stored) more zero m at =
    take_extend (length m) (x ∷ stored) more (ap length at) ∙ at
stands_extend (x ∷ stored) more (suc off) m at = stands_extend stored more off m at

pub Lists-extend :
    (stored more : List ℕ) (ms : List (List ℕ)) (bytes : List ℕ)
    → Lists stored ms bytes
    → Lists (stored ++ more) ms bytes
Lists-extend stored more [] bytes h = h
Lists-extend stored more (m ∷ ms) bytes (off, rest, small, fits, at, e, tail) = (
  off,
  rest,
  small,
  fits,
  stands_extend stored more off m at,
  e,
  Lists-extend stored more ms rest tail,
)

-- A message that is appended to the data file stands at the old end.
pub StandsAt-end : (stored m : List ℕ) → StandsAt (stored ++ m) (length stored) m
StandsAt-end stored m = rw drop-append (take_enough m (length m) (omega arith))

pub Lists-snoc :
    (stored : List ℕ) (ms : List (List ℕ)) (bytes m : List ℕ) (off : ℕ)
    → off < 2 ^ 31
    → length m < 2 ^ 32
    → StandsAt stored off m
    → Lists stored ms bytes
    → Lists stored (ms ++ m ∷ []) (bytes ++ lqidx_bytes (record { offset = off; len = length m }))
Lists-snoc stored [] bytes m off small fits at h =
    (off, [], small, fits, at, rw (h, append-nil) refl, refl)
Lists-snoc stored (m' ∷ ms) bytes m off small fits at (off', rest, small', fits', at', e, tail) = (
  off',
  rest ++ lqidx_bytes (record { offset = off; len = length m }),
  small',
  fits',
  at',
  rw (e, append_assoc) refl,
  Lists-snoc stored ms rest m off small fits at tail,
)

-- The pointer file says the number that was appended last.
pub pointer-append : (bytes : List ℕ) (n : ℕ) → n < 2 ^ 32 → pointer (bytes ++ le32 n) ≡ n
unfolding pointer
pointer-append bytes n h = elim (Bool-cases (ltb (length (bytes ++ le32 n)) 4)) [
  | inl short ↦ absurd (ground (arith, length-append bytes (le32 n), length-le32 n))
  | inr long ↦ rw long (rw (last, drop-append) (rw (append-nil (le32 n)) at (of_le32-le32 n [] h)))
]
  where
    last : length (bytes ++ le32 n) - 4 ≡ length bytes
    last = omega (arith, length-append bytes (le32 n), length-le32 n)

-- ===== src/Common/Memory.antt =====
-- Bytes in memory: what `memcpy` writes and what a reader of an area sees.
use concentrator.Common.{
  ℕ, zero, suc, ◌+◌, ◌-◌, ◌≤◌, ◌<◌, ◌≡◌, refl, ap, ap₂, ◌∙◌, ◌⊎◌, List, [], ◌∷◌, ◌++◌, arith, leb,
  if◌then◌else◌, length, get_or, drop,
}

abbrev pub Memory : Type 0
Memory = ℕ → ℕ

-- `memcpy(mem + off, bytes, length)`.
unfoldable pub store : Memory → ℕ → List ℕ → Memory
store mem off bytes i = if leb off i then get_or bytes (i - off) (mem i) else mem i

-- The `n` bytes from `off` on.
abbrev pub load : Memory → ℕ → ℕ → List ℕ
load mem off zero = []
load mem off (suc n) = mem off ∷ load mem (off + 1) n

pub length-load : (mem : Memory) (off n : ℕ) → length (load mem off n) ≡ n
length-load mem off zero = refl
length-load mem off (suc n) = omega (arith, length-load mem (off + 1) n)

-- Areas that hold the same bytes read the same.
pub load_congr :
    (m m' : Memory) (off n : ℕ)
    → ((i : ℕ) → off ≤ i → i < off + n → m i ≡ m' i)
    → load m off n ≡ load m' off n
load_congr m m' off zero same = refl
load_congr m m' off (suc n) same =
    ap₂ ◌∷◌ (same off (omega arith) (omega arith))
      (load_congr m m' (off + 1) n (λ i lo hi. same i (omega arith) (omega arith)))

get_or_beyond : (bytes : List ℕ) (i d : ℕ) → length bytes ≤ i → get_or bytes i d ≡ d
get_or_beyond [] i d h = refl
get_or_beyond (x ∷ xs) zero d h = absurd (omega arith)
get_or_beyond (x ∷ xs) (suc i) d h = get_or_beyond xs i d (omega arith)

get_or_later : (x : ℕ) (xs : List ℕ) (i d : ℕ) → 0 < i → get_or (x ∷ xs) i d ≡ get_or xs (i - 1) d
get_or_later x xs zero d h = absurd (omega arith)
get_or_later x xs (suc i) d h = let e : i ≡ suc i - 1 = omega arith in rw (← e) refl

-- What a copy leaves alone.
pub load-store_apart :
    (mem : Memory) (off : ℕ) (bytes : List ℕ) (at n : ℕ)
    → (at + n ≤ off) ⊎ (off + length bytes ≤ at)
    → load (store mem off bytes) at n ≡ load mem at n
unfolding store
load-store_apart mem off bytes at n apart =
    load_congr (store mem off bytes) mem at n
      (λ i lo hi. ground (arith, get_or_beyond bytes (i - off) (mem i)))

-- What a copy writes: its bytes, and behind them what was there.
pub load-store_self :
    (mem : Memory) (off : ℕ) (bytes : List ℕ) (n : ℕ)
    → length bytes ≤ n
    → load (store mem off bytes) off n ≡ bytes ++ drop (length bytes) (load mem off n)
unfolding store
load-store_self mem off [] n h = load_congr (store mem off []) mem off n (λ i lo hi. ground arith)
load-store_self mem off (x ∷ xs) zero h = absurd (omega arith)
load-store_self mem off (x ∷ xs) (suc n) h = ap₂ ◌∷◌ first (
    load_congr (store mem off (x ∷ xs)) (store mem (off + 1) xs) (off + 1) n later
    ∙ load-store_self mem (off + 1) xs n (omega arith))
  where
    here : (k : ℕ) → k ≡ 0 → get_or (x ∷ xs) k (mem off) ≡ x
    here zero e = refl
    here (suc k) e = absurd (omega arith)

    first : store mem off (x ∷ xs) off ≡ x
    first = ground (arith, here (off - off))

    later :
        (i : ℕ)
        → off + 1 ≤ i
        → i < off + 1 + n
        → store mem off (x ∷ xs) i ≡ store mem (off + 1) xs i
    later i lo hi =
        ground (arith, get_or_later x xs (i - off) (mem i), ap (λ k. get_or xs k (mem i)) (shift i))
      where
        shift : (i : ℕ) → i - off - 1 ≡ i - (off + 1)
        shift i = omega arith

-- ===== src/Cbuffer/Window.antt =====
-- src/cbuffer.c: the cells of a ring as a window of its storage, and what a write does to it.
use native.Mathlib.Nat.{mod-eq_of_lt, mod-eq-sub-mod, mod-add-mod}
use concentrator.Common.{
  ℕ, zero, suc, ◌+◌, ◌-◌, ◌*◌, ◌%◌, ◌≤◌, ◌<◌, ◌≡◌, ◌≢◌, refl, sym, ap, ap₂, ◌∙◌, ◌⊎◌, inl, inr,
  List, [], ◌∷◌, ◌++◌, arith, length, dec_lt,
}
use concentrator.Common.Memory.{Memory, store, load, load-store_apart}

-- The `n` cells from counter `h` on.
module _ (mem : Memory) (cells cellsize : ℕ) where
  abbrev pub window : ℕ → ℕ → List (List ℕ)
  window h zero = []
  window h (suc n) = load mem (h % cells * cellsize) cellsize ∷ window (h + 1) n

  pub length-window : (h n : ℕ) → length (window h n) ≡ n
  length-window h zero = refl
  length-window h (suc n) = ap suc (length-window (h + 1) n)

  -- A window depends on its first counter's cell only.
  pub window_congr : (h k n : ℕ) → h % cells ≡ k % cells → window h n ≡ window k n
  window_congr h k zero e = refl
  window_congr h k (suc n) e = ap₂ ◌∷◌ (ap (λ c. load mem (c * cellsize) cellsize) e) (
      window_congr (h + 1) (k + 1) n
        (sym (mod-add-mod h cells 1) ∙ ap (λ c. (c + 1) % cells) e ∙ mod-add-mod k cells 1))

-- Counters less than `cells` apart have cells of their own.
apart_mod : (cells h d : ℕ) → 0 < d → d < cells → (h + d) % cells ≢ h % cells
apart_mod cells h d pos lt e = elim (dec_lt (h % cells + d) cells) [
  | yes p ↦ omega (arith, mod-add-mod h cells d, mod-eq_of_lt p)
  | no p ↦ omega (
    arith,
    mod-add-mod h cells d,
    mod-eq-sub-mod {n = h % cells + d} {m = cells} (omega arith),
    mod-eq_of_lt {n = h % cells + d - cells} {m = cells} (omega arith),
  )
]

-- Cells at different places do not overlap.
cells_apart :
    (a b cellsize len : ℕ)
    → a ≢ b
    → len ≤ cellsize
    → (a * cellsize + cellsize ≤ b * cellsize) ⊎ (b * cellsize + len ≤ a * cellsize)
cells_apart a b cellsize len ne h = elim (dec_lt a b) [
  | yes p ↦ inl (grind arith)
  | no p ↦ let q : suc b ≤ a = omega arith in inr (grind arith)
]

-- A packet written to the cell of counter `h + n` leaves the `n` cells before it.
pub window-store :
    (mem : Memory) (cells cellsize h n : ℕ) (packet : List ℕ)
    → n < cells
    → length packet ≤ cellsize
    → (i : ℕ) → i ≤ n
    → window (store mem ((h + n) % cells * cellsize) packet) cells cellsize (h + (n - i)) i
      ≡ window mem cells cellsize (h + (n - i)) i
window-store mem cells cellsize h n packet lt fits zero le = refl
window-store mem cells cellsize h n packet lt fits (suc i) le =
    ap₂ ◌∷◌
      (load-store_apart mem ((h + n) % cells * cellsize) packet
        ((h + (n - suc i)) % cells * cellsize) cellsize
        (cells_apart ((h + (n - suc i)) % cells) ((h + n) % cells) cellsize (length packet) differ
          fits))
      (rw next (window-store mem cells cellsize h n packet lt fits i (omega arith)))
  where
    next : h + (n - suc i) + 1 ≡ h + (n - i)
    next = omega arith

    sum : h + n ≡ h + (n - suc i) + suc i
    sum = omega arith

    differ : (h + (n - suc i)) % cells ≢ (h + n) % cells
    differ e =
        apart_mod cells (h + (n - suc i)) (suc i) (omega arith) (omega arith) (rw (← sum) (sym e))

pub window-snoc :
    (mem : Memory) (cells cellsize h n : ℕ)
    → window mem cells cellsize h (n + 1)
      ≡ window mem cells cellsize h n ++ load mem ((h + n) % cells * cellsize) cellsize ∷ []
window-snoc mem cells cellsize h n = rw (one n) (go h n)
  where
    one : (k : ℕ) → k + 1 ≡ suc k
    one k = omega arith

    go :
        (h n : ℕ)
        → window mem cells cellsize h (suc n)
          ≡ window mem cells cellsize h n ++ load mem ((h + n) % cells * cellsize) cellsize ∷ []
    go h zero = let e : h + 0 ≡ h = omega arith in rw e refl
    go h (suc n) =
        let e : h + suc n ≡ h + 1 + n = omega arith in
        rw e (ap (λ l. load mem (h % cells * cellsize) cellsize ∷ l) (go (h + 1) n))

-- ===== src/Common/Upto.antt =====
-- A test of every number below a bound, to be run.
use concentrator.Common.{
  ℕ, zero, suc, ◌<◌, ◌≡◌, refl, inl, inr, Bool, true, false, ◌&&◌, ◌==◌, arith, Bool-cases,
}

unfoldable pub all_upto : (ℕ → Bool) → ℕ → Bool
all_upto p zero = true
all_upto p (suc n) = p n && all_upto p n

pub and_both : (a b : Bool) → (a && b) ≡ true → (a ≡ true) × (b ≡ true)
and_both true true e = (refl, refl)
and_both true false e = (refl, e)
and_both false b e = cc

pub all_upto-holds : (p : ℕ → Bool) (n d : ℕ) → all_upto p n ≡ true → d < n → p d ≡ true
unfolding all_upto
all_upto-holds p zero d e h = absurd (omega arith)
all_upto-holds p (suc n) d e h =
    let (here, below) = and_both (p n) (all_upto p n) e in
    elim (Bool-cases (d == n)) [
      | inl same ↦ let eq : d ≡ n = ground arith in rw eq here
      | inr other ↦ all_upto-holds p n d below (ground arith)
    ]

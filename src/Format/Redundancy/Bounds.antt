-- ===== src/Format/Redundancy/Bounds.antt =====
-- `_reconstruct_window`: a window fits its half of the parity.
use native.Mathlib.Nat.{mul-le-mul_right}
use apm_repo_sdk_python.Base.{
  ◌⊎◌, ℕ, zero, suc, ◌+◌, ◌-◌, ◌*◌, ◌%◌, ◌≤◌, ◌≡◌, arith, All, min, ltb, Bool-cases, inl, inr,
}
use apm_repo_sdk_python.Format.Redundancy.{every_second}

-- Every second number has the parity of the first.
pub every_second-parity :
    (n start stop half : ℕ) → start % 2 ≡ half → All (λ j. j % 2 ≡ half) (every_second n start stop)
unfolding every_second
every_second-parity zero start stop half h = tt
every_second-parity (suc n) start stop half h = elim (Bool-cases (ltb start stop)) [
  | inl inside ↦ rw inside (h, every_second-parity n (start + 2) stop half (omega (arith, h)))
  | inr past ↦ rw past tt
]

-- A window is no longer than its half of the parity.
pub window-fits :
    (j c s : ℕ)
    → min (j * c + c) s - j * c ≤ min ((j % 2 + 1) * c - j % 2 * c) (min s (2 * c) - j % 2 * c)
window-fits j c s = elim (parity j) [
  | inl even ↦ rw even (omega arith)
  | inr odd ↦ rw odd.0 (omega (arith, mul-le-mul_right c odd.1))
]
  where
    parity : (j : ℕ) → (j % 2 ≡ 0) ⊎ ((j % 2 ≡ 1) × (1 ≤ j))
    parity j = ground arith

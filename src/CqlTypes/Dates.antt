-- ===== src/CqlTypes/Dates.antt =====
-- Dates on the wire and as days are in bijection, in order.
use python_rs_driver.Common.{ℕ, ◌+◌, ◌-◌, ◌^◌, ◌≤◌, ◌<◌, ◌≡◌, ap, ◌∙◌, ◌⊎◌, inl, inr, arith}
use python_rs_driver.CqlTypes.{ℤ, pos, negsuc, days_of, date_of}

-- The `i32` values.
abbrev pub IsI32 : ℤ → Type 0
IsI32 (pos n) = n < 2 ^ 31
IsI32 (negsuc n) = n < 2 ^ 31

date_of-pos : (n : ℕ) → n < 2 ^ 31 → date_of (pos n) ≡ 2 ^ 31 + n
unfolding date_of
date_of-pos n h = omega arith

date_of-negsuc : (n : ℕ) → n < 2 ^ 31 → date_of (negsuc n) ≡ 2 ^ 31 - 1 - n
unfolding date_of
date_of-negsuc n h = omega arith

days_of-after : (u : ℕ) → 2 ^ 31 ≤ u → u < 2 ^ 32 → days_of u ≡ pos (u - 2 ^ 31)
unfolding days_of
days_of-after u h k = ground arith

days_of-before : (u : ℕ) → u < 2 ^ 31 → days_of u ≡ negsuc (2 ^ 31 - 1 - u)
unfolding days_of
days_of-before u h = ground arith

lt-or-le : (m n : ℕ) → (m < n) ⊎ (n ≤ m)
lt-or-le m n = omega arith

-- Every `i32` count of days becomes a `u32` on the wire, and comes back from it.
pub days_of-date_of : (d : ℤ) → IsI32 d → (days_of (date_of d) ≡ d) × (date_of d < 2 ^ 32)
days_of-date_of (pos n) h =
    rw (date_of-pos n h)
      (days_of-after (2 ^ 31 + n) (omega arith) (omega arith) ∙ ap pos (omega arith), omega arith)
days_of-date_of (negsuc n) h =
    rw (date_of-negsuc n h)
      (days_of-before (2 ^ 31 - 1 - n) (omega arith) ∙ ap negsuc (omega arith), omega arith)

-- Every `u32` on the wire becomes an `i32` count of days, and comes back from it.
pub date_of-days_of : (u : ℕ) → u < 2 ^ 32 → IsI32 (days_of u) × (date_of (days_of u) ≡ u)
date_of-days_of u h = elim (lt-or-le u (2 ^ 31)) [
  | inl k ↦
      rw (days_of-before u k)
        (omega arith, date_of-negsuc (2 ^ 31 - 1 - u) (omega arith) ∙ omega arith)
  | inr k ↦
      rw (days_of-after u k h) (omega arith, date_of-pos (u - 2 ^ 31) (omega arith) ∙ omega arith)
]

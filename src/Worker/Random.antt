-- ===== src/Worker/Random.antt =====
-- `threadRandInt` of runtime/workerthread.cpp. An `int` is its 32 bits as a number, so it is negative
-- from 2 ^ 31 on; arithmetic wraps, and `>>` keeps the sign.
use petabricks.Base.{
  ℕ, ◌+◌, ◌-◌, ◌*◌, ◌/◌, ◌%◌, ◌^◌, ◌≤◌, ◌<◌, ◌≡◌, refl, ◌⊎◌, inl, inr, ◌↔◌, Bool-cases, arith, leb,
  leb→le, if◌then◌else◌,
}

pub record Seed : Type 0 where
  pub z : ℕ
  pub w : ℕ

-- `x >> 16`
unfoldable pub shift_right : ℕ → ℕ
shift_right x = if leb (2 ^ 31) x then x / 2 ^ 16 + (2 ^ 32 - 2 ^ 16) else x / 2 ^ 16

unfoldable pub next_seed : Seed → Seed
unfolding shift_right
next_seed s = record {
  z = (36969 * (s.z % 2 ^ 16) + shift_right s.z) % 2 ^ 32;
  w = (18000 * (s.w % 2 ^ 16) + shift_right s.w) % 2 ^ 32;
}

-- The sum that may be negative.
unfoldable pub raw_random : Seed → ℕ
raw_random s = (s.z * 2 ^ 16 + s.w) % 2 ^ 32

-- `if (retVal < 0) retVal = -retVal;`
unfoldable pub absolute : ℕ → ℕ
absolute x = if leb (2 ^ 31) x then (2 ^ 32 - x) % 2 ^ 32 else x

unfoldable pub thread_rand_int : Seed → ℕ × Seed
thread_rand_int s = let s' = next_seed s in (absolute (raw_random s'), s')

-- What `absolute` makes of 32 bits.
abbrev pub IsAbsolute : ℕ → ℕ → Type 0
IsAbsolute r x =
    (((x < 2 ^ 31) × (r ≡ x)) ⊎ ((2 ^ 31 ≤ x) × (r + x ≡ 2 ^ 32)))
    × (r ≤ 2 ^ 31)
    × ((r ≡ 2 ^ 31) ↔ (x ≡ 2 ^ 31))

absolute-IsAbsolute : (x : ℕ) → x < 2 ^ 32 → IsAbsolute (absolute x) x
unfolding absolute
absolute-IsAbsolute x h = elim (Bool-cases (leb (2 ^ 31) x)) [
  | inl k ↦
      let e : (2 ^ 32 - x) % 2 ^ 32 ≡ 2 ^ 32 - x = omega (arith, leb→le (2 ^ 31) x k) in
      rw (k, e)
        (
          inr (omega (arith, leb→le (2 ^ 31) x k), omega arith),
          omega (arith, leb→le (2 ^ 31) x k),
          ((λ q. omega arith), λ q. omega arith),
        )
  | inr k ↦
      let lt : x < 2 ^ 31 = ground arith in rw k (inl (lt, refl), omega arith, ((λ q. q), λ q. q))
]

-- `threadRandInt` returns the absolute value of its sum, which is not negative, or the least `int`, and
-- the latter exactly where the sum is the least `int`; and both words of the seed stay 32 bits wide.
pub thread_rand_int-range :
    (s : Seed)
    → let (r, s') = thread_rand_int s in
      IsAbsolute r (raw_random s') × (s'.z < 2 ^ 32) × (s'.w < 2 ^ 32)
unfolding thread_rand_int next_seed raw_random
thread_rand_int-range s =
    (absolute-IsAbsolute (raw_random (next_seed s)) (omega arith), omega arith, omega arith)

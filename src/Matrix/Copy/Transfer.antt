-- ===== src/Matrix/Copy/Transfer.antt =====
-- A loop that copies one cell in each round, from one buffer to another.
use native.Mathlib.Decide.{ℕ_discrete}
use petabricks.Base.{ℕ, zero, suc, ◌+◌, ◌≤◌, ◌<◌, ◌≡◌, ◌≢◌, refl, sym, ◌∙◌, arith}
use petabricks.Matrix.Copy.{Memory, write}
use petabricks.Matrix.Loop.{for_range}

-- The rounds from `i` on write to different cells.
abbrev pub Separate : (ℕ → ℕ) → ℕ → ℕ → Type 0
Separate to i j = (k l : ℕ) → i ≤ k → k < l → l < j → to k ≢ to l

module _ {E : Type 0} (source target : ℕ) (from to : ℕ → ℕ) where
  -- Round `k`.
  abbrev pub transfer : ℕ → Memory E → Memory E
  transfer k mem = write mem target (to k) (mem source (from k))

  pub transfer_other :
      (n i : ℕ) (mem : Memory E) (b a : ℕ) → b ≢ target → for_range n i transfer mem b a ≡ mem b a
  transfer_other zero i mem b a h = refl
  transfer_other (suc n) i mem b a h =
      ground (arith, transfer_other n (i + 1) (transfer i mem) b a h)

  pub transfer_miss :
      (n i : ℕ) (mem : Memory E) (a : ℕ)
      → ((k : ℕ) → i ≤ k → k < i + n → to k ≢ a)
      → for_range n i transfer mem target a ≡ mem target a
  transfer_miss zero i mem a h = refl
  transfer_miss (suc n) i mem a h =
      transfer_miss n (i + 1) (transfer i mem) a (λ k p q. h k (omega arith) (omega arith))
      ∙ skip (h i (omega arith) (omega arith))
    where
      skip : to i ≢ a → transfer i mem target a ≡ mem target a
      skip ne = ground arith

  pub transfer_hit :
      (n i k : ℕ) (mem : Memory E)
      → source ≢ target
      → Separate to i (i + n)
      → i ≤ k
      → k < i + n
      → for_range n i transfer mem target (to k) ≡ mem source (from k)
  transfer_hit zero i k mem d s p q = absurd (omega arith)
  transfer_hit (suc n) i k mem d s p q = elim (ℕ_discrete i k) [
    | yes e ↦
        transfer_miss n (i + 1) (transfer i mem) (to k)
          (λ l p' q'. λ same. s k l p (omega arith) (omega arith) (sym same))
        ∙ written e
    | no ne ↦
        transfer_hit n (i + 1) k (transfer i mem) d
          (λ k' l' a b c. s k' l' (omega arith) b (omega arith)) (omega arith) (omega arith)
        ∙ kept
  ]
    where
      written : i ≡ k → transfer i mem target (to k) ≡ mem source (from k)
      written e = ground arith

      kept : transfer i mem source (from k) ≡ mem source (from k)
      kept = ground arith

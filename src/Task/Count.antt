-- ===== src/Task/Count.antt =====
-- How often a task stands in the lists of dependents and among the notices.
use native.Mathlib.Numerals.{add-one}
use petabricks.Base.{
  ℕ, zero, suc, ◌+◌, ◌≤◌, ◌<◌, ◌≡◌, refl, ap, Bool, List, [], ◌∷◌, ◌++◌, arith, ◌==◌, if◌then◌else◌,
}
use petabricks.Task.{Task, update, notices_of}

abbrev pub occurrences : ℕ → List ℕ → ℕ
occurrences t [] = 0
occurrences t (x ∷ xs) = if x == t then suc (occurrences t xs) else occurrences t xs

abbrev pub noticed : ℕ → List (ℕ × Bool) → ℕ
noticed t [] = 0
noticed t ((x, b) ∷ xs) = if x == t then suc (noticed t xs) else noticed t xs

-- Over the dependents of the first `n` tasks.
unfoldable pub listed : (ℕ → Task) → ℕ → ℕ → ℕ
listed f t zero = 0
listed f t (suc n) = occurrences t (f n).dependents + listed f t n

-- The decrements of `t`'s counter that are still to come.
unfoldable pub waits : (ℕ → Task) → ℕ → List (ℕ × Bool) → ℕ → ℕ
waits f n ns t = listed f t n + noticed t ns

pub occurrences-append :
    (t : ℕ) (xs ys : List ℕ) → occurrences t (xs ++ ys) ≡ occurrences t xs + occurrences t ys
occurrences-append t [] ys = omega arith
occurrences-append t (x ∷ xs) ys = ground (arith, occurrences-append t xs ys)

pub noticed-notices_of :
    (t : ℕ) (xs : List ℕ) (b : Bool) (ns : List (ℕ × Bool))
    → noticed t (notices_of xs b ++ ns) ≡ occurrences t xs + noticed t ns
noticed-notices_of t [] b ns = omega arith
noticed-notices_of t (x ∷ xs) b ns = ground (arith, noticed-notices_of t xs b ns)

listed-update_ge :
    (f : ℕ → Task) (v : ℕ) (x : Task) (t n : ℕ) → n ≤ v → listed (update f v x) t n ≡ listed f t n
unfolding listed
listed-update_ge f v x t zero h = refl
listed-update_ge f v x t (suc n) h = ground (arith, listed-update_ge f v x t n (omega arith))

-- A new list of dependents of one task.
pub listed-update :
    (f : ℕ → Task) (v : ℕ) (x : Task) (t n : ℕ)
    → v < n
    → listed (update f v x) t n + occurrences t (f v).dependents
      ≡ listed f t n + occurrences t x.dependents
unfolding listed
listed-update f v x t zero h = absurd (omega arith)
listed-update f v x t (suc n) h =
    ground (arith, listed-update f v x t n, listed-update_ge f v x t n)

-- A task that is not there yet changes nothing by its birth.
pub listed-fresh :
    (f : ℕ → Task) (x : Task) (t n : ℕ)
    → occurrences t x.dependents ≡ 0
    → listed (update f n x) t (n + 1) ≡ listed f t n
unfolding listed
listed-fresh f x t n h = rw add-one (ground (arith, listed-update_ge f n x t n))

-- A task in no list is in none of them.
pub listed-zero :
    (f : ℕ → Task) (t n u : ℕ) → listed f t n ≡ 0 → u < n → occurrences t (f u).dependents ≡ 0
unfolding listed
listed-zero f t zero u h k = absurd (omega arith)
listed-zero f t (suc n) u h k = ground (arith, listed-zero f t n u)

pub listed-update_same :
    (f : ℕ → Task) (v : ℕ) (x : Task) (t n : ℕ)
    → x.dependents ≡ (f v).dependents
    → listed (update f v x) t n ≡ listed f t n
unfolding listed
listed-update_same f v x t zero e = refl
listed-update_same f v x t (suc n) e =
    ground (arith, listed-update_same f v x t n e, ap (occurrences t) e)

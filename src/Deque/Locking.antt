-- ===== src/Deque/Locking.antt =====
-- `LockingDeque` of common/thedeque.h: a `std::deque` under a lock, its front (the bottom) first.
use petabricks.Base.{◌≡◌, refl, ap, Bool, true, Option, none, some, List, [], ◌∷◌, ◌++◌, arith}

module _ {ℓ} {A : Type ℓ} where
  unfoldable push_back : List A → A → List A
  push_back q x = q ++ x ∷ []

  unfoldable pub push_front : List A → A → List A
  push_front q x = x ∷ q

  -- `pop_top`: `back()` and `pop_back()`.
  unfoldable pub pop_back : List A → Option A × List A
  pop_back [] = (none, [])
  pop_back (x ∷ []) = (some x, [])
  pop_back (x ∷ y ∷ q) = let (r, q') = pop_back (y ∷ q) in (r, x ∷ q')

  -- `pop_bottom`; the first argument says whether `trylock` succeeds.
  unfoldable pub pop_front : Bool → List A → Option A × List A
  pop_front true (x ∷ q) = (some x, q)
  pop_front _ q = (none, q)

  -- NULL only from an empty deque; otherwise the last entry.
  abbrev pub Last : Option A → List A → List A → Type ℓ
  Last none before after = (before ≡ []) × (after ≡ [])
  Last (some x) before after = before ≡ after ++ x ∷ []

  pop_back-step :
      (x y : A) (q : List A) (r : Option A × List A)
      → Last r.0 (y ∷ q) r.1
      → Last r.0 (x ∷ y ∷ q) (x ∷ r.1)
  pop_back-step x y q (none, q') h = absurd (ground (arith, h.0))
  pop_back-step x y q (some z, q') h = ap (◌∷◌ x) h

  pub pop_back-Last : (q : List A) → Last (pop_back q).0 q (pop_back q).1
  unfolding pop_back
  pop_back-Last [] = (refl, refl)
  pop_back-Last (x ∷ []) = refl
  pop_back-Last (x ∷ y ∷ q) = pop_back-step x y q (pop_back (y ∷ q)) (pop_back-Last (y ∷ q))

-- ===== src/Deque/Interleaving/Window.antt =====
-- The cells of an array between two indices, as a list.
use petabricks.Base.{
  ℕ, zero, suc, ◌+◌, ◌-◌, ◌≤◌, ◌<◌, ◌≡◌, refl, ap, ◌∙◌, List, [], ◌∷◌, ◌++◌, arith,
}
use petabricks.Deque.{write}

module _ {ℓ} {A : Type ℓ} where
  -- `count` cells from `lo` on.
  window : (ℕ → A) → ℕ → ℕ → List A
  window f lo zero = []
  window f lo (suc n) = f lo ∷ window f (lo + 1) n

  window-snoc : (f : ℕ → A) (lo n : ℕ) → window f lo (suc n) ≡ window f lo n ++ f (lo + n) ∷ []
  unfolding window
  window-snoc f lo zero = ap (λ k. f k ∷ []) (omega arith)
  window-snoc f lo (suc n) =
      ap (◌∷◌ (f lo))
        (window-snoc f (lo + 1) n ∙ ap (λ k. window f (lo + 1) n ++ f k ∷ []) (omega arith))

  window-write :
      (f : ℕ → A) (i : ℕ) (x : A) (lo n : ℕ)
      → lo + n ≤ i
      → window (write f i x) lo n ≡ window f lo n
  unfolding window
  window-write f i x lo zero h = refl
  window-write f i x lo (suc n) h = ground (arith, window-write f i x (lo + 1) n (omega arith))

  pub slice : (ℕ → A) → ℕ → ℕ → List A
  slice f lo hi = window f lo (hi - lo)

  pub slice-nil : (f : ℕ → A) (lo hi : ℕ) → hi ≤ lo → slice f lo hi ≡ []
  unfolding slice window
  slice-nil f lo hi h = let e : hi - lo ≡ 0 = omega arith in rw e refl

  pub slice-snoc :
      (f : ℕ → A) (lo hi : ℕ) → lo ≤ hi → slice f lo (hi + 1) ≡ slice f lo hi ++ f hi ∷ []
  unfolding slice
  slice-snoc f lo hi h =
      let e : hi + 1 - lo ≡ suc (hi - lo) = omega arith in
      let k : lo + (hi - lo) ≡ hi = omega arith in
      rw e (window-snoc f lo (hi - lo) ∙ ap (λ j. window f lo (hi - lo) ++ f j ∷ []) k)

  pub slice-cons : (f : ℕ → A) (lo hi : ℕ) → lo < hi → slice f lo hi ≡ f lo ∷ slice f (lo + 1) hi
  unfolding slice window
  slice-cons f lo hi h = let e : hi - lo ≡ suc (hi - (lo + 1)) = omega arith in rw e refl

  -- A write at the end of a slice, or past it, leaves it alone.
  pub slice-write :
      (f : ℕ → A) (i : ℕ) (x : A) (lo hi : ℕ)
      → lo ≤ hi
      → hi ≤ i
      → slice (write f i x) lo hi ≡ slice f lo hi
  unfolding slice
  slice-write f i x lo hi h k = window-write f i x lo (hi - lo) (omega arith)

-- ===== src/Matrix/Loop.antt =====
-- `do { body } while(incCoord(coord) >= 0);` and the sequence of coordinates that it goes through.
use petabricks.Base.{
  ℕ, zero, suc, ◌+◌, ◌-◌, ◌≤◌, ◌<◌, ◌≡◌, refl, subst, Option, none, some, List, arith, product,
}
use petabricks.Matrix.Coord.{Stepped, inc_coord, inc_coord_with_bound, zeros}
use petabricks.Matrix.Coord.Rank.{StepsTo, coord_at, coord_at-zero, inc_coord-StepsTo}
use petabricks.Matrix.Coord.Bound.{
  IsBox, extents, box_at, box_at-zero, inc_coord_with_bound-StepsTo,
}

module _ {ℓ} {S : Type ℓ} where
  -- On, unless the increment returned -1.
  abbrev go_on : Stepped → (List ℕ → Option S) → Option S → Option S
  go_on (some i, c) next last = next c
  go_on (none, c) next last = last

  -- `none` means that the fuel ran out.
  unfoldable pub coord_loop : (List ℕ → Stepped) → (List ℕ → S → S) → ℕ → List ℕ → S → Option S
  coord_loop step body zero c s = none
  coord_loop step body (suc fuel) c s =
      go_on (step c) (λ c'. coord_loop step body fuel c' (body c s)) (some (body c s))

  -- for (k = i; k < i + n; k++) s = body k s
  abbrev pub for_range : ℕ → ℕ → (ℕ → S → S) → S → S
  for_range zero i body s = s
  for_range (suc n) i body s = for_range n (i + 1) body (body i s)

  module _ (step : List ℕ → Stepped) (place : ℕ → List ℕ) (total : ℕ) (body : List ℕ → S → S) where
    loop_step :
        (fuel n : ℕ) (s : S) (r : Stepped)
        → step (place n) ≡ r
        → StepsTo place total n r
        → (n + 1 < total
            → coord_loop step body fuel (place (n + 1)) (body (place n) s)
              ≡ some (for_range (total - (n + 1)) (n + 1) (λ k. body (place k)) (body (place n) s)))
        → coord_loop step body (suc fuel) (place n) s
          ≡ some (for_range (total - n) n (λ k. body (place k)) s)
    unfolding coord_loop
    loop_step fuel n s (some i, c) e v rest =
        let k : total - n ≡ suc (total - (n + 1)) = omega (arith, v.0) in rw (e, v.1, k) (rest v.0)
    loop_step fuel n s (none, c) e v rest =
        let k : total - n ≡ 1 = omega (arith, v) in rw (e, k) refl

    -- With fuel for the places that are left, the loop runs the body once at each, in order.
    coord_loop_lem :
        ((n : ℕ) → n < total → StepsTo place total n (step (place n)))
        → (fuel n : ℕ) (s : S) → n < total
        → total ≤ n + fuel
        → coord_loop step body fuel (place n) s
          ≡ some (for_range (total - n) n (λ k. body (place k)) s)
    coord_loop_lem steps zero n s h k = absurd (omega arith)
    coord_loop_lem steps (suc fuel) n s h k =
        loop_step fuel n s (step (place n)) refl (steps n h)
          (λ p. coord_loop_lem steps fuel (n + 1) (body (place n) s) p (omega arith))

  -- From the first coordinate: with fuel for every cell, the loop of `incCoord` runs the body once
  -- at each coordinate inside the sizes, in the order of the places, and ends.
  pub coord_loop-sizes :
      (ss : List ℕ) (body : List ℕ → S → S) (fuel : ℕ) (s : S)
      → 0 < product ss
      → product ss ≤ fuel
      → coord_loop (inc_coord ss) body fuel (zeros ss) s
        ≡ some (for_range (product ss) 0 (λ k. body (coord_at ss k)) s)
  coord_loop-sizes ss body fuel s p h =
      let e : product ss - 0 ≡ product ss = omega arith in
      rw (← coord_at-zero ss) (
        rw e at (
          coord_loop_lem (inc_coord ss) (coord_at ss) (product ss) body (inc_coord-StepsTo ss) fuel
            0 s p (omega arith)))

  -- The same of `incCoordWithBound`, from the lower corner of a box that is not empty.
  pub coord_loop-box :
      (c1 c2 : List ℕ) (body : List ℕ → S → S) (fuel : ℕ) (s : S)
      → IsBox c1 c2
      → 0 < product (extents c1 c2)
      → product (extents c1 c2) ≤ fuel
      → coord_loop (inc_coord_with_bound c1 c2) body fuel c1 s
        ≡ some (for_range (product (extents c1 c2)) 0 (λ k. body (box_at c1 c2 k)) s)
  coord_loop-box c1 c2 body fuel s k p h =
      let total = product (extents c1 c2) in
      let e : total - 0 ≡ total = omega arith in
      rw e at (
        subst
          (λ c.
            coord_loop (inc_coord_with_bound c1 c2) body fuel c s
            ≡ some (for_range (total - 0) 0 (λ k. body (box_at c1 c2 k)) s))
          (box_at-zero c1 c2 k)
          (coord_loop_lem (inc_coord_with_bound c1 c2) (box_at c1 c2) total body
            (λ n q. inc_coord_with_bound-StepsTo c1 c2 n k q) fuel 0 s p (omega arith)))

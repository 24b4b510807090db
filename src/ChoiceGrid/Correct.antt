-- ===== src/ChoiceGrid/Correct.antt =====
-- The rules of the element that holds a point.
use petabricks.Base.{
  ℕ, ◌<◌, ◌≡◌, refl, sym, ap, ◌∙◌, Bool, true, false, ◌&&◌, Option, none, some, List, [], ◌∷◌,
  length, arith, ltb, leb,
}
use petabricks.ChoiceGrid.{
  Rule, has_rule, Maxima, Descriptor, apply_rule_priorities, construct_from,
}
use petabricks.ChoiceGrid.Active.{turns_of, is_sorted_from, has_rule-active_at}
use petabricks.ChoiceGrid.Locate.{
  locate, active_at, active_in, reaches, only_priorities, locate-construct_from,
}
use petabricks.ChoiceGrid.Order.{is_ordered_from-active_in}
use petabricks.ChoiceGrid.Priorities.{is_ordered_from, wanted_of, apply_rule_priorities-wanted_of}

-- The point is in the region with these begins and ends.
unfoldable pub is_in_box : List (ℕ × ℕ) → List ℕ → Bool
is_in_box [] xs = true
is_in_box ((b, e) ∷ box) [] = false
is_in_box ((b, e) ∷ box) (x ∷ xs) = (leb b x && ltb x e) && is_in_box box xs

module _ {F : Type 0} (m : Maxima F) where
  -- In each dimension the descriptors are sorted, and the rule's are its begin and then its end.
  unfoldable pub HasBox : ℕ → List (List (Descriptor F)) → List (ℕ × ℕ) → Type 0
  HasBox i [] [] = Unit {0}
  HasBox i (boundaries ∷ rest) ((b, e) ∷ box) =
      (is_sorted_from m 0 boundaries ≡ true)
      × (turns_of m i boundaries ≡ (true, b) ∷ ((false, e) ∷ []))
      × HasBox i rest box
  HasBox i _ _ = ⊥

  has_rule-active_in :
      (dimensions : List (List (Descriptor F))) (allowed : List Rule) (xs : List ℕ) (i : ℕ)
      (box : List (ℕ × ℕ)) (rules : List Rule)
      → HasBox i dimensions box
      → active_in m dimensions allowed xs ≡ some rules
      → has_rule i rules ≡ (has_rule i allowed && is_in_box box xs)
  unfolding active_in is_in_box HasBox
  has_rule-active_in [] allowed [] i [] rules h e = ground (arith, e)
  has_rule-active_in [] allowed [] i (side ∷ box) rules h e = absurd h
  has_rule-active_in [] allowed (x ∷ xs) i box rules h e = absurd (ground (arith, e))
  has_rule-active_in (boundaries ∷ rest) allowed [] i box rules h e = absurd (ground (arith, e))
  has_rule-active_in (boundaries ∷ rest) allowed (x ∷ xs) i [] rules h e = absurd h
  has_rule-active_in (boundaries ∷ rest) allowed (x ∷ xs) i ((b, c) ∷ box) rules (o, t, more) e =
      let active = active_at m allowed x boundaries [] in
      let e' : active_in m rest active xs ≡ some rules = ground (arith, e) in
      ground (
        arith,
        has_rule-active_in rest active xs i box rules more e',
        has_rule-active_at m i b c allowed x boundaries o t,
      )

  found-rules :
      (active : Option (List Rule)) (found : List Rule)
      → only_priorities active ≡ some found
      → (rules : List Rule) × (active ≡ some rules) × (apply_rule_priorities rules ≡ found)
  found-rules none found e = absurd (ground (arith, e))
  found-rules (some rules) found e = (rules, refl, ground (arith, e))

  -- Where the set of allowed rules is ordered, and a rule's region is a box whose begin comes before
  -- its end among the sorted boundaries of each dimension: the element of the choice grid that holds a
  -- point comes from a set of active rules, which has the rule if, and only if, it is allowed and the
  -- point is in its box; and the element's rules are those of the set for which no rule of the set has
  -- a lower priority and no where clause.
  pub construct_from-wanted_of :
      (dimensions : List (List (Descriptor F))) (allowed : List Rule) (xs : List ℕ) (i : ℕ)
      (box : List (ℕ × ℕ)) (found : List Rule)
      → length dimensions ≡ length xs
      → is_ordered_from 0 allowed ≡ true
      → HasBox i dimensions box
      → locate m (construct_from m dimensions allowed) xs ≡ some found
      → (rules : List Rule) × (active_in m dimensions allowed xs ≡ some rules)
        × (has_rule i rules ≡ (has_rule i allowed && is_in_box box xs))
        × (found ≡ wanted_of rules rules)
  construct_from-wanted_of dimensions allowed xs i box found h o boxed e =
      let (rules, a, p) =
        found-rules (active_in m dimensions allowed xs) found
          (sym (locate-construct_from m dimensions allowed xs h) ∙ e) in
      (
        rules,
        a,
        has_rule-active_in dimensions allowed xs i box rules boxed a,
        sym p
            ∙ apply_rule_priorities-wanted_of rules
                (is_ordered_from-active_in m dimensions allowed xs rules o a),
      )

  reaches-end :
      (i x e : ℕ) (b : Bool) (more : List (Bool × ℕ)) (rds : List (Descriptor F))
      → turns_of m i rds ≡ (b, e) ∷ more
      → x < e
      → reaches m x rds ≡ true
  unfolding turns_of reaches
  reaches-end i x e b more [] t h = absurd (ground arith)
  reaches-end i x e b more (rd ∷ rds) t h = ground (arith, reaches-end i x e b more rds)

  reaches-box :
      (i x b e : ℕ) (rds : List (Descriptor F))
      → turns_of m i rds ≡ (true, b) ∷ ((false, e) ∷ [])
      → x < e
      → reaches m x rds ≡ true
  unfolding turns_of reaches
  reaches-box i x b e [] t h = absurd (ground arith)
  reaches-box i x b e (rd ∷ rds) t h =
      ground (arith, reaches-box i x b e rds, reaches-end i x e false [] rds)

  active_in-some :
      (dimensions : List (List (Descriptor F))) (allowed : List Rule) (xs : List ℕ) (i : ℕ)
      (box : List (ℕ × ℕ))
      → length dimensions ≡ length xs
      → HasBox i dimensions box
      → is_in_box box xs ≡ true
      → (rules : List Rule) × (active_in m dimensions allowed xs ≡ some rules)
  unfolding active_in is_in_box HasBox
  active_in-some [] allowed [] i box n h e = (allowed, refl)
  active_in-some [] allowed (x ∷ xs) i box n h e = absurd (omega (arith, n))
  active_in-some (boundaries ∷ rest) allowed [] i box n h e = absurd (omega (arith, n))
  active_in-some (boundaries ∷ rest) allowed (x ∷ xs) i [] n h e = absurd h
  active_in-some (boundaries ∷ rest) allowed (x ∷ xs) i ((b, c) ∷ box) n (o, t, more) e =
      rw (reaches-box i x b c boundaries t (ground (arith, e))) (
        active_in-some rest (active_at m allowed x boundaries []) xs i box (omega (arith, n)) more
          (ground (arith, e)))

  -- Where a rule's region is a box whose begin comes before its end among the sorted boundaries of
  -- each dimension, an element of the choice grid holds each point of the box.
  pub construct_from-locate :
      (dimensions : List (List (Descriptor F))) (allowed : List Rule) (xs : List ℕ) (i : ℕ)
      (box : List (ℕ × ℕ))
      → length dimensions ≡ length xs
      → HasBox i dimensions box
      → is_in_box box xs ≡ true
      → (found : List Rule) × (locate m (construct_from m dimensions allowed) xs ≡ some found)
  construct_from-locate dimensions allowed xs i box n h e =
      let (rules, k) = active_in-some dimensions allowed xs i box n h e in
      (
        apply_rule_priorities rules,
        locate-construct_from m dimensions allowed xs n ∙ ap only_priorities k,
      )

-- ===== src/ChoiceGrid/Locate.antt =====
-- Which element of a choice grid holds a point.
use petabricks.Base.{
  ℕ, ◌≤◌, ◌≡◌, refl, Bool, true, false, ◌&&◌, ◌||◌, Bool-cases, inl, inr, Option, none, some, List,
  [], ◌∷◌, length, arith, ltb, leb, ◌==◌, if◌then◌else◌,
}
use petabricks.ChoiceGrid.{
  Rule, Maxima, Descriptor, Grid, nothing, unfinished, element, activate, apply_rule_priorities,
  sweep, construct_from,
}

abbrev pub only_priorities : Option (List Rule) → Option (List Rule)
only_priorities none = none
only_priorities (some rules) = some (apply_rule_priorities rules)

module _ {F : Type 0} (m : Maxima F) where
  -- The rules of the first element that holds the point, a coordinate for each dimension.
  unfoldable pub locate : Grid F → List ℕ → Option (List Rule)
  locate nothing xs = none
  locate (unfinished b) xs = none
  locate (element b e rules deeper next) [] = some rules
  locate (element b e rules deeper next) (x ∷ []) =
      let after = locate next (x ∷ []) in
      if leb (m.value b) x && ltb x (m.value e) then some rules else after
  locate (element b e rules deeper next) (x ∷ (y ∷ ys)) =
      let after = locate next (x ∷ (y ∷ ys)) in
      let inside = locate deeper (y ∷ ys) in
      if leb (m.value b) x && ltb x (m.value e) then inside else after

  -- The rules that are active after the descriptors up to a position.
  unfoldable pub active_at : List Rule → ℕ → List (Descriptor F) → List Rule → List Rule
  active_at allowed x [] active = active
  active_at allowed x (rd ∷ rds) active =
      let rest = active_at allowed x rds (activate allowed rd active) in
      if leb (m.value rd.position) x then rest else active

  unfoldable pub reaches : ℕ → List (Descriptor F) → Bool
  reaches x [] = false
  reaches x (rd ∷ rds) = ltb x (m.value rd.position) || reaches x rds

  -- The rules that are active at a point, one dimension after the other.
  unfoldable pub active_in : List (List (Descriptor F)) → List Rule → List ℕ → Option (List Rule)
  unfolding active_at reaches
  active_in [] allowed [] = some allowed
  active_in (boundaries ∷ rest) allowed (x ∷ xs) =
      let inner = active_in rest (active_at allowed x boundaries []) xs in
      if reaches x boundaries then inner else none
  active_in _ allowed _ = none

  abbrev inside : List Rule × Grid F → List ℕ → Option (List Rule)
  inside (rules, deeper) [] = some rules
  inside (rules, deeper) (y ∷ ys) = locate deeper (y ∷ ys)

  locate-element :
      (b e : F) (part : List Rule × Grid F) (next : Grid F) (x : ℕ) (xs : List ℕ)
      → locate (element b e part.0 part.1 next) (x ∷ xs)
        ≡ (if leb (m.value b) x && ltb x (m.value e) then inside part xs else locate next (x ∷ xs))
  unfolding locate
  locate-element b e part next x [] = refl
  locate-element b e part next x (y ∷ ys) = refl

  locate-sweep :
      (finish : List Rule → List Rule × Grid F) (allowed : List Rule) (is_root : Bool)
      (rds : List (Descriptor F)) (begin : F) (active : List Rule) (x : ℕ) (xs : List ℕ)
      → m.value begin ≤ x
      → locate (sweep m finish allowed is_root rds begin active) (x ∷ xs)
        ≡ (if reaches x rds then inside (finish (active_at allowed x rds active)) xs else none)
  unfolding sweep reaches active_at locate
  locate-sweep finish allowed true [] begin active x xs h = refl
  locate-sweep finish allowed false [] begin active x xs h = refl
  locate-sweep finish allowed is_root (rd ∷ rds) begin active x xs h =
      let v = m.value rd.position in
      let now = activate allowed rd active in
      elim (Bool-cases (v == m.value begin)) [
        | inl k ↦
            let not_past : ltb x v ≡ false = ground arith in
            let up_to : leb v x ≡ true = ground arith in
            rw (m.is_same_lem rd.position begin, k, not_past, up_to)
              (locate-sweep finish allowed is_root rds begin now x xs h)
        | inr k ↦
            let from_begin : leb (m.value begin) x ≡ true = ground arith in
            let next = sweep m finish allowed false rds rd.position now in
            rw
              (
                m.is_same_lem rd.position begin,
                k,
                locate-element begin rd.position (finish active) next x xs,
                from_begin,
              )
              (elim (Bool-cases (ltb x v)) [
                | inl j ↦ let not_yet : leb v x ≡ false = ground arith in rw (j, not_yet) refl
                | inr j ↦
                    let up_to : leb v x ≡ true = ground arith in
                    rw (j, up_to)
                      (locate-sweep finish allowed false rds rd.position now x xs (ground arith))
              ])
      ]

  pub locate-construct_from :
      (dimensions : List (List (Descriptor F))) (allowed : List Rule) (xs : List ℕ)
      → length dimensions ≡ length xs
      → locate (construct_from m dimensions allowed) xs
        ≡ (only_priorities (active_in dimensions allowed xs))
  unfolding construct_from active_in locate
  locate-construct_from [] allowed [] h = refl
  locate-construct_from [] allowed (x ∷ xs) h = absurd (omega arith)
  locate-construct_from (boundaries ∷ rest) allowed [] h = absurd (omega arith)
  locate-construct_from (boundaries ∷ []) allowed (x ∷ (y ∷ ys)) h = absurd (omega arith)
  locate-construct_from (boundaries ∷ (next ∷ rest)) allowed (x ∷ []) h = absurd (omega arith)
  locate-construct_from (boundaries ∷ []) allowed (x ∷ []) h =
      rw
        (locate-sweep (λ active. (apply_rule_priorities active, nothing)) allowed true boundaries
          m.zero_formula [] x [] (omega (arith, m.value_zero)))
        (elim (Bool-cases (reaches x boundaries)) [ inl k ↦ rw k refl | inr k ↦ rw k refl ])
  locate-construct_from (boundaries ∷ (next ∷ rest)) allowed (x ∷ (y ∷ ys)) h =
      rw
        (locate-sweep (λ active. (active, construct_from m (next ∷ rest) active)) allowed true
          boundaries m.zero_formula [] x (y ∷ ys) (omega (arith, m.value_zero)))
        (elim (Bool-cases (reaches x boundaries)) [
          | inl k ↦ rw k (
              locate-construct_from (next ∷ rest) (active_at allowed x boundaries []) (y ∷ ys)
                (omega (arith, h)))
          | inr k ↦ rw k refl
        ])

-- ===== src/ChoiceGrid/Active.antt =====
-- Which rules are active at a position.
use petabricks.Base.{
  ℕ, ◌≤◌, ◌≡◌, refl, ap, Bool, true, false, not, ◌&&◌, ◌||◌, Bool-cases, inl, inr, List, [], ◌∷◌,
  arith, ltb, leb, ◌==◌, if◌then◌else◌,
}
use petabricks.ChoiceGrid.{
  Rule, has_rule, put_rule, insert_rule, erase_rule, Maxima, Descriptor, activate,
}
use petabricks.ChoiceGrid.Locate.{active_at}

has_rule-put_rule :
    (i : ℕ) (r : Rule) (rs : List Rule) → has_rule i (put_rule r rs) ≡ (r.id == i || has_rule i rs)
unfolding has_rule put_rule
has_rule-put_rule i r [] = refl
has_rule-put_rule i r (s ∷ rs) = ground (arith, has_rule-put_rule i r rs)

has_rule-insert_rule :
    (i : ℕ) (r : Rule) (rs : List Rule)
    → has_rule i (insert_rule r rs) ≡ (r.id == i || has_rule i rs)
unfolding insert_rule
has_rule-insert_rule i r rs = elim (Bool-cases (r.id == i)) [
  | inl k ↦
      let e : r.id ≡ i = ground arith in
      ground (arith, ap (λ (j : ℕ). has_rule j rs) e, has_rule-put_rule i r rs)
  | inr k ↦ ground (arith, has_rule-put_rule i r rs)
]

has_rule-erase_rule :
    (i : ℕ) (r : Rule) (rs : List Rule)
    → has_rule i (erase_rule r rs) ≡ (not (r.id == i) && has_rule i rs)
unfolding has_rule erase_rule
has_rule-erase_rule i r [] = ground arith
has_rule-erase_rule i r (s ∷ rs) = ground (arith, has_rule-erase_rule i r rs)

-- A descriptor of the rule puts it in or out, if it is allowed; one of another rule does not matter.
has_rule-activate :
    {F : Type 0} (i : ℕ) (allowed : List Rule) (rd : Descriptor F) (active : List Rule)
    → has_rule i (activate allowed rd active)
      ≡ (if rd.rule.id == i && has_rule i allowed then rd.is_begin else has_rule i active)
unfolding activate
has_rule-activate i allowed rd active = elim (Bool-cases (rd.rule.id == i)) [
  | inl k ↦
      let e : rd.rule.id ≡ i = ground arith in
      ground (
        arith,
        ap (λ (j : ℕ). has_rule j allowed) e,
        has_rule-insert_rule i rd.rule active,
        has_rule-erase_rule i rd.rule active,
      )
  | inr k ↦
      ground (arith, has_rule-insert_rule i rd.rule active, has_rule-erase_rule i rd.rule active)
]

module _ {F : Type 0} (m : Maxima F) where
  -- The places at which a rule begins and ends.
  unfoldable pub turns_of : ℕ → List (Descriptor F) → List (Bool × ℕ)
  turns_of i [] = []
  turns_of i (rd ∷ rds) =
      let rest = turns_of i rds in
      if rd.rule.id == i then (rd.is_begin, m.value rd.position) ∷ rest else rest

  unfoldable pub is_sorted_from : ℕ → List (Descriptor F) → Bool
  is_sorted_from n [] = true
  is_sorted_from n (rd ∷ rds) =
      leb n (m.value rd.position) && is_sorted_from (m.value rd.position) rds

  -- After a rule's last turn nothing changes it.
  active_at-none :
      (i : ℕ) (allowed : List Rule) (x : ℕ) (rds : List (Descriptor F)) (active : List Rule)
      → turns_of i rds ≡ []
      → has_rule i (active_at m allowed x rds active) ≡ has_rule i active
  unfolding active_at turns_of
  active_at-none i allowed x [] active e = refl
  active_at-none i allowed x (rd ∷ rds) active e = ground (
    arith,
    has_rule-activate i allowed rd active,
    active_at-none i allowed x rds (activate allowed rd active),
  )

  turns_of-above :
      (i n p : ℕ) (b : Bool) (more : List (Bool × ℕ)) (rds : List (Descriptor F))
      → is_sorted_from n rds ≡ true
      → turns_of i rds ≡ (b, p) ∷ more
      → n ≤ p
  unfolding is_sorted_from turns_of
  turns_of-above i n p b more [] o e = absurd (ground arith)
  turns_of-above i n p b more (rd ∷ rds) o e =
      ground (arith, turns_of-above i (m.value rd.position) p b more rds)

  active_at-end :
      (i n e : ℕ) (allowed : List Rule) (x : ℕ) (rds : List (Descriptor F)) (active : List Rule)
      → is_sorted_from n rds ≡ true
      → turns_of i rds ≡ (false, e) ∷ []
      → has_rule i allowed ≡ true
      → has_rule i active ≡ true
      → has_rule i (active_at m allowed x rds active) ≡ ltb x e
  unfolding active_at turns_of is_sorted_from
  active_at-end i n e allowed x [] active o t h k = absurd (ground arith)
  active_at-end i n e allowed x (rd ∷ rds) active o t h k =
      let now = activate allowed rd active in
      let v = m.value rd.position in
      elim (Bool-cases (rd.rule.id == i)) [
        | inl j ↦ ground (
          arith,
          has_rule-activate i allowed rd active,
          active_at-none i allowed x rds now (ground arith),
        )
        | inr j ↦ ground (
          arith,
          has_rule-activate i allowed rd active,
          active_at-end i v e allowed x rds now,
          turns_of-above i v e false [] rds,
        )
      ]

  -- A rule that begins and then ends is active in between.
  active_at-spans :
      (i n b e : ℕ) (allowed : List Rule) (x : ℕ) (rds : List (Descriptor F)) (active : List Rule)
      → is_sorted_from n rds ≡ true
      → turns_of i rds ≡ (true, b) ∷ ((false, e) ∷ [])
      → has_rule i allowed ≡ true
      → has_rule i active ≡ false
      → has_rule i (active_at m allowed x rds active) ≡ (leb b x && ltb x e)
  unfolding active_at turns_of is_sorted_from
  active_at-spans i n b e allowed x [] active o t h k = absurd (ground arith)
  active_at-spans i n b e allowed x (rd ∷ rds) active o t h k =
      let now = activate allowed rd active in
      let v = m.value rd.position in
      elim (Bool-cases (rd.rule.id == i)) [
        | inl j ↦ ground (
          arith,
          has_rule-activate i allowed rd active,
          active_at-end i v e allowed x rds now,
          turns_of-above i v e false [] rds,
        )
        | inr j ↦ ground (
          arith,
          has_rule-activate i allowed rd active,
          active_at-spans i v b e allowed x rds now,
          turns_of-above i v b true ((false, e) ∷ []) rds,
        )
      ]

  active_at-absent :
      (i : ℕ) (allowed : List Rule) (x : ℕ) (rds : List (Descriptor F)) (active : List Rule)
      → has_rule i allowed ≡ false
      → has_rule i active ≡ false
      → has_rule i (active_at m allowed x rds active) ≡ false
  unfolding active_at
  active_at-absent i allowed x [] active h k = k
  active_at-absent i allowed x (rd ∷ rds) active h k = ground (
    arith,
    has_rule-activate i allowed rd active,
    active_at-absent i allowed x rds (activate allowed rd active),
  )

  pub has_rule-active_at :
      (i b e : ℕ) (allowed : List Rule) (x : ℕ) (rds : List (Descriptor F))
      → is_sorted_from 0 rds ≡ true
      → turns_of i rds ≡ (true, b) ∷ ((false, e) ∷ [])
      → has_rule i (active_at m allowed x rds []) ≡ (has_rule i allowed && leb b x && ltb x e)
  unfolding has_rule
  has_rule-active_at i b e allowed x rds o t = elim (Bool-cases (has_rule i allowed)) [
    | inl h ↦ rw (h, active_at-spans i 0 b e allowed x rds [] o t h refl) refl
    | inr h ↦ rw (h, active_at-absent i allowed x rds [] h refl) refl
  ]

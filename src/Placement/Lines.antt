-- ===== src/Placement/Lines.antt =====
-- On which process the parts of a line of `allocDataNByBlock` are.
use petabricks.Base.{
  ℕ, zero, suc, ◌+◌, ◌-◌, ◌%◌, ◌<◌, ◌≤◌, ◌≡◌, refl, sym, ap, ◌∙◌, Bool, true, false, not, ◌&&◌,
  ◌||◌, inl, inr, Bool-cases, some, ◌==◌, if◌then◌else◌, get_elem?, leb, arith,
}
use native.Mathlib.Nat.{mod-add-mod, mod-eq_of_lt, mod_self, mod-lt}
use native.Mathlib.Decide.{ℕ_discrete}
use petabricks.Placement.{wrapped, place_line}

-- How many processes on a part is, `j` parts after part `i` of a line of `m`: the part for the remainder
-- is where the part before it is.
abbrev pub steps : ℕ → Bool → ℕ → ℕ → ℕ
steps m extra i j = if extra && (i + j + 1 == m) then j - 1 else j

wrapped-mod : (n r : ℕ) → r < n → wrapped n (r + 1) ≡ (r + 1) % n
wrapped-mod n r h = elim (ℕ_discrete n (r + 1)) [
  | yes e ↦ rw (← e) (rw (mod_self n) (ground arith))
  | no ne ↦
      let lt : r + 1 < n = omega arith in
      let stays : leb n (r + 1) ≡ false = ground arith in rw stays (sym (mod-eq_of_lt lt))
]

wrapped_lt : (n r : ℕ) → r < n → wrapped n r ≡ r
wrapped_lt n r h = ground arith

next_steps :
    (m : ℕ) (extra : Bool) (i j : ℕ)
    → (not extra || not (i + 2 == m)) ≡ true
    → i + suc j < m
    → 1 + steps m extra (i + 1) j ≡ steps m extra i (suc j)
next_steps m true i j h k = ground arith
next_steps m false i j h k = omega arith

last_steps :
    (m : ℕ) (extra : Bool) (i j : ℕ)
    → (not extra || not (i + 2 == m)) ≡ false
    → i + suc j < m
    → steps m extra (i + 1) j ≡ steps m extra i (suc j)
last_steps m true i j h k = ground arith
last_steps m false i j h k = absurd (ground (arith, h))

no_steps : (m : ℕ) (extra : Bool) (i : ℕ) → steps m extra i 0 ≡ 0
no_steps m true i = ground arith
no_steps m false i = refl

place_line-from :
    (n_hosts : ℕ) (index : ℕ → ℕ) (m : ℕ) (extra : Bool) (n i r j : ℕ)
    → r < n_hosts
    → i + n ≤ m
    → j < n
    → get_elem? (place_line n_hosts index m extra n i r).0 j
      ≡ some (index (i + j), (r + steps m extra i j) % n_hosts)
unfolding place_line
place_line-from n_hosts index m extra zero i r j h k lt = absurd (omega arith)
place_line-from n_hosts index m extra (suc n) i r zero h k lt =
    let s0 : steps m extra i 0 ≡ 0 = no_steps m extra i in
    let i0 : i + 0 ≡ i = omega arith in
    let r0 : r + 0 ≡ r = omega arith in rw (s0, i0, r0) (rw (mod-eq_of_lt h) refl)
place_line-from n_hosts index m extra (suc n) i r (suc j) h k lt =
    elim (Bool-cases (not extra || not (i + 2 == m))) [
      | inl q ↦
          let next = (r + 1) % n_hosts in
          let ih =
            place_line-from n_hosts index m extra n (i + 1) next j (mod-lt (r + 1) (omega arith))
              (omega arith) (omega arith) in
          let place : i + 1 + j ≡ i + suc j = omega arith in
          let sum : (next + steps m extra (i + 1) j) % n_hosts
              ≡ (r + steps m extra i (suc j)) % n_hosts =
            mod-add-mod (r + 1) n_hosts (steps m extra (i + 1) j)
            ∙ ap (λ x. x % n_hosts) (omega (arith, next_steps m extra i j q (omega arith))) in
          rw q (
            rw (wrapped-mod n_hosts r h) (
              ih
              ∙ ap some (
                  ap (λ x. (index x, (next + steps m extra (i + 1) j) % n_hosts)) place
                  ∙ ap (λ x. (index (i + suc j), x)) sum)))
      | inr q ↦
          let ih =
            place_line-from n_hosts index m extra n (i + 1) r j h (omega arith) (omega arith) in
          let place : i + 1 + j ≡ i + suc j = omega arith in
          let same = last_steps m extra i j q (omega arith) in
          rw q (
            rw (wrapped_lt n_hosts r h) (
              ih
              ∙ ap some (
                  ap (λ x. (index x, (r + steps m extra (i + 1) j) % n_hosts)) place
                  ∙ ap (λ x. (index (i + suc j), (r + x) % n_hosts)) same)))
    ]

-- The parts of a line go to the processes one after the other, the first again after the last, from the
-- one where the line begins; where there is a part for the remainder, the last of the line, it is where
-- the part before it is.
pub place_line-hosts :
    (n_hosts : ℕ) (index : ℕ → ℕ) (m : ℕ) (extra : Bool) (r j : ℕ)
    → r < n_hosts
    → j < m
    → get_elem? (place_line n_hosts index m extra m 0 r).0 j
      ≡ some (index j, (r + (if extra && (j + 1 == m) then j - 1 else j)) % n_hosts)
place_line-hosts n_hosts index m extra r j h lt =
    let z : 0 + j ≡ j = omega arith in
    place_line-from n_hosts index m extra m 0 r j h (omega arith) lt
    ∙ ap (λ x. some (index x, (r + (if extra && (x + 1 == m) then j - 1 else j)) % n_hosts)) z

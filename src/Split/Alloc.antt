-- ===== src/Split/Alloc.antt =====
-- What `allocData` leaves in the parts.
use petabricks.Base.{
  ℕ, zero, suc, ◌+◌, ◌-◌, ◌<◌, ◌≡◌, ◌≢◌, refl, sym, subst, ◌∙◌, ◌&&◌, Bool-cases, inl, inr, Option,
  none, some, List, [], ◌∷◌, arith, ltb, leb, ◌==◌, if◌then◌else◌, length, length-set, get_elem?,
  set, get_elem?-set_self, get_elem?-set_ne, and_then,
}
use petabricks.Split.{
  Split, Part, here, sizes_of_part, place_in, place_part, create_part, ensure_part, use_part,
  alloc_from, alloc_data,
}

-- The part that `allocData` finds or makes in a slot.
abbrev pub filled : List ℕ → Option (Option Part) → Option (Option Part)
filled sizes (some none) = some (some (record { sizes = sizes; holder = here }))
filled sizes o = o

-- From slot `i` on, of which the last is `n` slots away.
abbrev pub Allocated : Split → ℕ → ℕ → Option Split → Type 0
Allocated s n i none = get_elem? s.parts (i + n) ≡ some none
Allocated s n i (some s') =
    (s' ≡ record s { parts = s'.parts })
    × (get_elem? s.parts (i + n) ≢ some none)
    × ((j : ℕ)
        → get_elem? s'.parts j ≡ (
            if leb i j && ltb j (i + n)
            then filled (sizes_of_part s j) (get_elem? s.parts j)
            else get_elem? s.parts j))

get_elem?-lt : {A : Type 0} (xs : List A) (i : ℕ) → i < length xs → get_elem? xs i ≢ none
get_elem?-lt [] i h = absurd (omega arith)
get_elem?-lt (x ∷ xs) zero h = λ e. absurd (ground (arith, e))
get_elem?-lt (x ∷ xs) (suc i) h = get_elem?-lt xs i (omega arith)

use_part-Allocated :
    (s : Split) (i : ℕ) (o : Option (Option Part))
    → get_elem? s.parts i ≡ o
    → i < length s.parts
    → Allocated s 0 i (use_part s o)
unfolding use_part
use_part-Allocated s i none e h = absurd (get_elem?-lt s.parts i h e)
use_part-Allocated s i (some none) e h = let k : i + 0 ≡ i = omega arith in rw k e
use_part-Allocated s i (some (some p)) e h =
    let k : i + 0 ≡ i = omega arith in
    (refl, rw (k, e) (λ q. absurd (ground (arith, q))), λ j. ground arith)

-- A slot that is taken is passed over.
passed-Allocated :
    (s : Split) (n i : ℕ) (part : Part) (o : Option Split)
    → get_elem? s.parts i ≡ some (some part)
    → Allocated s n (i + 1) o
    → Allocated s (suc n) i o
passed-Allocated s n i part none e v = let k : i + suc n ≡ i + 1 + n = omega arith in rw k v
passed-Allocated s n i part (some s') e (same, last, v) =
    let k : i + suc n ≡ i + 1 + n = omega arith in
    (
      same,
      rw k last,
      λ j. elim (Bool-cases (j == i)) [
        | inl k ↦ let q : j ≡ i = ground arith in ground (arith, v j, q, e)
        | inr k ↦ ground (arith, v j)
      ],
    )

-- A part is made in a slot that is not.
abbrev slot_of : Split → ℕ → Part
slot_of s i = record { sizes = sizes_of_part s i; holder = here }

abbrev made : Split → ℕ → Split
made s i = record s { parts = set s.parts i (some (slot_of s i)) }

made-Allocated :
    (s : Split) (n i : ℕ) (o : Option Split)
    → get_elem? s.parts i ≡ some none
    → i < length s.parts
    → Allocated (made s i) n (i + 1) o
    → Allocated s (suc n) i o
unfolding sizes_of_part
made-Allocated s n i none e h v =
    let k : i + suc n ≡ i + 1 + n = omega arith in
    let ne : i ≢ i + 1 + n = omega arith in rw k (sym (get_elem?-set_ne s.parts _ ne) ∙ v)
made-Allocated s n i (some s') e h (same, last, v) =
    let k : i + suc n ≡ i + 1 + n = omega arith in
    let far : i ≢ i + 1 + n = omega arith in
    (
      same,
      rw k (λ q. last (get_elem?-set_ne s.parts _ far ∙ q)),
      λ j. elim (Bool-cases (j == i)) [
        | inl k ↦
            let q : i ≡ j = ground arith in
            subst
              (λ j'. get_elem? s'.parts j' ≡ (
                if leb i j' && ltb j' (i + suc n)
                then filled (sizes_of_part s j') (get_elem? s.parts j')
                else get_elem? s.parts j'))
              q (ground (arith, v i, get_elem?-set_self s.parts i (some (slot_of s i)) h, e))
        | inr k ↦
            let ne : i ≢ j = ground arith in
            ground (arith, v j, get_elem?-set_ne s.parts (some (slot_of s i)) ne)
      ],
    )

stepped-Allocated :
    (s : Split) (n i : ℕ) (o : Option (Option Part))
    → get_elem? s.parts i ≡ o
    → i + suc n < length s.parts
    → ((s' : Split)
        → i + 1 + n < length s'.parts
        → Allocated s' n (i + 1) (alloc_from s' n (i + 1)))
    → Allocated s (suc n) i (and_then (ensure_part s i o) (λ s'. alloc_from s' n (i + 1)))
unfolding ensure_part create_part place_part place_in
stepped-Allocated s n i none e h ih = absurd (get_elem?-lt s.parts i (omega arith) e)
stepped-Allocated s n i (some (some p)) e h ih = passed-Allocated s n i p _ e (ih s (omega arith))
stepped-Allocated s n i (some none) e h ih =
    let l : length (made s i).parts ≡ length s.parts = length-set s.parts i _ in
    rw e (made-Allocated s n i _ e (omega arith) (ih (made s i) (omega arith)))

alloc_from-Allocated :
    (n : ℕ) (s : Split) (i : ℕ) → i + n < length s.parts → Allocated s n i (alloc_from s n i)
unfolding alloc_from
alloc_from-Allocated zero s i h = use_part-Allocated s i (get_elem? s.parts i) refl (omega arith)
alloc_from-Allocated (suc n) s i h =
    stepped-Allocated s n i (get_elem? s.parts i) refl h
      (λ s' k. alloc_from-Allocated n s' (i + 1) k)

-- `allocData` of a matrix with a slot for each part makes every part but the last one that is not
-- there, of that part's size, and leaves the other slots alone; it uses a null handler if, and
-- only if, the last part is not there.
pub alloc_data-Allocated :
    (s : Split)
    → 0 < s.num_parts
    → length s.parts ≡ s.num_parts
    → Allocated s (s.num_parts - 1) 0 (alloc_data s)
unfolding alloc_data
alloc_data-Allocated s h e = alloc_from-Allocated (s.num_parts - 1) s 0 (omega arith)

-- ===== src/Placement/Parts.antt =====
-- What `allocDataNByBlock` and `allocDataNBySlice` leave.
use petabricks.Base.{
  ℕ, zero, suc, ◌+◌, ◌*◌, ◌/◌, ◌<◌, ◌≤◌, ◌≡◌, refl, subst, ◌∙◌, Bool, some, List, [], ◌∷◌, All,
  length, get_elem?, arith,
}
use petabricks.Split.{Split, Part, init, parts_size_of, sizes_of_part}
use petabricks.Placement.{
  HostDb, num_hosts, clamped, wrapped, place_each, place_blocks, has_extra, num_parts_of,
  at_least_one, slice_split, block_split_2d, alloc_data_n_by_slice, alloc_data_n_by_block,
}
use petabricks.Placement.Filled.{create_parts-alloc_data, Follows, IsInjective}
use petabricks.Placement.Order.{
  place_each-Follows, length-place_each, place_blocks-Follows, order_of, order_of-IsInjective,
  order_of-lt,
}

-- `allocDataNBySlice` on any number of processes creates no part twice, and leaves in the slot of each
-- part a part of its size. This process's number is at most that of the others.
alloc_data_n_by_slice-parts :
    (db : HostDb) (size : List ℕ) (distribution_size d i : ℕ)
    → let s = init size (slice_split size (clamped (num_hosts db) distribution_size) d) in
      db.alloc_host_number ≤ length db.hosts
      → 0 < distribution_size
      → i < s.num_parts
      → (s' : Split) × (alloc_data_n_by_slice db size distribution_size d ≡ some s')
        × (part : Part) × (get_elem? s'.parts i ≡ some (some part))
        × (part.sizes ≡ sizes_of_part s i)
unfolding alloc_data_n_by_slice
alloc_data_n_by_slice-parts db size distribution_size d i k p lt =
    let split = slice_split size (clamped (num_hosts db) distribution_size) d in
    let n = (init size split).num_parts in
    create_parts-alloc_data db (λ x. x) size split (place_each (num_hosts db) n 0 0) i k
      (λ a b q r e. e) (λ j q. q) (place_each-Follows db n n 0 0 (omega arith) (omega arith))
      (length-place_each (num_hosts db) n 0 0) lt

-- The parts that this loop places are all on the process where it begins, since it goes to the next
-- one only past the last.
pub place_each-one_host :
    (n_hosts n i r : ℕ) → r < n_hosts → All (λ (p : ℕ × ℕ). p.1 ≡ r) (place_each n_hosts n i r)
unfolding place_each
place_each-one_host n_hosts zero i r h = tt
place_each-one_host n_hosts (suc n) i r h =
    let same : wrapped n_hosts r ≡ r = ground arith in
    (refl, rw same (place_each-one_host n_hosts n (i + 1) r h))

block_total :
    (w h p q : ℕ) → num_parts_of w p * num_parts_of h q ≡ (init (w ∷ h ∷ []) (p ∷ q ∷ [])).num_parts
unfolding init parts_size_of
block_total w h p q = grind arith

-- `allocDataNByBlock` of a matrix of two dimensions, transposed or not, creates no part twice, and
-- leaves in the slot of each part a part of its size. This process's number is at most that of the others.
pub alloc_data_n_by_block-parts :
    (db : HostDb) (w h distribution_size i : ℕ) (transposed : Bool)
    → let s =
        init
          (w ∷ h ∷ [])
          (block_split_2d (w ∷ h ∷ []) (clamped (num_hosts db) distribution_size)) in
      db.alloc_host_number ≤ length db.hosts
      → 0 < distribution_size
      → i < s.num_parts
      → (s' : Split) × (alloc_data_n_by_block db (w ∷ h ∷ []) distribution_size transposed
          ≡ some s')
        × (part : Part) × (get_elem? s'.parts i ≡ some (some part))
        × (part.sizes ≡ sizes_of_part s i)
unfolding alloc_data_n_by_block
alloc_data_n_by_block-parts db w h distribution_size i transposed k p lt =
    let n = clamped (num_hosts db) distribution_size in
    let split = block_split_2d (w ∷ h ∷ []) n in
    let cols = num_parts_of w (at_least_one (w / n)) in
    let rows = num_parts_of h (at_least_one (h / n)) in
    let total = (init (w ∷ h ∷ []) split).num_parts in
    let all : cols * rows ≡ total = block_total w h (at_least_one (w / n)) (at_least_one (h / n)) in
    let order = order_of transposed cols rows in
    let placing =
      place_blocks (num_hosts db) transposed (has_extra w n) (has_extra h n) cols rows in
    let (f, l) = place_blocks-Follows db transposed (has_extra w n) (has_extra h n) cols rows in
    create_parts-alloc_data db (order_of transposed cols rows) (w ∷ h ∷ []) split placing i k
      (subst (IsInjective order) all (order_of-IsInjective transposed cols rows))
      (subst (λ t. (j : ℕ) → j < t → order j < t) all (order_of-lt transposed cols rows))
      (subst (λ t. Follows db order t 0 placing) all f) (l ∙ all) lt

-- ===== src/Split.antt =====
-- runtime/regiondatasplit.cpp: a matrix cut into parts of at most `split_size` cells in each
-- dimension, which may live on different hosts. Dimensions are lists; sizes and coordinates do not
-- wrap. `none` is a failed JASSERT or an access outside `_parts`.
pub mod Parts
pub mod Alloc
pub mod Create
pub mod Cells
pub mod Walk
mod Tests
use petabricks.Base.{
  ℕ, zero, suc, ◌+◌, ◌-◌, ◌*◌, ◌/◌, ◌%◌, Bool, true, false, ◌&&◌, Option, none, some, List, [], ◌∷◌,
  ltb, leb, ◌==◌, if◌then◌else◌, product, get_elem?, set, replicate, and_then,
}
use petabricks.Matrix.Coord.{Stepped, carry}

-- Who holds a part: this process, a host that it was created on, or the owner of a handler that
-- was sent to us (a process and its handler).
pub data Holder : Type 0 where
  here : Holder
  host : ℕ → Holder
  handler : ℕ → ℕ → Holder

pub record Part : Type 0 where
  pub sizes : List ℕ
  pub holder : Holder

pub record Split : Type 0 where
  pub size : List ℕ
  pub split_size : List ℕ
  pub parts_size : List ℕ
  pub num_parts : ℕ
  pub parts_multipliers : List ℕ
  pub parts : List (Option Part)

-- How many parts there are in each dimension.
unfoldable pub parts_size_of : List ℕ → List ℕ → List ℕ
parts_size_of (s ∷ size) (p ∷ split) =
    (if s % p == 0 then s / p else s / p + 1) ∷ parts_size_of size split
parts_size_of _ _ = []

-- Each multiplier is the one before it times the number of parts there.
unfoldable pub multipliers_from : ℕ → List ℕ → List ℕ
multipliers_from m [] = []
multipliers_from m (n ∷ ns) = m ∷ multipliers_from (m * n) ns

unfoldable pub init : List ℕ → List ℕ → Split
unfolding parts_size_of multipliers_from
init sizes split =
    let counts = parts_size_of sizes split in
    record {
      size = sizes;
      split_size = split;
      parts_size = counts;
      num_parts = product counts;
      parts_multipliers = multipliers_from 1 counts;
      parts = replicate (product counts) none;
    }

-- The first loop of `createPart` and `setPart`, which carries `tmp`.
unfoldable pub parts_coord : List ℕ → ℕ → List ℕ
parts_coord [] tmp = []
parts_coord (n ∷ ns) tmp = tmp % n ∷ parts_coord ns (tmp / n)

-- The second loop: where the part begins, and its size.
unfoldable pub part_offset : List ℕ → List ℕ → List ℕ
part_offset (p ∷ split) (x ∷ c) = p * x ∷ part_offset split c
part_offset _ _ = []

unfoldable pub part_sizes : List ℕ → List ℕ → List ℕ → List ℕ
part_sizes (s ∷ size) (p ∷ split) (o ∷ offset) =
    (if ltb s (o + p) then s - o else p) ∷ part_sizes size split offset
part_sizes _ _ _ = []

-- The size of part `i`.
unfoldable pub sizes_of_part : Split → ℕ → List ℕ
unfolding parts_coord part_offset part_sizes
sizes_of_part s i =
    part_sizes s.size s.split_size (part_offset s.split_size (parts_coord s.parts_size i))

place_in : Split → ℕ → Holder → Option (Option Part) → Option Split
place_in s i holder (some none) = some (record s {
  parts = set s.parts i (some (record { sizes = sizes_of_part s i; holder = holder }));
})
place_in s i holder _ = none

place_part : Split → ℕ → Holder → Option Split
unfolding place_in
place_part s i holder = place_in s i holder (get_elem? s.parts i)

-- `createPart`; a null host is this process.
unfoldable pub create_part : Split → ℕ → Option ℕ → Option Split
unfolding place_part
create_part s i none = place_part s i here
create_part s i (some h) = place_part s i (host h)

-- `setPart`, with the handler's process and its number there.
unfoldable set_part : Split → ℕ → ℕ → ℕ → Option Split
unfolding place_part
set_part s i process number = place_part s i (handler process number)

-- `allocData`: the parts that are not there yet are created here, but for the last one, which is
-- used as it is.
ensure_part : Split → ℕ → Option (Option Part) → Option Split
unfolding create_part
ensure_part s i none = none
ensure_part s i (some none) = create_part s i none
ensure_part s i (some (some part)) = some s

use_part : Split → Option (Option Part) → Option Split
use_part s (some (some part)) = some s
use_part s _ = none

unfoldable pub alloc_from : Split → ℕ → ℕ → Option Split
unfolding ensure_part use_part
alloc_from s zero i = use_part s (get_elem? s.parts i)
alloc_from s (suc n) i =
    and_then (ensure_part s i (get_elem? s.parts i)) (λ s'. alloc_from s' n (i + 1))

unfoldable pub alloc_data : Split → Option Split
unfolding alloc_from
alloc_data s = alloc_from s (s.num_parts - 1) 0

-- `coordToPart`: the part's index, and the coordinate there.
unfoldable pub part_index : List ℕ → List ℕ → List ℕ → ℕ
part_index (p ∷ split) (m ∷ ms) (x ∷ c) = x / p * m + part_index split ms c
part_index _ _ _ = 0

unfoldable pub coord_in_part : List ℕ → List ℕ → List ℕ
coord_in_part (p ∷ split) (x ∷ c) = x % p ∷ coord_in_part split c
coord_in_part _ _ = []

unfoldable pub coord_to_part : Split → List ℕ → ℕ × List ℕ
unfolding part_index coord_in_part
coord_to_part s c = (part_index s.split_size s.parts_multipliers c, coord_in_part s.split_size c)

-- Whose cells a part's are: its own, as `createPart` makes a new handler for each slot, or those of a
-- handler that `setPart` was given, which other slots may have too.
pub data PartOwner : Type 0 where
  own : ℕ → PartOwner
  shared : ℕ → ℕ → PartOwner

unfoldable pub owner_of : ℕ → Holder → PartOwner
owner_of i (handler process number) = shared process number
owner_of i _ = own i

abbrev pub same_owner : PartOwner → PartOwner → Bool
same_owner (own i) (own j) = i == j
same_owner (shared p n) (shared q m) = p == q && n == m
same_owner _ _ = false

-- The parts' cells, by their owner and the coordinate in the part.
abbrev pub Store : Type 0 → Type 0
Store E = PartOwner → List ℕ → E

unfoldable pub is_region_in_one_part : List ℕ → List ℕ → List ℕ → Bool
is_region_in_one_part (p ∷ split) (b ∷ bs) (e ∷ es) =
    let rest = is_region_in_one_part split bs es in if ltb (b + p) e then false else rest
is_region_in_one_part _ _ _ = true

-- The loop of `incPartCoord` from dimension `i` on, whose entry has been stepped.
unfoldable pub carry_part : ℕ → List ℕ → List ℕ → List ℕ → List ℕ → Stepped
carry_part i (p ∷ p' ∷ ps) (b ∷ bs) (e ∷ e' ∷ es) (x ∷ y ∷ c) =
    let rest = carry_part (i + 1) (p' ∷ ps) bs (e' ∷ es) ((y + p') ∷ c) in
    if leb e x then carry b rest else (some i, x ∷ y ∷ c)
carry_part i _ _ (e ∷ es) (x ∷ c) = if ltb x e then (some i, x ∷ c) else (none, x ∷ c)
carry_part i _ _ _ c = (none, c)

unfoldable pub inc_part_coord : List ℕ → List ℕ → List ℕ → List ℕ → Stepped
inc_part_coord (p ∷ ps) bs es (x ∷ c) = carry_part 0 (p ∷ ps) bs es ((x + p) ∷ c)
inc_part_coord _ bs es c = (none, c)

abbrev pub same_coord : List ℕ → List ℕ → Bool
same_coord [] [] = true
same_coord (x ∷ c) (y ∷ d) = x == y && same_coord c d
same_coord _ _ = false

module _ {E : Type 0} where
  abbrev pub write_at : Store E → PartOwner → List ℕ → E → Store E
  write_at store o d v o' d' = if same_owner o' o && same_coord d' d then v else store o' d'

  read_part : Store E → ℕ → List ℕ → Option (Option Part) → Option E
  unfolding owner_of
  read_part store i d (some (some part)) = some (store (owner_of i part.holder) d)
  read_part store i d _ = none

  write_part : Store E → ℕ → List ℕ → E → Option (Option Part) → Option (Store E)
  unfolding owner_of
  write_part store i d v (some (some part)) = some (write_at store (owner_of i part.holder) d v)
  write_part store i d v _ = none

  -- `readCell` and `writeCell`; `none` is a part that is null, or outside `_parts`.
  unfoldable pub read_cell : Split → Store E → List ℕ → Option E
  unfolding read_part
  read_cell s store c = let (i, d) = coord_to_part s c in read_part store i d (get_elem? s.parts i)

  unfoldable pub write_cell : Split → Store E → List ℕ → E → Option (Store E)
  unfolding write_part
  write_cell s store c v =
      let (i, d) = coord_to_part s c in write_part store i d v (get_elem? s.parts i)

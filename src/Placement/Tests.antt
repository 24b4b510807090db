-- ===== src/Placement/Tests.antt =====
-- A matrix of 5 by 4 on three processes, of which this one is the second.
use petabricks.Base.{
  ℕ, ◌≡◌, refl, true, false, some, [], ◌∷◌, All, get_elem?, arith, ◌+◌, ◌-◌, ◌%◌, ◌&&◌, ◌==◌,
  if◌then◌else◌,
}
use petabricks.Split.{Split, Part, init, parts_size_of, sizes_of_part}
use petabricks.Placement.{
  HostDb, num_hosts, clamped, place_each, place_line, place_lines, place_blocks, block_split_2d,
  alloc_data_n_by_block,
}
use petabricks.Placement.Lines.{place_line-hosts}
use petabricks.Placement.Parts.{place_each-one_host, alloc_data_n_by_block-parts}

abbrev db : HostDb
db = record { hosts = 10 ∷ 20 ∷ []; alloc_host_number = 1 }

-- The odd column of 3 columns is on the process of the one before it.
blocks :
    place_blocks 3 false true false 3 2 ≡ (0, 0) ∷ (1, 1) ∷ (2, 1) ∷ (3, 2) ∷ (4, 0) ∷ (5, 0) ∷ []
unfolding place_blocks place_lines place_line
blocks = refl

place_each-one_host_example : All (λ (p : ℕ × ℕ). p.1 ≡ 0) (place_each 3 4 0 0)
place_each-one_host_example = place_each-one_host 3 4 0 0 (omega arith)

alloc_data_n_by_block-parts_example :
    let s = init (5 ∷ 4 ∷ []) (block_split_2d (5 ∷ 4 ∷ []) (clamped (num_hosts db) 2)) in
    (s' : Split) × (alloc_data_n_by_block db (5 ∷ 4 ∷ []) 2 true ≡ some s')
    × (part : Part) × (get_elem? s'.parts 4 ≡ some (some part))
    × (part.sizes ≡ sizes_of_part s 4)
unfolding init block_split_2d parts_size_of
alloc_data_n_by_block-parts_example =
    alloc_data_n_by_block-parts db 5 4 2 4 true (omega arith) (omega arith) (omega arith)

-- The last of three parts is where the second is.
place_line-hosts_example :
    get_elem? (place_line 3 (λ i. i) 3 true 3 0 2).0 2
    ≡ some (2, (2 + (if true && (2 + 1 == 3) then 2 - 1 else 2)) % 3)
place_line-hosts_example = place_line-hosts 3 (λ i. i) 3 true 2 2 (omega arith) (omega arith)

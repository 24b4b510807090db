-- ===== src/Placement/Hosts.antt =====
-- `allocHost` names each process by one number.
use petabricks.Base.{
  ℕ, zero, suc, ◌-◌, ◌<◌, ◌≤◌, ◌≡◌, refl, inl, inr, Bool-cases, Option, none, some, List, [], ◌∷◌,
  ltb, ◌==◌, length, get_elem?, arith,
}
use petabricks.Placement.{HostDb, num_hosts, alloc_host}

get_elem?-some : (xs : List ℕ) (i : ℕ) → i < length xs → (x : ℕ) × (get_elem? xs i ≡ some x)
get_elem?-some [] i h = absurd (omega arith)
get_elem?-some (x ∷ xs) zero h = (x, refl)
get_elem?-some (x ∷ xs) (suc i) h = get_elem?-some xs i (omega arith)

-- A number below that of the processes names one.
pub alloc_host-some :
    (db : HostDb) (i : ℕ)
    → db.alloc_host_number ≤ length db.hosts
    → i < num_hosts db
    → (h : Option ℕ) × (alloc_host db i ≡ some h)
unfolding alloc_host
alloc_host-some db i k h = elim (Bool-cases (ltb i db.alloc_host_number)) [
  | inl q ↦ let (x, e) = get_elem?-some db.hosts i (ground arith) in (some x, rw (q, e) refl)
  | inr q ↦ elim (Bool-cases (i == db.alloc_host_number)) [
    | inl p ↦ (none, rw (q, p) refl)
    | inr p ↦
        let (x, e) = get_elem?-some db.hosts (i - 1) (ground arith) in (some x, rw (q, p, e) refl)
  ]
]

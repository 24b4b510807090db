-- ===== src/RegionMatrix/Serial/Known.antt =====
-- `RegionHandlerDB` keeps one handler for each name that it is asked for.
use petabricks.Base.{
  ℕ, ◌≡◌, refl, Bool, some, List, ◌∷◌, ◌==◌, ==_iff, Bool-cases, Option-cases, inl, inr,
}
use petabricks.RegionMatrix.{Handler}
use petabricks.RegionMatrix.Serial.{HandlerDb, find_handler, found, get_local_region_handler}

-- A handler that was just made is found.
find_handler-new :
    (hs : List Handler) (h : Handler) → find_handler (h ∷ hs) h.host h.remote ≡ some h
unfolding find_handler
find_handler-new hs h =
    rw ((==_iff h.host h.host).1 refl) (rw ((==_iff h.remote h.remote).1 refl) refl)

-- Asked again for the same name, after the first request, a process gives the same handler and learns
-- nothing, whatever the size and the settings of the second request.
get_local_region_handler-twice :
    (db : HandlerDb) (host remote : ℕ) (size size' : List ℕ) (is_split is_split' : Bool) (m m' : ℕ)
    → get_local_region_handler
        (get_local_region_handler db host remote size is_split m).1
        host
        remote
        size'
        is_split'
        m'
      ≡ get_local_region_handler db host remote size is_split m
unfolding get_local_region_handler found
get_local_region_handler-twice db host remote size size' is_split is_split' m m' =
    let new : Handler = record {
      number = db.fresh;
      data_size = size;
      host = host;
      remote = remote;
      is_data_split = is_split;
      migration_type = m;
    } in
    elim (Bool-cases (host == db.self)) [
      | inl e ↦ rw e (rw e refl)
      | inr e ↦ elim (Option-cases (find_handler db.known host remote)) [
        | inl n ↦ rw e (rw n (rw e (rw (find_handler-new db.known new) refl)))
        | inr (h, f) ↦ rw e (rw f (rw e (rw f refl)))
      ]
    ]

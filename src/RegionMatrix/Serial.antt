-- ===== src/RegionMatrix/Serial.antt =====
-- How a region is sent to another process: `serialSize`, `serialize` and `unserialize` of
-- runtime/regionmatrix.h, and `RegionHandlerDB` of runtime/regionhandler.cpp. A buffer is the list of
-- the values that are written one after the other; their widths are parameters.
pub mod RoundTrip
pub mod Known
use petabricks.Base.{
  ℕ, zero, suc, ◌+◌, ◌*◌, Bool, true, false, ◌&&◌, Option, none, some, List, [], ◌∷◌, ◌++◌, map,
  ◌==◌, if◌then◌else◌, length, and_then,
}
use petabricks.RegionMatrix.{RegionMatrix, Slices, Handler}

-- An `int`, an IndexT, a `bool`, or a RemoteRegionHandler (a process and a handler there).
pub data Word : Type 0 where
  int : ℕ → Word
  index : ℕ → Word
  flag : Bool → Word
  name : ℕ → ℕ → Word

-- `sizeof` of each.
pub record Widths : Type 0 where
  pub of_int : ℕ
  pub of_index : ℕ
  pub of_bool : ℕ
  pub of_name : ℕ

abbrev width : Widths → Word → ℕ
width w (int n) = w.of_int
width w (index n) = w.of_index
width w (flag b) = w.of_bool
width w (name h p) = w.of_name

abbrev pub total_width : Widths → List Word → ℕ
total_width w [] = 0
total_width w (x ∷ xs) = width w x + total_width w xs

abbrev pub slice_dimensions : Slices → List ℕ
slice_dimensions [] = []
slice_dimensions ((e, p) ∷ ss) = e ∷ slice_dimensions ss

abbrev pub slice_positions : Slices → List ℕ
slice_positions [] = []
slice_positions ((e, p) ∷ ss) = p ∷ slice_positions ss

unfoldable pub serial_size : Widths → RegionMatrix → ℕ
serial_size w r =
    w.of_int
    + w.of_index * length r.size
    + w.of_index * length r.size
    + w.of_int
    + w.of_int * length r.slices
    + w.of_index * length r.slices
    + w.of_bool
    + w.of_int
    + w.of_index * length r.handler.data_size
    + w.of_name
    + w.of_bool
    + w.of_int

-- What follows the position of the last slice.
abbrev pub serialize_end : RegionMatrix → List Word
serialize_end r =
    flag r.is_transposed
    ∷ int (length r.handler.data_size)
    ∷ (map index r.handler.data_size
        ++ name r.handler.host r.handler.remote
          ∷ flag r.handler.is_data_split
          ∷ int r.handler.migration_type
          ∷ [])

unfoldable pub serialize : RegionMatrix → List Word
serialize r =
    int (length r.size)
    ∷ (map index r.size
        ++ (map index r.split_offset
            ++ int (length r.slices)
              ∷ (map int (slice_dimensions r.slices)
                  ++ (map index (slice_positions r.slices) ++ serialize_end r))))

-- The handlers of other processes that this process knows, and its own.
pub record HandlerDb : Type 0 where
  pub self : ℕ
  pub own : ℕ → Handler
  pub known : List Handler
  pub fresh : ℕ

unfoldable pub find_handler : List Handler → ℕ → ℕ → Option Handler
find_handler [] host remote = none
find_handler (h ∷ hs) host remote =
    if h.host == host && h.remote == remote then some h else find_handler hs host remote

-- A handler that is known, or else a new one over a `RegionDataRemote`.
found : HandlerDb → Handler → Option Handler → Handler × HandlerDb
found db new (some h) = (h, db)
found db new none = (new, record db { known = new ∷ db.known; fresh = db.fresh + 1 })

-- `getLocalRegionHandler`
unfoldable pub get_local_region_handler :
    HandlerDb → ℕ → ℕ → List ℕ → Bool → ℕ → Handler × HandlerDb
unfolding found
get_local_region_handler db host remote size is_split migration =
    let new : Handler = record {
      number = db.fresh;
      data_size = size;
      host = host;
      remote = remote;
      is_data_split = is_split;
      migration_type = migration;
    } in
    if host == db.self
    then (db.own remote, db)
    else found db new (find_handler db.known host remote)

-- The next `n` values of a width.
unfoldable pub take_indices : ℕ → List Word → Option (List ℕ × List Word)
take_indices zero ws = some ([], ws)
take_indices (suc n) (index x ∷ ws) =
    and_then (take_indices n ws) (λ (xs, rest). some (x ∷ xs, rest))
take_indices (suc n) _ = none

unfoldable pub take_ints : ℕ → List Word → Option (List ℕ × List Word)
take_ints zero ws = some ([], ws)
take_ints (suc n) (int x ∷ ws) = and_then (take_ints n ws) (λ (xs, rest). some (x ∷ xs, rest))
take_ints (suc n) _ = none

abbrev pub zip_slices : List ℕ → List ℕ → Slices
zip_slices (e ∷ es) (p ∷ ps) = (e, p) ∷ zip_slices es ps
zip_slices _ _ = []

-- What `unserialize` reads after the data's size, and what it makes of all that it has read.
finish :
    HandlerDb
    → List ℕ
    → List ℕ
    → Slices
    → Bool
    → List ℕ
    → List Word
    → Option (RegionMatrix × HandlerDb)
finish db size offset ss t data_size (name host remote ∷ flag is_split ∷ int migration ∷ ws) =
    let (h, db') = get_local_region_handler db host remote data_size is_split migration in
    some (
      record { size = size; split_offset = offset; is_transposed = t; slices = ss; handler = h },
      db',
    )
finish db size offset ss t data_size _ = none

-- What it reads after the slices.
read_handler : HandlerDb → List ℕ → List ℕ → Slices → List Word → Option (RegionMatrix × HandlerDb)
unfolding finish
read_handler db size offset ss (flag t ∷ int n ∷ ws) =
    and_then (take_indices n ws) (λ (data_size, rest). finish db size offset ss t data_size rest)
read_handler db size offset ss _ = none

-- What it reads after the offsets.
read_slices : HandlerDb → List ℕ → List ℕ → List Word → Option (RegionMatrix × HandlerDb)
unfolding read_handler
read_slices db size offset (int n ∷ ws) = and_then (take_ints n ws) (λ (es, rest).
    and_then (take_indices n rest)
      (λ (ps, end). read_handler db size offset (zip_slices es ps) end))
read_slices db size offset _ = none

-- `unserialize` of a region of dimension `d`; `none` is the failed JASSERT, or a buffer that no region
-- has been written to.
unfoldable pub unserialize : ℕ → HandlerDb → List Word → Option (RegionMatrix × HandlerDb)
unfolding read_slices
unserialize d db (int n ∷ ws) =
    let rest = and_then (take_indices d ws) (λ (size, ws').
      and_then (take_indices d ws') (λ (offset, ws''). read_slices db size offset ws'')) in
    if n == d then rest else none
unserialize d db _ = none

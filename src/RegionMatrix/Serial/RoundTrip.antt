-- ===== src/RegionMatrix/Serial/RoundTrip.antt =====
-- What is written is as long as `serialSize` says, and reads back as the same region.
use petabricks.Base.{
  ℕ, suc, ◌+◌, ◌*◌, ◌≡◌, refl, sym, ap, ◌∙◌, some, List, [], ◌∷◌, ◌++◌, map, arith, ==_iff, length,
}
use petabricks.RegionMatrix.{RegionMatrix, Slices, Handler}
use petabricks.RegionMatrix.Serial.{
  Word, int, index, flag, name, Widths, total_width, slice_dimensions, slice_positions, serial_size,
  serialize_end, serialize, HandlerDb, get_local_region_handler, take_indices, take_ints,
  zip_slices, finish, read_handler, read_slices, unserialize,
}

total_width-append :
    (w : Widths) (xs ys : List Word)
    → total_width w (xs ++ ys) ≡ total_width w xs + total_width w ys
total_width-append w [] ys = omega arith
total_width-append w (x ∷ xs) ys = omega (arith, total_width-append w xs ys)

total_width-indices :
    (w : Widths) (xs : List ℕ) → total_width w (map index xs) ≡ w.of_index * length xs
total_width-indices w [] = grind arith
total_width-indices w (x ∷ xs) = grind (arith, total_width-indices w xs)

total_width-ints : (w : Widths) (xs : List ℕ) → total_width w (map int xs) ≡ w.of_int * length xs
total_width-ints w [] = grind arith
total_width-ints w (x ∷ xs) = grind (arith, total_width-ints w xs)

length-slice_dimensions : (ss : Slices) → length (slice_dimensions ss) ≡ length ss
length-slice_dimensions [] = refl
length-slice_dimensions ((e, p) ∷ ss) = ap suc (length-slice_dimensions ss)

length-slice_positions : (ss : Slices) → length (slice_positions ss) ≡ length ss
length-slice_positions [] = refl
length-slice_positions ((e, p) ∷ ss) = ap suc (length-slice_positions ss)

-- What `serialize` writes of a region with as many offsets as sizes fills the `serialSize` bytes.
total_width-serialize :
    (w : Widths) (r : RegionMatrix)
    → length r.split_offset ≡ length r.size
    → total_width w (serialize r) ≡ serial_size w r
unfolding serialize serial_size
total_width-serialize w r h =
    let e1 = total_width-append w (map index r.size) (
      map index r.split_offset
      ++ int (length r.slices)
        ∷ (map int (slice_dimensions r.slices)
            ++ (map index (slice_positions r.slices) ++ serialize_end r))) in
    let e2 = total_width-append w (map index r.split_offset) (
      int (length r.slices)
      ∷ (map int (slice_dimensions r.slices)
          ++ (map index (slice_positions r.slices) ++ serialize_end r))) in
    let e3 =
      total_width-append w (map int (slice_dimensions r.slices))
        (map index (slice_positions r.slices) ++ serialize_end r) in
    let e4 = total_width-append w (map index (slice_positions r.slices)) (serialize_end r) in
    let e5 = total_width-append w (map index r.handler.data_size) (
      name r.handler.host r.handler.remote
      ∷ flag r.handler.is_data_split
      ∷ int r.handler.migration_type
      ∷ []) in
    let i1 = total_width-indices w r.size in
    let i2 : total_width w (map index r.split_offset) ≡ w.of_index * length r.size =
      total_width-indices w r.split_offset ∙ ap (◌*◌ w.of_index) h in
    let i3 : total_width w (map int (slice_dimensions r.slices)) ≡ w.of_int * length r.slices =
      total_width-ints w (slice_dimensions r.slices)
      ∙ ap (◌*◌ w.of_int) (length-slice_dimensions r.slices) in
    let i4 : total_width w (map index (slice_positions r.slices)) ≡ w.of_index * length r.slices =
      total_width-indices w (slice_positions r.slices)
      ∙ ap (◌*◌ w.of_index) (length-slice_positions r.slices) in
    let i5 = total_width-indices w r.handler.data_size in omega arith

take_indices-map :
    (xs : List ℕ) (ws : List Word) → take_indices (length xs) (map index xs ++ ws) ≡ some (xs, ws)
unfolding take_indices
take_indices-map [] ws = refl
take_indices-map (x ∷ xs) ws = rw (take_indices-map xs ws) refl

take_ints-map :
    (xs : List ℕ) (ws : List Word) → take_ints (length xs) (map int xs ++ ws) ≡ some (xs, ws)
unfolding take_ints
take_ints-map [] ws = refl
take_ints-map (x ∷ xs) ws = rw (take_ints-map xs ws) refl

zip_slices-parts : (ss : Slices) → zip_slices (slice_dimensions ss) (slice_positions ss) ≡ ss
zip_slices-parts [] = refl
zip_slices-parts ((e, p) ∷ ss) = ap (◌∷◌ (e, p)) (zip_slices-parts ss)

-- The handler that a process gets for the handler of a region, and what it knows afterwards.
abbrev pub handler_at : HandlerDb → Handler → Handler × HandlerDb
handler_at db h =
    get_local_region_handler db h.host h.remote h.data_size h.is_data_split h.migration_type

-- The same when the number is known in another form.
take_indices-all :
    (n : ℕ) (xs : List ℕ) (ws : List Word)
    → length xs ≡ n
    → take_indices n (map index xs ++ ws) ≡ some (xs, ws)
take_indices-all n xs ws h =
    ap (λ m. take_indices m (map index xs ++ ws)) (sym h) ∙ take_indices-map xs ws

take_ints-all :
    (n : ℕ) (xs : List ℕ) (ws : List Word)
    → length xs ≡ n
    → take_ints n (map int xs ++ ws) ≡ some (xs, ws)
take_ints-all n xs ws h = ap (λ m. take_ints m (map int xs ++ ws)) (sym h) ∙ take_ints-map xs ws

-- The region over the handler of the receiver, and what the receiver knows.
abbrev received : HandlerDb → RegionMatrix → RegionMatrix × HandlerDb
received db r = (record r { handler = (handler_at db r.handler).0 }, (handler_at db r.handler).1)

read_handler-serialize_end :
    (db : HandlerDb) (r : RegionMatrix)
    → read_handler db r.size r.split_offset r.slices (serialize_end r) ≡ some (received db r)
unfolding read_handler finish
read_handler-serialize_end db r =
    rw
      (take_indices-map r.handler.data_size (
        name r.handler.host r.handler.remote
        ∷ flag r.handler.is_data_split
        ∷ int r.handler.migration_type
        ∷ []))
      refl

read_slices-serialize :
    (db : HandlerDb) (r : RegionMatrix)
    → read_slices db r.size r.split_offset (
        int (length r.slices)
        ∷ (map int (slice_dimensions r.slices)
            ++ (map index (slice_positions r.slices) ++ serialize_end r)))
      ≡ some (received db r)
unfolding read_slices
read_slices-serialize db r =
    rw
      (take_ints-all (length r.slices) (slice_dimensions r.slices)
        (map index (slice_positions r.slices) ++ serialize_end r)
        (length-slice_dimensions r.slices))
      (rw
        (take_indices-all (length r.slices) (slice_positions r.slices) (serialize_end r)
          (length-slice_positions r.slices))
        (rw (zip_slices-parts r.slices) (read_handler-serialize_end db r)))

-- A process that receives what `serialize` wrote of a region with as many offsets as sizes gets the same
-- region, over the handler that it has, or makes, for the name that was sent.
pub unserialize-serialize :
    (db : HandlerDb) (r : RegionMatrix)
    → length r.split_offset ≡ length r.size
    → unserialize (length r.size) db (serialize r)
      ≡ some (record r { handler = (handler_at db r.handler).0 }, (handler_at db r.handler).1)
unfolding unserialize serialize
unserialize-serialize db r h =
    let rest =
      int (length r.slices)
      ∷ (map int (slice_dimensions r.slices)
          ++ (map index (slice_positions r.slices) ++ serialize_end r)) in
    rw ((==_iff (length r.size) (length r.size)).1 refl) (
      rw (take_indices-map r.size (map index r.split_offset ++ rest))
        (rw (take_indices-all (length r.size) r.split_offset rest h) (read_slices-serialize db r)))

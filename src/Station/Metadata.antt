-- ===== src/Station/Metadata.antt =====
-- `metadata`, a `std::map` of texts, and `Station::MetadataJson`: src/station.h and src/station.cpp.
use goradio_samp.Base.{
  Bool, true, false, List, [], ◌∷◌, ◌++◌, ltb, ◌==◌, if◌then◌else◌, Bytes, codes, equal, is_empty,
}
use goradio_samp.Json.Escape.{json_escape}

-- The order of the keys: that of their bytes.
unfoldable pub before : Bytes → Bytes → Bool
before [] [] = false
before [] (y ∷ ys) = true
before (x ∷ xs) [] = false
before (x ∷ xs) (y ∷ ys) = if x == y then before xs ys else ltb x y

-- `m[key] = value`: the map is the list of its entries in the keys' order.
unfoldable pub assign : Bytes → Bytes → List (Bytes × Bytes) → List (Bytes × Bytes)
unfolding before
assign key value [] = (key, value) ∷ []
assign key value ((k, v) ∷ m) =
    let rest = assign key value m in
    if equal k key
    then (k, value) ∷ m
    else if before key k
    then (key, value) ∷ (k, v) ∷ m
    else (k, v) ∷ rest

-- `m.erase(key)`
unfoldable pub erase : Bytes → List (Bytes × Bytes) → List (Bytes × Bytes)
erase key [] = []
erase key ((k, v) ∷ m) = if equal k key then m else (k, v) ∷ erase key m

-- What the loop appends for each entry: a comma unless nothing but the brace is there yet.
unfoldable pub metadata_loop : Bytes → List (Bytes × Bytes) → Bytes
unfolding json_escape
metadata_loop out [] = out
metadata_loop out ((k, v) ∷ m) =
    let comma = if has_entry out then codes "," else [] in
    metadata_loop
      (out
        ++ (comma ++ (b'"' ∷ (json_escape k ++ (codes "\":\"" ++ (json_escape v ++ codes "\""))))))
      m
  where
    has_entry : Bytes → Bool
    has_entry [] = false
    has_entry (c ∷ s) = if is_empty s then false else true

unfoldable pub metadata_json : List (Bytes × Bytes) → Bytes
unfolding metadata_loop
metadata_json m = metadata_loop (codes "{") m ++ codes "}"

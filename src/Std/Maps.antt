-- ===== src/Std/Maps.antt =====
-- Go's maps from strings to slices of strings, as lists of keys and values.
use kotlsp.Prelude.{List, [], ◌∷◌, ◌++◌, Bytes, same, if◌then◌else◌}

abbrev pub SliceMap : Type 0
SliceMap = List (Bytes × List Bytes)

-- `m[key] = append(m[key], value)`
unfoldable pub append_at : Bytes → Bytes → SliceMap → SliceMap
append_at key value [] = (key, value ∷ []) ∷ []
append_at key value (p ∷ ps) =
    let rest = append_at key value ps in
    if same key p.0 then (p.0, p.1 ++ (value ∷ [])) ∷ ps else p ∷ rest

-- `m[key]`
unfoldable pub at_key : Bytes → SliceMap → List Bytes
at_key key [] = []
at_key key (p ∷ ps) = if same key p.0 then p.1 else at_key key ps

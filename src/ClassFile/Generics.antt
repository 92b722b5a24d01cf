-- ===== src/ClassFile/Generics.antt =====
-- internal/classfile/classfile.go: the type parameters of a declaration, taken apart.
use kotlsp.Prelude.{
  Bool, true, false, ◌&&◌, List, [], ◌∷◌, ◌++◌, none, some, Bytes, codes, same, ◌==◌, if◌then◌else◌,
  length, ℤ, pos, negsuc,
}
use kotlsp.Prelude.Int.{◌+ℤ◌, ◌-ℤ◌}
use kotlsp.Std.Maps.{SliceMap, append_at}
use kotlsp.Std.Space.{trim_space}
use kotlsp.Std.Strings.{cut, split_at_all, trim_prefix, trim_suffix}

abbrev at_depth_zero : ℤ → Bool
at_depth_zero (pos n) = n == 0
at_depth_zero (negsuc n) = false

-- The loop of `splitGenericList`: the depth of the brackets, and the part so far.
unfoldable pub split_from : ℤ → Bytes → Bytes → List Bytes
split_from depth part [] = part ∷ []
split_from depth part (b ∷ s) = elim (b == b',' && at_depth_zero depth) [
  | true ↦ part ∷ split_from depth [] s
  | false ↦
      split_from (if b == b'<' then depth +ℤ pos 1 else if b == b'>' then depth -ℤ pos 1 else depth)
        (part ++ (b ∷ [])) s
]

-- `splitGenericList`
unfoldable pub split_generic_list : Bytes → List Bytes
split_generic_list value = split_from (pos 0) [] value

-- The bounds of a parameter.
unfoldable pub add_bounds : Bytes → List Bytes → SliceMap → SliceMap
add_bounds name [] bounds = bounds
add_bounds name (b ∷ bs) bounds =
    add_bounds name bs
      (if same (trim_space b) [] then bounds else append_at name (trim_space b) bounds)

-- A parameter: its name, and its bounds if there are any.
unfoldable pub add_parameter : Bytes → List Bytes × SliceMap → List Bytes × SliceMap
add_parameter part known =
    let (before, constraints) = cut (trim_space part) (codes " extends ") in
    let name = trim_space before in
    if same name [] then known else (
      known.0 ++ (name ∷ []),
      elim constraints [
        | none ↦ known.1
        | some text ↦ add_bounds name (split_at_all (length text) text (codes " & ")) known.1
      ],
    )

add_parameters : List Bytes → List Bytes × SliceMap → List Bytes × SliceMap
add_parameters [] known = known
add_parameters (p ∷ parts) known = add_parameters parts (add_parameter p known)

-- `splitJavaTypeParameters`; a nil map is the empty one.
unfoldable pub split_java_type_parameters : Bytes → List Bytes × SliceMap
unfolding add_parameters
split_java_type_parameters text =
    let value = trim_space (trim_suffix (trim_prefix (trim_space text) (codes "<")) (codes ">")) in
    if same value [] then ([], []) else add_parameters (split_generic_list value) ([], [])

-- ===== src/ClassFile/Annotations/Metadata.antt =====
-- internal/classfile/classfile.go: the metadata that the Kotlin compiler leaves in an annotation.
use kotlsp.Prelude.{
  ℕ, zero, suc, true, false, not, ◌&&◌, ◌||◌, List, [], ◌∷◌, ◌++◌, Option, none, some, Bytes, codes,
  same, ltb, ◌==◌, if◌then◌else◌, length, get_or, ℤ, pos,
}
use kotlsp.ClassFile.Constants.{Constant, no_constant, utf8}
use kotlsp.ClassFile.Descriptor.{descriptor_class_name}
use kotlsp.ClassFile.Reader.{Reader, reader, Read, ◌>>=◌, ◌>>◌, pure, u1, u2, skip, times}
use kotlsp.Std.Unicode.{Unicode}

-- `KotlinMetadata`
pub record KotlinMetadata : Type 0 where
  pub kind : ℤ
  pub metadata_version : List ℤ
  pub data1 : List Bytes
  pub data2 : List Bytes
  pub extra_string : Bytes
  pub package_name : Bytes
  pub extra_int : ℤ

abbrev pub no_metadata : KotlinMetadata
no_metadata = record {
  kind = pos 0;
  metadata_version = [];
  data1 = [];
  data2 = [];
  extra_string = [];
  package_name = [];
  extra_int = pos 0;
}

-- The dynamic values of `parseRawAnnotationValue`: nil, an int, a string, and the three slices.
mutual
  pub data RawValue : Type 0 where
    nil : RawValue
    int : ℤ → RawValue
    string : Bytes → RawValue
    ints : List ℤ → RawValue
    strings : List Bytes → RawValue
    values : RawValues → RawValue

  pub data RawValues : Type 0 where
    no_values : RawValues
    value : RawValue → RawValues → RawValues

-- The type assertions `value.(int)`, `value.(string)`, `value.([]int)` and `value.([]string)`; one
-- that fails gives the zero value.
unfoldable pub as_int : RawValue → Option ℤ
as_int (int n) = some n
as_int _ = none

unfoldable pub as_string : RawValue → Option Bytes
as_string (string s) = some s
as_string _ = none

abbrev or_zero : Option ℤ → ℤ
or_zero none = pos 0
or_zero (some n) = n

abbrev or_nothing : Option Bytes → Bytes
or_nothing none = []
or_nothing (some s) = s

unfoldable pub as_ints : RawValue → List ℤ
as_ints (ints ns) = ns
as_ints _ = []

unfoldable pub as_strings : RawValue → List Bytes
as_strings (strings ss) = ss
as_strings _ = []

-- All the values of a slice under an assertion.
unfoldable pub assert_all {ℓ} :
    {A : Type ℓ} → (RawValue → Option A) → List RawValue → Option (List A)
assert_all assert [] = some []
assert_all assert (v ∷ vs) = elim (assert v) [
  | none ↦ none
  | some a ↦ elim (assert_all assert vs) [ none ↦ none | some as_ ↦ some (a ∷ as_) ]
]

abbrev raw_values : List RawValue → RawValues
raw_values [] = no_values
raw_values (v ∷ vs) = value v (raw_values vs)

-- What becomes of the values of an array.
unfoldable pub slice_of : List RawValue → RawValue
slice_of vs = elim (assert_all as_int vs) [
  | some ns ↦ ints ns
  | none ↦ elim (assert_all as_string vs) [ some ss ↦ strings ss | none ↦ values (raw_values vs) ]
]

module _ (pool : List Constant) where
  -- The switch of `parseRawAnnotationValue`, with the reader of a value.
  unfoldable pub raw_of_tag : Read RawValue → ℕ → Read RawValue
  raw_of_tag raw tag =
      if tag == b'B' || tag == b'C' || tag == b'I' || tag == b'S' || tag == b'Z'
      then (do
        index ← u2
        pure (
            if ltb 0 index && ltb index (length pool)
            then int (get_or pool index no_constant).integer
            else nil))
      else if tag == b's'
      then (do index ← u2; pure (string (utf8 pool index)))
      else if tag == b'D' || tag == b'F' || tag == b'J' || tag == b'c'
      then (do skip 2; pure nil)
      else if tag == b'e'
      then (do skip 4; pure nil)
      else if tag == b'@'
      then (do skip 2; pairs ← u2; times pairs (λ v. do skip 2; _ ← raw; pure v) nil)
      else if tag == b'['
      then (do
        count ← u2
        vs ← times count (λ vs. do v ← raw; pure (vs ++ (v ∷ []))) []
        pure (slice_of vs))
      else pure nil

  -- `parseRawAnnotationValue`, on fuel that counts the nesting.
  unfoldable pub raw_annotation_value : ℕ → Read RawValue
  raw_annotation_value zero = pure nil
  raw_annotation_value (suc fuel) = do tag ← u1; raw_of_tag (raw_annotation_value fuel) tag

  -- `parseRawAnnotationValue`: the bytes that are left bound the nesting.
  unfoldable pub parse_raw_annotation_value : Read RawValue
  parse_raw_annotation_value r = raw_annotation_value (suc (length r.rest)) r

  -- The switch of `parseKotlinMetadata` on the name of a value.
  unfoldable pub set_metadata : Bytes → RawValue → KotlinMetadata → KotlinMetadata
  set_metadata name v m =
      if same name (codes "k")
      then record m { kind = or_zero (as_int v) }
      else if same name (codes "mv")
      then record m { metadata_version = as_ints v }
      else if same name (codes "d1")
      then record m { data1 = as_strings v }
      else if same name (codes "d2")
      then record m { data2 = as_strings v }
      else if same name (codes "xs")
      then record m { extra_string = or_nothing (as_string v) }
      else if same name (codes "pn")
      then record m { package_name = or_nothing (as_string v) }
      else if same name (codes "xi")
      then record m { extra_int = or_zero (as_int v) }
      else m

  -- The loop of `parseKotlinMetadata` over the annotations.
  unfoldable pub metadata_loop : Unicode → ℕ → Reader → Option KotlinMetadata
  metadata_loop u zero r = none
  metadata_loop u (suc left) r =
      let (index, r1) = u2 r in
      let kotlin = same (descriptor_class_name u (utf8 pool index)) (codes "kotlin.Metadata") in
      let (metadata, r2) =
        (do
          pairs ← u2
          times pairs
              (λ m. do
                name ← u2
                v ← parse_raw_annotation_value
                pure (if kotlin then set_metadata (utf8 pool name) v m else m))
              no_metadata)
          r1 in
      elim (kotlin && not r2.failed) [ true ↦ some metadata | false ↦ metadata_loop u left r2 ]

  -- `parseKotlinMetadata`; its nil is `none`.
  unfoldable pub parse_kotlin_metadata : Unicode → Bytes → Option KotlinMetadata
  parse_kotlin_metadata u payload = let (count, r) = u2 (reader payload) in metadata_loop u count r

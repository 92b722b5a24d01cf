-- ===== src/ClassFile/Signature.antt =====
-- internal/classfile/classfile.go: `signatureReader`, the parser of generic signatures. A position
-- in a signature is the text from there on, and `none` is a failure. Types nest, so `typ` is on
-- fuel that counts the nesting, and each loop is on fuel that counts its rounds.
pub mod Grammar
pub mod Ends
pub mod Rounds
pub mod Shapes
pub mod Steps
pub mod Fields
pub mod Fuel
pub mod Members
use kotlsp.Prelude.{
  ℕ, zero, suc, Bool, true, false, ◌&&◌, ◌||◌, List, [], ◌∷◌, ◌++◌, Option, none, some, Bytes,
  codes, same, ◌==◌, if◌then◌else◌, length, take, drop,
}
use kotlsp.ClassFile.Descriptor.{primitive, array_run}
use kotlsp.Std.Strings.{index_byte, join, repeat}

-- A parser of a text from a position on.
abbrev pub Parser : Type 0
Parser = Bytes → Option (Bytes × Bytes)

-- The wildcard that opens a type argument, and what follows it.
abbrev pub variance : Bytes → Bytes × Bytes
variance [] = ([], [])
variance (b ∷ s) =
    if b == b'+'
    then (codes "? extends ", s)
    else if b == b'-'
    then (codes "? super ", s)
    else ([], b ∷ s)

-- The loop of `typeArguments`, up to and with the closing bracket.
unfoldable pub arguments_loop : Parser → ℕ → Bytes → Option (List Bytes × Bytes)
arguments_loop typ zero s = none
arguments_loop typ (suc fuel) [] = none
arguments_loop typ (suc fuel) (b ∷ s) = elim (b == b'>') [
  | true ↦ some ([], s)
  | false ↦ elim (b == b'*') [
    | true ↦ elim (arguments_loop typ fuel s) [ none ↦ none | some r ↦ some (codes "?" ∷ r.0, r.1) ]
    | false ↦
        let (wildcard, from) = variance (b ∷ s) in
        elim (typ from) [
          | none ↦ none
          | some argument ↦ elim (arguments_loop typ fuel argument.1) [
            | none ↦ none
            | some r ↦ some ((wildcard ++ argument.0) ∷ r.0, r.1)
          ]
        ]
  ]
]

-- `typeArguments`, called at a `<`
unfoldable pub type_arguments : Parser → Bytes → Option (Bytes × Bytes)
type_arguments typ s = elim (arguments_loop typ (suc (length s)) (drop 1 s)) [
  | none ↦ none
  | some r ↦ some (codes "<" ++ (join r.0 (codes ", ") ++ codes ">"), r.1)
]

-- The loop of `typ` over the name of a class, up to and with the semicolon.
unfoldable pub name_loop : Parser → ℕ → Bytes → Option (Bytes × Bytes)
name_loop typ zero s = none
name_loop typ (suc fuel) [] = none
name_loop typ (suc fuel) (b ∷ s) = elim (b == b';') [
  | true ↦ some ([], s)
  | false ↦ elim (b == b'<') [
    | true ↦ elim (type_arguments typ (b ∷ s)) [
      | none ↦ none
      | some arguments ↦ elim (name_loop typ fuel arguments.1) [
        | none ↦ none
        | some r ↦ some (arguments.0 ++ r.0, r.1)
      ]
    ]
    | false ↦ elim (name_loop typ fuel s) [
      | none ↦ none
      | some r ↦ some ((if b == b'/' || b == b'$' || b == b'.' then b'.' else b) ∷ r.0, r.1)
    ]
  ]
]

-- A type variable: the name between `T` and the semicolon.
unfoldable pub type_variable : Parser
type_variable s = elim (index_byte s b';') [
  | none ↦ none
  | some end ↦ if end == 0 then none else some (take end s, drop (suc end) s)
]

-- `typ` behind the brackets of an array.
unfoldable pub typ_base : Parser → Bool → Parser
typ_base typ void [] = none
typ_base typ void (b ∷ s) = elim (primitive b) [
  | some name ↦ some (name, s)
  | none ↦
      if b == b'V' && void
      then some (codes "void", s)
      else if b == b'T'
      then type_variable s
      else if b == b'L'
      then name_loop typ (length s) s
      else none
]

-- `typ`
unfoldable pub typ : ℕ → Bool → Parser
typ zero void s = none
typ (suc fuel) void s =
    let arrays = array_run s in
    elim (typ_base (typ fuel false) (void && arrays == 0) (drop arrays s)) [
      | none ↦ none
      | some r ↦ some (r.0 ++ repeat (codes "[]") arrays, r.1)
    ]

-- `parseFieldSignature`
unfoldable pub parse_field_signature : Bytes → Option Bytes
parse_field_signature signature = elim (typ (suc (length signature)) false signature) [
  | none ↦ none
  | some r ↦ if same r.1 [] then some r.0 else none
]

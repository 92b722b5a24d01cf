-- ===== src/ClassFile/Signature/Members.antt =====
-- internal/classfile/classfile.go: the generic signatures of classes and methods.
use kotlsp.Prelude.{
  ℕ, zero, suc, true, false, List, [], ◌∷◌, ◌++◌, Option, none, some, Bytes, codes, same, ◌==◌,
  if◌then◌else◌, length, take, drop,
}
use kotlsp.Std.Strings.{index_byte, join}
use kotlsp.ClassFile.Signature.{Parser, typ}

-- The loop over the bounds of a type parameter.
unfoldable pub bounds_loop : Parser → ℕ → Bytes → Option (List Bytes × Bytes)
bounds_loop typ zero s = some ([], s)
bounds_loop typ (suc fuel) [] = some ([], [])
bounds_loop typ (suc fuel) (b ∷ s) = elim (b == b':') [
  | false ↦ some ([], b ∷ s)
  | true ↦ elim (same (take 1 s) (codes ":")) [
    | true ↦ bounds_loop typ fuel s
    | false ↦ elim (typ s) [
      | none ↦ none
      | some bound ↦ elim (bounds_loop typ fuel bound.1) [
        | none ↦ none
        | some r ↦
            some (if same bound.0 (codes "java.lang.Object") then r.0 else bound.0 ∷ r.0, r.1)
      ]
    ]
  ]
]

abbrev bounded_name : Bytes → List Bytes → Bytes
bounded_name name [] = name
bounded_name name (b ∷ bs) = name ++ (codes " extends " ++ join (b ∷ bs) (codes " & "))

-- The loop of `typeParameters`, up to and with the closing bracket.
unfoldable pub parameters_loop : Parser → ℕ → Bytes → Option (List Bytes × Bytes)
parameters_loop typ zero s = none
parameters_loop typ (suc fuel) [] = none
parameters_loop typ (suc fuel) (b ∷ s) = elim (b == b'>') [
  | true ↦ some ([], s)
  | false ↦ elim (index_byte (b ∷ s) b':') [
    | none ↦ none
    | some end ↦ elim (end == 0) [
      | true ↦ none
      | false ↦ elim (bounds_loop typ (suc (length s)) (drop end (b ∷ s))) [
        | none ↦ none
        | some bounds ↦ elim (parameters_loop typ fuel bounds.1) [
          | none ↦ none
          | some r ↦ some (bounded_name (take end (b ∷ s)) bounds.0 ∷ r.0, r.1)
        ]
      ]
    ]
  ]
]

-- `typeParameters`
unfoldable pub type_parameters : Parser → Bytes → Option (Bytes × Bytes)
type_parameters typ [] = some ([], [])
type_parameters typ (b ∷ s) =
    if b == b'<'
    then elim (parameters_loop typ (suc (length s)) s) [
      | none ↦ none
      | some r ↦ some (codes "<" ++ (join r.0 (codes ", ") ++ codes ">"), r.1)
    ]
    else some ([], b ∷ s)

-- Types up to the end of the text.
unfoldable pub types_loop : Parser → ℕ → Bytes → Option (List Bytes)
types_loop typ zero s = some []
types_loop typ (suc fuel) [] = some []
types_loop typ (suc fuel) (b ∷ s) = elim (typ (b ∷ s)) [
  | none ↦ none
  | some r ↦ elim (types_loop typ fuel r.1) [ none ↦ none | some ts ↦ some (r.0 ∷ ts) ]
]

pub record ClassSignature : Type 0 where
  pub type_parameters : Bytes
  pub supertype : Bytes
  pub interfaces : List Bytes

-- `parseClassSignature`
unfoldable pub parse_class_signature : Bytes → Option ClassSignature
parse_class_signature signature =
    let read = typ (suc (length signature)) false in
    if same signature [] then none else elim (type_parameters read signature) [
      | none ↦ none
      | some parameters ↦ elim (read parameters.1) [
        | none ↦ none
        | some super ↦ elim (types_loop read (length super.1) super.1) [
          | none ↦ none
          | some interfaces ↦ some (record {
            type_parameters = parameters.0;
            supertype = super.0;
            interfaces = interfaces;
          })
        ]
      ]
    ]

-- The parameters of a method up to and with the closing bracket.
unfoldable pub method_parameters : Parser → ℕ → Bytes → Option (List Bytes × Bytes)
method_parameters typ zero s = none
method_parameters typ (suc fuel) [] = none
method_parameters typ (suc fuel) (b ∷ s) = elim (b == b')') [
  | true ↦ some ([], s)
  | false ↦ elim (typ (b ∷ s)) [
    | none ↦ none
    | some parameter ↦ elim (method_parameters typ fuel parameter.1) [
      | none ↦ none
      | some r ↦ some (parameter.0 ∷ r.0, r.1)
    ]
  ]
]

-- The exceptions behind the result, to the end of the text.
unfoldable pub throws_loop : Parser → ℕ → Bytes → Option (List Bytes)
throws_loop typ fuel [] = some []
throws_loop typ zero (b ∷ s) = none
throws_loop typ (suc fuel) (b ∷ s) = elim (b == b'^') [
  | false ↦ none
  | true ↦ elim (typ s) [
    | none ↦ none
    | some exception ↦ elim (throws_loop typ fuel exception.1) [
      | none ↦ none
      | some es ↦ some (exception.0 ∷ es)
    ]
  ]
]

pub record MethodSignature : Type 0 where
  pub type_parameters : Bytes
  pub parameters : List Bytes
  pub result : Bytes
  pub throws : List Bytes

-- `parseMethodSignature`
unfoldable pub parse_method_signature : Bytes → Option MethodSignature
parse_method_signature signature =
    let read = typ (suc (length signature)) in
    elim (type_parameters (read false) signature) [
      | none ↦ none
      | some types ↦ elim types.1 [
        | [] ↦ none
        | b ∷ s ↦
            if b == b'('
            then elim (method_parameters (read false) (suc (length s)) s) [
              | none ↦ none
              | some parameters ↦ elim (read true parameters.1) [
                | none ↦ none
                | some result ↦ elim (throws_loop (read false) (length result.1) result.1) [
                  | none ↦ none
                  | some throws ↦ some (record {
                    type_parameters = types.0;
                    parameters = parameters.0;
                    result = result.0;
                    throws = throws;
                  })
                ]
              ]
            ]
            else none
      ]
    ]

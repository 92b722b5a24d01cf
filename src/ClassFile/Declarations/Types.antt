-- ===== src/ClassFile/Declarations/Types.antt =====
-- internal/classfile/classfile.go: `JavaDeclaration` and its signature.
use kotlsp.Prelude.{
  ℕ, Bool, ◌||◌, List, [], ◌∷◌, ◌++◌, map, Bytes, codes, same, not, ◌&&◌, if◌then◌else◌,
}
use kotlsp.Std.Maps.{SliceMap, at_key}
use kotlsp.Std.Strings.{join}

-- `JavaParameter`; its type is `typ`.
pub record JavaParameter : Type 0 where
  pub name : Bytes
  pub typ : Bytes
  pub variadic : Bool

-- `JavaDeclaration`
pub record JavaDeclaration : Type 0 where
  pub name : Bytes
  pub jvm_name : Bytes
  pub jvm_descriptor : Bytes
  pub fqn : Bytes
  pub container_fqn : Bytes
  pub kind : Bytes
  pub typ : Bytes
  pub initializer : Bytes
  pub signature : Bytes
  pub parameters : List JavaParameter
  pub type_parameters : List Bytes
  pub type_parameter_bounds : SliceMap
  pub supertypes : List Bytes
  pub modifiers : List Bytes
  pub deprecated : Bool
  pub name_start : ℕ
  pub name_end : ℕ

with_bounds : Bytes → List Bytes → Bytes
with_bounds name [] = name
with_bounds name (b ∷ bounds) = name ++ (codes " extends " ++ join (b ∷ bounds) (codes " & "))

bracketed : SliceMap → List Bytes → Bytes
unfolding with_bounds
bracketed bounds [] = []
bracketed bounds (p ∷ ps) =
    codes "<"
    ++ (join (map (λ p. with_bounds p (at_key p bounds)) (p ∷ ps)) (codes ", ") ++ codes ">")

behind_colon : List Bytes → Bytes
behind_colon [] = []
behind_colon (s ∷ supertypes) = codes " : " ++ join (s ∷ supertypes) (codes ", ")

abbrev is_class_kind : Bytes → Bool
is_class_kind kind =
    same kind (codes "class")
    || same kind (codes "interface")
    || same kind (codes "enum")
    || same kind (codes "annotation")
    || same kind (codes "record")

-- `javaDeclarationSignature`
unfoldable pub java_declaration_signature : JavaDeclaration → Bytes
unfolding bracketed behind_colon
java_declaration_signature d =
    (if not (same d.kind (codes "constructor")) && not (same d.typ [])
      then d.typ ++ codes " "
      else [])
    ++ ((if is_class_kind d.kind then d.kind ++ codes " " else [])
        ++ (d.name
            ++ (bracketed d.type_parameter_bounds d.type_parameters
                ++ ((if same d.kind (codes "method") || same d.kind (codes "constructor")
                      then codes "("
                        ++ (join (map (λ p. p.typ ++ (codes " " ++ p.name)) d.parameters)
                              (codes ", ")
                            ++ codes ")")
                      else [])
                    ++ behind_colon d.supertypes))))

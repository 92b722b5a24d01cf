-- ===== src/ClassFile/Annotations/Attached.antt =====
-- internal/classfile/classfile.go: annotations of parameters and of uses of types.
use kotlsp.Prelude.{
  ℕ, zero, suc, ◌*◌, true, false, List, [], ◌∷◌, ◌++◌, Option, none, some, Bytes, same, within,
  ◌==◌, if◌then◌else◌, ℤ, pos, negsuc,
}
use kotlsp.ClassFile.Annotations.{parse_annotation, append_unless_empty}
use kotlsp.ClassFile.Constants.{Constant}
use kotlsp.ClassFile.Reader.{Reader, reader, Read, ◌>>=◌, ◌>>◌, pure, u1, u2, skip, times}
use kotlsp.Std.Strconv.{Strconv}
use kotlsp.Std.Unicode.{Unicode}

-- `TypePathEntry`
pub record TypePathEntry : Type 0 where
  pub kind : ℕ
  pub index : ℕ

-- `TypeAnnotation`
pub record TypeAnnotation : Type 0 where
  pub annotation : Bytes
  pub target_type : ℕ
  pub parameter_index : ℤ
  pub type_path : List TypePathEntry

-- The switch of `parseTypeAnnotations`: the parameter's index, or `none` for a target that is not
-- known.
unfoldable pub read_target : ℕ → Read (Option ℤ)
read_target target =
    if within 0x00 0x01 target
    then (do skip 1; pure (some (negsuc 0)))
    else if within 0x10 0x12 target
    then (do skip 2; pure (some (negsuc 0)))
    else if within 0x13 0x15 target
    then pure (some (negsuc 0))
    else if target == 0x16
    then (do i ← u1; pure (some (pos i)))
    else if target == 0x17
    then (do skip 2; pure (some (negsuc 0)))
    else if within 0x40 0x41 target
    then (do n ← u2; skip (n * 6); pure (some (negsuc 0)))
    else if within 0x42 0x46 target
    then (do skip 2; pure (some (negsuc 0)))
    else if within 0x47 0x4b target
    then (do skip 3; pure (some (negsuc 0)))
    else pure none

-- The type path.
unfoldable pub read_path : Read (List TypePathEntry)
read_path = do
  n ← u1
  times n
      (λ path. do
        kind ← u1
        index ← u1
        pure (path ++ (record { kind = kind; index = index } ∷ [])))
      []

-- `mergeParameterAnnotations`
unfoldable pub merge_parameter_annotations :
    List (List Bytes) → List (List Bytes) → List (List Bytes)
merge_parameter_annotations target [] = target
merge_parameter_annotations [] (v ∷ vs) = v ∷ vs
merge_parameter_annotations (t ∷ ts) (v ∷ vs) = (t ++ v) ∷ merge_parameter_annotations ts vs

module _ (u : Unicode) (f : Strconv) (pool : List Constant) where
  -- The annotations of a parameter.
  unfoldable pub read_annotations : Read (List Bytes)
  read_annotations = do
    n ← u2
    times n (λ out. do a ← parse_annotation u f pool; pure (append_unless_empty out a)) []

  -- The loop over the parameters, which the error ends.
  unfoldable pub annotated_parameters : ℕ → Read (List (List Bytes))
  annotated_parameters zero r = ([], r)
  annotated_parameters (suc left) r = elim r.failed [
    | true ↦ ([], r)
    | false ↦
        let (annotations, r1) = read_annotations r in
        let (others, r2) = annotated_parameters left r1 in (annotations ∷ others, r2)
  ]

  -- `parseParameterAnnotations`; a nil is the empty list.
  unfoldable pub parse_parameter_annotations : Bytes → List (List Bytes)
  parse_parameter_annotations payload =
      let (annotations, r) = (do n ← u1; annotated_parameters n) (reader payload) in
      if r.failed then [] else annotations

  abbrev append_annotation : List TypeAnnotation → TypeAnnotation → List TypeAnnotation
  append_annotation result a = if same a.annotation [] then result else result ++ (a ∷ [])

  -- The loop of `parseTypeAnnotations`; a return of nil is the empty list.
  unfoldable pub type_annotations_loop : ℕ → List TypeAnnotation → Reader → List TypeAnnotation
  type_annotations_loop zero result r = result
  type_annotations_loop (suc left) result r =
      let (target, r1) = u1 r in
      let (parameter, r2) = read_target target r1 in
      elim parameter [
        | none ↦ []
        | some index ↦
            let (path, r3) = read_path r2 in
            let (annotation, r4) = parse_annotation u f pool r3 in
            elim r4.failed [
              | true ↦ []
              | false ↦
                  type_annotations_loop left
                    (append_annotation result (record {
                      annotation = annotation;
                      target_type = target;
                      parameter_index = index;
                      type_path = path;
                    }))
                    r4
            ]
      ]

  -- `parseTypeAnnotations`
  unfoldable pub parse_type_annotations : Bytes → List TypeAnnotation
  parse_type_annotations payload =
      let (count, r) = u2 (reader payload) in type_annotations_loop count [] r

-- ===== src/ClassFile/Signature/Fuel.antt =====
-- internal/classfile/classfile.go: generic signatures nest no deeper than their bytes allow.
use kotlsp.Prelude.{
  ℕ, zero, suc, ◌+◌, ◌≤◌, ◌<◌, ◌≡◌, refl, sym, ap, ◌∙◌, Bool, false, ◌&&◌, [], ◌∷◌, Bytes, ◌==◌,
  length, drop, length-drop, arith, Bool-cases, Option-cases, inl, inr,
}
use kotlsp.ClassFile.Descriptor.{primitive, array_run}
use kotlsp.ClassFile.Signature.{
  Parser, variance, arguments_loop, type_arguments, name_loop, typ_base, typ,
}
use kotlsp.ClassFile.Signature.Ends.{Shortens, variance-le, type_arguments-Ends, typ-Ends}
use kotlsp.ClassFile.Signature.Rounds.{name_loop_enough, arguments_loop_enough}

abbrev AgreesTo : ℕ → Parser → Parser → Type 0
AgreesTo bound p q = (s : Bytes) → length s < bound → p s ≡ q s

module _ (p q : Parser) (shortens : Shortens p) (bound : ℕ) (agrees : AgreesTo bound p q) where
  arguments_loop_same :
      (fuel : ℕ) (s : Bytes) → length s < bound → arguments_loop p fuel s ≡ arguments_loop q fuel s
  unfolding arguments_loop
  arguments_loop_same zero s l = refl
  arguments_loop_same (suc fuel) [] l = refl
  arguments_loop_same (suc fuel) (b ∷ s) l = elim (Bool-cases (b == b'>')) [
    | inl t ↦ rw (arguments_loop, t) refl
    | inr t ↦ elim (Bool-cases (b == b'*')) [
      | inl k ↦ rw (arguments_loop, t, k, arguments_loop_same fuel s (omega arith)) refl
      | inr k ↦
          let g = variance-le (b ∷ s) in
          let a = agrees (variance (b ∷ s)).1 (omega arith) in
          elim (Option-cases (p (variance (b ∷ s)).1)) [
            | inl e ↦ rw (arguments_loop, t, k, e, sym a ∙ e) refl
            | inr (x, e) ↦
                let h = (shortens (variance (b ∷ s)).1).ends x e in
                rw (arguments_loop, t, k, e, sym a ∙ e, arguments_loop_same fuel x.1 (omega arith))
                  refl
          ]
    ]
  ]

  type_arguments_same : (s : Bytes) → length s < bound → type_arguments p s ≡ type_arguments q s
  unfolding type_arguments
  type_arguments_same s l =
      let g = length-drop 1 s in
      rw (type_arguments, arguments_loop_same (suc (length s)) (drop 1 s) (omega arith)) refl

  name_loop_same :
      (fuel : ℕ) (s : Bytes) → length s < bound → name_loop p fuel s ≡ name_loop q fuel s
  unfolding name_loop
  name_loop_same zero s l = refl
  name_loop_same (suc fuel) [] l = refl
  name_loop_same (suc fuel) (b ∷ s) l = elim (Bool-cases (b == b';')) [
    | inl t ↦ rw (name_loop, t) refl
    | inr t ↦ elim (Bool-cases (b == b'<')) [
      | inr k ↦ rw (name_loop, t, k, name_loop_same fuel s (omega arith)) refl
      | inl k ↦
          let a = type_arguments_same (b ∷ s) l in
          elim (Option-cases (type_arguments p (b ∷ s))) [
            | inl e ↦ rw (name_loop, t, k, e, sym a ∙ e) refl
            | inr (x, e) ↦
                let h =
                  (type_arguments-Ends p shortens (b ∷ s) (length (b ∷ s)) (omega arith)).ends x
                    e in
                rw (name_loop, t, k, e, sym a ∙ e, name_loop_same fuel x.1 (omega arith)) refl
          ]
    ]
  ]

  typ_base_same :
      (void : Bool) (s : Bytes) → length s ≤ bound → typ_base p void s ≡ typ_base q void s
  unfolding typ_base
  typ_base_same void [] l = refl
  typ_base_same void (b ∷ s) l = elim (Option-cases (primitive b)) [
    | inr (name, e) ↦ rw (typ_base, e) refl
    | inl e ↦ rw (typ_base, e, name_loop_same (length s) s (omega arith)) refl
  ]

typ_deeper :
    (fuel more : ℕ) (void : Bool) (s : Bytes)
    → length s < fuel
    → typ (fuel + more) void s ≡ typ fuel void s
unfolding typ
typ_deeper zero more void s l = absurd (omega arith)
typ_deeper (suc fuel) more void s l =
    let n : suc fuel + more ≡ suc (fuel + more) = omega arith in
    let g = length-drop (array_run s) s in
    let deep = typ (fuel + more) false in
    let base =
      typ_base_same deep (typ fuel false)
        (λ t. typ-Ends (fuel + more) false t (length t) (omega arith)) fuel
        (λ t k. typ_deeper fuel more false t k) (void && array_run s == 0) (drop (array_run s) s)
        (omega arith) in
    ap (λ n. typ n void s) n ∙ rw (typ, base) refl

-- A level of nesting for each byte, and one, is enough to read a type of a generic signature: with
-- more fuel the same is read, or refused. The rounds that the loops over the name of a class and over
-- type arguments are given are enough too.
typ_enough :
    (fuel more : ℕ) (void : Bool) (s : Bytes)
    → length s < fuel
    → (typ (fuel + more) void s ≡ typ fuel void s)
      × (name_loop (typ fuel false) (length s + more) s ≡ name_loop (typ fuel false) (length s) s)
      × (arguments_loop (typ fuel false) (suc (length s) + more) (drop 1 s)
          ≡ arguments_loop (typ fuel false) (suc (length s)) (drop 1 s))
typ_enough fuel more void s l =
    let g = length-drop 1 s in
    (
      typ_deeper fuel more void s l,
      name_loop_enough (typ fuel false) (typ-Ends fuel false) (length s) more s (omega arith),
      arguments_loop_enough (typ fuel false) (typ-Ends fuel false) (suc (length s)) more (drop 1 s)
          (omega arith),
    )

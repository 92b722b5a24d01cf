-- ===== src/ClassFile/Signature/Ends.antt =====
-- internal/classfile/classfile.go: what the parser of generic signatures leaves.
use kotlsp.Prelude.{
  ℕ, zero, suc, ◌≤◌, ◌≡◌, ap, Bool, false, ◌&&◌, [], ◌∷◌, Option, none, some, Bytes, codes, ◌==◌,
  length, take, drop, length-drop, arith, Bool-cases, Option-cases, inl, inr,
}
use mathlib.Core.Option.{some-injective}
use kotlsp.ClassFile.Descriptor.{primitive, array_run}
use kotlsp.ClassFile.Signature.{
  Parser, variance, arguments_loop, type_arguments, name_loop, type_variable, typ_base, typ,
}
use kotlsp.Std.Strings.{index_byte}

-- What a parser leaves is no longer than what it is given.
pub record Ends {ℓ} {A : Type ℓ} (n : ℕ) (o : Option (A × Bytes)) : Type ℓ where
  pub ends : (r : A × Bytes) → o ≡ some r → length r.1 ≤ n

pub none-Ends {ℓ} : {A : Type ℓ} (n : ℕ) → Ends {A = A} n none
none-Ends n = record { ends = λ r e. absurd (ground arith) }

pub some-Ends {ℓ} : {A : Type ℓ} (n : ℕ) (a : A) (s : Bytes) → length s ≤ n → Ends n (some (a, s))
some-Ends n a s l = record {
  ends =
      λ r e. let f : (a, s) ≡ r = some-injective _ _ e in omega (arith, l, ap (λ x. length x.1) f);
}

abbrev pub Shortens : Parser → Type 0
Shortens p = (s : Bytes) → Ends (length s) (p s)

pub variance-le : (s : Bytes) → length (variance s).1 ≤ length s
variance-le [] = omega arith
variance-le (b ∷ s) = ground arith

module _ (p : Parser) (shortens : Shortens p) where
  pub arguments_loop-Ends :
      (fuel : ℕ) (s : Bytes) (n : ℕ) → length s ≤ n → Ends n (arguments_loop p fuel s)
  unfolding arguments_loop
  arguments_loop-Ends zero s n l = none-Ends n
  arguments_loop-Ends (suc fuel) [] n l = none-Ends n
  arguments_loop-Ends (suc fuel) (b ∷ s) n l = elim (Bool-cases (b == b'>')) [
    | inl q ↦ rw (arguments_loop, q) (some-Ends n [] s (omega arith))
    | inr q ↦ elim (Bool-cases (b == b'*')) [
      | inl k ↦ elim (Option-cases (arguments_loop p fuel s)) [
        | inl e ↦ rw (arguments_loop, q, k, e) (none-Ends n)
        | inr (x, e) ↦
            let h = (arguments_loop-Ends fuel s n (omega arith)).ends x e in
            rw (arguments_loop, q, k, e) (some-Ends n _ x.1 h)
      ]
      | inr k ↦ elim (Option-cases (p (variance (b ∷ s)).1)) [
        | inl e ↦ rw (arguments_loop, q, k, e) (none-Ends n)
        | inr (x, e) ↦
            let h = (shortens (variance (b ∷ s)).1).ends x e in
            let g = variance-le (b ∷ s) in
            elim (Option-cases (arguments_loop p fuel x.1)) [
              | inl d ↦ rw (arguments_loop, q, k, e, d) (none-Ends n)
              | inr (y, d) ↦
                  let i = (arguments_loop-Ends fuel x.1 n (omega arith)).ends y d in
                  rw (arguments_loop, q, k, e, d) (some-Ends n _ y.1 i)
            ]
      ]
    ]
  ]

  pub type_arguments-Ends : (s : Bytes) (n : ℕ) → length s ≤ n → Ends n (type_arguments p s)
  unfolding type_arguments
  type_arguments-Ends s n l = elim (Option-cases (arguments_loop p (suc (length s)) (drop 1 s))) [
    | inl e ↦ rw (type_arguments, e) (none-Ends n)
    | inr (x, e) ↦
        let g = length-drop 1 s in
        let h = (arguments_loop-Ends (suc (length s)) (drop 1 s) n (omega arith)).ends x e in
        rw (type_arguments, e) (some-Ends n _ x.1 h)
  ]

  name_loop-Ends : (fuel : ℕ) (s : Bytes) (n : ℕ) → length s ≤ n → Ends n (name_loop p fuel s)
  unfolding name_loop
  name_loop-Ends zero s n l = none-Ends n
  name_loop-Ends (suc fuel) [] n l = none-Ends n
  name_loop-Ends (suc fuel) (b ∷ s) n l = elim (Bool-cases (b == b';')) [
    | inl q ↦ rw (name_loop, q) (some-Ends n [] s (omega arith))
    | inr q ↦ elim (Bool-cases (b == b'<')) [
      | inr k ↦ elim (Option-cases (name_loop p fuel s)) [
        | inl e ↦ rw (name_loop, q, k, e) (none-Ends n)
        | inr (x, e) ↦
            let h = (name_loop-Ends fuel s n (omega arith)).ends x e in
            rw (name_loop, q, k, e) (some-Ends n _ x.1 h)
      ]
      | inl k ↦ elim (Option-cases (type_arguments p (b ∷ s))) [
        | inl e ↦ rw (name_loop, q, k, e) (none-Ends n)
        | inr (x, e) ↦
            let h = (type_arguments-Ends (b ∷ s) n l).ends x e in
            elim (Option-cases (name_loop p fuel x.1)) [
              | inl d ↦ rw (name_loop, q, k, e, d) (none-Ends n)
              | inr (y, d) ↦
                  let i = (name_loop-Ends fuel x.1 n h).ends y d in
                  rw (name_loop, q, k, e, d) (some-Ends n _ y.1 i)
            ]
      ]
    ]
  ]

module _ (p : Parser) (shortens : Shortens p) where
  type_variable-Ends : (s : Bytes) (n : ℕ) → length s ≤ n → Ends n (type_variable s)
  unfolding type_variable
  type_variable-Ends s n l = elim (Option-cases (index_byte s b';')) [
    | inl e ↦ rw (type_variable, e) (none-Ends n)
    | inr (i, e) ↦ elim (Bool-cases (i == 0)) [
      | inl z ↦ rw (type_variable, e, z) (none-Ends n)
      | inr z ↦
          let g = length-drop (suc i) s in
          rw (type_variable, e, z) (some-Ends n (take i s) (drop (suc i) s) (omega arith))
    ]
  ]

  typ_base-Ends : (void : Bool) (s : Bytes) (n : ℕ) → length s ≤ suc n → Ends n (typ_base p void s)
  unfolding typ_base
  typ_base-Ends void [] n l = none-Ends n
  typ_base-Ends void (b ∷ s) n l = elim (Option-cases (primitive b)) [
    | inr (name, e) ↦ rw (typ_base, e) (some-Ends n name s (omega arith))
    | inl e ↦ elim (Bool-cases (b == b'V' && void)) [
      | inl v ↦ rw (typ_base, e, v) (some-Ends n (codes "void") s (omega arith))
      | inr v ↦ elim (Bool-cases (b == b'T')) [
        | inl t ↦ rw (typ_base, e, v, t) (type_variable-Ends s n (omega arith))
        | inr t ↦ elim (Bool-cases (b == b'L')) [
          | inl k ↦
              rw (typ_base, e, v, t, k) (name_loop-Ends p shortens (length s) s n (omega arith))
          | inr k ↦ rw (typ_base, e, v, t, k) (none-Ends n)
        ]
      ]
    ]
  ]

pub typ-Ends :
    (fuel : ℕ) (void : Bool) (s : Bytes) (n : ℕ) → length s ≤ suc n → Ends n (typ fuel void s)
unfolding typ
typ-Ends zero void s n l = none-Ends n
typ-Ends (suc fuel) void s n l =
    let g = length-drop (array_run s) s in
    let inner : Shortens (typ fuel false) = λ t. typ-Ends fuel false t (length t) (omega arith) in
    elim (Option-cases
      (typ_base (typ fuel false) (void && array_run s == 0) (drop (array_run s) s))) [
        | inl e ↦ rw (typ, e) (none-Ends n)
        | inr (x, e) ↦
            let h =
              (typ_base-Ends (typ fuel false) inner (void && array_run s == 0)
                  (drop (array_run s) s) n (omega arith)).ends
                x e in
            rw (typ, e) (some-Ends n _ x.1 h)
      ]

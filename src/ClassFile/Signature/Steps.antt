-- ===== src/ClassFile/Signature/Steps.antt =====
-- internal/classfile/classfile.go: the steps of the parser of generic signatures.
use kotlsp.Prelude.{
  ℕ, suc, ◌≡◌, refl, sym, ap, subst, ◌∙◌, false, List, [], ◌∷◌, ◌++◌, append-nil, append_assoc,
  none, some, Bytes, codes, same, ◌==◌, length, drop, take-append, arith, Option-cases, inl, inr,
}
use mathlib.Core.Option.{some-injective}
use kotlsp.ClassFile.Descriptor.{primitive, array_run}
use kotlsp.ClassFile.Descriptor.Types.{array_run_none, drop_past, repeat_last}
use kotlsp.ClassFile.Signature.{
  Parser, arguments_loop, type_arguments, name_loop, type_variable, typ_base, typ,
}
use kotlsp.ClassFile.Signature.Grammar.{
  Variance, exact, extends, super, GenericType, mark, signature, java_letter, wildcard, java,
  IsGeneric,
}
use kotlsp.Std.Find.{Lacks, index_byte-append}
use kotlsp.Std.Strings.{join, repeat}
use kotlsp.ClassFile.Signature.Shapes.{first, others, signature_first, IsPlain, first-IsPlain}

-- The type behind the brackets, and its name behind that of the elements.
typ_behind :
    (fuel : ℕ) (s name rest : Bytes)
    → typ_base (typ fuel false) false (drop (array_run s) s) ≡ some (name, rest)
    → typ (suc fuel) false s ≡ some (name ++ repeat (codes "[]") (array_run s), rest)
unfolding typ
typ_behind fuel s name rest e = simp (typ, e)

pub typ_plain :
    (fuel b : ℕ) (s name rest : Bytes)
    → (b == b'[') ≡ false
    → typ_base (typ fuel false) false (b ∷ s) ≡ some (name, rest)
    → typ (suc fuel) false (b ∷ s) ≡ some (name, rest)
unfolding repeat
typ_plain fuel b s name rest n e =
    let z = array_run_none b s n in
    let f : typ_base (typ fuel false) false (drop (array_run (b ∷ s)) (b ∷ s)) ≡ some (name, rest) =
      ap (λ k. typ_base (typ fuel false) false (drop k (b ∷ s))) z ∙ e in
    typ_behind fuel (b ∷ s) name rest f
    ∙ ap (λ k. some (name ++ repeat (codes "[]") k, rest)) z
    ∙ ap (λ x. some (x, rest)) (append-nil name)

pub typ_array :
    (fuel : ℕ) (s name rest : Bytes)
    → typ (suc fuel) false s ≡ some (name, rest)
    → typ (suc fuel) false (b'[' ∷ s) ≡ some (name ++ codes "[]", rest)
unfolding typ array_run repeat
typ_array fuel s name rest e =
    elim (Option-cases (typ_base (typ fuel false) false (drop (array_run s) s))) [
      | inl q ↦ let f : none ≡ some (name, rest) = simp (typ, q) at e in absurd (ground arith)
      | inr ((base, more), q) ↦
          let g : (base ++ repeat (codes "[]") (array_run s), more) ≡ (name, rest) =
            some-injective _ _ (sym (typ_behind fuel s base more q) ∙ e) in
          typ_behind fuel (b'[' ∷ s) base more q
          ∙ ap (λ x. some (x, more))
              (ap (λ t. base ++ t) (sym (repeat_last (codes "[]") (array_run s)))
                ∙ sym (append_assoc base (repeat (codes "[]") (array_run s)) (codes "[]")))
          ∙ ap (λ p. some (p.0 ++ codes "[]", p.1)) g
    ]

module _ (rec : Parser) where
  pub name_letter :
      (fuel b : ℕ) (s name rest : Bytes)
      → (b == b';') ≡ false
      → (b == b'<') ≡ false
      → name_loop rec fuel s ≡ some (name, rest)
      → name_loop rec (suc fuel) (b ∷ s) ≡ some (java_letter b ∷ name, rest)
  unfolding name_loop
  name_letter fuel b s name rest n m e = simp (name_loop, n, m, e)

  pub name_arguments :
      (fuel : ℕ) (s spelled more name rest : Bytes)
      → type_arguments rec (b'<' ∷ s) ≡ some (spelled, more)
      → name_loop rec fuel more ≡ some (name, rest)
      → name_loop rec (suc fuel) (b'<' ∷ s) ≡ some (spelled ++ name, rest)
  unfolding name_loop
  name_arguments fuel s spelled more name rest e k = rw (name_loop, e, k) refl

  pub any_argument :
      (fuel : ℕ) (s : Bytes) (names : List Bytes) (rest : Bytes)
      → arguments_loop rec fuel s ≡ some (names, rest)
      → arguments_loop rec (suc fuel) (b'*' ∷ s) ≡ some (codes "?" ∷ names, rest)
  unfolding arguments_loop
  any_argument fuel s names rest e = simp (arguments_loop, e)

  plain_argument :
      (fuel b : ℕ) (s name more : Bytes) (names : List Bytes) (rest : Bytes)
      → IsPlain b
      → rec (b ∷ s) ≡ some (name, more)
      → arguments_loop rec fuel more ≡ some (names, rest)
      → arguments_loop rec (suc fuel) (b ∷ s) ≡ some (name ∷ names, rest)
  unfolding arguments_loop
  plain_argument fuel b s name more names rest (p, (q, (x, y))) e k =
      simp (arguments_loop, p, q, x, y, e, k)

  marked_argument :
      (v : Variance) (fuel b : ℕ) (s name more : Bytes) (names : List Bytes) (rest : Bytes)
      → IsPlain b
      → rec (b ∷ s) ≡ some (name, more)
      → arguments_loop rec fuel more ≡ some (names, rest)
      → arguments_loop rec (suc fuel) (mark v (b ∷ s)) ≡ some ((wildcard v ++ name) ∷ names, rest)
  unfolding arguments_loop
  marked_argument exact fuel b s name more names rest h e k =
      plain_argument fuel b s name more names rest h e k
  marked_argument extends fuel b s name more names rest h e k = rw (arguments_loop, e, k) refl
  marked_argument super fuel b s name more names rest h e k = rw (arguments_loop, e, k) refl

  pub bracketed_arguments :
      (s : Bytes) (names : List Bytes) (rest : Bytes)
      → arguments_loop rec (suc (length (b'<' ∷ s))) s ≡ some (names, rest)
      → type_arguments rec (b'<' ∷ s)
        ≡ some (codes "<" ++ (join names (codes ", ") ++ codes ">"), rest)
  unfolding type_arguments
  bracketed_arguments s names rest e = rw (type_arguments, e) refl

pub argument_first :
    (rec : Parser) (v : Variance) (rounds : ℕ) (t : GenericType) (more : Bytes) (names : List Bytes)
    (rest : Bytes)
    → IsGeneric t
    → rec (signature t more) ≡ some (java t, more)
    → arguments_loop rec rounds more ≡ some (names, rest)
    → arguments_loop rec (suc rounds) (mark v (signature t more))
      ≡ some ((wildcard v ++ java t) ∷ names, rest)
argument_first rec v rounds t more names rest g e k =
    let f = signature_first t more in
    subst
      (λ s.
        arguments_loop rec (suc rounds) (mark v s) ≡ some ((wildcard v ++ java t) ∷ names, rest))
      (sym f)
      (marked_argument rec v rounds (first t) (others t more) (java t) more names rest
        (first-IsPlain t g) (ap rec (sym f) ∙ e) k)

pub base_variable :
    (rec : Parser) (name rest : Bytes)
    → same name [] ≡ false
    → Lacks name b';'
    → typ_base rec false (b'T' ∷ (name ++ (b';' ∷ rest))) ≡ some (name, rest)
unfolding typ_base primitive type_variable
base_variable rec [] rest n h = absurd (ground arith)
base_variable rec (b ∷ name) rest n h =
    let e = index_byte-append (b ∷ name) b';' rest h in
    let z : (suc (length name) == 0) ≡ false = ground arith in
    rw
      (
        typ_base,
        type_variable,
        e,
        z,
        take-append (b ∷ name) (b';' ∷ rest) (suc (length name)) refl,
        drop_past (b ∷ name) b';' rest,
      )
      refl

pub base_class :
    (rec : Parser) (s name rest : Bytes)
    → name_loop rec (length s) s ≡ some (name, rest)
    → typ_base rec false (b'L' ∷ s) ≡ some (name, rest)
unfolding typ_base primitive
base_class rec s name rest e = e

pub base_primitive :
    (rec : Parser) (b : ℕ) (s name : Bytes)
    → primitive b ≡ some name
    → typ_base rec false (b ∷ s) ≡ some (name, s)
unfolding typ_base
base_primitive rec b s name e = rw (typ_base, e) refl

-- ===== src/ClassFile/Descriptor/Types.antt =====
-- internal/classfile/classfile.go: `parseType` reads exactly the field descriptors.
use kotlsp.Prelude.{
  ℕ, zero, suc, ◌≡◌, refl, sym, ap, subst, ◌∙◌, false, [], ◌∷◌, ◌++◌, append-nil, append_assoc,
  none, some, Bytes, codes, ◌==◌, length, length-append, drop, take-append, drop-append, arith,
  Option-cases, inl, inr,
}
use mathlib.Core.Option.{some-injective}
use kotlsp.ClassFile.Descriptor.{primitive, array_run, parse_base, parse_type}
use kotlsp.ClassFile.Descriptor.Grammar.{
  JvmType, byte, char, double, float, int, long, short, boolean, void, object, array, descriptor,
  java, IsType,
}
use kotlsp.ClassFile.Identifier.{java_class_name}
use kotlsp.Std.Find.{Lacks, index_byte-append}
use kotlsp.Std.Strings.{repeat}
use kotlsp.Std.Unicode.{Unicode}

pub repeat_last : (s : Bytes) (n : ℕ) → repeat s n ++ s ≡ s ++ repeat s n
unfolding repeat
repeat_last s zero = sym (append-nil s)
repeat_last s (suc n) = append_assoc s (repeat s n) s ∙ ap (λ t. s ++ t) (repeat_last s n)

pub array_run_none : (b : ℕ) (s : Bytes) → (b == b'[') ≡ false → array_run (b ∷ s) ≡ 0
unfolding array_run
array_run_none b s n = rw (n) refl

parse_type_behind :
    (u : Unicode) (d name rest : Bytes)
    → parse_base u (drop (array_run d) d) ≡ some (name, rest)
    → parse_type u d ≡ some (name ++ repeat (codes "[]") (array_run d), rest)
unfolding parse_type
parse_type_behind u d name rest e = simp (parse_type, e)

-- A type that is no array is read by the switch.
parse_type_base :
    (u : Unicode) (b : ℕ) (s name rest : Bytes)
    → (b == b'[') ≡ false
    → parse_base u (b ∷ s) ≡ some (name, rest)
    → parse_type u (b ∷ s) ≡ some (name, rest)
unfolding repeat
parse_type_base u b s name rest n e =
    let z = array_run_none b s n in
    let f : parse_base u (drop (array_run (b ∷ s)) (b ∷ s)) ≡ some (name, rest) =
      ap (λ k. parse_base u (drop k (b ∷ s))) z ∙ e in
    parse_type_behind u (b ∷ s) name rest f
    ∙ ap (λ k. some (name ++ repeat (codes "[]") k, rest)) z
    ∙ ap (λ x. some (x, rest)) (append-nil name)

-- An array is read behind its bracket.
parse_type_array :
    (u : Unicode) (s name rest : Bytes)
    → parse_type u s ≡ some (name, rest)
    → parse_type u (b'[' ∷ s) ≡ some (name ++ codes "[]", rest)
unfolding parse_type array_run repeat
parse_type_array u s name rest e = elim (Option-cases (parse_base u (drop (array_run s) s))) [
  | inl q ↦ let f : none ≡ some (name, rest) = rw (q, parse_type) at e in absurd (ground arith)
  | inr ((base, more), q) ↦
      let f : some (base ++ repeat (codes "[]") (array_run s), more) ≡ some (name, rest) =
        rw (q, parse_type) at e in
      let g : (base ++ repeat (codes "[]") (array_run s), more) ≡ (name, rest) =
        some-injective _ _ f in
      (rw (q, parse_type, array_run, repeat) refl)
      ∙ ap (λ x. some (x, more))
          (ap (λ t. base ++ t) (sym (repeat_last (codes "[]") (array_run s)))
            ∙ sym (append_assoc base (repeat (codes "[]") (array_run s)) (codes "[]")))
      ∙ ap (λ p. some (p.0 ++ codes "[]", p.1)) g
]

pub drop_past : (s : Bytes) (c : ℕ) (rest : Bytes) → drop (suc (length s)) (s ++ (c ∷ rest)) ≡ rest
drop_past s c rest =
    ap (drop (suc (length s))) (sym (append_assoc s (c ∷ []) rest))
    ∙ drop-append (s ++ (c ∷ [])) rest (suc (length s))
        (rw (length-append s (c ∷ [])) (omega arith))

-- A class name ends at its semicolon.
parse_class :
    (u : Unicode) (name rest : Bytes)
    → Lacks name b';'
    → parse_base u (b'L' ∷ (name ++ (b';' ∷ rest))) ≡ some (java_class_name u name, rest)
unfolding primitive parse_base
parse_class u name rest h =
    rw
      (
        index_byte-append name b';' rest h,
        take-append name (b';' ∷ rest) (length name) refl,
        drop_past name b';' rest,
      )
      refl

-- parseType reads the descriptor of a type, whatever follows it, as the Java name of the type.
pub parse_type-descriptor :
    (u : Unicode) (t : JvmType) (rest : Bytes)
    → IsType t
    → parse_type u (descriptor t ++ rest) ≡ some (java u t, rest)
unfolding primitive parse_base
parse_type-descriptor u byte rest h = parse_type_base u _ rest _ rest refl refl
parse_type-descriptor u char rest h = parse_type_base u _ rest _ rest refl refl
parse_type-descriptor u double rest h = parse_type_base u _ rest _ rest refl refl
parse_type-descriptor u float rest h = parse_type_base u _ rest _ rest refl refl
parse_type-descriptor u int rest h = parse_type_base u _ rest _ rest refl refl
parse_type-descriptor u long rest h = parse_type_base u _ rest _ rest refl refl
parse_type-descriptor u short rest h = parse_type_base u _ rest _ rest refl refl
parse_type-descriptor u boolean rest h = parse_type_base u _ rest _ rest refl refl
parse_type-descriptor u void rest h = parse_type_base u _ rest _ rest refl refl
parse_type-descriptor u (object name) rest h =
    let e : (name ++ codes ";") ++ rest ≡ name ++ (b';' ∷ rest) =
      append_assoc name (codes ";") rest in
    subst (λ s. parse_type u (b'L' ∷ s) ≡ some (java_class_name u name, rest)) (sym e)
      (parse_type_base u b'L' (name ++ (b';' ∷ rest)) (java_class_name u name) rest refl
        (parse_class u name rest h))
parse_type-descriptor u (array t) rest h =
    parse_type_array u (descriptor t ++ rest) (java u t) rest (parse_type-descriptor u t rest h)

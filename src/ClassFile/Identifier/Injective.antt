-- ===== src/ClassFile/Identifier/Injective.antt =====
-- internal/classfile/classfile.go: two JVM names never get one Java spelling.
use kotlsp.Prelude.{
  ◌≡◌, ◌≢◌, refl, sym, ap, ◌∙◌, true, false, [], ◌∷◌, ◌++◌, Bytes, arith, Bool-cases, inl, inr, ◌⊎◌,
}
use kotlsp.ClassFile.Identifier.{kotlsp_prefix, valid_java_identifier, source_java_identifier}
use kotlsp.Std.Hex.{encode_to_string, decode_string, decode-encode_to_string, AllBytes}
use kotlsp.Std.Strings.{has_prefix}
use kotlsp.Std.Unicode.{Unicode}

has_prefix-append : (p s : Bytes) → has_prefix (p ++ s) p ≡ true
has_prefix-append [] s = refl
has_prefix-append (b ∷ p) s = let ih = has_prefix-append p s in ground arith

valid-not_prefix :
    (u : Unicode) (name : Bytes)
    → valid_java_identifier u name ≡ true
    → has_prefix name kotlsp_prefix ≡ false
unfolding valid_java_identifier
valid-not_prefix u name h = elim (Bool-cases (has_prefix name kotlsp_prefix)) [
  | inl q ↦ ground arith
  | inr q ↦ q
]

-- The two spellings, with the test that chose them.
abbrev Spelled : Unicode → Bytes → Type 0
Spelled u name =
    ((valid_java_identifier u name ≡ true) × (source_java_identifier u name ≡ name))
    ⊎ (source_java_identifier u name ≡ kotlsp_prefix ++ encode_to_string name)

spelled : (u : Unicode) (name : Bytes) → Spelled u name
unfolding source_java_identifier
spelled u name = elim (Bool-cases (valid_java_identifier u name)) [
  | inl q ↦ inl (q, rw (q, source_java_identifier) refl)
  | inr q ↦ inr (rw (q, source_java_identifier) refl)
]

append-cancel : (p s t : Bytes) → p ++ s ≡ p ++ t → s ≡ t
append-cancel [] s t h = h
append-cancel (b ∷ p) s t h = append-cancel p s t (cc)

encode-injective :
    (s t : Bytes) → AllBytes s → AllBytes t → encode_to_string s ≡ encode_to_string t → s ≡ t
encode-injective s t a b h =
    sym (decode-encode_to_string s a) ∙ ap decode_string h ∙ decode-encode_to_string t b

-- A valid name is spelled as itself, and never as an encoded one.
valid-not_encoded :
    (u : Unicode) (name other : Bytes)
    → valid_java_identifier u name ≡ true
    → name ≢ kotlsp_prefix ++ encode_to_string other
valid-not_encoded u name other q e =
    let p = valid-not_prefix u name q in
    let h = ap (λ x. has_prefix x kotlsp_prefix) e in
    let g = has_prefix-append kotlsp_prefix (encode_to_string other) in cc

-- Distinct names of a class file are spelled as distinct Java identifiers.
pub source_java_identifier-injective :
    (u : Unicode) (a b : Bytes)
    → AllBytes a
    → AllBytes b
    → source_java_identifier u a ≡ source_java_identifier u b
    → a ≡ b
source_java_identifier-injective u a b x y e = elim (spelled u a) [
  | inl (p, s) ↦ elim (spelled u b) [
    | inl (q, t) ↦ sym s ∙ e ∙ t
    | inr t ↦ absurd (valid-not_encoded u a b p (sym s ∙ e ∙ t))
  ]
  | inr s ↦ elim (spelled u b) [
    | inl (q, t) ↦ absurd (valid-not_encoded u b a q (sym t ∙ sym e ∙ s))
    | inr t ↦
        encode-injective a b x y
          (append-cancel kotlsp_prefix (encode_to_string a) (encode_to_string b) (sym s ∙ e ∙ t))
  ]
]

-- ===== src/ClassFile/Identifier/Restore.antt =====
-- internal/classfile/classfile.go: `RestoreSourceJavaIdentifiers` undoes `SourceJavaIdentifier`.
use kotlsp.Prelude.{
  ℕ, zero, suc, ◌+◌, ◌%◌, ◌≡◌, ◌≢◌, ◌⊎◌, refl, ap, ◌∙◌, false, not, ◌||◌, [], ◌∷◌, ◌++◌, append-nil,
  none, some, Bytes, ◌==◌, arith, Bool-cases, inl, inr, length, take_all, drop_all, length-append,
}
use kotlsp.ClassFile.Identifier.{
  kotlsp_prefix, valid_java_identifier, source_java_identifier, restore_loop,
  restore_source_java_identifiers,
}
use kotlsp.Std.Hex.{
  encode_to_string, decode-encode_to_string, hex_run, hex_run-encode_to_string,
  length-encode_to_string, AllBytes,
}
use kotlsp.Std.Strings.{index}
use kotlsp.Std.Unicode.{Unicode}

restore_none :
    (fuel : ℕ) (value : Bytes) → index value kotlsp_prefix ≡ none → restore_loop fuel value ≡ value
unfolding restore_loop
restore_none zero value h = refl
restore_none (suc fuel) value h = rw (h, restore_loop) refl

restore_nil : (fuel : ℕ) → restore_loop fuel [] ≡ []
unfolding index
restore_nil fuel = restore_none fuel [] refl

index_token : (s : Bytes) → index (kotlsp_prefix ++ s) kotlsp_prefix ≡ some 0
unfolding index
index_token s = refl

-- The spelling of a name that is not empty is restored to it.
restore_token :
    (fuel b : ℕ) (name : Bytes)
    → AllBytes (b ∷ name)
    → restore_loop (suc fuel) (kotlsp_prefix ++ encode_to_string (b ∷ name)) ≡ b ∷ name
unfolding restore_loop
restore_token fuel b name all =
    let hex = encode_to_string (b ∷ name) in
    let n = length-encode_to_string (b ∷ name) in
    let run = hex_run-encode_to_string (b ∷ name) all in
    let kept : (hex_run hex == 0 || not (hex_run hex % 2 == 0)) ≡ false = ground arith in
    let whole = take_all (hex_run hex) hex (omega arith) in
    let gone = drop_all (hex_run hex) hex (omega arith) in
    rw (index_token hex, kept, restore_loop, whole, gone, restore_nil fuel)
      (append-nil _ ∙ decode-encode_to_string (b ∷ name) all)

length-token : (s : Bytes) → length (kotlsp_prefix ++ s) ≡ suc (7 + length s)
length-token s = omega (arith, length-append kotlsp_prefix s)

-- A name is spelled, and restored, without loss if it is not empty and either has to be encoded
-- or does not contain the prefix of encoded names.
pub restore-source_java_identifier :
    (u : Unicode) (name : Bytes)
    → AllBytes name
    → name ≢ []
    → (valid_java_identifier u name ≡ false) ⊎ (index name kotlsp_prefix ≡ none)
    → restore_source_java_identifiers (source_java_identifier u name) ≡ name
unfolding restore_source_java_identifiers source_java_identifier
restore-source_java_identifier u [] all some_name h = absurd (some_name refl)
restore-source_java_identifier u (b ∷ name) all some_name h =
    let hex = encode_to_string (b ∷ name) in
    let encoded =
      ap (λ n. restore_loop n (kotlsp_prefix ++ hex)) (length-token hex)
      ∙ restore_token (7 + length hex) b name all in
    elim (Bool-cases (valid_java_identifier u (b ∷ name))) [
      | inr q ↦ rw (q, source_java_identifier, restore_source_java_identifiers) encoded
      | inl q ↦ elim h [
        | inl f ↦ cc
        | inr f ↦
            rw (q, source_java_identifier, restore_source_java_identifiers)
              (restore_none _ (b ∷ name) f)
      ]
    ]

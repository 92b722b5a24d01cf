-- ===== src/ClassFile/Occurrence.antt =====
-- internal/classfile/classfile.go: `findRenderedIdentifier`.
pub mod First
use kotlsp.Prelude.{
  ℕ, zero, suc, ◌+◌, ◌-◌, Bool, true, false, not, ◌&&◌, ◌||◌, [], ◌∷◌, Option, none, some, Bytes,
  leb, ◌==◌, within, if◌then◌else◌, length, drop, get_or,
}
use kotlsp.Std.Strings.{index}

-- `isJavaIdentifierByte`
unfoldable pub is_java_identifier_byte : ℕ → Bool
is_java_identifier_byte b =
    b == b'_' || b == b'$' || within b'a' b'z' b || within b'A' b'Z' b || within b'0' b'9' b

-- Whether the bytes around an occurrence are no part of the identifier.
unfoldable pub stands_alone : Bytes → ℕ → ℕ → Bool
stands_alone source at after =
    (at == 0 || not (is_java_identifier_byte (get_or source (at - 1) 0)))
    && (after == length source || not (is_java_identifier_byte (get_or source after 0)))

-- `findRenderedIdentifier`, whose -1 is `none`; on fuel, a round passes over the name.
unfoldable pub find_loop : ℕ → Bytes → Bytes → ℕ → Option (ℕ × ℕ)
find_loop zero source name start = none
find_loop (suc fuel) source name start = elim (leb (start + length name) (length source)) [
  | false ↦ none
  | true ↦ elim (index (drop start source) name) [
    | none ↦ none
    | some relative ↦
        let at = start + relative in
        let after = at + length name in
        elim (stands_alone source at after) [
          | true ↦ some (at, after)
          | false ↦ find_loop fuel source name after
        ]
  ]
]

unfoldable pub find_rendered_identifier : Bytes → Bytes → ℕ → Option (ℕ × ℕ)
find_rendered_identifier source name start = find_loop (suc (length source)) source name start

-- ===== src/ClassFile/ModifiedUtf8/Encode.antt =====
-- internal/classfile/classfile.go: `decodeModifiedUTF8` against the encoding that the class file
-- format prescribes (JVM specification, 4.4.7).
use kotlsp.Prelude.{
  ℕ, zero, suc, ◌+◌, ◌*◌, ◌-◌, ◌/◌, ◌%◌, ◌≤◌, ◌<◌, ◌≡◌, refl, ap, true, false, List, [], ◌∷◌, ◌++◌,
  some, Bytes, ltb, ◌==◌, within, if◌then◌else◌, length, length-append, arith, Bool-cases, inl, inr,
}
use kotlsp.ClassFile.ModifiedUtf8.{
  rune_of_three, rune_at, decode_runes, decode_modified_utf8, pair_up, two_bytes, three_bytes,
}
use kotlsp.Std.Runes.{string_of}

abbrev three : ℕ → Bytes
three c = (0xe0 + c / 4096) ∷ (0x80 + c / 64 % 64) ∷ (0x80 + c % 64) ∷ []

-- A character in a class file: NUL takes two bytes, and what lies beyond the basic plane is a pair
-- of surrogates of three bytes each.
abbrev pub modified : ℕ → Bytes
modified r =
    if r == 0
    then 0xc0 ∷ 0x80 ∷ []
    else if ltb r 0x80
    then r ∷ []
    else if ltb r 0x800
    then (0xc0 + r / 64) ∷ (0x80 + r % 64) ∷ []
    else if ltb r 0x10000
    then three r
    else three (0xd800 + (r - 0x10000) / 1024) ++ three (0xdc00 + r % 1024)

abbrev pub modified_all : List ℕ → Bytes
modified_all [] = []
modified_all (r ∷ rs) = modified r ++ modified_all rs

-- A scalar value of Unicode.
abbrev pub IsScalar : ℕ → Type 0
IsScalar r = (r ≤ 0x10ffff) × (within 0xd800 0xdfff r ≡ false)

abbrev pub AllScalars : List ℕ → Type 0
AllScalars [] = Unit
AllScalars (r ∷ rs) = IsScalar r × AllScalars rs

-- A first byte and what follows it.
abbrev Reads : Bytes → ℕ → Bytes → Type 0
Reads [] r rest = ⊥
Reads (b ∷ s) r rest = rune_at b s ≡ some (r, rest)

-- The three bytes of a number give it back.
rune_of_three-three :
    (c : ℕ) → c < 0x10000 → rune_of_three (0xe0 + c / 4096) (0x80 + c / 64 % 64) (0x80 + c % 64) ≡ c
rune_of_three-three c l = omega arith

lead_of_three :
    (c : ℕ)
    → c < 0x10000
    → (ltb (0xe0 + c / 4096) 0x80 ≡ false)
      × (((0xe0 + c / 4096) / 32 == 6) ≡ false)
      × (((0xe0 + c / 4096) / 16 == 14) ≡ true)
lead_of_three c l = (ground arith, ground arith, ground arith)

three-Reads :
    (r : ℕ) (rest : Bytes)
    → r < 0x10000
    → within 0xd800 0xdbff r ≡ false
    → Reads (three r ++ rest) r rest
unfolding rune_at three_bytes
three-Reads r rest l n =
    let (a, b, c) = lead_of_three r l in simp (a, b, c, rune_of_three-three r l, n)

pair-Reads :
    (r high low : ℕ) (rest : Bytes)
    → within 0xd800 0xdbff high ≡ true
    → within 0xdc00 0xdfff low ≡ true
    → 0x10000 + (high - 0xd800) * 1024 + (low - 0xdc00) ≡ r
    → Reads (three high ++ (three low ++ rest)) r rest
unfolding rune_at three_bytes pair_up
pair-Reads r high low rest h l e =
    let m : high < 0x10000 = ground arith in
    let n : low < 0x10000 = ground arith in
    let (a, b, c) = lead_of_three high m in
    let (_, _, f) = lead_of_three low n in
    simp (a, b, c, f, rune_of_three-three high m, rune_of_three-three low n, h, l, e)

two-Reads :
    (r : ℕ) (rest : Bytes) → r < 0x800 → Reads ((0xc0 + r / 64) ∷ (0x80 + r % 64) ∷ rest) r rest
unfolding rune_at two_bytes
two-Reads r rest l =
    let a : ltb (0xc0 + r / 64) 0x80 ≡ false = ground arith in
    let b : ((0xc0 + r / 64) / 32 == 6) ≡ true = ground arith in
    let c : (0xc0 + r / 64) % 32 * 64 + (0x80 + r % 64) % 64 ≡ r = omega arith in simp (a, b, c)

Reads-modified : (r : ℕ) (rest : Bytes) → IsScalar r → Reads (modified r ++ rest) r rest
unfolding rune_at two_bytes
Reads-modified r rest (l, n) = elim (Bool-cases (r == 0)) [
  | inl a ↦ rw (a) (let z : 0 ≡ r = ground arith in ap (λ k. some (k, rest)) z)
  | inr a ↦ elim (Bool-cases (ltb r 0x80)) [
    | inl b ↦ simp (a, b)
    | inr b ↦ elim (Bool-cases (ltb r 0x800)) [
      | inl c ↦ let m : r < 0x800 = ground arith in rw (a, b, c) (two-Reads r rest m)
      | inr c ↦ elim (Bool-cases (ltb r 0x10000)) [
        | inl d ↦
            let m : r < 0x10000 = ground arith in
            let k : within 0xd800 0xdbff r ≡ false = ground arith in
            rw (a, b, c, d) (three-Reads r rest m k)
        | inr d ↦
            let m : 0x10000 ≤ r = ground arith in
            let high : within 0xd800 0xdbff (0xd800 + (r - 0x10000) / 1024) ≡ true = ground arith in
            let low : within 0xdc00 0xdfff (0xdc00 + r % 1024) ≡ true = ground arith in
            rw (a, b, c, d)
              (pair-Reads r (0xd800 + (r - 0x10000) / 1024) (0xdc00 + r % 1024) rest high low
                (omega arith))
      ]
    ]
  ]
]

Reads-decode_runes :
    (fuel : ℕ) (s : Bytes) (r : ℕ) (rest : Bytes) (rs : List ℕ)
    → Reads s r rest
    → decode_runes fuel rest ≡ some rs
    → decode_runes (suc fuel) s ≡ some (r ∷ rs)
unfolding decode_runes
Reads-decode_runes fuel [] r rest rs h e = absurd h
Reads-decode_runes fuel (b ∷ s) r rest rs h e = simp (decode_runes, h, e)

decode_runes-modified_all :
    (rs : List ℕ) (fuel : ℕ)
    → AllScalars rs
    → length rs ≤ fuel
    → decode_runes fuel (modified_all rs) ≡ some rs
unfolding decode_runes
decode_runes-modified_all [] zero h l = refl
decode_runes-modified_all [] (suc fuel) h l = refl
decode_runes-modified_all (r ∷ rs) zero h l = absurd (omega arith)
decode_runes-modified_all (r ∷ rs) (suc fuel) (h, hs) l =
    Reads-decode_runes fuel _ r (modified_all rs) rs (Reads-modified r (modified_all rs) h)
      (decode_runes-modified_all rs fuel hs (omega arith))

length-modified : (r : ℕ) → 1 ≤ length (modified r)
length-modified r = ground arith

length-modified_all : (rs : List ℕ) → length rs ≤ length (modified_all rs)
length-modified_all [] = omega arith
length-modified_all (r ∷ rs) =
    omega (
      arith,
      length-append (modified r) (modified_all rs),
      length-modified r,
      length-modified_all rs,
    )

-- decodeModifiedUTF8 decodes the class file encoding of any text of Unicode scalar values (NUL as
-- two bytes, the supplementary planes as pairs of surrogates) to the UTF-8 of that text.
pub decode_modified_utf8-modified_all :
    (rs : List ℕ) → AllScalars rs → decode_modified_utf8 (modified_all rs) ≡ string_of rs
unfolding decode_modified_utf8
decode_modified_utf8-modified_all rs h =
    let e = decode_runes-modified_all rs (length (modified_all rs)) h (length-modified_all rs) in
    simp (decode_modified_utf8, e)

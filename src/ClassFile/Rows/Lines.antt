-- ===== src/ClassFile/Rows/Lines.antt =====
-- internal/classfile/classfile.go: the lines of a method, from its LineNumberTable.
use kotlsp.Prelude.{
  ℕ, zero, suc, ◌≡◌, ◌⊎◌, refl, true, false, ◌||◌, List, [], ◌∷◌, Bytes, ◌==◌, arith, Bool-cases,
  inl, inr,
}
use kotlsp.ClassFile.Rows.{seen_line, line_rows, line_numbers, pair}

-- Lines that are not 0, that do not repeat, and that are not seen before.
abbrev pub IsFresh : List ℕ → List ℕ → Type 0
IsFresh seen [] = Unit
IsFresh seen (n ∷ ns) = ((n == 0) ≡ false) × ((seen_line n seen ≡ false) × IsFresh (n ∷ seen) ns)

line_rows-IsFresh : (seen : List ℕ) (count : ℕ) (s : Bytes) → IsFresh seen (line_rows seen count s)
unfolding line_rows
line_rows-IsFresh seen zero s = tt
line_rows-IsFresh seen (suc count) [] = tt
line_rows-IsFresh seen (suc count) (a ∷ []) = tt
line_rows-IsFresh seen (suc count) (a ∷ b ∷ []) = tt
line_rows-IsFresh seen (suc count) (a ∷ b ∷ c ∷ []) = tt
line_rows-IsFresh seen (suc count) (a ∷ b ∷ c ∷ d ∷ s) = elim (Bool-cases (pair c d == 0)) [
  | inl z ↦ rw (z, line_rows) (line_rows-IsFresh seen count s)
  | inr z ↦ elim (Bool-cases (seen_line (pair c d) seen)) [
    | inl t ↦ rw (z, t, line_rows) (line_rows-IsFresh seen count s)
    | inr t ↦ rw (z, t, line_rows) ((z, (t, line_rows-IsFresh (pair c d ∷ seen) count s)))
  ]
]

-- A line that a whole row within the count names.
abbrev pub Names : ℕ → Bytes → ℕ → Type 0
Names (suc count) (a ∷ b ∷ c ∷ d ∷ s) line = (pair c d ≡ line) ⊎ Names count s line
Names _ _ line = ⊥

line_rows-Names :
    (seen : List ℕ) (count : ℕ) (s : Bytes) (line : ℕ)
    → Names count s line
    → (line == 0) ≡ false
    → seen_line line seen ≡ false
    → seen_line line (line_rows seen count s) ≡ true
unfolding line_rows seen_line
line_rows-Names seen zero s line h z t = absurd h
line_rows-Names seen (suc count) [] line h z t = absurd h
line_rows-Names seen (suc count) (a ∷ []) line h z t = absurd h
line_rows-Names seen (suc count) (a ∷ b ∷ []) line h z t = absurd h
line_rows-Names seen (suc count) (a ∷ b ∷ c ∷ []) line h z t = absurd h
line_rows-Names seen (suc count) (a ∷ b ∷ c ∷ d ∷ s) line (inl e) z t =
    let first : (pair c d == 0) ≡ false = rw (e) z in
    let fresh : seen_line (pair c d) seen ≡ false = rw (e) t in
    let r : (line == pair c d) ≡ true = ground arith in simp (line_rows, seen_line, first, fresh, r)
line_rows-Names seen (suc count) (a ∷ b ∷ c ∷ d ∷ s) line (inr h) z t =
    elim (Bool-cases (pair c d == 0 || seen_line (pair c d) seen)) [
      | inl q ↦ rw (q, line_rows) (line_rows-Names seen count s line h z t)
      | inr q ↦ elim (Bool-cases (line == pair c d)) [
        | inl r ↦ simp (line_rows, seen_line, q, r)
        | inr r ↦
            let k : seen_line line (pair c d ∷ seen) ≡ false = simp (seen_line, r, t) in
            let ih = line_rows-Names (pair c d ∷ seen) count s line h z k in
            simp (line_rows, seen_line, q, r, ih)
      ]
    ]

-- The lines of a method from its table are not 0, and none of them repeats.
line_numbers-IsFresh : (payload : Bytes) → IsFresh [] (line_numbers payload)
unfolding line_numbers
line_numbers-IsFresh [] = tt
line_numbers-IsFresh (a ∷ []) = tt
line_numbers-IsFresh (a ∷ b ∷ s) = line_rows-IsFresh [] (pair a b) s

-- Every line but 0 that a whole row within the table's count names is among the lines of the method.
line_numbers-Names :
    (a b : ℕ) (rows : Bytes) (line : ℕ)
    → Names (pair a b) rows line
    → (line == 0) ≡ false
    → seen_line line (line_numbers (a ∷ b ∷ rows)) ≡ true
unfolding line_numbers seen_line
line_numbers-Names a b rows line h z = line_rows-Names [] (pair a b) rows line h z refl

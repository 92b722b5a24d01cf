-- ===== src/Std/Strings.antt =====
-- Go's package `strings`, on strings as lists of bytes.
use kotlsp.Prelude.{
  ℕ, zero, suc, ◌≤◌, ◌+◌, ◌-◌, ◌≡◌, subst, List, ◌++◌, drop, take, Bool, true, false, ◌&&◌, ◌||◌,
  reverse, [], ◌∷◌, Option, none, some, Bytes, ◌==◌, if◌then◌else◌, arith, length, Bool-cases,
  Option-cases, inl, inr, same, within,
}

-- `strings.HasPrefix`
abbrev pub has_prefix : Bytes → Bytes → Bool
has_prefix s [] = true
has_prefix [] (p ∷ ps) = false
has_prefix (b ∷ s) (p ∷ ps) = (b == p) && has_prefix s ps

-- `strings.Index`, with `none` for its -1.
unfoldable pub index : Bytes → Bytes → Option ℕ
index [] part = if has_prefix [] part then some 0 else none
index (b ∷ s) part =
    let later = index s part in
    if has_prefix (b ∷ s) part then some 0 else elim later [ none ↦ none | some i ↦ some (suc i) ]

-- `strings.IndexByte`
unfoldable pub index_byte : Bytes → ℕ → Option ℕ
index_byte s target = index s (target ∷ [])

-- `strings.ContainsRune`, for a string that is ASCII.
abbrev pub contains_rune : Bytes → ℕ → Bool
contains_rune [] r = false
contains_rune (b ∷ s) r = (b == r) || contains_rune s r

pub has_prefix-le : (s part : Bytes) → has_prefix s part ≡ true → length part ≤ length s
has_prefix-le s [] h = omega arith
has_prefix-le [] (p ∷ ps) h = cc
has_prefix-le (b ∷ s) (p ∷ ps) h =
    let t : has_prefix s ps ≡ true = ground arith in let ih = has_prefix-le s ps t in omega arith

-- A part that is found ends within the string.
pub index-le : (s part : Bytes) (i : ℕ) → index s part ≡ some i → i + length part ≤ length s
unfolding index
index-le [] part i h = elim (Bool-cases (has_prefix [] part)) [
  | inl q ↦ let l = has_prefix-le [] part q in ground arith
  | inr q ↦ ground arith
]
index-le (b ∷ s) part i h = elim (Bool-cases (has_prefix (b ∷ s) part)) [
  | inl q ↦ let l = has_prefix-le (b ∷ s) part q in ground arith
  | inr q ↦ elim (Option-cases (index s part)) [
    | inl e ↦ ground arith
    | inr (j, e) ↦ let ih = index-le s part j e in ground arith
  ]
]

-- It stands where it is found.
pub index-prefix :
    (s part : Bytes) (i : ℕ) → index s part ≡ some i → has_prefix (drop i s) part ≡ true
unfolding index
index-prefix [] part zero h = ground arith
index-prefix [] part (suc i) h = ground arith
index-prefix (b ∷ s) part i h = elim (Bool-cases (has_prefix (b ∷ s) part)) [
  | inl q ↦ let e : 0 ≡ i = ground arith in subst (λ k. has_prefix (drop k (b ∷ s)) part ≡ true) e q
  | inr q ↦ elim (Option-cases (index s part)) [
    | inl e ↦ absurd (ground arith)
    | inr (j, e) ↦
        let k : suc j ≡ i = ground arith in
        subst (λ k. has_prefix (drop k (b ∷ s)) part ≡ true) k (index-prefix s part j e)
  ]
]

trim_left : Bytes → Bytes → Bytes
trim_left cutset [] = []
trim_left cutset (b ∷ s) =
    let rest = trim_left cutset s in if contains_rune cutset b then rest else b ∷ s

-- `strings.Trim`, for a cutset that is ASCII.
unfoldable pub trim : Bytes → Bytes → Bytes
unfolding trim_left
trim s cutset = reverse (trim_left cutset (reverse (trim_left cutset s)))

-- `strings.Contains`
unfoldable pub contains : Bytes → Bytes → Bool
contains s part = elim (index s part) [ none ↦ false | some i ↦ true ]

-- `strings.Count`, for a part of one byte.
unfoldable pub count : Bytes → ℕ → ℕ
count [] b = 0
count (a ∷ s) b = (if a == b then 1 else 0) + count s b

-- `strings.ReplaceAll` of one byte by another.
unfoldable pub replace_byte : Bytes → ℕ → ℕ → Bytes
replace_byte [] old new = []
replace_byte (b ∷ s) old new = (if b == old then new else b) ∷ replace_byte s old new

-- `strings.Split` at a byte: the first part, and those behind each separator.
unfoldable pub split_first : Bytes → ℕ → Bytes × List Bytes
split_first [] sep = ([], [])
split_first (b ∷ s) sep =
    let (first, rest) = split_first s sep in
    if b == sep then ([], first ∷ rest) else (b ∷ first, rest)

unfoldable pub split : Bytes → ℕ → List Bytes
unfolding split_first
split s sep = let (first, rest) = split_first s sep in first ∷ rest

-- `strings.Join`
unfoldable pub join : List Bytes → Bytes → Bytes
join [] sep = []
join (x ∷ []) sep = x
join (x ∷ y ∷ ys) sep = x ++ (sep ++ join (y ∷ ys) sep)

-- `strings.Repeat`
unfoldable pub repeat : Bytes → ℕ → Bytes
repeat s zero = []
repeat s (suc n) = s ++ repeat s n

-- `strings.HasSuffix`
abbrev pub has_suffix : Bytes → Bytes → Bool
has_suffix s part = has_prefix (reverse s) (reverse part)

-- `strings.TrimPrefix` and `strings.TrimSuffix`
abbrev pub trim_prefix : Bytes → Bytes → Bytes
trim_prefix s part = if has_prefix s part then drop (length part) s else s

abbrev pub trim_suffix : Bytes → Bytes → Bytes
trim_suffix s part = if has_suffix s part then take (length s - length part) s else s

-- `strings.LastIndexByte`, with `none` for its -1.
unfoldable pub last_index_byte : Bytes → ℕ → Option ℕ
last_index_byte [] target = none
last_index_byte (b ∷ s) target = elim (last_index_byte s target) [
  | some i ↦ some (suc i)
  | none ↦ if b == target then some 0 else none
]

-- White space that is ASCII.
abbrev pub is_white : ℕ → Bool
is_white b = within 9 13 b || b == 0x20

-- `strings.Fields`, for a string that is ASCII; the first is what `word` goes on.
unfoldable pub fields_from : Bytes → Bytes → List Bytes
fields_from word [] = if same word [] then [] else word ∷ []
fields_from word (b ∷ s) = elim (is_white b) [
  | true ↦ let rest = fields_from [] s in if same word [] then rest else word ∷ rest
  | false ↦ fields_from (word ++ (b ∷ [])) s
]

unfoldable pub fields : Bytes → List Bytes
fields s = fields_from [] s

-- `strings.TrimRight`, for a cutset that is ASCII.
unfoldable pub trim_right : Bytes → Bytes → Bytes
trim_right [] cutset = []
trim_right (b ∷ s) cutset =
    let rest = trim_right s cutset in
    if same rest [] && contains_rune cutset b then [] else b ∷ rest

-- `strings.Cut`: the text before the first occurrence, and what stands behind it.
unfoldable pub cut : Bytes → Bytes → Bytes × Option Bytes
cut s sep = elim (index s sep) [
  | none ↦ (s, none)
  | some at ↦ (take at s, some (drop (at + length sep) s))
]

-- `strings.Split` at a separator that is not empty, on fuel: a round passes over the separator.
unfoldable pub split_at_all : ℕ → Bytes → Bytes → List Bytes
split_at_all zero s sep = s ∷ []
split_at_all (suc fuel) s sep = elim (index s sep) [
  | none ↦ s ∷ []
  | some at ↦ take at s ∷ split_at_all fuel (drop (at + length sep) s) sep
]

-- ===== src/ClassFile/Reader.antt =====
-- internal/classfile/classfile.go: the `reader` over the bytes of a class file, as a monad of the
-- reader's state. The offset only grows, so the state holds the bytes from there on.
pub mod Pays
pub mod Shrinks
use kotlsp.Prelude.{
  ℕ, zero, suc, ◌+◌, ◌*◌, Bool, true, false, List, [], ◌∷◌, Option, none, some, Bytes, ltb,
  if◌then◌else◌, length, take, drop,
}

-- `failed` is whether `err` is set.
pub record Reader : Type 0 where
  pub rest : Bytes
  pub failed : Bool

abbrev pub reader : Bytes → Reader
reader payload = record { rest = payload; failed = false }

abbrev pub Read {ℓ} : Type ℓ → Type ℓ
Read A = Reader → A × Reader

infixl 5 ◌>>=◌ ◌>>◌
abbrev pub ◌>>=◌ {ℓ ℓ'} : {A : Type ℓ} {B : Type ℓ'} → Read A → (A → Read B) → Read B
m >>= k = λ r. let (a, r') = m r in k a r'

abbrev pub ◌>>◌ {ℓ ℓ'} : {A : Type ℓ} {B : Type ℓ'} → Read A → Read B → Read B
m >> k = λ r. let (a, r') = m r in k r'

abbrev pub pure {ℓ} : {A : Type ℓ} → A → Read A
pure a = λ r. (a, r)

-- `r.err = …`
abbrev pub fail : Read (Unit {0})
fail = λ r. (tt, record r { failed = true })

-- `u1`
unfoldable pub u1 : Read ℕ
u1 r = elim r.rest [ [] ↦ (0, record r { failed = true }) | b ∷ s ↦ (b, record r { rest = s }) ]

-- `bytes`, whose nil is `none`
unfoldable pub bytes : ℕ → Read (Option Bytes)
bytes n r =
    if ltb (length r.rest) n
    then (none, record r { failed = true })
    else (some (take n r.rest), record r { rest = drop n r.rest })

-- `binary.BigEndian`: the number that the bytes spell.
unfoldable pub big_endian : ℕ → Bytes → ℕ
big_endian acc [] = acc
big_endian acc (b ∷ s) = big_endian (acc * 256 + b) s

-- `u2` and `u4`
unfoldable pub number : ℕ → Read ℕ
number n r = let (found, r') = bytes n r in (elim found [ none ↦ 0 | some s ↦ big_endian 0 s ], r')

abbrev pub u2 : Read ℕ
u2 = number 2

abbrev pub u4 : Read ℕ
u4 = number 4

-- `skip`
abbrev pub skip : ℕ → Read (Unit {0})
skip n = λ r. (tt, (bytes n r).1)

-- `for range count`, with what the loop updates.
unfoldable pub times {ℓ} : {S : Type ℓ} → ℕ → (S → Read S) → S → Read S
times zero body s r = (s, r)
times (suc n) body s r = let (s', r') = body s r in times n body s' r'

module _ {ℓ} {S : Type ℓ} (utf8 : ℕ → Bytes) (visit : Bytes → Bytes → S → Read S) where
  -- The visitor, if the payload is there.
  abbrev pub visit_payload : Bytes → S → Option Bytes → Read S
  visit_payload name s none = pure s
  visit_payload name s (some payload) = visit name payload s

  -- A round of `readAttributes`.
  unfoldable pub read_attribute : S → Read S
  read_attribute s = do
    name ← u2
    size ← u4
    payload ← bytes size
    visit_payload (utf8 name) s payload

  -- `readAttributes`; the visitor updates a state and may set the error.
  unfoldable pub read_attributes : S → Read S
  read_attributes s = do count ← u2; times count read_attribute s

-- ===== src/ClassFile/Constants.antt =====
-- internal/classfile/classfile.go: the constant pool, as `Parse` reads it and looks it up.
pub mod Literal
pub mod Reads
use kotlsp.Prelude.{
  ℕ, zero, suc, ◌+◌, ◌-◌, Bool, true, false, not, ◌||◌, List, [], ◌∷◌, ◌++◌, Option, none, some,
  Bytes, codes, ltb, leb, within, ◌==◌, if◌then◌else◌, length, get_or, ℤ, pos,
}
use kotlsp.ClassFile.ModifiedUtf8.{decode_modified_utf8}
use kotlsp.ClassFile.Reader.{Reader, Read, ◌>>=◌, ◌>>◌, pure, u1, u2, u4, bytes, skip, big_endian}
use kotlsp.Std.Strconv.{Strconv, signed}
use kotlsp.Std.Strings.{replace_byte}

-- `constant`
pub record Constant : Type 0 where
  pub tag : ℕ
  pub text : Bytes
  pub name_index : ℕ
  pub integer : ℤ
  pub floating : ℕ

-- The zero value; the float is zero bits.
abbrev pub no_constant : Constant
no_constant = record { tag = 0; text = []; name_index = 0; integer = pos 0; floating = 0 }

-- A nil slice is empty.
abbrev pub or_empty : Option Bytes → Bytes
or_empty none = []
or_empty (some s) = s

-- Eight bytes, from which an update is made if they are there.
eight : Constant → (ℕ → Constant) → Read (Option (Constant × Bool))
eight entry k = do
  found ← bytes 8
  pure (some (elim found [ none ↦ entry | some s ↦ k (big_endian 0 s) ], true))

-- The switch on the tag: the entry, and whether it takes two slots. `none` is a tag that is not
-- supported.
unfoldable pub read_constant : Strconv → ℕ → Read (Option (Constant × Bool))
unfolding eight
read_constant f tag =
    let entry = record no_constant { tag = tag } in
    if tag == 1
    then (do
      size ← u2
      found ← bytes size
      pure (some (record entry { text = decode_modified_utf8 (or_empty found) }, false)))
    else if tag == 3
    then (do n ← u4; pure (some (record entry { integer = signed 32 n }, false)))
    else if tag == 4
    then (do n ← u4; pure (some (record entry { floating = f.widen n }, false)))
    else if tag == 5
    then eight entry (λ n. record entry { integer = signed 64 n })
    else if tag == 6
    then eight entry (λ n. record entry { floating = n })
    else if tag == 7 || tag == 8 || tag == 16 || tag == 19 || tag == 20
    then (do n ← u2; pure (some (record entry { name_index = n }, false)))
    else if within 9 12 tag || within 17 18 tag
    then (do skip 4; pure (some (entry, false)))
    else if tag == 15
    then (do skip 3; pure (some (entry, false)))
    else pure none

-- The pool, or the tag that is not supported.
pub data Pool : Type 0 where
  pool_of : List Constant → Pool
  unsupported : ℕ → Pool

abbrev pub cons : Constant → Pool → Pool
cons c (pool_of cs) = pool_of (c ∷ cs)
cons c (unsupported tag) = unsupported tag

-- A round of the loop that fills the pool, which goes on with whether the entry takes two slots.
-- The function returns where a tag is not supported.
abbrev pub keep_constant : (Bool → Read Pool) → ℕ → Option (Constant × Bool) → Read Pool
keep_constant more tag none = pure (unsupported tag)
keep_constant more tag (some e) = do rest ← more e.1; pure (cons e.0 rest)

unfoldable pub pool_round : Strconv → (Bool → Read Pool) → Read Pool
pool_round f more = do tag ← u1; entry ← read_constant f tag; keep_constant more tag entry

-- The loop, with so many entries left; the flag is whether the next one is the second slot of a
-- long or a double, which keeps the zero value. The loop ends early once the reader has failed.
unfoldable pub pool_loop : Strconv → ℕ → Bool → Read Pool
pool_loop f zero second r = (pool_of [], r)
pool_loop f (suc left) true r = (pool_loop f left false >>= λ rest. pure (cons no_constant rest)) r
pool_loop f (suc left) false r = elim r.failed [
  | true ↦ (pool_of [], r)
  | false ↦ pool_round f (λ second. pool_loop f left second) r
]

-- The pool of `count` entries; the entry at 0 is not read.
unfoldable pub read_pool : Strconv → ℕ → Read Pool
read_pool f zero = pure (pool_of [])
read_pool f (suc left) = do rest ← pool_loop f left false; pure (cons no_constant rest)

module _ (pool : List Constant) where
  -- `utf8`
  unfoldable pub utf8 : ℕ → Bytes
  utf8 index =
      if leb (length pool) index || index == 0 then [] else (get_or pool index no_constant).text

  -- The text that an entry names, if it has the tag.
  unfoldable pub named : ℕ → ℕ → Bytes
  named tag index =
      if leb (length pool) index || index == 0 || not ((get_or pool index no_constant).tag == tag)
      then []
      else utf8 (get_or pool index no_constant).name_index

  -- `className`
  abbrev pub class_name : ℕ → Bytes
  unfolding named
  class_name index = named 7 index

  -- `moduleName`
  unfoldable pub module_name : ℕ → Bytes
  module_name index = replace_byte (named 19 index) b'/' b'.'

  -- `packageName`
  unfoldable pub package_name : ℕ → Bytes
  package_name index = replace_byte (named 20 index) b'/' b'.'

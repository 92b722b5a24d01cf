-- ===== src/Text/Position.antt =====
-- internal/text/document.go: LSP positions, whose columns count UTF-16 units, and byte offsets.
use kotlsp.Prelude.{
  ℕ, zero, suc, ◌+◌, ◌-◌, not, ◌||◌, [], ◌∷◌, Option, none, some, Bytes, ℤ, pos, negsuc, ◌^◌, ltb,
  ◌==◌, if◌then◌else◌, length, get_or, take, drop,
}
use kotlsp.Prelude.Int.{ltb_ℤ, leb_ℤ, pos_part}
use kotlsp.Std.Utf8.{decode_rune}
use kotlsp.Text.Document.{Document, newline, carriage_return}
use kotlsp.Text.Lookup.{
  byte_line_at_bytes, byte_line_at_string, line_bounds_bytes, line_bounds_string,
}

-- `protocol.Position` and `protocol.Range`. What a client sends may be negative.
pub record Position : Type 0 where
  pub line : ℤ
  pub character : ℤ

pub record Range : Type 0 where
  pub start : Position
  pub end : Position

-- The UTF-16 units of a rune, `step` in the source.
abbrev pub units_of : ℕ → ℕ
units_of r = if ltb 0xffff r then 2 else 1

-- `for _, r := range s`, on fuel: a round for each byte is enough.
unfoldable pub utf16_len_loop : ℕ → Bytes → ℕ
utf16_len_loop zero s = 0
utf16_len_loop (suc fuel) [] = 0
utf16_len_loop (suc fuel) (b ∷ bs) =
    units_of (decode_rune (b ∷ bs)).0 + utf16_len_loop fuel (drop (decode_rune (b ∷ bs)).1 (b ∷ bs))

-- `utf16Len`
unfoldable pub utf16_len : Bytes → ℕ
unfolding utf16_len_loop
utf16_len s = utf16_len_loop (length s) s

-- `s[a:b]`
abbrev pub slice : Bytes → ℕ → ℕ → Bytes
slice s a b = take (b - a) (drop a s)

-- `Document.Position`, from an `int` that is clamped to the text.
abbrev pub clamp_offset : Document → ℤ → ℕ
clamp_offset d offset =
    if ltb_ℤ offset (pos 0)
    then 0
    else if ltb_ℤ (pos (length d.text)) offset
    then length d.text
    else pos_part offset

unfoldable pub position : Document → ℤ → Position
position d offset =
    let at = clamp_offset d offset in
    let (line, start) = byte_line_at_string d at in
    if d.plain
    then record { line = pos line; character = pos (at - start) }
    else record { line = pos line; character = pos (utf16_len (slice d.text start at)) }

-- The loop of `Document.Offset` over `rest`, the bytes of the line from `i` on.
unfoldable pub offset_loop : ℕ → Bytes → ℕ → ℕ → ℕ → ℕ → ℕ
offset_loop zero rest i end units target = end
offset_loop (suc fuel) [] i end units target = end
offset_loop (suc fuel) (b ∷ bs) i end units target =
    let (r, n) = decode_rune (b ∷ bs) in
    let later = offset_loop fuel (drop n (b ∷ bs)) (i + n) end (units + units_of r) target in
    if r == newline || r == carriage_return
    then end
    else if ltb target (units + units_of r)
    then i
    else if units + units_of r == target
    then i + n
    else later

-- The sum of two values of type `int` that are not negative, which may wrap around.
abbrev pub int_sum : ℕ → ℕ → ℤ
int_sum a b = if ltb (a + b) (2 ^ 63) then pos (a + b) else negsuc (2 ^ 64 - (a + b) - 1)

-- `Document.Offset`
unfoldable pub offset : Document → Position → ℤ
offset d p =
    if ltb_ℤ p.line (pos 0)
    then pos 0
    else if leb_ℤ (pos d.line_count) p.line
    then pos (length d.text)
    else let b = line_bounds_string d p.line in
      let target = pos_part p.character in
      if leb_ℤ p.character (pos 0)
      then pos b.start
      else if d.plain
      then (if ltb_ℤ (pos b.end) (int_sum b.start target)
          then pos b.end
          else int_sum b.start target)
      else pos (offset_loop (length d.text) (slice d.text b.start b.end) b.start b.end 0 target)

-- `for end > start && (content[end-1] == '\n' || content[end-1] == '\r') { end-- }`, over the
-- length of the line.
unfoldable pub trim_line : Bytes → ℕ → ℕ → ℕ
trim_line content start zero = start
trim_line content start (suc n) =
    let last = get_or content (start + n) 0 in
    let shorter = trim_line content start n in
    if last == newline || last == carriage_return then shorter else start + suc n

-- The loop of `strictOffsetBytes` over `rest`, the bytes from `at` to the trimmed end.
unfoldable pub strict_loop : ℕ → Bytes → ℕ → ℕ → ℕ → Option ℕ
strict_loop fuel [] at units target = if units == target then some at else none
strict_loop zero (b ∷ bs) at units target = none
strict_loop (suc fuel) (b ∷ bs) at units target =
    let (r, size) = decode_rune (b ∷ bs) in
    let later = strict_loop fuel (drop size (b ∷ bs)) (at + size) (units + units_of r) target in
    if units == target then some at else if ltb target (units + units_of r) then none else later

-- `strictOffsetBytes`
unfoldable pub strict_offset_bytes : Document → Bytes → Position → Option ℕ
strict_offset_bytes d content p =
    if ltb_ℤ p.line (pos 0) || leb_ℤ (pos d.line_count) p.line || ltb_ℤ p.character (pos 0)
    then none
    else let b = line_bounds_bytes d p.line content in
      let end = trim_line content b.start (b.end - b.start) in
      if not b.ok
      then none
      else strict_loop (length content) (slice content b.start end) b.start 0 (pos_part p.character)

-- `Document.Range`
unfoldable pub range : Document → ℤ → ℤ → Range
range d start end = record { start = position d start; end = position d end }

-- `s[a:b]` of two `int` values, with `none` for the panic where they are out of bounds.
abbrev pub int_slice : Bytes → ℤ → ℤ → Option Bytes
int_slice s a b =
    if ltb_ℤ a (pos 0) || ltb_ℤ b a || ltb_ℤ (pos (length s)) b
    then none
    else some (slice s (pos_part a) (pos_part b))

-- `Document.Slice`
unfoldable pub slice_range : Document → Range → Option Bytes
slice_range d r =
    let a = offset d r.start in
    let b = offset d r.end in if ltb_ℤ b a then int_slice d.text b a else int_slice d.text a b

-- `bytePoint`
unfoldable pub byte_point : Document → Bytes → ℕ → ℕ × ℕ
byte_point d content at = let (line, start) = byte_line_at_bytes d content at in (line, at - start)

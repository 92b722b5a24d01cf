-- ===== src/Text/Strict/Spec.antt =====
-- The byte offset that an LSP position names, with no reference to how the source finds it.
use kotlsp.Prelude.{ℕ, ◌+◌, ◌≡◌, Bool, ◌||◌, [], ◌∷◌, Bytes, pos, ◌==◌, if◌then◌else◌, drop}
use kotlsp.Std.Utf8.{decode_rune}
use kotlsp.Text.Document.{newline, carriage_return}
use kotlsp.Text.Position.{Position, units_of, slice}
use kotlsp.Text.Table.Count.{LineAt}

-- The first `n` bytes of a text are whole runes, and these take `u` UTF-16 units.
pub data Reads : Bytes → ℕ → ℕ → Type 0 where
  stop : {bs : Bytes} {n u : ℕ} → n ≡ 0 → u ≡ 0 → Reads bs n u
  rune :
      {b : ℕ} {bs : Bytes} (n u : ℕ) {m v : ℕ}
      → Reads (drop (decode_rune (b ∷ bs)).1 (b ∷ bs)) n u
      → m ≡ (decode_rune (b ∷ bs)).1 + n
      → v ≡ units_of (decode_rune (b ∷ bs)).0 + u
      → Reads (b ∷ bs) m v

abbrev pub is_break : ℕ → Bool
is_break b = b == newline || b == carriage_return

abbrev pub attach : ℕ → Bytes → Bytes
attach b [] = if is_break b then [] else b ∷ []
attach b (c ∷ cs) = b ∷ c ∷ cs

-- A text without the line breaks at its end.
abbrev pub trimmed : Bytes → Bytes
trimmed [] = []
trimmed (b ∷ bs) = attach b (trimmed bs)

-- Position `p` of `content` is the offset `at`: the line exists, and the column, counted in
-- UTF-16 units, ends with a rune of its text.
pub record IsOffset (content : Bytes) (p : Position) (at : ℕ) : Type 0 where
  pub line : ℕ
  pub column : ℕ
  pub start : ℕ
  pub end : ℕ
  pub width : ℕ
  pub line_is : p.line ≡ pos line
  pub column_is : p.character ≡ pos column
  pub bounds : LineAt content line start end
  pub reads : Reads (trimmed (slice content start end)) width column
  pub at_is : at ≡ start + width

-- ===== src/Text/Strict/Exact.antt =====
-- `strictOffsetBytes` finds an offset exactly where the position names one.
use native.Mathlib.Nat.{zero-add}
use kotlsp.Prelude.{
  ℕ, ◌+◌, ◌-◌, ◌≤◌, ◌<◌, ◌≡◌, ◌↔◌, refl, sym, ap, subst, ◌∙◌, false, ◌||◌, ◌++◌, Bytes, arith, drop,
  take, length, length-append, length-take, length-drop, some, pos, take-take, [], ◌∷◌,
}
use kotlsp.Prelude.Int.{ltb_ℤ, leb_ℤ, pos_part}
use kotlsp.Text.Document.{Document}
use kotlsp.Text.Position.{Position, slice, trim_line, strict_loop, strict_offset_bytes}
use kotlsp.Text.Strict.Loop.{strict_loop-Reads, strict_loop_complete, trim_line-trimmed}
use kotlsp.Text.Strict.Spec.{Reads, IsOffset, trimmed, attach}
use kotlsp.Text.Table.Bounds.{line_bounds_bytes-LineAt}
use kotlsp.Text.Table.Count.{newlines, newlines-append, LineAt}
use kotlsp.Text.Table.Lookup.{HasTable}
use kotlsp.Text.Table.Unique.{LineAt-unique}

pub LineAt-le :
    {content : Bytes} {line start end : ℕ}
    → LineAt content line start end
    → (start ≤ end) × (end ≤ length content)
LineAt-le {content} b = omega (
  arith,
  b.start_is,
  b.end_is,
  ap length b.splits,
  length-append b.before (b.body ++ b.after),
  length-append b.body b.after,
)

LineAt-line-le :
    {content : Bytes} {line start end : ℕ} → LineAt content line start end → line ≤ newlines content
LineAt-line-le b =
    omega (arith, b.line_is, ap newlines b.splits, newlines-append b.before (b.body ++ b.after))

-- The text that the second loop walks is the trimmed line.
trimmed-prefix : (bs : Bytes) → take (length (trimmed bs)) bs ≡ trimmed bs
trimmed-prefix [] = refl
trimmed-prefix (b ∷ bs) = attached (trimmed bs) (trimmed-prefix bs)
  where
    attached :
        (t : Bytes) → take (length t) bs ≡ t → take (length (attach b t)) (b ∷ bs) ≡ attach b t
    attached [] h = ground arith
    attached (c ∷ cs) h = ap (◌∷◌ b) h

pub length-trimmed-le : (bs : Bytes) → length (trimmed bs) ≤ length bs
length-trimmed-le bs =
    omega (arith, ap length (trimmed-prefix bs), length-take (length (trimmed bs)) bs)

-- What is left of a line between its start and the end that the first loop finds.
trimmed-slice :
    (content : Bytes) (start end : ℕ)
    → start ≤ end
    → end ≤ length content
    → slice content start (trim_line content start (end - start))
      ≡ trimmed (slice content start end)
trimmed-slice content start end p q =
    let line = take (end - start) (drop start content) in
    let size = length (trimmed line) in
    let found = trim_line-trimmed content start (end - start) (omega arith) in
    let back : start + size - start ≡ size = omega arith in
    let short : size ≤ end - start = omega (
      arith,
      length-trimmed-le line,
      length-take (end - start) (drop start content),
      length-drop start content,
    ) in
    ap (λ n. take (n - start) (drop start content)) found
    ∙ ap (λ n. take n (drop start content)) back
    ∙ sym (take-take size (end - start) (drop start content) short)
    ∙ trimmed-prefix line

-- On a line that exists, the function is its second loop on the trimmed text.
strict_offset_bytes-inside :
    (d : Document) (content : Bytes) (line column start end : ℕ)
    → HasTable content d
    → LineAt content line start end
    → strict_offset_bytes d content (record { line = pos line; character = pos column })
      ≡ strict_loop (length content) (trimmed (slice content start end)) start 0 column
unfolding strict_offset_bytes
strict_offset_bytes-inside d content line column start end t b =
    let exists : line < d.line_count = omega (arith, t.counted, LineAt-line-le b) in
    let found = line_bounds_bytes-LineAt d content line t exists in
    let same = LineAt-unique found.1 b in
    let sizes = LineAt-le b in
    let inside : (ltb_ℤ (pos line) (pos 0)
          || leb_ℤ (pos d.line_count) (pos line)
          || ltb_ℤ (pos column) (pos 0))
        ≡ false =
      ground arith in
    rw (inside, found.0, same.0, same.1, trimmed-slice content start end sizes.0 sizes.1)

strict_offset_bytes-outside :
    (d : Document) (content : Bytes) (p : Position) (to : ℕ)
    → strict_offset_bytes d content p ≡ some to
    → (line : ℕ) × (column : ℕ) × (p.line ≡ pos line)
      × (p.character ≡ pos column)
      × (line < d.line_count)
unfolding strict_offset_bytes
strict_offset_bytes-outside d content p to e =
    (pos_part p.line, pos_part p.character, ground arith, ground arith, ground arith)

abbrev at_position : ℕ → ℕ → Position
at_position line column = record { line = pos line; character = pos column }

Position-eq :
    (p : Position) {line column : ℕ}
    → p.line ≡ pos line
    → p.character ≡ pos column
    → p ≡ at_position line column
Position-eq p l c = λ i. record { line = l i; character = c i }

-- The offset is found exactly where the position names one, and no other offset is returned.
pub strict_offset_bytes_iff :
    (d : Document) (content : Bytes) (p : Position) (at : ℕ)
    → HasTable content d
    → (strict_offset_bytes d content p ≡ some at) ↔ IsOffset content p at
strict_offset_bytes_iff d content p at t = (sound, complete)
  where
    sound : strict_offset_bytes d content p ≡ some at → IsOffset content p at
    sound e =
        let (line, column, l, c, exists) = strict_offset_bytes-outside d content p at e in
        let bounds = (line_bounds_bytes-LineAt d content line t exists).1 in
        let walked =
          sym (strict_offset_bytes-inside d content line column _ _ t bounds)
          ∙ ap (strict_offset_bytes d content) (sym (Position-eq p l c))
          ∙ e in
        let (n, u, reads, total, to) = strict_loop-Reads _ _ _ 0 column at walked in
        record {
          line = line;
          column = column;
          start = _;
          end = _;
          width = n;
          line_is = l;
          column_is = c;
          bounds = bounds;
          reads = subst (Reads _ n) (sym (zero-add u) ∙ total) reads;
          at_is = to;
        }

    complete : IsOffset content p at → strict_offset_bytes d content p ≡ some at
    complete o =
        let text = trimmed (slice content o.start o.end) in
        let sizes = LineAt-le o.bounds in
        let enough : length text ≤ length content = omega (
          arith,
          length-trimmed-le (slice content o.start o.end),
          length-take (o.end - o.start) (drop o.start content),
          length-drop o.start content,
        ) in
        ap (strict_offset_bytes d content) (Position-eq p o.line_is o.column_is)
        ∙ strict_offset_bytes-inside d content o.line o.column o.start o.end t o.bounds
        ∙ strict_loop_complete (length content) o.start 0 o.column o.reads enough (omega arith)
        ∙ ap some (sym o.at_is)

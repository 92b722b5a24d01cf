-- ===== src/Text/Table/Cut.antt =====
-- The whole index of a text, and the table of a text that is cut behind its first piece.
use native.Mathlib.Nat.{zero-add}
use kotlsp.Prelude.{
  ℕ, suc, ◌≡◌, refl, sym, ap, ◌∙◌, ◌∷◌, ◌++◌, arith, length, take, drop, take-append, drop-append,
  ltb, Bytes,
}
use kotlsp.Text.Document.{Document, line_starts, reindex_line_bytes, max_dense_line_starts}
use kotlsp.Text.Lookup.{first_after}
use kotlsp.Text.Edit.{added_starts}
use kotlsp.Text.Table.Ascending.{first_after-leading}
use kotlsp.Text.Table.Count.{newlines}
use kotlsp.Text.Table.Lookup.{HasTable}
use kotlsp.Text.Table.Pieces.{
  added_starts-Ascends, length-added_starts, added_starts-append, leading_piece,
}

-- The whole index is the one that `reindexLineBytes` builds for `content`.
pub record IsIndexed (content : Bytes) (d : Document) : Type 0 where
  pub table : HasTable content d
  pub mode : d.sparse ≡ ltb max_dense_line_starts d.line_count

pub reindex_line_bytes-IsIndexed :
    (d : Document) (content : Bytes) → IsIndexed content (reindex_line_bytes d content)
unfolding reindex_line_bytes
reindex_line_bytes-IsIndexed d content = record {
  table = record { tabulated = refl; counted = refl };
  mode = refl;
}

-- Two documents with the index of one text have the same index.
pub IsIndexed-unique :
    {content : Bytes} {c d : Document}
    → IsIndexed content c
    → IsIndexed content d
    → (c.lines ≡ d.lines) × (c.sparse ≡ d.sparse) × (c.line_count ≡ d.line_count)
IsIndexed-unique {content} p q =
    let count = p.table.counted ∙ sym q.table.counted in
    let mode = p.mode ∙ ap (ltb max_dense_line_starts) count ∙ sym q.mode in
    (
      p.table.tabulated ∙ ap (λ s. 0 ∷ line_starts s 0 0 content) mode ∙ sym q.table.tabulated,
      mode,
      count,
    )

-- The table of a text, cut behind its first piece.
pub table_cut :
    (a c : Bytes) → added_starts 0 (a ++ c) ≡ added_starts 0 a ++ added_starts (length a) c
table_cut a c = rw (added_starts-append 0 a c, zero-add)

pub first_after_cut :
    (at : ℕ) (a c : Bytes)
    → length a ≡ at
    → first_after (0 ∷ added_starts 0 (a ++ c)) at ≡ suc (newlines a)
first_after_cut at a c e =
    let piece = leading_piece at 0 a c (omega arith) in
    rw
      (
        first_after-leading at 0 (0 ∷ added_starts 0 (a ++ c))
            (omega arith, added_starts-Ascends 0 (a ++ c)),
        table_cut a c,
        e,
      )
      (ground (arith, piece))

pub take_cut :
    (n : ℕ) (a c : Bytes)
    → n ≡ suc (newlines a)
    → take n (0 ∷ added_starts 0 (a ++ c)) ≡ 0 ∷ added_starts 0 a
take_cut n a c e =
    rw (e, table_cut a c)
      (ap (◌∷◌ 0) (
        take-append (added_starts 0 a) (added_starts (length a) c) (newlines a)
          (sym (length-added_starts 0 a))))

pub drop_cut :
    (n : ℕ) (a c : Bytes)
    → n ≡ suc (newlines a)
    → drop n (0 ∷ added_starts 0 (a ++ c)) ≡ added_starts (length a) c
drop_cut n a c e =
    rw (e, table_cut a c)
      (drop-append (added_starts 0 a) (added_starts (length a) c) (newlines a)
        (sym (length-added_starts 0 a)))

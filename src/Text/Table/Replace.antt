-- ===== src/Text/Table/Replace.antt =====
-- `replaceLines` keeps the line index that a complete scan of the new bytes would build.
use kotlsp.Prelude.{
  Bool-cases, ltb→le, append-nil, ℕ, suc, ◌+◌, ◌-◌, ◌≤◌, ◌≡◌, ◌⊎◌, refl, sym, ap, ◌∙◌, List, [],
  ◌∷◌, ◌++◌, map, arith, length, length-append, take, drop, true, false, ltb, ◌||◌, if◌then◌else◌,
  Bytes, inl, inr, append_assoc, take-append-drop, length-take, length-drop, drop-drop,
}
use kotlsp.Text.Document.{Document, line_starts, reindex_line_bytes, max_dense_line_starts}
use kotlsp.Text.Lookup.{first_after}
use kotlsp.Text.Edit.{added_starts, replace_lines, remove_to, relined, kept_count}
use kotlsp.Text.Table.Count.{newlines, newlines-append}
use kotlsp.Text.Table.Pieces.{
  line_starts-added_starts, length-added_starts, added_starts-append, added_starts-map,
}
use kotlsp.Text.Table.Cut.{
  IsIndexed, drop_cut, first_after_cut, reindex_line_bytes-IsIndexed, table_cut, take_cut,
}

-- A text in three pieces: `b` stands between the offsets `start` and `end`.
module _ (a b c : Bytes) (start end : ℕ) (p : length a ≡ start) (q : start + length b ≡ end) where
  abbrev old_table : List ℕ
  old_table = 0 ∷ added_starts 0 (a ++ (b ++ c))

  remove_from_cut : first_after old_table start ≡ suc (newlines a)
  remove_from_cut = first_after_cut start a (b ++ c) p

  remove_to_cut : remove_to old_table start end ≡ suc (newlines (a ++ b))
  remove_to_cut = elim (Bool-cases (ltb start end)) [
    | inl t ↦
        rw (t, ← append_assoc a b c)
          (first_after_cut end (a ++ b) c (omega (arith, length-append a b)))
    | inr f ↦ rw (f, remove_from_cut) (nothing b (omega (arith, ltb→le start end f)))
  ]
    where
      nothing : (b : Bytes) → length b ≡ 0 → suc (newlines a) ≡ suc (newlines (a ++ b))
      nothing [] e = rw append-nil
      nothing (x ∷ b) e = absurd (omega arith)

  -- The table that the replacement leaves.
  new_table :
      (r : Bytes)
      → take (suc (newlines a)) old_table
          ++ (added_starts start r
              ++ map
                  (λ line. line + length r - (end - start))
                  (drop (suc (newlines (a ++ b))) old_table))
        ≡ 0 ∷ added_starts 0 (a ++ (r ++ c))
  new_table r =
      ap (λ t. t ++ (added_starts start r ++ map shift (drop (suc (newlines (a ++ b))) old_table)))
        (take_cut (suc (newlines a)) a (b ++ c) refl)
      ∙ ap (λ t. 0 ∷ (added_starts 0 a ++ (added_starts start r ++ map shift t))) dropped
      ∙ ap (λ t. 0 ∷ (added_starts 0 a ++ (added_starts start r ++ t))) shifted
      ∙ ap (◌∷◌ 0) (sym joined)
    where
      shift : ℕ → ℕ
      shift = λ line. line + length r - (end - start)

      dropped :
          drop (suc (newlines (a ++ b))) (0 ∷ added_starts 0 (a ++ (b ++ c)))
          ≡ added_starts (length (a ++ b)) c
      dropped = rw (← append_assoc a b c) (drop_cut (suc (newlines (a ++ b))) (a ++ b) c refl)

      shifted : map shift (added_starts (length (a ++ b)) c) ≡ added_starts (start + length r) c
      shifted =
          added_starts-map (length (a ++ b)) (length r) (end - start) c
            (omega (arith, length-append a b))
          ∙ ap (λ k. added_starts k c) (omega (arith, length-append a b))

      joined :
          added_starts 0 (a ++ (r ++ c))
          ≡ added_starts 0 a ++ (added_starts start r ++ added_starts (start + length r) c)
      joined = rw (table_cut a (r ++ c), p, added_starts-append start r c)

  -- The count by which the source decides whether the table stays dense.
  count_kept :
      (r : Bytes) (count : ℕ)
      → count ≡ 1 + newlines (a ++ (b ++ c))
      → count - (suc (newlines (a ++ b)) - suc (newlines a)) + newlines r
        ≡ 1 + newlines (a ++ (r ++ c))
  count_kept r count e = omega (
    arith,
    newlines-append a (b ++ c),
    newlines-append b c,
    newlines-append a b,
    newlines-append a (r ++ c),
    newlines-append r c,
  )

  module _ (d : Document) (r : Bytes) (x : IsIndexed (a ++ (b ++ c)) d) where
    dense_table : d.sparse ≡ false → d.lines ≡ old_table
    dense_table s =
        x.table.tabulated
        ∙ ap (λ m. 0 ∷ line_starts m 0 0 (a ++ (b ++ c))) s
        ∙ ap (◌∷◌ 0) (line_starts-added_starts 0 0 (a ++ (b ++ c)))

    relined_lem :
        d.sparse ≡ false → relined d.lines start end r ≡ 0 ∷ line_starts false 0 0 (a ++ (r ++ c))
    relined_lem s =
        rw
          (
            dense_table s,
            remove_to_cut,
            remove_from_cut,
            line_starts-added_starts 0 0 (a ++ (r ++ c)),
          )
          (new_table r)

    kept_count_lem : d.sparse ≡ false → kept_count d start end r ≡ 1 + newlines (a ++ (r ++ c))
    kept_count_lem s =
        rw (dense_table s, remove_to_cut, remove_from_cut)
          (count_kept r d.line_count x.table.counted)

    relined-IsIndexed :
        d.sparse ≡ false
        → ltb max_dense_line_starts (kept_count d start end r) ≡ false
        → let table = relined d.lines start end r in
          IsIndexed (a ++ (r ++ c)) (record d { lines = table; line_count = length table })
    relined-IsIndexed s few = record {
      table = record {
        tabulated = relined_lem s ∙ ap (λ m. 0 ∷ line_starts m 0 0 (a ++ (r ++ c))) (sym s);
        counted = counted;
      };
      mode = s ∙ sym few ∙ ap (ltb max_dense_line_starts) (kept_count_lem s ∙ sym counted);
    }
      where
        counted : length (relined d.lines start end r) ≡ 1 + newlines (a ++ (r ++ c))
        counted =
            rw
              (
                relined_lem s,
                line_starts-added_starts 0 0 (a ++ (r ++ c)),
                length-added_starts 0 (a ++ (r ++ c)),
              )
              (omega arith)

  pub replace_lines-pieces :
      (d : Document) (r : Bytes)
      → IsIndexed (a ++ (b ++ c)) d
      → let out = replace_lines d start end r in
        ((out.1 ≡ true) × (out.0 ≡ d)) ⊎ ((out.1 ≡ false) × IsIndexed (a ++ (r ++ c)) out.0)
  unfolding replace_lines
  replace_lines-pieces d r x =
      elim (Bool-cases (d.sparse || ltb max_dense_line_starts (kept_count d start end r))) [
        | inl t ↦ rw t (inl (refl, refl))
        | inr f ↦
            let s : d.sparse ≡ false = ground arith in
            let few : ltb max_dense_line_starts (kept_count d start end r) ≡ false = ground arith in
            rw f (inr (refl, relined-IsIndexed d r x s few))
      ]

-- The three pieces between which two offsets cut.
pub three_pieces :
    (content : Bytes) (start end : ℕ)
    → start ≤ end
    → take start content ++ (take (end - start) (drop start content) ++ drop end content) ≡ content
three_pieces content start end p =
    let seam : start + (end - start) ≡ end = omega arith in
    ap (λ t. take start content ++ (take (end - start) (drop start content) ++ t))
      (sym (drop-drop start (end - start) content ∙ ap (λ n. drop n content) seam))
    ∙ ap (◌++◌ (take start content)) (take-append-drop (end - start) (drop start content))
    ∙ take-append-drop start content

abbrev pub replaced : Bytes → ℕ → ℕ → Bytes → Bytes
replaced content start end r = take start content ++ (r ++ drop end content)

-- After a replacement the line index is the one of the new text: the table is patched, or it is
-- built anew from `content'`, the new bytes.
pub replace_lines-IsIndexed :
    (d : Document) (content : Bytes) (start end : ℕ) (r : Bytes)
    → IsIndexed content d
    → start ≤ end
    → end ≤ length content
    → let out = replace_lines d start end r in
      let content' = replaced content start end r in
      IsIndexed content' (if out.1 then reindex_line_bytes out.0 content' else out.0)
replace_lines-IsIndexed d content start end r x p q = elim outcome [
  | inl (again, _) ↦ rw again (reindex_line_bytes-IsIndexed _ _)
  | inr (patched, y) ↦ rw patched y
]
  where
    middle : Bytes
    middle = take (end - start) (drop start content)

    outcome :
        let out = replace_lines d start end r in
        ((out.1 ≡ true) × (out.0 ≡ d))
        ⊎ ((out.1 ≡ false) × IsIndexed (replaced content start end r) out.0)
    outcome =
        replace_lines-pieces (take start content) middle (drop end content) start end
          (omega (arith, length-take start content))
          (omega (arith, length-take (end - start) (drop start content), length-drop start content))
          d r (rw (three_pieces content start end p) x)

-- ===== src/Text/Points.antt =====
-- The points that `ApplyWithEdits` reports for a replacement are those of the two texts.
use kotlsp.Prelude.{
  ℕ, suc, ◌+◌, ◌-◌, ◌≤◌, ◌<◌, ◌≡◌, ◌⊎◌, inl, inr, refl, sym, ap, subst, ◌∙◌, false, [], ◌∷◌, ◌++◌,
  Bytes, arith, ◌==◌, if◌then◌else◌, drop, take, take-append, length, length-append, length-take,
  append_assoc, ==_iff,
}
use kotlsp.Text.Document.{Document}
use kotlsp.Text.Edit.{end_point_loop, replacement_end_point}
use kotlsp.Text.Position.{byte_point}
use kotlsp.Text.Table.Count.{AtLine, Walk, Walk-AtLine, Walk-newline, Walk-other}
use kotlsp.Text.Table.Lookup.{HasTable, newline-cases, byte_line_at_bytes-AtLine}
use kotlsp.Text.Table.Replace.{replaced}
use kotlsp.Text.Table.Unique.{AtLine-unique}

AtLine-move :
    {content : Bytes} {at at' line start : ℕ}
    → at ≡ at'
    → AtLine content at line start
    → AtLine content at' line start
AtLine-move {content} {line} {start} e a = subst (λ n. AtLine content n line start) e a

AtLine-start-le : {content : Bytes} {at line start : ℕ} → AtLine content at line start → start ≤ at
AtLine-start-le a = omega (arith, a.start_is, a.at_is)

-- Where the loop over the replacement stands in the new text: still on the first line, or on a
-- later one, which begins `last` bytes behind the start of the replacement.
abbrev Stands : ℕ → ℕ → ℕ → ℕ → ℕ → ℕ → Type 0
Stands from_line from_start start line last line_start =
    ((line ≡ from_line) × (line_start ≡ from_start))
    ⊎ ((from_line < line) × (line_start ≡ start + last))

module _ {new : Bytes} (tail : Bytes) (from_line from_start start : ℕ) where
  -- The line on which the replacement ends.
  end_line :
      (r : Bytes) (k line last line_start : ℕ)
      → Walk new (r ++ tail) (start + k) line line_start
      → Stands from_line from_start start line last line_start
      → let out = end_point_loop r k line last in
        (s : ℕ) × AtLine new (start + k + length r) out.0 s
        × Stands from_line from_start start out.0 out.1 s
  unfolding end_point_loop
  end_line [] k line last line_start w h =
      (line_start, subst (λ n. AtLine new n line line_start) (omega arith) (Walk-AtLine w), h)
  end_line (b ∷ r) k line last line_start w h = elim (newline-cases b) [
    | inl e ↦
        let v = subst (λ c. Walk new (c ∷ (r ++ tail)) (start + k) line line_start) e w in
        let seam : start + k + 1 ≡ start + (k + 1) = omega arith in
        let w' = subst (λ i. Walk new (r ++ tail) i (suc line) i) seam (Walk-newline v) in
        let (s, a, st) =
          end_line r (k + 1) (suc line) (k + 1) (start + (k + 1)) w' (inr (ground arith, refl)) in
        rw (e, end_point_loop) (s, AtLine-move (omega arith) a, st)
    | inr n ↦
        let seam : start + k + 1 ≡ start + (k + 1) = omega arith in
        let w' = subst (λ i. Walk new (r ++ tail) i line line_start) seam (Walk-other n w) in
        let (s, a, st) = end_line r (k + 1) line last line_start w' h in
        rw (n, end_point_loop) (s, AtLine-move (omega arith) a, st)
  ]

-- The text before an offset, as the lines before it and what stands on its own line.
take-AtLine :
    {content : Bytes} {at line start : ℕ} (a : AtLine content at line start)
    → take at content ≡ a.before ++ a.part
take-AtLine {at} a =
    ap (take at) (a.splits ∙ sym (append_assoc a.before a.part a.after))
    ∙ take-append (a.before ++ a.part) a.after at
        (omega (arith, a.at_is, length-append a.before a.part))

Walk-replaced :
    {content : Bytes} {start line s : ℕ} (end : ℕ) (r : Bytes)
    → AtLine content start line s
    → Walk (replaced content start end r) (r ++ drop end content) (start + 0) line s
Walk-replaced {content} {start} end r a = record {
  before = a.before;
  part = a.part;
  splits =
      ap (λ t. t ++ (r ++ drop end content)) (take-AtLine a)
      ∙ append_assoc a.before a.part (r ++ drop end content);
  start_is = a.start_is;
  index_is = omega (arith, a.at_is);
  line_is = a.line_is;
  one_line = a.one_line;
  ends = a.ends;
}

-- `replacementEndPoint`, from what its loop reaches.
end_point-point :
    (r : Bytes) (start line line_start : ℕ) (out : ℕ × ℕ) (s : ℕ)
    → line_start ≤ start
    → Stands line line_start start out.0 out.1 s
    → ◌≡◌ {A = ℕ × ℕ}
        (if out.0 == line
          then (out.0, start - line_start + length r)
          else (out.0, length r - out.1))
        (out.0, start + length r - s)
end_point-point r start line line_start out s h (inl (e, f)) =
    rw ((==_iff _ _).1 e, f) (ap (λ (n : ℕ). (out.0, n)) (omega arith))
end_point-point r start line line_start out s h (inr (e, f)) =
    let later : (out.0 == line) ≡ false = ground arith in
    rw (later, f) (ap (λ (n : ℕ). (out.0, n)) (omega arith))

-- The end of a replacement, computed from its start and its text alone, is the point of the new
-- text at that offset.
pub replacement_end_point-byte_point :
    (d d' : Document) (content : Bytes) (start end : ℕ) (r : Bytes)
    → HasTable content d
    → HasTable (replaced content start end r) d'
    → start ≤ end
    → end ≤ length content
    → let (line, column) = byte_point d content start in
      replacement_end_point line column r
      ≡ byte_point d' (replaced content start end r) (start + length r)
unfolding byte_point replacement_end_point
replacement_end_point-byte_point d d' content start end r t t' p q =
    let new = replaced content start end r in
    let old = byte_line_at_bytes-AtLine d content start t (omega arith) in
    let (s, a, st) =
      end_line {new = new} (drop end content) _ _ start r 0 _ 0 _ (Walk-replaced end r old)
        (inl (refl, refl)) in
    let at = byte_line_at_bytes-AtLine d' new (start + length r) t' (
      omega (
        arith,
        length-append (take start content) (r ++ drop end content),
        length-append r (drop end content),
        length-take start content,
      )) in
    let before = AtLine-start-le old in
    let here = AtLine-move (omega arith) a in
    let same = AtLine-unique here at in
    end_point-point r start _ _ _ s before st ∙ λ i. (same.0 i, start + length r - same.1 i)

-- ===== src/Text/Apply/Step.antt =====
-- One round of the loop of `ApplyWithEdits` does what the change says.
use kotlsp.Prelude.{
  ℕ, ◌+◌, ◌-◌, ◌≤◌, ◌≡◌, ◌↔◌, sym, ap, subst, ◌∙◌, false, ◌∷◌, ◌++◌, Bytes, arith, ltb, ltb→le,
  le→ltb, if◌then◌else◌, drop, take, length, length-append, length-take, length-drop, some,
  Option-cases, ok, fail_if-eq-ok, or_fail-eq-ok, ok-injective, inl, inr,
}
use kotlsp.Std.Slice.{shown, IsValid, length-shown}
use kotlsp.Std.Utf8.{decode_rune, decode_rune-Fits}
use kotlsp.Text.Apply.{
  Change, Session, splice, overwrite, after_whole, after_between, replace_all, replace_between,
  apply_change, max_document_bytes,
}
use kotlsp.Text.Apply.Spec.{Applies, whole, between, IsSession}
use kotlsp.Text.Document.{Document, reindex_line_bytes}
use kotlsp.Text.Edit.{replace_lines}
use kotlsp.Text.Position.{Position, strict_offset_bytes, slice}
use kotlsp.Text.Splice.{Spliced, splice-Spliced, overwrite-shown}
use kotlsp.Text.Strict.Exact.{strict_offset_bytes_iff, LineAt-le, length-trimmed-le}
use kotlsp.Text.Strict.Spec.{Reads, stop, rune, IsOffset}
use kotlsp.Text.Table.Cut.{IsIndexed, reindex_line_bytes-IsIndexed}
use kotlsp.Text.Table.Replace.{replaced, replace_lines-IsIndexed}

Reads-le : {bs : Bytes} {n u : ℕ} → Reads bs n u → n ≤ length bs
Reads-le (stop p q) = omega arith
Reads-le (rune {b} {bs} n u r p q) =
    omega
      (arith, p, Reads-le r, length-drop (decode_rune (b ∷ bs)).1 (b ∷ bs), decode_rune-Fits b bs)

pub IsOffset-le : {content : Bytes} {p : _} {at : ℕ} → IsOffset content p at → at ≤ length content
IsOffset-le {content} o = omega (
  arith,
  o.at_is,
  Reads-le o.reads,
  LineAt-le o.bounds,
  length-trimmed-le (slice content o.start o.end),
  length-take (o.end - o.start) (drop o.start content),
  length-drop o.start content,
)

-- What a round that succeeds leaves.
pub record Done (d : Document) (new : Bytes) (t : Session) : Type 0 where
  pub session : IsSession d t
  pub shows : shown t.content ≡ new

after_whole-Done :
    {d : Document} (s : Session) (text : Bytes)
    → IsSession d s
    → length text ≤ max_document_bytes
    → Done d text (after_whole s text)
unfolding after_whole reindex_line_bytes
after_whole-Done s text v h = record {
  session = record {
    same_uri = v.same_uri;
    same_language = v.same_language;
    valid = seen.1;
    indexed = reindex_line_bytes-IsIndexed s.updated (shown (overwrite s.content text));
    bounded = omega (arith, ap length seen.0, length-shown (overwrite s.content text) seen.1);
  };
  shows = seen.0;
}
  where
    seen : (shown (overwrite s.content text) ≡ text) × IsValid (overwrite s.content text)
    seen = overwrite-shown s.content text

-- The line index alone changes.
renamed :
    (d : Document) (start end : ℕ) (text content : Bytes)
    → let out = replace_lines d start end text in
      let d' = if out.1 then reindex_line_bytes out.0 content else out.0 in
      (d'.uri ≡ d.uri) × (d'.language_id ≡ d.language_id)
unfolding replace_lines reindex_line_bytes
renamed d start end text content = ground arith

after_between-Done :
    {d : Document} (s : Session) (start end : ℕ) (text : Bytes)
    → IsSession d s
    → start ≤ end
    → end ≤ s.content.len
    → s.content.len - (end - start) + length text ≤ max_document_bytes
    → Done d (replaced (shown s.content) start end text) (after_between s start end text)
unfolding after_between
after_between-Done s start end text v p q h = record {
  session = record {
    same_uri =
        (renamed s.updated start end text (shown (splice s.content start end text))).0 ∙ v.same_uri;
    same_language =
        (renamed s.updated start end text (shown (splice s.content start end text))).1
        ∙ v.same_language;
    valid = new.valid;
    indexed = rw new.shows indexed;
    bounded = omega (arith, new.len_is);
  };
  shows = new.shows;
}
  where
    new : Spliced s.content (splice s.content start end text) start end text
    new = splice-Spliced s.content start end text v.valid p q

    indexed :
        let out = replace_lines s.updated start end text in
        let text' = replaced (shown s.content) start end text in
        IsIndexed text' (if out.1 then reindex_line_bytes out.0 text' else out.0)
    indexed =
        replace_lines-IsIndexed s.updated (shown s.content) start end text v.indexed p
          (omega (arith, length-shown s.content v.valid))

replaced-length :
    (content text : Bytes) (start end : ℕ)
    → start ≤ end
    → end ≤ length content
    → length (replaced content start end text) ≡ length content - (end - start) + length text
replaced-length content text start end p q = omega (
  arith,
  length-append (take start content) (text ++ drop end content),
  length-append text (drop end content),
  length-take start content,
  length-drop end content,
)

module _ {d : Document} (s : Session) (v : IsSession d s) where
  len_shown : length (shown s.content) ≡ s.content.len
  len_shown = length-shown s.content v.valid

  exact :
      (p : Position) (at : ℕ)
      → (strict_offset_bytes s.updated (shown s.content) p ≡ some at)
        ↔ IsOffset (shown s.content) p at
  exact p at = strict_offset_bytes_iff s.updated (shown s.content) p at v.indexed.table

  -- Whatever the change describes, the round does, if the new text is within the limit.
  pub apply_change_complete :
      (c : Change) (new : Bytes)
      → Applies (shown s.content) c new
      → (t : Session) × (apply_change s c ≡ ok t) × Done d new t
  unfolding apply_change replace_all replace_between
  apply_change_complete c new (whole r e h) =
      let small : ltb max_document_bytes (length c.text) ≡ false =
        le→ltb _ _ (omega (arith, ap length e)) in
      (
        after_whole s c.text,
        rw (r, apply_change, small),
        subst (λ x. Done d x (after_whole s c.text)) (sym e)
            (after_whole-Done s c.text v (omega (arith, ap length e))),
      )
  apply_change_complete c new (between r a b e oa ob p n h) =
      let guard : ltb b a ≡ false = le→ltb _ _ p in
      let size = replaced-length (shown s.content) c.text a b p (IsOffset-le ob) in
      let small : ltb max_document_bytes (s.content.len - (b - a) + length c.text) ≡ false =
        le→ltb _ _ (omega (arith, ap length n, size, len_shown)) in
      let made =
        subst (λ x. Done d x (after_between s a b c.text)) (sym n)
          (after_between-Done s a b c.text v p (omega (arith, IsOffset-le ob, len_shown))
            (omega (arith, ap length n, size, len_shown))) in
      (
        after_between s a b c.text,
        rw (e, apply_change, (exact r.start a).1 oa, (exact r.end b).1 ob, guard, small),
        made,
      )

  -- A round that succeeds has done what the change describes.
  pub apply_change_sound :
      (c : Change) (t : Session)
      → apply_change s c ≡ ok t
      → Applies (shown s.content) c (shown t.content) × IsSession d t
  unfolding apply_change replace_all replace_between
  apply_change_sound c t e = elim (Option-cases c.range) [
    | inl n ↦
        let (small, made) = fail_if-eq-ok _ _ _ _ (rw (n, apply_change) at e) in
        let fits = ltb→le _ _ small in
        let x = subst (Done d c.text) (ok-injective made) (after_whole-Done s c.text v fits) in
        (whole n x.shows (omega (arith, ap length x.shows)), x.session)
    | inr (r, q) ↦
        let (a, fa, e₁) = or_fail-eq-ok _ _ _ (rw (q, apply_change) at e) in
        let (b, fb, e₂) = or_fail-eq-ok _ _ _ e₁ in
        let (order, e₃) = fail_if-eq-ok _ _ _ _ e₂ in
        let (small, made) = fail_if-eq-ok _ _ _ _ e₃ in
        let oa = (exact r.start a).0 fa in
        let ob = (exact r.end b).0 fb in
        let p = ltb→le _ _ order in
        let size = replaced-length (shown s.content) c.text a b p (IsOffset-le ob) in
        let x = subst (Done d (replaced (shown s.content) a b c.text)) (ok-injective made) (
          after_between-Done s a b c.text v p (omega (arith, IsOffset-le ob, len_shown))
            (ltb→le _ _ small)) in
        let fits = ltb→le _ _ small in
        (
          between r a b q oa ob p x.shows (omega (arith, ap length x.shows, size, len_shown, fits)),
          x.session,
        )
  ]

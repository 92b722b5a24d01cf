-- ===== src/Text/Apply/Batch.antt =====
-- `ApplyWithEdits` succeeds exactly on a batch that its limits admit and that can be applied, and
-- leaves the document that would be built from the new text.
use kotlsp.Prelude.{
  ℕ, ◌+◌, ◌≤◌, ◌≡◌, refl, sym, ap, subst, ◌∙◌, false, ◌||◌, List, [], ◌∷◌, ◌++◌, Bytes, ℤ, arith,
  ok, bind-eq-ok, ok-injective, ltb, le→ltb, if◌then◌else◌, drop, take, length, length-append,
  replicate, take-append,
}
use kotlsp.Prelude.Int.{leb_ℤ}
use kotlsp.Std.Slice.{shown, make, copy, copy_fits}
use kotlsp.Text.Apply.{
  Change, Session, total_text, begin, commit, apply_change, apply_changes, apply_with_edits,
  max_document_bytes, max_changes,
}
use kotlsp.Text.Apply.Spec.{Applies, AppliesAll, done, change, IsSession, IsDocument}
use kotlsp.Text.Apply.Step.{apply_change_complete, apply_change_sound}
use kotlsp.Text.Document.{Document, new_document, clone}
use kotlsp.Text.Edit.{TextEdit}
use kotlsp.Text.Table.Cut.{IsIndexed-unique}

-- `NewDocument` makes a document.
pub new_document-IsDocument :
    (uri language_id : Bytes) (version : ℤ) (text : Bytes)
    → IsDocument (new_document uri language_id version text)
unfolding new_document
new_document-IsDocument uri language_id version text = record {
  indexed = record { table = record { tabulated = refl; counted = refl }; mode = refl };
  plainness = refl;
}

-- There is one document with given names, version and text.
pub IsDocument-unique :
    (d : Document) → IsDocument d → d ≡ new_document d.uri d.language_id d.version d.text
unfolding new_document
IsDocument-unique d v = λ i. record {
  uri = d.uri;
  language_id = d.language_id;
  version = d.version;
  text = d.text;
  lines = same.0 i;
  sparse = same.1 i;
  line_count = same.2 i;
  plain = v.plainness i;
}
  where
    fresh : Document
    fresh = new_document d.uri d.language_id d.version d.text

    same : (d.lines ≡ fresh.lines) × (d.sparse ≡ fresh.sparse) × (d.line_count ≡ fresh.line_count)
    same =
        IsIndexed-unique v.indexed
          (new_document-IsDocument d.uri d.language_id d.version d.text).indexed

begin-IsSession :
    (d : Document) (extra : ℕ)
    → IsDocument d
    → length d.text ≤ max_document_bytes
    → IsSession d (begin d extra) × (shown (begin d extra).content ≡ d.text)
unfolding begin clone
begin-IsSession d extra v h = rw copied (
  record {
    same_uri = refl;
    same_language = refl;
    valid = omega (arith, size);
    indexed = rw shows v.indexed;
    bounded = h;
  },
  shows,
)
  where
    capacity : ℕ
    capacity =
        if ltb max_document_bytes (length d.text + extra)
        then max_document_bytes
        else length d.text + extra

    spare : Bytes
    spare = drop (0 + length d.text) (replicate capacity 0)

    copied :
        copy (make (length d.text) capacity) 0 (length d.text) d.text
        ≡ record { cells = d.text ++ spare; len = length d.text }
    copied = copy_fits (make (length d.text) capacity) 0 (length d.text) d.text (omega arith)

    size : length (d.text ++ spare) ≡ length d.text + length spare
    size = length-append d.text spare

    shows : take (length d.text) (d.text ++ spare) ≡ d.text
    shows = take-append d.text spare (length d.text) refl

commit-IsDocument :
    {d : Document} (version : ℤ) (s : Session) → IsSession d s → IsDocument (commit version s).0
unfolding commit
commit-IsDocument version s v = record {
  indexed = record {
    table = record { tabulated = v.indexed.table.tabulated; counted = v.indexed.table.counted };
    mode = v.indexed.mode;
  };
  plainness = refl;
}

abbrev pub total : List Change → ℕ
total [] = 0
total (c ∷ cs) = length c.text + total cs

total_text_lem :
    (cs : List Change) (extra : ℕ)
    → extra + total cs ≤ max_document_bytes
    → total_text cs extra ≡ ok (extra + total cs)
unfolding total_text
total_text_lem [] extra h = ap ok (omega arith)
total_text_lem (c ∷ cs) extra h =
    let small : ltb max_document_bytes (extra + length c.text) ≡ false = le→ltb _ _ (omega arith) in
    rw small (total_text_lem cs (extra + length c.text) (omega arith) ∙ ap ok (omega arith))

-- The loop over the changes.
apply_changes_sound :
    {d : Document} (cs : List Change) (s t : Session)
    → IsSession d s
    → apply_changes s cs ≡ ok t
    → AppliesAll (shown s.content) cs (shown t.content) × IsSession d t
unfolding apply_changes
apply_changes_sound [] s t v e =
    let same = ok-injective e in
    (
      subst (λ x. AppliesAll (shown s.content) [] (shown x.content)) same done,
      subst (IsSession _) same v,
    )
apply_changes_sound (c ∷ cs) s t v e =
    let (u, first, later) = bind-eq-ok (apply_change s c) (λ x. apply_changes x cs) t e in
    let (a, w) = apply_change_sound s v c u first in
    let (all, x) = apply_changes_sound cs u t w later in (change a all, x)

apply_changes_complete :
    {d : Document} {old last : Bytes} {cs : List Change} (s : Session)
    → IsSession d s
    → shown s.content ≡ old
    → AppliesAll old cs last
    → (t : Session) × (apply_changes s cs ≡ ok t) × IsSession d t × (shown t.content ≡ last)
unfolding apply_changes
apply_changes_complete s v e done = (s, refl, v, e)
apply_changes_complete s v e (change {old} {new} {c} {cs} a more) =
    let (u, first, d₁) = apply_change_complete s v c new (subst (λ x. Applies x c new) (sym e) a) in
    let (t, later, x, y) = apply_changes_complete u d₁.session d₁.shows more in
    (t, rw first later, x, y)

commit-new_document :
    {d : Document} (version : ℤ) (s : Session)
    → IsSession d s
    → (commit version s).0 ≡ new_document d.uri d.language_id version (shown s.content)
unfolding commit
commit-new_document {d} version s v =
    IsDocument-unique (commit version s).0 (commit-IsDocument version s v)
    ∙ ap (λ n. new_document n s.updated.language_id version (shown s.content)) v.same_uri
    ∙ ap (λ n. new_document d.uri n version (shown s.content)) v.same_language

-- The path of a call that succeeds.
record Passed (d : Document) (version : ℤ) (changes : List Change) (r : Document × List TextEdit)
    : Type 0 where
  newer : leb_ℤ version d.version ≡ false
  limits : (ltb max_document_bytes (length d.text) || ltb max_changes (length changes)) ≡ false
  extra : ℕ
  last : Session
  totalled : total_text changes 0 ≡ ok extra
  applied : apply_changes (begin d extra) changes ≡ ok last
  result : commit version last ≡ r

apply_with_edits-Passed :
    (d : Document) (version : ℤ) (changes : List Change) (r : Document × List TextEdit)
    → apply_with_edits d version changes ≡ ok r
    → Passed d version changes r
unfolding apply_with_edits
apply_with_edits-Passed d version changes r e =
    let newer : leb_ℤ version d.version ≡ false = ground arith in
    let limits : (ltb max_document_bytes (length d.text) || ltb max_changes (length changes))
        ≡ false =
      ground arith in
    let e₁ = rw (newer, limits, apply_with_edits) at e in
    let (extra, totalled, e₂) = bind-eq-ok (total_text changes 0) _ r e₁ in
    let (last, applied, made) = bind-eq-ok (apply_changes (begin d extra) changes) _ r e₂ in
    record {
      newer = newer;
      limits = limits;
      extra = extra;
      last = last;
      totalled = totalled;
      applied = applied;
      result = ok-injective made;
    }

-- What a batch that succeeds leaves: the text is the result of the changes in their order, the
-- version and the names are as given, and the line index and the flags are those of a document
-- built from that text.
pub apply_with_edits_sound :
    (d d' : Document) (version : ℤ) (changes : List Change) (edits : List TextEdit)
    → IsDocument d
    → apply_with_edits d version changes ≡ ok (d', edits)
    → AppliesAll d.text changes d'.text × (d' ≡ new_document d.uri d.language_id version d'.text)
unfolding commit
apply_with_edits_sound d d' version changes edits v e =
    let p = apply_with_edits-Passed d version changes (d', edits) e in
    let (start, text) = begin-IsSession d p.extra v (ground (arith, p.limits)) in
    let (all, last) = apply_changes_sound changes (begin d p.extra) p.last start p.applied in
    let made = sym (ap (λ (r : Document × List TextEdit). r.0) p.result) in
    let fresh = made ∙ commit-new_document version p.last last in
    let shows : shown p.last.content ≡ d'.text =
      ap (λ (r : Document × List TextEdit). r.0.text) p.result in
    (
      subst (λ x. AppliesAll d.text changes x) shows
          (subst (λ x. AppliesAll x changes (shown p.last.content)) text all),
      fresh ∙ ap (new_document d.uri d.language_id version) shows,
    )

-- A batch with a newer version, within the limits, that can be applied is applied.
pub apply_with_edits_complete :
    (d : Document) (version : ℤ) (changes : List Change) (last : Bytes)
    → IsDocument d
    → leb_ℤ version d.version ≡ false
    → length d.text ≤ max_document_bytes
    → length changes ≤ max_changes
    → total changes ≤ max_document_bytes
    → AppliesAll d.text changes last
    → (edits : List TextEdit) × (apply_with_edits d version changes
        ≡ ok (new_document d.uri d.language_id version last, edits))
unfolding apply_with_edits
apply_with_edits_complete d version changes last v newer small few fits a =
    let (start, text) = begin-IsSession d (0 + total changes) v small in
    let (s, applied, last', shows) =
      apply_changes_complete (begin d (0 + total changes)) start text a in
    let limits : (ltb max_document_bytes (length d.text) || ltb max_changes (length changes))
        ≡ false =
      ground arith in
    let fresh = commit-new_document version s last' in
    let made = fresh ∙ ap (new_document d.uri d.language_id version) shows in
    let sum = total_text_lem changes 0 (omega arith) in
    (
      (commit version s).1,
      rw (newer, limits, sum, applied) (ap ok (λ i. (made i, (commit version s).1))),
    )

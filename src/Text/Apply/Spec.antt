-- ===== src/Text/Apply/Spec.antt =====
-- What a batch of changes does to a text, with no buffer and no line index.
use kotlsp.Prelude.{ℕ, ◌≤◌, ◌≡◌, List, [], ◌∷◌, none, some, Bytes, length}
use kotlsp.Std.Slice.{shown, IsValid}
use kotlsp.Text.Apply.{Change, Session, max_document_bytes}
use kotlsp.Text.Document.{Document, is_plain_text}
use kotlsp.Text.Position.{Range}
use kotlsp.Text.Strict.Spec.{IsOffset}
use kotlsp.Text.Table.Cut.{IsIndexed}
use kotlsp.Text.Table.Replace.{replaced}

-- One change takes `old` to `new`: it gives the whole text, or the text between two positions.
pub data Applies (old : Bytes) (c : Change) (new : Bytes) : Type 0 where
  whole : c.range ≡ none → new ≡ c.text → length new ≤ max_document_bytes → Applies old c new
  between :
      (r : Range) (a b : ℕ)
      → c.range ≡ some r
      → IsOffset old r.start a
      → IsOffset old r.end b
      → a ≤ b
      → new ≡ replaced old a b c.text
      → length new ≤ max_document_bytes
      → Applies old c new

-- The changes of a batch, each on the text that the one before it left.
pub data AppliesAll : Bytes → List Change → Bytes → Type 0 where
  done : {text : Bytes} → AppliesAll text [] text
  change :
      {old new last : Bytes} {c : Change} {cs : List Change}
      → Applies old c new
      → AppliesAll new cs last
      → AppliesAll old (c ∷ cs) last

-- What holds between two rounds of the loop, in an edit of `d`.
pub record IsSession (d : Document) (s : Session) : Type 0 where
  pub same_uri : s.updated.uri ≡ d.uri
  pub same_language : s.updated.language_id ≡ d.language_id
  pub valid : IsValid s.content
  pub indexed : IsIndexed (shown s.content) s.updated
  pub bounded : s.content.len ≤ max_document_bytes

-- What holds of a document between two notifications.
pub record IsDocument (d : Document) : Type 0 where
  pub indexed : IsIndexed d.text d
  pub plainness : d.plain ≡ is_plain_text d.text

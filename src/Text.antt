-- ===== src/Text.antt =====
-- internal/text/document.go: an open document, its line index, and the edits that a client sends.
pub mod Document
pub mod Lookup
pub mod Position
pub mod Edit
pub mod Apply
pub mod Splice
pub mod Strict
pub mod Points
pub mod Plain
pub mod Offsets
pub mod Table

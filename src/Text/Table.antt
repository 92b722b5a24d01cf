-- ===== src/Text/Table.antt =====
-- What the line index of internal/text/document.go stands for: lines as pieces of the content.
pub mod Count
pub mod Ascending
pub mod Entries
pub mod Lookup
pub mod Bounds
pub mod Pieces
pub mod Cut
pub mod Replace
pub mod Unique

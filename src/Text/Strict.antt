-- ===== src/Text/Strict.antt =====
-- `strictOffsetBytes` against a description of what a client position names.
pub mod Spec
pub mod Loop
pub mod Exact

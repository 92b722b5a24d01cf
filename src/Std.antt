-- ===== src/Std.antt =====
-- What the program uses of Go's standard library and of its built-in operations on slices.
pub mod Search
pub mod Utf8
pub mod Slice
pub mod Strings
pub mod Space
pub mod Unicode
pub mod Hex
pub mod Find
pub mod Prefix
pub mod Runes
pub mod Maps
pub mod Strconv
pub mod Decimal

-- ===== src/Lexical.antt =====
-- internal/lexical/scan.go: tokens of Kotlin and Java source that may be incomplete.
pub mod Scan
pub mod Tokenize
pub mod Widths
pub mod Ordered
pub mod Nesting
pub mod Matching
pub mod TopLevel
pub mod Split
pub mod Structure
pub mod Regions
use kotlsp.Prelude.{ℕ, Bytes}
pub use kotlsp.Std.Unicode.{Unicode}

-- `TokenKind`
pub data TokenKind : Type 0 where
  identifier : TokenKind
  number : TokenKind
  string : TokenKind
  character : TokenKind
  operator : TokenKind
  delimiter : TokenKind

-- `Token`
pub record Token : Type 0 where
  pub start : ℕ
  pub end : ℕ
  pub kind : TokenKind
  pub text : Bytes

-- ===== src/ClassFile.antt =====
-- internal/classfile/classfile.go: the reader of Java class files.
pub mod Identifier
pub mod Descriptor
pub mod ModifiedUtf8
pub mod Reader
pub mod Constants
pub mod Class
pub mod Signature
pub mod Annotations
pub mod Rows
pub mod Fields
pub mod Methods
pub mod Modules
pub mod Attributes
pub mod Parse
pub mod Modifiers
pub mod Nesting
pub mod Members
pub mod Render
pub mod Generics
pub mod Occurrence
pub mod Declarations

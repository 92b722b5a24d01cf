-- ===== src/ClassFile/Class.antt =====
-- internal/classfile/classfile.go: the data that `Parse` makes of a class file. The tables of
-- annotations stand in Annotations/Attached, the metadata in Annotations/Metadata.
use kotlsp.Prelude.{ℕ, ◌/◌, ◌%◌, Bool, List, Option, Bytes, ◌==◌}
use kotlsp.ClassFile.Annotations.Attached.{TypeAnnotation}
use kotlsp.ClassFile.Annotations.Metadata.{KotlinMetadata}
use kotlsp.Std.Maps.{SliceMap}

-- The bits of an access word.
abbrev pub acc_public : ℕ
acc_public = 0x0001

abbrev pub acc_private : ℕ
acc_private = 0x0002

abbrev pub acc_protected : ℕ
acc_protected = 0x0004

abbrev pub acc_static : ℕ
acc_static = 0x0008

abbrev pub acc_final : ℕ
acc_final = 0x0010

abbrev pub acc_synchronized : ℕ
acc_synchronized = 0x0020

abbrev pub acc_volatile : ℕ
acc_volatile = 0x0040

abbrev pub acc_transient : ℕ
acc_transient = 0x0080

abbrev pub acc_native : ℕ
acc_native = 0x0100

abbrev pub acc_interface : ℕ
acc_interface = 0x0200

abbrev pub acc_abstract : ℕ
acc_abstract = 0x0400

abbrev pub acc_strict : ℕ
acc_strict = 0x0800

abbrev pub acc_synthetic : ℕ
acc_synthetic = 0x1000

abbrev pub acc_annotation : ℕ
acc_annotation = 0x2000

abbrev pub acc_enum : ℕ
acc_enum = 0x4000

abbrev pub acc_bridge : ℕ
acc_bridge = 0x0040

-- `access & bit != 0`
unfoldable pub has : ℕ → ℕ → Bool
has access bit = access / bit % 2 == 1

-- `ModuleRequirement`
pub record ModuleRequirement : Type 0 where
  pub name : Bytes
  pub transitive : Bool
  pub static : Bool

-- `ModuleExport`; its package is `exported`.
pub record ModuleExport : Type 0 where
  pub exported : Bytes
  pub targets : List Bytes

-- `ModuleDescriptor`
pub record ModuleDescriptor : Type 0 where
  pub name : Bytes
  pub is_open : Bool
  pub requires : List ModuleRequirement
  pub exports : List ModuleExport
  pub opens : List ModuleExport
  pub uses : List Bytes
  pub provides : SliceMap

-- `RecordComponent`
pub record RecordComponent : Type 0 where
  pub name : Bytes
  pub descriptor : Bytes
  pub signature : Bytes
  pub annotations : List Bytes
  pub type_annotations : List TypeAnnotation

-- `InnerClass`
pub record InnerClass : Type 0 where
  pub internal_name : Bytes
  pub outer_name : Bytes
  pub simple_name : Bytes
  pub access : ℕ

-- `Field`; its type is `typ`.
pub record Field : Type 0 where
  pub name : Bytes
  pub descriptor : Bytes
  pub signature : Bytes
  pub typ : Bytes
  pub access : ℕ
  pub deprecated : Bool
  pub constant_value : Bytes
  pub annotations : List Bytes
  pub type_annotations : List TypeAnnotation

-- `Method`
pub record Method : Type 0 where
  pub name : Bytes
  pub descriptor : Bytes
  pub signature : Bytes
  pub parameter_types : List Bytes
  pub result_type : Bytes
  pub access : ℕ
  pub deprecated : Bool
  pub parameter_names : List Bytes
  pub exceptions : List Bytes
  pub default_value : Bytes
  pub annotations : List Bytes
  pub parameter_annotations : List (List Bytes)
  pub type_annotations : List TypeAnnotation
  pub line_numbers : List ℕ

-- `localVariableName`
pub record LocalVariableName : Type 0 where
  pub start_pc : ℕ
  pub slot : ℕ
  pub name : Bytes

-- `Class`; whether it is a record is `is_record`, and its module `module_of`.
pub record Class : Type 0 where
  pub internal_name : Bytes
  pub source_file : Bytes
  pub super_name : Bytes
  pub interfaces : List Bytes
  pub signature : Bytes
  pub access : ℕ
  pub deprecated : Bool
  pub is_record : Bool
  pub annotations : List Bytes
  pub type_annotations : List TypeAnnotation
  pub enclosing_class : Bytes
  pub nest_host : Bytes
  pub nest_members : List Bytes
  pub kotlin_metadata : Option KotlinMetadata
  pub components : List RecordComponent
  pub inner_classes : List InnerClass
  pub fields : List Field
  pub methods : List Method
  pub module_of : Option ModuleDescriptor

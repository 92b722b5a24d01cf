-- ===== src/ClassFile/Parse.antt =====
-- internal/classfile/classfile.go: `Parse`.
pub mod Sizes
use kotlsp.Prelude.{
  ℕ, Bool, true, false, not, List, [], ◌∷◌, ◌++◌, Option, none, some, Bytes, same, ◌==◌,
  if◌then◌else◌, Outcome, failed, ok,
}
use kotlsp.ClassFile.Attributes.{class_attribute}
use kotlsp.ClassFile.Class.{Class, Field, Method}
use kotlsp.ClassFile.Constants.{Constant, Pool, pool_of, unsupported, read_pool, utf8, class_name}
use kotlsp.ClassFile.Fields.{read_fields}
use kotlsp.ClassFile.Methods.{read_methods}
use kotlsp.ClassFile.Reader.{
  Reader, reader, Read, ◌>>=◌, ◌>>◌, pure, u2, u4, times, read_attributes,
}
use kotlsp.Std.Strconv.{Strconv}
use kotlsp.Std.Unicode.{Unicode}

-- The errors of `Parse`.
pub data ParseError : Type 0 where
  invalid_magic : ParseError
  unsupported_tag : ℕ → ParseError
  truncated : ParseError
  no_class_name : ParseError

module _ (u : Unicode) (f : Strconv) where
  -- The interfaces that a class names.
  unfoldable pub read_interfaces : List Constant → Read (List Bytes)
  read_interfaces pool = do
    count ← u2
    times count (λ interfaces. do i ← u2; pure (interfaces ++ (class_name pool i ∷ []))) []

  -- A class before its attributes are read.
  abbrev pub new_class : List Constant → ℕ → ℕ → ℕ → List Bytes → List Field → List Method → Class
  new_class pool access internal super interfaces fields methods = record {
    internal_name = class_name pool internal;
    source_file = [];
    super_name = class_name pool super;
    interfaces = interfaces;
    signature = [];
    access = access;
    deprecated = false;
    is_record = false;
    annotations = [];
    type_annotations = [];
    enclosing_class = [];
    nest_host = [];
    nest_members = [];
    kotlin_metadata = none;
    components = [];
    inner_classes = [];
    fields = fields;
    methods = methods;
    module_of = none;
  }

  -- What stands behind the constant pool.
  unfoldable pub read_class : List Constant → Read Class
  read_class pool = do
    access ← u2
    internal ← u2
    super ← u2
    interfaces ← read_interfaces pool
    fields ← read_fields u f pool
    methods ← read_methods u f pool
    read_attributes (utf8 pool) (class_attribute u f pool)
        (new_class pool access internal super interfaces fields methods)

  -- What `Parse` makes of the class that it has read.
  unfoldable pub finish_class : Class → Reader → Outcome ParseError Class
  finish_class class r =
      if r.failed
      then failed truncated
      else if same class.internal_name []
      then failed no_class_name
      else ok class

  -- What `Parse` does once it has read the constant pool.
  unfoldable pub with_pool : Pool → Reader → Outcome ParseError Class
  with_pool (unsupported tag) r = failed (unsupported_tag tag)
  with_pool (pool_of pool) r =
      let (class, r') = read_class pool r in
      if r.failed then failed truncated else finish_class class r'

  -- The two versions and the constant pool.
  unfoldable pub read_head : Read Pool
  read_head = do _ ← u2; _ ← u2; count ← u2; read_pool f count

  -- `Parse`
  unfoldable pub parse : Bytes → Outcome ParseError Class
  parse text =
      let (magic, r) = u4 (reader text) in
      let (pool, r') = read_head r in
      if magic == 0xcafebabe then with_pool pool r' else failed invalid_magic

-- ===== src/ClassFile/Attributes.antt =====
-- internal/classfile/classfile.go: the attributes of a class that `Parse` reads.
use kotlsp.Prelude.{
  true, ◌||◌, List, [], ◌∷◌, ◌++◌, map, Option, none, some, Bytes, codes, same, if◌then◌else◌,
}
use kotlsp.ClassFile.Annotations.{parse_annotations}
use kotlsp.ClassFile.Annotations.Attached.{parse_type_annotations}
use kotlsp.ClassFile.Annotations.Metadata.{parse_kotlin_metadata}
use kotlsp.ClassFile.Class.{RecordComponent, InnerClass, Class}
use kotlsp.ClassFile.Constants.{Constant, utf8, class_name}
use kotlsp.ClassFile.Fields.{is_annotations, is_type_annotations}
use kotlsp.ClassFile.Modules.{read_module}
use kotlsp.ClassFile.Reader.{reader, Read, ◌>>=◌, ◌>>◌, pure, fail, u2, times, read_attributes}
use kotlsp.ClassFile.Rows.{first_index, indexes}
use kotlsp.Std.Strconv.{Strconv}
use kotlsp.Std.Unicode.{Unicode}

-- A payload with a reader of its own, whose error becomes the error of the class.
unfoldable pub nested_payload {ℓ} : {A : Type ℓ} → Read A → Bytes → (A → Class) → Read Class
nested_payload read payload update =
    let done = read (reader payload) in
    if done.1.failed then fail >> pure (update done.0) else pure (update done.0)

abbrev pub or_else {ℓ} : {A : Type ℓ} → Option A → Option A → Option A
or_else none other = other
or_else (some a) other = some a

module _ (u : Unicode) (f : Strconv) (pool : List Constant) where
  -- The visitor of the attributes of a record component.
  unfoldable pub component_attribute : Bytes → Bytes → RecordComponent → RecordComponent
  component_attribute name payload component =
      if same name (codes "Signature")
      then elim (first_index payload) [
        | none ↦ component
        | some i ↦ record component { signature = utf8 pool i }
      ]
      else if is_annotations name
      then record component {
        annotations = component.annotations ++ parse_annotations u f pool payload;
      }
      else if is_type_annotations name
      then record component {
        type_annotations = component.type_annotations ++ parse_type_annotations u f pool payload;
      }
      else component

  -- The components of `Record`.
  unfoldable pub read_components : Read (List RecordComponent)
  read_components = do
    count ← u2
    times count
        (λ components. do
          name ← u2
          descriptor ← u2
          component ←
              read_attributes (utf8 pool)
                (λ name payload c. pure (component_attribute name payload c))
                (record {
                  name = utf8 pool name;
                  descriptor = utf8 pool descriptor;
                  signature = [];
                  annotations = [];
                  type_annotations = [];
                })
          pure (components ++ (component ∷ [])))
        []

  abbrev append_inner : InnerClass → List InnerClass → List InnerClass
  append_inner entry entries =
      if same entry.internal_name [] || same entry.simple_name []
      then entries
      else entries ++ (entry ∷ [])

  -- The entries of `InnerClasses`.
  unfoldable pub read_inner_classes : List InnerClass → Read (List InnerClass)
  read_inner_classes known = do
    count ← u2
    times count
        (λ entries. do
          internal ← u2
          outer ← u2
          simple ← u2
          access ← u2
          pure (
              append_inner
                (record {
                  internal_name = class_name pool internal;
                  outer_name = class_name pool outer;
                  simple_name = utf8 pool simple;
                  access = access;
                })
                entries))
        known

  -- `Module`; a module without a name is left out.
  unfoldable pub read_module_attribute : Bytes → Class → Read Class
  read_module_attribute payload class =
      let done = read_module pool (reader payload) in
      if done.1.failed
      then fail >> pure class
      else pure (if same done.0.name [] then class else record class { module_of = some done.0 })

  -- The annotations of the class, and the metadata if there are none yet.
  unfoldable pub class_annotations : Bytes → Class → Class
  class_annotations payload class = record class {
    annotations = class.annotations ++ parse_annotations u f pool payload;
    kotlin_metadata = or_else class.kotlin_metadata (parse_kotlin_metadata pool u payload);
  }

  -- What the visitor makes of an attribute that has no reader of its own.
  unfoldable pub simple_attribute : Bytes → Bytes → Class → Class
  simple_attribute name payload class =
      if same name (codes "Deprecated")
      then record class { deprecated = true }
      else if same name (codes "Signature")
      then elim (first_index payload) [
        | none ↦ class
        | some i ↦ record class { signature = utf8 pool i }
      ]
      else if same name (codes "SourceFile")
      then elim (first_index payload) [
        | none ↦ class
        | some i ↦ record class { source_file = utf8 pool i }
      ]
      else if is_annotations name
      then class_annotations payload class
      else if is_type_annotations name
      then record class {
        type_annotations = class.type_annotations ++ parse_type_annotations u f pool payload;
      }
      else if same name (codes "EnclosingMethod")
      then elim (first_index payload) [
        | none ↦ class
        | some i ↦ record class { enclosing_class = class_name pool i }
      ]
      else if same name (codes "NestHost")
      then elim (first_index payload) [
        | none ↦ class
        | some i ↦ record class { nest_host = class_name pool i }
      ]
      else if same name (codes "NestMembers")
      then record class {
        nest_members = class.nest_members ++ map (class_name pool) (indexes payload);
      }
      else class

  -- The visitor of the attributes of a class.
  unfoldable pub class_attribute : Bytes → Bytes → Class → Read Class
  class_attribute name payload class =
      if same name (codes "Record")
      then nested_payload read_components payload
          (λ cs. record class { is_record = true; components = cs })
      else if same name (codes "InnerClasses")
      then nested_payload (read_inner_classes class.inner_classes) payload
          (λ es. record class { inner_classes = es })
      else if same name (codes "Module")
      then read_module_attribute payload class
      else pure (simple_attribute name payload class)

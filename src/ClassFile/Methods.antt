-- ===== src/ClassFile/Methods.antt =====
-- internal/classfile/classfile.go: the methods that `Parse` reads, and the names that
-- `recoverParameterNames` finds for their parameters.
pub mod Names
use kotlsp.Prelude.{
  ℕ, zero, suc, ◌+◌, ◌*◌, ◌-◌, ◌^◌, Bool, true, false, not, ◌&&◌, ◌||◌, List, [], ◌∷◌, ◌++◌, map,
  Option, none, some, Bytes, codes, same, ltb, ◌==◌, if◌then◌else◌, length, take, replicate,
}
use kotlsp.ClassFile.Annotations.{parse_annotations, parse_annotation_value}
use kotlsp.ClassFile.Annotations.Attached.{
  parse_type_annotations, parse_parameter_annotations, merge_parameter_annotations,
}
use kotlsp.ClassFile.Class.{Method, LocalVariableName, acc_static, has}
use kotlsp.ClassFile.Constants.{Constant, utf8, class_name}
use kotlsp.ClassFile.Descriptor.{MethodDescriptor, parse_method_descriptor, method_parameter_slots}
use kotlsp.ClassFile.Fields.{is_annotations, is_type_annotations}
use kotlsp.ClassFile.Reader.{
  Reader, reader, Read, ◌>>=◌, ◌>>◌, pure, fail, u2, u4, skip, times, read_attributes,
}
use kotlsp.ClassFile.Rows.{first_index, indexes, parameters, line_numbers, local_names}
use kotlsp.ClassFile.Signature.Members.{MethodSignature, parse_method_signature}
use kotlsp.Std.Strconv.{Strconv}
use kotlsp.Std.Unicode.{Unicode}

-- The loop over the local variables: the name that starts first in a slot, and its start.
unfoldable pub best_local : ℕ → List LocalVariableName → Bytes → ℕ → Bytes
best_local slot [] name start = name
best_local slot (v ∷ vs) name start =
    elim (v.slot == slot
      && not (same v.name [])
      && not (same v.name (codes "this"))
      && ltb v.start_pc start) [
        | true ↦ best_local slot vs v.name v.start_pc
        | false ↦ best_local slot vs name start
      ]

-- The loop over the slots of the parameters; the largest `int` is no start.
unfoldable pub name_slots : List LocalVariableName → List Bytes → List ℕ → List Bytes
name_slots locals [] slots = []
name_slots locals (n ∷ ns) [] = n ∷ ns
name_slots locals (n ∷ ns) (slot ∷ slots) =
    (if same n [] then best_local slot locals [] (2 ^ 63 - 1) else n) ∷ name_slots locals ns slots

-- Names for as many parameters, the ones that are missing empty.
unfoldable pub fit_names : ℕ → List Bytes → List Bytes
fit_names count names = take count names ++ replicate (count - length names) []

-- `recoverParameterNames`
unfoldable pub recover_parameter_names : Method → List LocalVariableName → List Bytes
recover_parameter_names method [] = fit_names (length method.parameter_types) method.parameter_names
recover_parameter_names method (v ∷ vs) =
    name_slots (v ∷ vs) (fit_names (length method.parameter_types) method.parameter_names)
      (method_parameter_slots method.descriptor (has method.access acc_static))

-- What the visitors of a method's attributes update.
pub record MethodState : Type 0 where
  pub method : Method
  pub locals : List LocalVariableName

module _ (u : Unicode) (f : Strconv) (pool : List Constant) where
  -- The visitor of the attributes of `Code`.
  unfoldable pub code_attribute : Bytes → Bytes → MethodState → MethodState
  code_attribute name payload state =
      if same name (codes "LineNumberTable")
      then record state {
        method = record state.method {
          line_numbers = state.method.line_numbers ++ line_numbers payload;
        };
      }
      else if same name (codes "LocalVariableTable")
      then record state { locals = state.locals ++ local_names (utf8 pool) payload }
      else state

  -- What the reader of `Code` reads.
  unfoldable pub code_body : MethodState → Read MethodState
  code_body state = do
    skip 4
    size ← u4
    skip size
    handlers ← u2
    skip (handlers * 8)
    read_attributes (utf8 pool) (λ name payload state. pure (code_attribute name payload state))
        state

  -- The attribute `Code`, on a reader of its own, whose error becomes the error of the class.
  unfoldable pub read_code : Bytes → MethodState → Read MethodState
  read_code payload state =
      let done = code_body state (reader payload) in
      if done.1.failed then fail >> pure done.0 else pure done.0

  -- What the visitor makes of an attribute that is not `Code`.
  unfoldable pub method_attribute : Bytes → Bytes → Method → Method
  method_attribute name payload method =
      if same name (codes "Signature")
      then elim (first_index payload) [
        | none ↦ method
        | some i ↦ record method { signature = utf8 pool i }
      ]
      else if same name (codes "Deprecated")
      then record method { deprecated = true }
      else if same name (codes "MethodParameters")
      then record method {
        parameter_names = method.parameter_names ++ map (utf8 pool) (parameters payload);
      }
      else if same name (codes "Exceptions")
      then record method {
        exceptions = method.exceptions ++ map (class_name pool) (indexes payload);
      }
      else if same name (codes "AnnotationDefault")
      then record method { default_value = (parse_annotation_value u f pool (reader payload)).0 }
      else if is_annotations name
      then record method { annotations = method.annotations ++ parse_annotations u f pool payload }
      else if same name (codes "RuntimeVisibleParameterAnnotations")
          || same name (codes "RuntimeInvisibleParameterAnnotations")
      then record method {
        parameter_annotations =
            merge_parameter_annotations method.parameter_annotations
              (parse_parameter_annotations u f pool payload);
      }
      else if is_type_annotations name
      then record method {
        type_annotations = method.type_annotations ++ parse_type_annotations u f pool payload;
      }
      else method

  -- The visitor of a method's attributes.
  unfoldable pub visit_method : Bytes → Bytes → MethodState → Read MethodState
  visit_method name payload state =
      if same name (codes "Code")
      then read_code payload state
      else pure (record state { method = method_attribute name payload state.method })

  -- The types of the generic signature, if there are as many as in the descriptor.
  unfoldable pub with_signature : Method → Method
  with_signature method = elim (parse_method_signature method.signature) [
    | none ↦ method
    | some generic ↦
        if length generic.parameters == length method.parameter_types
        then record method { parameter_types = generic.parameters; result_type = generic.result }
        else method
  ]

  -- What happens to a method once its attributes are read.
  unfoldable pub finish_method : MethodState → Method
  finish_method state =
      let types = parse_method_descriptor u state.method.descriptor in
      let typed = record state.method {
        parameter_types = types.parameters;
        result_type = types.result;
      } in
      with_signature (record typed { parameter_names = recover_parameter_names typed state.locals })

  -- A method before its attributes are read.
  abbrev pub new_method : ℕ → ℕ → ℕ → MethodState
  new_method access name descriptor = record {
    method = record {
      name = utf8 pool name;
      descriptor = utf8 pool descriptor;
      signature = [];
      parameter_types = [];
      result_type = [];
      access = access;
      deprecated = false;
      parameter_names = [];
      exceptions = [];
      default_value = [];
      annotations = [];
      parameter_annotations = [];
      type_annotations = [];
      line_numbers = [];
    };
    locals = [];
  }

  -- A round of the loop over the methods.
  unfoldable pub read_method : Read Method
  read_method = do
    access ← u2
    name ← u2
    descriptor ← u2
    state ← read_attributes (utf8 pool) visit_method (new_method access name descriptor)
    pure (finish_method state)

  unfoldable pub read_methods : Read (List Method)
  read_methods = do
    count ← u2
    times count (λ methods. do method ← read_method; pure (methods ++ (method ∷ []))) []

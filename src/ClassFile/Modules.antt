-- ===== src/ClassFile/Modules.antt =====
-- internal/classfile/classfile.go: the attribute `Module` of a module descriptor.
use kotlsp.Prelude.{ℕ, List, [], ◌∷◌, ◌++◌, Bytes}
use kotlsp.ClassFile.Class.{ModuleRequirement, ModuleExport, ModuleDescriptor, has}
use kotlsp.ClassFile.Constants.{Constant, class_name, module_name, package_name}
use kotlsp.ClassFile.Reader.{Read, ◌>>=◌, pure, u2, times}
use kotlsp.Std.Maps.{SliceMap, append_at}
use kotlsp.Std.Strings.{replace_byte}

module _ (pool : List Constant) where
  -- A class name with dots.
  abbrev dotted : ℕ → Bytes
  dotted index = replace_byte (class_name pool index) b'/' b'.'

  unfoldable pub read_requires : Read (List ModuleRequirement)
  read_requires = do
    count ← u2
    times count
        (λ requires. do
          name ← u2
          flags ← u2
          _ ← u2
          pure (
              requires
              ++ (record {
                name = module_name pool name;
                transitive = has flags 0x0020;
                static = has flags 0x0040;
              }
                  ∷ [])))
        []

  -- `readExports`
  unfoldable pub read_exports : Read (List ModuleExport)
  read_exports = do
    count ← u2
    times count
        (λ values. do
          exported ← u2
          _ ← u2
          count ← u2
          targets ←
              times count (λ targets. do t ← u2; pure (targets ++ (module_name pool t ∷ []))) []
          pure (
              values ++ (record { exported = package_name pool exported; targets = targets } ∷ [])))
        []

  unfoldable pub read_uses : Read (List Bytes)
  read_uses = do count ← u2; times count (λ uses. do c ← u2; pure (uses ++ (dotted c ∷ []))) []

  unfoldable pub read_provides : Read SliceMap
  read_provides = do
    count ← u2
    times count
        (λ provides. do
          service ← u2
          count ← u2
          times count (λ provides. do c ← u2; pure (append_at (dotted service) (dotted c) provides))
              provides)
        []

  unfoldable pub read_module : Read ModuleDescriptor
  read_module = do
    name ← u2
    flags ← u2
    _ ← u2
    requires ← read_requires
    exports ← read_exports
    opens ← read_exports
    uses ← read_uses
    provides ← read_provides
    pure (record {
      name = module_name pool name;
      is_open = has flags 0x0020;
      requires = requires;
      exports = exports;
      opens = opens;
      uses = uses;
      provides = provides;
    })

-- ===== src/ClassFile/Parse/Sizes.antt =====
-- internal/classfile/classfile.go: a class file that is accepted is as long as what it declares.
use kotlsp.Prelude.{
  ℕ, ◌+◌, ◌*◌, ◌≤◌, ◌≡◌, refl, sym, ap, ◌∙◌, Bool, true, false, List, [], some, Bytes, codes, same,
  ◌==◌, if◌then◌else◌, length, arith, Bool-cases, inl, inr, subst, failed, ok,
}
use kotlsp.ClassFile.Attributes.{
  nested_payload, read_components, read_inner_classes, read_module_attribute, class_annotations,
  simple_attribute, class_attribute,
}
use kotlsp.ClassFile.Class.{Class, InnerClass, RecordComponent}
use kotlsp.ClassFile.Constants.{Constant, Pool, pool_of, unsupported, utf8, class_name}
use kotlsp.ClassFile.Constants.Reads.{read_pool-Pays}
use kotlsp.ClassFile.Fields.{field_attribute, new_field, with_type, read_field, read_fields}
use kotlsp.ClassFile.Methods.{
  MethodState, new_method, finish_method, method_attribute, code_body, read_code, visit_method,
  read_method, read_methods,
}
use kotlsp.ClassFile.Modules.{read_module}
use kotlsp.ClassFile.Parse.{
  invalid_magic, truncated, no_class_name, new_class, read_interfaces, read_class, finish_class,
  with_pool, read_head, parse,
}
use kotlsp.ClassFile.Reader.{Reader, reader, Read, ◌>>=◌, ◌>>◌, pure, fail, u2, u4}
use kotlsp.ClassFile.Reader.Pays.{
  Pays, bind-Pays, pure-Pays, number-Pays, read_attributes-Pays, if-Pays, fail-Pays, list-Pays,
}
use kotlsp.Std.Strconv.{Strconv}
use kotlsp.Std.Unicode.{Unicode}

module _ (u : Unicode) (f : Strconv) (pool : List Constant) where
  read_interfaces-Pays :
      (budget : ℕ) → Pays budget (read_interfaces u f pool) (λ is. budget + 2 + 2 * length is)
  unfolding read_interfaces
  read_interfaces-Pays budget = bind-Pays u2 _ (number-Pays 2 budget) (λ count.
      list-Pays 2 (u2 >>= λ i. pure (class_name pool i))
        (λ b.
          bind-Pays u2 _ (number-Pays 2 b)
            (λ i. pure-Pays (class_name pool i) (b + 2) (λ _. b + 2) (omega arith)))
        count (budget + 2))

  read_field-Pays : (budget : ℕ) → Pays budget (read_field u f pool) (λ _. budget + 8)
  unfolding read_field
  read_field-Pays budget = bind-Pays u2 _ (number-Pays 2 budget) (λ access.
      bind-Pays u2 _ (number-Pays 2 (budget + 2)) (λ name.
        bind-Pays u2 _ (number-Pays 2 (budget + 2 + 2)) (λ descriptor.
          bind-Pays _ _
            (read_attributes-Pays (utf8 pool) _ (λ _. budget + 8)
              (λ name payload s.
                pure-Pays (field_attribute u f pool name payload s) (budget + 8) (λ _. budget + 8)
                  (omega arith))
              (new_field u f pool access name descriptor) (budget + 2 + 2 + 2) (omega arith))
            (λ field.
              pure-Pays (with_type u f pool field) (budget + 8) (λ _. budget + 8) (omega arith)))))

  read_fields-Pays :
      (budget : ℕ) → Pays budget (read_fields u f pool) (λ fs. budget + 2 + 8 * length fs)
  unfolding read_fields
  read_fields-Pays budget =
      bind-Pays u2 _ (number-Pays 2 budget)
        (λ count. list-Pays 8 (read_field u f pool) read_field-Pays count (budget + 2))

  visit_method-Pays :
      (budget : ℕ) (name payload : Bytes) (s : MethodState)
      → Pays budget (visit_method u f pool name payload s) (λ _. budget)
  unfolding visit_method read_code
  visit_method-Pays budget name payload s =
      let done = code_body u f pool s (reader payload) in
      let other = record s { method = method_attribute u f pool name payload s.method } in
      if-Pays (same name (codes "Code")) (read_code u f pool payload s) (pure other)
        (if-Pays done.1.failed (fail >> pure done.0) (pure done.0)
          (fail-Pays done.0 budget (λ _. budget))
          (pure-Pays done.0 budget (λ _. budget) (omega arith)))
        (pure-Pays other budget (λ _. budget) (omega arith))

  read_method-Pays : (budget : ℕ) → Pays budget (read_method u f pool) (λ _. budget + 8)
  unfolding read_method
  read_method-Pays budget = bind-Pays u2 _ (number-Pays 2 budget) (λ access.
      bind-Pays u2 _ (number-Pays 2 (budget + 2)) (λ name.
        bind-Pays u2 _ (number-Pays 2 (budget + 2 + 2)) (λ descriptor.
          bind-Pays _ _
            (read_attributes-Pays (utf8 pool) (visit_method u f pool) (λ _. budget + 8)
              (visit_method-Pays (budget + 8)) (new_method u f pool access name descriptor)
              (budget + 2 + 2 + 2) (omega arith))
            (λ state.
              pure-Pays (finish_method u f pool state) (budget + 8) (λ _. budget + 8)
                (omega arith)))))

  read_methods-Pays :
      (budget : ℕ) → Pays budget (read_methods u f pool) (λ ms. budget + 2 + 8 * length ms)
  unfolding read_methods
  read_methods-Pays budget =
      bind-Pays u2 _ (number-Pays 2 budget)
        (λ count. list-Pays 8 (read_method u f pool) read_method-Pays count (budget + 2))

-- What the members of a class take in the file at least.
abbrev pub member_bytes : Class → ℕ
member_bytes class =
    2 * length class.interfaces + 8 * length class.fields + 8 * length class.methods

module _ (u : Unicode) (f : Strconv) (pool : List Constant) where
  simple_attribute_keeps :
      (name payload : Bytes) (c : Class)
      → member_bytes (simple_attribute u f pool name payload c) ≡ member_bytes c
  unfolding simple_attribute class_annotations
  simple_attribute_keeps name payload c = ground arith

  nested_payload-Pays :
      {A : Type 0} (read : Read A) (payload : Bytes) (c : Class) (update : A → Class)
      → ((a : A) → member_bytes (update a) ≡ member_bytes c)
      → Pays (member_bytes c) (nested_payload read payload update) member_bytes
  unfolding nested_payload
  nested_payload-Pays read payload c update e =
      let done = read (reader payload) in
      if-Pays done.1.failed (fail >> pure (update done.0)) (pure (update done.0))
        (fail-Pays (update done.0) (member_bytes c) member_bytes)
        (pure-Pays (update done.0) (member_bytes c) member_bytes (omega (arith, e done.0)))

  module-Pays :
      (payload : Bytes) (c : Class)
      → Pays (member_bytes c) (read_module_attribute u f pool payload c) member_bytes
  unfolding read_module_attribute
  module-Pays payload c =
      let done = read_module pool (reader payload) in
      let after = if same done.0.name [] then c else record c { module_of = some done.0 } in
      if-Pays done.1.failed (fail >> pure c) (pure after)
        (fail-Pays c (member_bytes c) member_bytes)
        (pure-Pays after (member_bytes c) member_bytes (ground arith))

  class_attribute-Pays :
      (name payload : Bytes) (c : Class)
      → Pays (member_bytes c) (class_attribute u f pool name payload c) member_bytes
  unfolding class_attribute nested_payload read_module_attribute
  class_attribute-Pays name payload c =
      let components : List RecordComponent → Class =
        λ cs. record c { is_record = true; components = cs } in
      let inner_classes : List InnerClass → Class = λ es. record c { inner_classes = es } in
      if-Pays (same name (codes "Record")) _ _
        (nested_payload-Pays (read_components u f pool) payload c components (λ a. refl))
        (if-Pays (same name (codes "InnerClasses")) _ _
          (nested_payload-Pays (read_inner_classes u f pool c.inner_classes) payload c inner_classes
            (λ a. refl))
          (if-Pays (same name (codes "Module")) (read_module_attribute u f pool payload c)
            (pure (simple_attribute u f pool name payload c)) (module-Pays payload c)
            (pure-Pays (simple_attribute u f pool name payload c) (member_bytes c) member_bytes
              (omega (arith, simple_attribute_keeps name payload c)))))

  class_attribute_more :
      (more : ℕ) (name payload : Bytes) (c : Class)
      → Pays
          (more + member_bytes c)
          (class_attribute u f pool name payload c)
          (λ c. more + member_bytes c)
  class_attribute_more more name payload c =
      let p = class_attribute-Pays name payload c in
      record { before = p.before; paid = λ r h. omega (arith, p.paid r h) }

  read_class-Pays :
      (budget : ℕ) → Pays budget (read_class u f pool) (λ c. budget + 14 + member_bytes c)
  unfolding read_class
  read_class-Pays budget = bind-Pays u2 _ (number-Pays 2 budget) (λ access.
      bind-Pays u2 _ (number-Pays 2 (budget + 2)) (λ internal.
        bind-Pays u2 _ (number-Pays 2 (budget + 2 + 2)) (λ super.
          bind-Pays (read_interfaces u f pool) _
            (read_interfaces-Pays u f pool (budget + 2 + 2 + 2))
            (λ interfaces.
              bind-Pays (read_fields u f pool) _
                (read_fields-Pays u f pool (budget + 2 + 2 + 2 + 2 + 2 * length interfaces))
                (λ fields.
                  bind-Pays (read_methods u f pool) _
                    (read_methods-Pays u f pool
                      (budget + 2 + 2 + 2 + 2 + 2 * length interfaces + 2 + 8 * length fields))
                    (λ methods.
                      read_attributes-Pays (utf8 pool) (class_attribute u f pool)
                        (λ c. budget + 14 + member_bytes c)
                        (λ name payload c. class_attribute_more (budget + 14) name payload c)
                        (new_class u f pool access internal super interfaces fields methods)
                        (budget
                          + 2
                          + 2
                          + 2
                          + 2
                          + 2 * length interfaces
                          + 2
                          + 8 * length fields
                          + 2
                          + 8 * length methods)
                        (omega arith)))))))

if_false {ℓ} :
    {A : Type ℓ} {test : Bool} {y : A} → test ≡ false → (x : A) → (if test then x else y) ≡ y
if_false q x = rw (q) refl

module _ (u : Unicode) (f : Strconv) where
  read_head-Pays : (budget : ℕ) → Pays budget (read_head u f) (λ _. budget + 2 + 2 + 2)
  unfolding read_head
  read_head-Pays budget = bind-Pays u2 _ (number-Pays 2 budget) (λ _.
      bind-Pays u2 _ (number-Pays 2 (budget + 2)) (λ _.
        bind-Pays u2 _ (number-Pays 2 (budget + 2 + 2))
          (λ count. read_pool-Pays f count (budget + 2 + 2 + 2))))

  -- What a class that is accepted has passed.
  finish_class_ok :
      (class done : Class) (r : Reader)
      → finish_class u f class r ≡ ok done
      → (r.failed ≡ false) × ((class ≡ done) × (same done.internal_name [] ≡ false))
  unfolding finish_class
  finish_class_ok class done r h = elim (Bool-cases r.failed) [
    | inl q ↦ let e : failed truncated ≡ ok done = rw (q) at h in absurd (ground arith)
    | inr q ↦ elim (Bool-cases (same class.internal_name [])) [
      | inl n ↦ let e : failed no_class_name ≡ ok done = rw (q, n) at h in absurd (ground arith)
      | inr n ↦
          let e : ok class ≡ ok done = rw (q, n) at h in
          let k : class ≡ done = cc in (q, (k, subst (λ c. same c.internal_name [] ≡ false) k n))
    ]
  ]

  with_pool_ok :
      (pool : Pool) (r : Reader) (done : Class)
      → with_pool u f pool r ≡ ok done
      → (r.failed ≡ false)
        × ((same done.internal_name [] ≡ false) × (14 + member_bytes done ≤ length r.rest))
  unfolding with_pool
  with_pool_ok (unsupported tag) r done h = absurd (ground arith)
  with_pool_ok (pool_of pool) r done h =
      let read = read_class u f pool r in
      elim (Bool-cases r.failed) [
        | inl q ↦ let e : failed truncated ≡ ok done = rw (q) at h in absurd (ground arith)
        | inr q ↦
            let e : finish_class u f read.0 read.1 ≡ ok done =
              sym (if_false q (failed truncated)) ∙ h in
            let (k, (d, n)) = finish_class_ok read.0 done read.1 e in
            let l = (read_class-Pays u f pool 0).paid r k in
            let m = ap member_bytes d in (q, (n, omega (arith, l, m)))
      ]

  -- A class file that Parse accepts begins with the magic number, its class has a name, and it is as
  -- long as what it declares: 24 bytes, 2 for each interface and 8 for each field and each method.
  pub parse_ok :
      (text : Bytes) (class : Class)
      → parse u f text ≡ ok class
      → (((u4 (reader text)).0 == 0xcafebabe) ≡ true)
        × ((same class.internal_name [] ≡ false) × (24 + member_bytes class ≤ length text))
  unfolding parse
  parse_ok text class h =
      let magic = u4 (reader text) in
      let head = read_head u f magic.1 in
      elim (Bool-cases (magic.0 == 0xcafebabe)) [
        | inr q ↦ let e : failed invalid_magic ≡ ok class = rw (q) at h in absurd (ground arith)
        | inl q ↦
            let e : with_pool u f head.0 head.1 ≡ ok class = rw (q) at h in
            let (k, (n, l)) = with_pool_ok head.0 head.1 class e in
            let a = (read_head-Pays 0).paid magic.1 k in
            let b = (read_head-Pays 0).before magic.1 k in
            let c = (number-Pays 4 0).paid (reader text) b in (q, (n, omega (arith, l, a, c)))
      ]

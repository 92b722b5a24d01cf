-- ===== src/ClassFile/Annotations/Fuel.antt =====
-- internal/classfile/classfile.go: the values of an annotation nest no deeper than the bytes allow.
use kotlsp.Prelude.{
  ℕ, zero, suc, ◌+◌, ◌<◌, ◌≡◌, refl, sym, ap, ◌∙◌, Bool, List, [], ◌∷◌, ◌++◌, Bytes, codes, length,
  arith,
}
use kotlsp.ClassFile.Annotations.{
  named_value, spell_annotation, annotation_with, array_with, value_of_tag, annotation_value,
  parse_annotation_value, parse_annotation,
}
use kotlsp.ClassFile.Constants.{Constant, utf8}
use kotlsp.ClassFile.Descriptor.{descriptor_class_name}
use kotlsp.ClassFile.Reader.{Reader, Read, ◌>>=◌, pure, u1, u2, times}
use kotlsp.ClassFile.Reader.Shrinks.{
  Shrinks, Agrees, pure-Shrinks, same-Agrees, bind-Shrinks, bind-Agrees, times-Shrinks,
  times-Agrees, number-Shrinks, u1-Shrinks,
}
use kotlsp.Std.Strconv.{Strconv}
use kotlsp.Std.Strings.{join}
use kotlsp.Std.Unicode.{Unicode}

module _ (u : Unicode) (f : Strconv) (pool : List Constant) where
  -- A round of the loops over the values.
  abbrev pair_body : Read Bytes → List Bytes → Read (List Bytes)
  pair_body value values =
      u2 >>= λ name. value >>= λ v. pure (named_value u f pool (utf8 pool name) v values)

  abbrev array_body : Read Bytes → List Bytes → Read (List Bytes)
  array_body value values = value >>= λ v. pure (values ++ (v ∷ []))

  pair_body-Shrinks :
      (value : Read Bytes) → Shrinks value → (vs : List Bytes) → Shrinks (pair_body value vs)
  pair_body-Shrinks value p vs = bind-Shrinks u2 _ (number-Shrinks 2) (λ name.
      bind-Shrinks value _ p (λ v. pure-Shrinks (named_value u f pool (utf8 pool name) v vs)))

  array_body-Shrinks :
      (value : Read Bytes) → Shrinks value → (vs : List Bytes) → Shrinks (array_body value vs)
  array_body-Shrinks value p vs = bind-Shrinks value _ p (λ v. pure-Shrinks (vs ++ (v ∷ [])))

  pair_body-Agrees :
      (bound : ℕ) (value other : Read Bytes)
      → Shrinks value
      → Agrees bound value other
      → (vs : List Bytes) → Agrees bound (pair_body value vs) (pair_body other vs)
  pair_body-Agrees bound value other p q vs =
      bind-Agrees bound u2 u2 _ _ (number-Shrinks 2) (same-Agrees bound u2) (λ name.
        bind-Agrees bound value other _ _ p q
          (λ v. same-Agrees bound (pure (named_value u f pool (utf8 pool name) v vs))))

  array_body-Agrees :
      (bound : ℕ) (value other : Read Bytes)
      → Shrinks value
      → Agrees bound value other
      → (vs : List Bytes) → Agrees bound (array_body value vs) (array_body other vs)
  array_body-Agrees bound value other p q vs =
      bind-Agrees bound value other _ _ p q (λ v. same-Agrees bound (pure (vs ++ (v ∷ []))))

  annotation_with-Shrinks :
      (value : Read Bytes) → Shrinks value → Shrinks (annotation_with u f pool value)
  unfolding annotation_with
  annotation_with-Shrinks value p = bind-Shrinks u2 _ (number-Shrinks 2) (λ index.
      bind-Shrinks u2 _ (number-Shrinks 2) (λ pairs.
        bind-Shrinks (times pairs (pair_body value) []) _
          (times-Shrinks pairs (pair_body value) (pair_body-Shrinks value p) [])
          (λ values.
            pure-Shrinks (spell_annotation (descriptor_class_name u (utf8 pool index)) values))))

  annotation_with-Agrees :
      (bound : ℕ) (value other : Read Bytes)
      → Shrinks value
      → Agrees bound value other
      → Agrees bound (annotation_with u f pool value) (annotation_with u f pool other)
  unfolding annotation_with
  annotation_with-Agrees bound value other p q =
      bind-Agrees bound u2 u2 _ _ (number-Shrinks 2) (same-Agrees bound u2) (λ index.
        bind-Agrees bound u2 u2 _ _ (number-Shrinks 2) (same-Agrees bound u2) (λ pairs.
          bind-Agrees bound (times pairs (pair_body value) []) (times pairs (pair_body other) []) _
            _ (times-Shrinks pairs (pair_body value) (pair_body-Shrinks value p) [])
            (times-Agrees bound pairs (pair_body value) (pair_body other)
              (pair_body-Shrinks value p) (pair_body-Agrees bound value other p q) [])
            (λ values.
              same-Agrees bound
                (pure (spell_annotation (descriptor_class_name u (utf8 pool index)) values)))))

  array_with-Shrinks : (value : Read Bytes) → Shrinks value → Shrinks (array_with u f pool value)
  unfolding array_with
  array_with-Shrinks value p = bind-Shrinks u2 _ (number-Shrinks 2) (λ count.
      bind-Shrinks (times count (array_body value) []) _
        (times-Shrinks count (array_body value) (array_body-Shrinks value p) [])
        (λ values. pure-Shrinks (codes "{" ++ (join values (codes ", ") ++ codes "}"))))

  array_with-Agrees :
      (bound : ℕ) (value other : Read Bytes)
      → Shrinks value
      → Agrees bound value other
      → Agrees bound (array_with u f pool value) (array_with u f pool other)
  unfolding array_with
  array_with-Agrees bound value other p q =
      bind-Agrees bound u2 u2 _ _ (number-Shrinks 2) (same-Agrees bound u2) (λ count.
        bind-Agrees bound (times count (array_body value) []) (times count (array_body other) []) _
          _ (times-Shrinks count (array_body value) (array_body-Shrinks value p) [])
          (times-Agrees bound count (array_body value) (array_body other)
            (array_body-Shrinks value p) (array_body-Agrees bound value other p q) [])
          (λ values.
            same-Agrees bound (pure (codes "{" ++ (join values (codes ", ") ++ codes "}")))))

  value_of_tag-Agrees :
      (bound : ℕ) (value other : Read Bytes) (tag : ℕ)
      → Shrinks value
      → Agrees bound value other
      → Agrees bound (value_of_tag u f pool value tag) (value_of_tag u f pool other tag)
  unfolding value_of_tag
  value_of_tag-Agrees bound value other tag p q = record {
    agree = λ r l. simp (
      value_of_tag,
      (annotation_with-Agrees bound value other p q).agree r l,
      (array_with-Agrees bound value other p q).agree r l,
    );
  }

  value_of_tag-Shrinks :
      (value : Read Bytes) (tag : ℕ) → Shrinks value → Shrinks (value_of_tag u f pool value tag)
  unfolding value_of_tag
  value_of_tag-Shrinks value tag p = record {
    shorter = λ r. ground (
      arith,
      (annotation_with-Shrinks value p).shorter r,
      (array_with-Shrinks value p).shorter r,
      (number-Shrinks 2).shorter r,
      (number-Shrinks 2).shorter (u2 r).1,
    );
  }

  -- A value reads its tag, and then what the tag says.
  annotation_value_at :
      (fuel b : ℕ) (s : Bytes) (failed : Bool)
      → annotation_value u f pool (suc fuel) (record { rest = b ∷ s; failed = failed })
        ≡ value_of_tag u f pool
            (annotation_value u f pool fuel)
            b
            (record { rest = s; failed = failed })
  unfolding annotation_value u1
  annotation_value_at fuel b s failed = refl

  annotation_value-Shrinks : (fuel : ℕ) → Shrinks (annotation_value u f pool fuel)
  unfolding annotation_value
  annotation_value-Shrinks zero = pure-Shrinks []
  annotation_value-Shrinks (suc fuel) =
      bind-Shrinks u1 (λ tag. value_of_tag u f pool (annotation_value u f pool fuel) tag) u1-Shrinks
        (λ tag.
          value_of_tag-Shrinks (annotation_value u f pool fuel) tag (annotation_value-Shrinks fuel))

  -- At the end of the text there is no tag, and nothing more is read.
  annotation_value_end :
      (fuel other : ℕ) (failed : Bool)
      → annotation_value u f pool (suc fuel) (record { rest = []; failed = failed })
        ≡ annotation_value u f pool (suc other) (record { rest = []; failed = failed })
  unfolding annotation_value u1 value_of_tag
  annotation_value_end fuel other failed = refl

  enough_at :
      (fuel more : ℕ) (s : Bytes) (failed : Bool)
      → length s < fuel
      → annotation_value u f pool (fuel + more) (record { rest = s; failed = failed })
        ≡ annotation_value u f pool fuel (record { rest = s; failed = failed })
  enough_at zero more s failed l = absurd (omega arith)
  enough_at (suc fuel) more [] failed l =
      let n : suc fuel + more ≡ suc (fuel + more) = omega arith in
      ap (λ n. annotation_value u f pool n (record { rest = []; failed = failed })) n
      ∙ annotation_value_end (fuel + more) fuel failed
  enough_at (suc fuel) more (b ∷ s) failed l =
      let n : suc fuel + more ≡ suc (fuel + more) = omega arith in
      let deep = annotation_value u f pool (fuel + more) in
      let agrees : Agrees (length s) deep (annotation_value u f pool fuel) = record {
        agree = λ r k. enough_at fuel more r.rest r.failed (omega arith);
      } in
      let step =
        value_of_tag-Agrees (length s) deep (annotation_value u f pool fuel) b
          (annotation_value-Shrinks (fuel + more)) agrees in
      ap (λ n. annotation_value u f pool n (record { rest = b ∷ s; failed = failed })) n
      ∙ annotation_value_at (fuel + more) b s failed
      ∙ step.agree (record { rest = s; failed = failed }) (omega arith)
      ∙ sym (annotation_value_at fuel b s failed)

  -- A level of nesting for each byte that is left, and one, is enough to read an annotation or one of
  -- its values: with more fuel the same is read and returned.
  pub parse_annotation_enough :
      (more : ℕ) (r : Reader)
      → (annotation_value u f pool (suc (length r.rest) + more) r
          ≡ parse_annotation_value u f pool r)
        × (annotation_with u f pool (annotation_value u f pool (suc (length r.rest) + more)) r
            ≡ parse_annotation u f pool r)
  unfolding parse_annotation_value parse_annotation
  parse_annotation_enough more r =
      let fuel = suc (length r.rest) in
      let agrees : Agrees (length r.rest) (annotation_value u f pool (fuel + more))
          (annotation_value u f pool fuel) =
        record { agree = λ q l. enough_at fuel more q.rest q.failed (omega arith) } in
      (
        agrees.agree r (omega arith),
        (annotation_with-Agrees (length r.rest) (annotation_value u f pool (fuel + more))
              (annotation_value u f pool fuel) (annotation_value-Shrinks (fuel + more))
              agrees).agree
            r (omega arith),
      )

-- ===== src/ClassFile/Occurrence/First.antt =====
-- internal/classfile/classfile.go: which occurrence `findRenderedIdentifier` looks for.
use kotlsp.Prelude.{
  ℕ, zero, suc, ◌+◌, ◌-◌, ◌≤◌, ◌<◌, ◌≡◌, ◌↔◌, refl, sym, ap, subst, ◌∙◌, true, false, Option, none,
  some, Bytes, leb, ltb, leb→le, within, ◌==◌, length, take, drop, get_or, drop-drop, length-drop,
  arith, Bool-cases, Option-cases, inl, inr,
}
use kotlsp.ClassFile.Occurrence.{
  is_java_identifier_byte, stands_alone, find_loop, find_rendered_identifier,
}
use kotlsp.Std.Strings.{has_prefix, index, index-le, index-prefix}
use kotlsp.Std.Prefix.{
  has_prefix-take, take-has_prefix, prefix-get_or, get_or-drop, index-absent, index-earlier,
}

-- A byte of a Java identifier in ASCII: a letter, a digit, an underscore or a dollar sign.
pub data IsIdentifierByte : ℕ → Type 0 where
  upper : {b : ℕ} → 65 ≤ b → b ≤ 90 → IsIdentifierByte b
  lower : {b : ℕ} → 97 ≤ b → b ≤ 122 → IsIdentifierByte b
  digit : {b : ℕ} → 48 ≤ b → b ≤ 57 → IsIdentifierByte b
  underscore : IsIdentifierByte 95
  dollar : IsIdentifierByte 36

identifier_byte_holds : (b : ℕ) → IsIdentifierByte b → is_java_identifier_byte b ≡ true
unfolding is_java_identifier_byte
identifier_byte_holds b (upper l u) = ground arith
identifier_byte_holds b (lower l u) = ground arith
identifier_byte_holds b (digit l u) = ground arith
identifier_byte_holds _ underscore = refl
identifier_byte_holds _ dollar = refl

identifier_byte_found : (b : ℕ) → is_java_identifier_byte b ≡ true → IsIdentifierByte b
unfolding is_java_identifier_byte
identifier_byte_found b h = elim (Bool-cases (b == 95)) [
  | inl q ↦ let e : 95 ≡ b = ground arith in subst IsIdentifierByte e underscore
  | inr n ↦ elim (Bool-cases (b == 36)) [
    | inl q ↦ let e : 36 ≡ b = ground arith in subst IsIdentifierByte e dollar
    | inr m ↦ elim (Bool-cases (within 97 122 b)) [
      | inl q ↦ lower (ground arith) (ground arith)
      | inr l ↦ elim (Bool-cases (within 65 90 b)) [
        | inl q ↦ upper (ground arith) (ground arith)
        | inr u ↦ digit (ground arith) (ground arith)
      ]
    ]
  ]
]

-- A name that is not empty, of bytes of identifiers.
pub record IsIdentifier (name : Bytes) : Type 0 where
  pub some_byte : 1 ≤ length name
  pub bytes : (k : ℕ) → k < length name → IsIdentifierByte (get_or name k 0)

-- A name stands at an offset, and no byte of an identifier before or behind it.
pub record StandsAt (source name : Bytes) (at : ℕ) : Type 0 where
  pub inside : at + length name ≤ length source
  pub text : take (length name) (drop at source) ≡ name
  pub before : (k : ℕ) → at ≡ suc k → ¬ IsIdentifierByte (get_or source k 0)
  pub after :
      at + length name < length source → ¬ IsIdentifierByte (get_or source (at + length name) 0)

-- The place of the first such name from a start on.
pub record IsFirst (source name : Bytes) (start : ℕ) (place : ℕ × ℕ) : Type 0 where
  pub stands : StandsAt source name place.0
  pub behind : start ≤ place.0
  pub width : place.1 ≡ place.0 + length name
  pub first : (at : ℕ) → start ≤ at → at < place.0 → ¬ StandsAt source name at

abbrev Finds : Bytes → Bytes → ℕ → Option (ℕ × ℕ) → Type 0
Finds source name start none = (at : ℕ) → start ≤ at → ¬ StandsAt source name at
Finds source name start (some place) = IsFirst source name start place

alone-StandsAt :
    (source name : Bytes) (at : ℕ)
    → at + length name ≤ length source
    → has_prefix (drop at source) name ≡ true
    → stands_alone source at (at + length name) ≡ true
    → StandsAt source name at
unfolding stands_alone
alone-StandsAt source name at l p a = record {
  inside = l;
  text = has_prefix-take (drop at source) name p;
  before = λ k e b.
      let h = identifier_byte_holds (get_or source k 0) b in
      let n : at - 1 ≡ k = omega arith in
      let g : is_java_identifier_byte (get_or source (at - 1) 0) ≡ true =
        ap (λ n. is_java_identifier_byte (get_or source n 0)) n ∙ h in
      absurd (ground arith);
  after = λ m b.
      let h = identifier_byte_holds (get_or source (at + length name) 0) b in absurd (ground arith);
}

StandsAt-alone :
    (source name : Bytes) (at : ℕ)
    → StandsAt source name at
    → stands_alone source at (at + length name) ≡ true
unfolding stands_alone
StandsAt-alone source name zero s =
    elim (Bool-cases (is_java_identifier_byte (get_or source (zero + length name) 0))) [
      | inr q ↦ ground arith
      | inl q ↦ elim (Bool-cases (zero + length name == length source)) [
        | inl e ↦ ground arith
        | inr e ↦ let i = s.inside in absurd (s.after (ground arith) (identifier_byte_found _ q))
      ]
    ]
StandsAt-alone source name (suc k) s =
    elim (Bool-cases (is_java_identifier_byte (get_or source k 0))) [
      | inl q ↦ absurd (s.before k refl (identifier_byte_found _ q))
      | inr p ↦
          elim (Bool-cases (is_java_identifier_byte (get_or source (suc k + length name) 0))) [
            | inr q ↦ ground arith
            | inl q ↦ elim (Bool-cases (suc k + length name == length source)) [
              | inl e ↦ ground arith
              | inr e ↦
                  let i = s.inside in absurd (s.after (ground arith) (identifier_byte_found _ q))
            ]
          ]
    ]

-- Where an occurrence is, seen from the start of a search.
from_start :
    (source name : Bytes) (start at : ℕ)
    → start ≤ at
    → StandsAt source name at
    → has_prefix (drop (at - start) (drop start source)) name ≡ true
from_start source name start at l s =
    let n : start + (at - start) ≡ at = omega arith in
    ap (λ t. has_prefix t name) (drop-drop start (at - start) source ∙ ap (λ k. drop k source) n)
    ∙ take-has_prefix (drop at source) name s.text

module _ (source name : Bytes) (identifier : IsIdentifier name) where
  -- No occurrence that stands alone overlaps another one.
  overlap :
      (here at : ℕ)
      → has_prefix (drop here source) name ≡ true
      → here < at
      → at < here + length name
      → ¬ StandsAt source name at
  overlap here at p l u s =
      let k = at - here - 1 in
      let e : get_or source (at - 1) 0 ≡ get_or name k 0 =
        ap (λ n. get_or source n 0) (let n : at - 1 ≡ here + k = omega arith in n)
        ∙ sym (get_or-drop source here k)
        ∙ prefix-get_or (drop here source) name k p (omega arith) in
      s.before (at - 1) (omega arith)
        (subst IsIdentifierByte (sym e) (identifier.bytes k (omega arith)))

  -- Up to the end of an occurrence that does not stand alone no occurrence does.
  none_before :
      (start relative : ℕ)
      → index (drop start source) name ≡ some relative
      → stands_alone source (start + relative) (start + relative + length name) ≡ false
      → (at : ℕ) → start ≤ at
      → at < start + relative + length name
      → ¬ StandsAt source name at
  none_before start relative e a at l u s = elim (Bool-cases (ltb at (start + relative))) [
    | inl q ↦
        let p = from_start source name start at l s in
        let n = index-earlier (drop start source) name relative e (at - start) (ground arith) in cc
    | inr q ↦ elim (Bool-cases (at == start + relative)) [
      | inl h ↦
          let h' : at ≡ start + relative = ground arith in
          let t = StandsAt-alone source name at s in
          let t' : stands_alone source (start + relative) (start + relative + length name) ≡ true =
            subst (λ n. stands_alone source n (n + length name) ≡ true) h' t in
          cc
      | inr h ↦
          let p =
            ap (λ t. has_prefix t name) (sym (drop-drop start relative source))
            ∙ index-prefix (drop start source) name relative e in
          overlap (start + relative) at p (ground arith) u s
    ]
  ]

  skip-Finds :
      (start later : ℕ) (result : Option (ℕ × ℕ))
      → start ≤ later
      → ((at : ℕ) → start ≤ at → at < later → ¬ StandsAt source name at)
      → Finds source name later result
      → Finds source name start result
  skip-Finds start later none l n f = λ at k s. elim (Bool-cases (ltb at later)) [
    | inl q ↦ n at k (ground arith) s
    | inr q ↦ f at (ground arith) s
  ]
  skip-Finds start later (some place) l n f =
      let b = f.behind in
      record {
        stands = f.stands;
        behind = omega arith;
        width = f.width;
        first = λ at k u s. elim (Bool-cases (ltb at later)) [
          | inl q ↦ n at k (ground arith) s
          | inr q ↦ f.first at (ground arith) u s
        ];
      }

  find_loop-Finds :
      (fuel start : ℕ)
      → length source < fuel + start
      → Finds source name start (find_loop fuel source name start)
  unfolding find_loop
  find_loop-Finds zero start l = λ at k s. let i = s.inside in absurd (omega arith)
  find_loop-Finds (suc fuel) start l =
      elim (Bool-cases (leb (start + length name) (length source))) [
        | inr q ↦ simp (find_loop, q) (λ at k s. let i = s.inside in absurd (ground arith))
        | inl q ↦ elim (Option-cases (index (drop start source) name)) [
          | inl e ↦
              simp (find_loop, q, e)
                (λ at k s.
                  let p = from_start source name start at k s in
                  let n = index-absent (drop start source) name e (at - start) in absurd cc)
          | inr (relative, e) ↦
              let at : ℕ = start + relative in
              let w = identifier.some_byte in
              elim (Bool-cases
                (stands_alone source (start + relative) (start + relative + length name))) [
                  | inl a ↦
                      simp (find_loop, q, e, a)
                        (record {
                          stands =
                              alone-StandsAt source name (start + relative)
                                (omega (
                                  arith,
                                  index-le (drop start source) name relative e,
                                  length-drop start source,
                                  leb→le _ _ q,
                                ))
                                (ap (λ s. has_prefix s name) (sym (drop-drop start relative source))
                                  ∙ index-prefix (drop start source) name relative e)
                                a;
                          behind = omega arith;
                          width = refl;
                          first = λ at k u s.
                              let p = from_start source name start at k s in
                              let n =
                                index-earlier (drop start source) name relative e (at - start)
                                  (omega arith) in
                              absurd cc;
                        })
                  | inr a ↦
                      simp (find_loop, q, e, a)
                        (skip-Finds start (start + relative + length name) _ (omega arith)
                          (none_before start relative e a)
                          (find_loop-Finds fuel (start + relative + length name) (omega arith)))
                ]
        ]
      ]

  first_only :
      (start : ℕ) (x y : ℕ × ℕ) → IsFirst source name start x → IsFirst source name start y → x ≡ y
  first_only start x y a b = elim (Bool-cases (ltb x.0 y.0)) [
    | inl q ↦ absurd (b.first x.0 a.behind (ground arith) a.stands)
    | inr q ↦ elim (Bool-cases (ltb y.0 x.0)) [
      | inl r ↦ absurd (a.first y.0 b.behind (ground arith) b.stands)
      | inr r ↦
          let u = a.width in
          let v = b.width in
          let m : x.0 ≡ y.0 = ground arith in let n : x.1 ≡ y.1 = omega arith in λ i. (m i, n i)
    ]
  ]

-- For a name that is not empty and of ASCII letters, digits, underscores and dollar signs,
-- findRenderedIdentifier returns a place exactly where it is that of the first occurrence of the
-- name, at or behind the start, that no such byte stands before or behind.
pub find_rendered_identifier_iff :
    (source name : Bytes) (start : ℕ) (place : ℕ × ℕ)
    → IsIdentifier name
    → (find_rendered_identifier source name start ≡ some place) ↔ IsFirst source name start place
unfolding find_rendered_identifier
find_rendered_identifier_iff source name start place n =
    let found = find_rendered_identifier source name start in
    let f : Finds source name start found =
      find_loop-Finds source name n (suc (length source)) start (omega arith) in
    (
      λ e. subst (Finds source name start) e f,
      λ g. elim (Option-cases found) [
        | inl e ↦ absurd (subst (Finds source name start) e f place.0 g.behind g.stands)
        | inr (other, e) ↦
            e
            ∙ ap some
                (first_only source name n start other place (subst (Finds source name start) e f) g)
      ],
    )

-- ===== src/ClassFile/Reader/Pays.antt =====
-- internal/classfile/classfile.go: what the operations of `reader` read, and that an error stays.
use kotlsp.Prelude.{
  ℕ, zero, suc, ◌+◌, ◌≤◌, ◌≡◌, Bool, true, false, [], ◌∷◌, Option, none, some, Bytes, ltb,
  if◌then◌else◌, length, ◌*◌, ◌++◌, length-append, length-drop, arith, tests, Bool-cases, inl, inr,
}
use kotlsp.ClassFile.Reader.{
  Reader, Read, ◌>>=◌, ◌>>◌, pure, fail, u1, bytes, number, skip, u2, u4, times, visit_payload,
  read_attribute, read_attributes,
}

-- Where the reader has no error in the end, it has none before, and the bytes that are read pay for
-- the measure of the result: what is owed before is the budget.
pub record Pays {ℓ} {A : Type ℓ} (budget : ℕ) (m : Read A) (measure : A → ℕ) : Type ℓ where
  pub before : (r : Reader) → (m r).1.failed ≡ false → r.failed ≡ false
  pub paid :
      (r : Reader)
      → (m r).1.failed ≡ false
      → measure (m r).0 + length (m r).1.rest ≤ budget + length r.rest

module _ {ℓ ℓ'} {A : Type ℓ} {B : Type ℓ'} where
  pub bind-Pays :
      {budget : ℕ} (m : Read A) {middle : A → ℕ} (next : A → Read B) {measure : B → ℕ}
      → Pays budget m middle
      → ((a : A) → Pays (middle a) (next a) measure)
      → Pays budget (m >>= next) measure
  bind-Pays m next p q = record {
    before = λ r h. p.before r ((q (m r).0).before (m r).1 h);
    paid = λ r h.
        let k = (q (m r).0).before (m r).1 h in
        omega (arith, p.paid r k, (q (m r).0).paid (m r).1 h);
  }

module _ {ℓ} {A : Type ℓ} where
  pub pure-Pays :
      (a : A) (budget : ℕ) (measure : A → ℕ) → measure a ≤ budget → Pays budget (pure a) measure
  pure-Pays a budget measure l = record { before = λ r h. h; paid = λ r h. omega arith }

  -- A larger budget, and a smaller measure.
  pub within-Pays :
      {less budget : ℕ} (m : Read A) {high low : A → ℕ}
      → less ≤ budget
      → ((a : A) → low a ≤ high a)
      → Pays less m high
      → Pays budget m low
  within-Pays m b l p = record {
    before = p.before;
    paid = λ r h. omega (arith, b, l (m r).0, p.paid r h);
  }

abbrev at : Bytes → Bool → Reader
at s e = record { rest = s; failed = e }

u1_keeps : (s : Bytes) (e : Bool) → (u1 (at s e)).1.failed ≡ false → e ≡ false
unfolding u1
u1_keeps [] e h = absurd (ground arith)
u1_keeps (b ∷ s) e h = h

u1_pays :
    (s : Bytes) (e : Bool)
    → (u1 (at s e)).1.failed ≡ false
    → 1 + length (u1 (at s e)).1.rest ≤ length s
unfolding u1
u1_pays [] e h = absurd (ground arith)
u1_pays (b ∷ s) e h = omega arith

pub u1-Pays : (budget : ℕ) → Pays budget u1 (λ _. budget + 1)
u1-Pays budget = record {
  before = λ r. u1_keeps r.rest r.failed;
  paid = λ r h. omega (arith, u1_pays r.rest r.failed h);
}

bytes_keeps : (n : ℕ) (r : Reader) → (bytes n r).1.failed ≡ false → r.failed ≡ false
unfolding bytes
bytes_keeps n r h = elim (Bool-cases (ltb (length r.rest) n)) [
  | inl q ↦ let f : true ≡ false = rw (q) at h in absurd (ground arith)
  | inr q ↦ let f : r.failed ≡ false = rw (q) at h in f
]

bytes_pays :
    (n : ℕ) (r : Reader)
    → (bytes n r).1.failed ≡ false
    → n + length (bytes n r).1.rest ≤ length r.rest
unfolding bytes
bytes_pays n r h = elim (Bool-cases (ltb (length r.rest) n)) [
  | inl q ↦ let f : true ≡ false = rw (q) at h in absurd (ground arith)
  | inr q ↦ rw (q) (omega (tests, q, length-drop n r.rest))
]

pub bytes-Pays : (n budget : ℕ) → Pays budget (bytes n) (λ _. budget + n)
bytes-Pays n budget = record {
  before = bytes_keeps n;
  paid = λ r h. omega (arith, bytes_pays n r h);
}

pub number-Pays : (n budget : ℕ) → Pays budget (number n) (λ _. budget + n)
unfolding number
number-Pays n budget = let p = bytes-Pays n budget in record { before = p.before; paid = p.paid }

pub skip-Pays : (n budget : ℕ) → Pays budget (skip n) (λ _. budget + n)
skip-Pays n budget = let p = bytes-Pays n budget in record { before = p.before; paid = p.paid }

module _ {ℓ} {S : Type ℓ} where
  pub times-Pays :
      (n : ℕ) (body : S → Read S) (measure : S → ℕ)
      → ((s : S) → Pays (measure s) (body s) measure)
      → (s : S) → Pays (measure s) (times n body s) measure
  unfolding times
  times-Pays zero body measure p s = pure-Pays s (measure s) measure (omega arith)
  times-Pays (suc n) body measure p s =
      bind-Pays (body s) (times n body) (p s) (times-Pays n body measure p)

module _ {ℓ} {S : Type ℓ} (utf8 : ℕ → Bytes) (visit : Bytes → Bytes → S → Read S) (measure : S → ℕ)
    (p : (name payload : Bytes) (s : S) → Pays (measure s) (visit name payload s) measure) where
  visit_payload-Pays :
      (name : Bytes) (s : S) (payload : Option Bytes)
      → Pays (measure s) (visit_payload utf8 visit name s payload) measure
  visit_payload-Pays name s none = pure-Pays s (measure s) measure (omega arith)
  visit_payload-Pays name s (some payload) = p name payload s

  read_attribute-Pays : (s : S) → Pays (measure s) (read_attribute utf8 visit s) measure
  unfolding read_attribute
  read_attribute-Pays s = bind-Pays u2 _ (number-Pays 2 (measure s)) (λ name.
      bind-Pays u4 _ (number-Pays 4 (measure s + 2)) (λ size.
        bind-Pays (bytes size) (visit_payload utf8 visit (utf8 name) s)
          (bytes-Pays size (measure s + 2 + 4))
          (λ payload.
            within-Pays (visit_payload utf8 visit (utf8 name) s payload) (omega arith)
              (λ t. omega arith) (visit_payload-Pays (utf8 name) s payload))))

  -- The attributes read their count, whatever the visitor makes of each.
  pub read_attributes-Pays :
      (s : S) (budget : ℕ)
      → measure s ≤ budget + 2
      → Pays budget (read_attributes utf8 visit s) measure
  unfolding read_attributes
  read_attributes-Pays s budget l =
      bind-Pays u2 (λ count. times count (read_attribute utf8 visit) s) (number-Pays 2 budget)
        (λ count.
          within-Pays (times count (read_attribute utf8 visit) s) l (λ t. omega arith)
            (times-Pays count (read_attribute utf8 visit) measure read_attribute-Pays s))

module _ {ℓ} {A : Type ℓ} where
  pub if-Pays :
      (test : Bool) (m n : Read A) {budget : ℕ} {measure : A → ℕ}
      → Pays budget m measure
      → Pays budget n measure
      → Pays budget (if test then m else n) measure
  if-Pays true m n p q = p
  if-Pays false m n p q = q

  -- Where the reader has an error in the end, anything is paid for.
  pub fail-Pays : (a : A) (budget : ℕ) (measure : A → ℕ) → Pays budget (fail >> pure a) measure
  fail-Pays a budget measure = record {
    before = λ r h. absurd (ground arith);
    paid = λ r h. absurd (ground arith);
  }

  -- A list of as many elements as a count says.
  pub list-Pays :
      (cost : ℕ) (element : Read A)
      → ((budget : ℕ) → Pays budget element (λ _. budget + cost))
      → (count budget : ℕ)
      → Pays budget
          (times count (λ xs. element >>= λ x. pure (xs ++ (x ∷ []))) [])
          (λ xs. budget + cost * length xs)
  list-Pays cost element p count budget =
      within-Pays (times count (λ xs. element >>= λ x. pure (xs ++ (x ∷ []))) []) (omega arith)
        (λ xs. omega arith)
        (times-Pays count (λ xs. element >>= λ x. pure (xs ++ (x ∷ [])))
          (λ xs. budget + cost * length xs)
          (λ xs.
            bind-Pays element (λ x. pure (xs ++ (x ∷ []))) (p (budget + cost * length xs))
              (λ x.
                pure-Pays (xs ++ (x ∷ [])) (budget + cost * length xs + cost)
                  (λ xs. budget + cost * length xs) (rw (length-append xs (x ∷ [])) (omega arith))))
          [])

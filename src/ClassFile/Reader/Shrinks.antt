-- ===== src/ClassFile/Reader/Shrinks.antt =====
-- internal/classfile/classfile.go: reading never makes the rest of the text longer, and two ways of
-- reading that agree on short texts.
use kotlsp.Prelude.{
  ℕ, zero, suc, ◌≤◌, ◌≡◌, refl, ap, ◌∙◌, Bool, [], ◌∷◌, Bytes, ltb, length, length-drop, arith,
  Bool-cases, inl, inr,
}
use kotlsp.ClassFile.Reader.{Reader, Read, ◌>>=◌, pure, u1, bytes, number, times}

pub record Shrinks {ℓ} {A : Type ℓ} (m : Read A) : Type ℓ where
  pub shorter : (r : Reader) → length (m r).1.rest ≤ length r.rest

-- Where no more than so many bytes are left.
pub record Agrees {ℓ} {A : Type ℓ} (bound : ℕ) (m n : Read A) : Type ℓ where
  pub agree : (r : Reader) → length r.rest ≤ bound → m r ≡ n r

module _ {ℓ} {A : Type ℓ} where
  pub pure-Shrinks : (a : A) → Shrinks (pure a)
  pure-Shrinks a = record { shorter = λ r. omega arith }

  pub same-Agrees : (bound : ℕ) (m : Read A) → Agrees bound m m
  same-Agrees bound m = record { agree = λ r l. refl }

module _ {ℓ ℓ'} {A : Type ℓ} {B : Type ℓ'} where
  pub bind-Shrinks :
      (m : Read A) (next : A → Read B)
      → Shrinks m
      → ((a : A) → Shrinks (next a))
      → Shrinks (m >>= next)
  bind-Shrinks m next p q = record {
    shorter = λ r. omega (arith, p.shorter r, (q (m r).0).shorter (m r).1);
  }

  pub bind-Agrees :
      (bound : ℕ) (m n : Read A) (next after : A → Read B)
      → Shrinks m
      → Agrees bound m n
      → ((a : A) → Agrees bound (next a) (after a))
      → Agrees bound (m >>= next) (n >>= after)
  bind-Agrees bound m n next after s p q = record {
    agree = λ r l.
        (q (m r).0).agree (m r).1 (omega (arith, s.shorter r, l))
        ∙ ap (λ x. after x.0 x.1) (p.agree r l);
  }

module _ {ℓ} {S : Type ℓ} where
  pub times-Shrinks :
      (n : ℕ) (body : S → Read S)
      → ((s : S) → Shrinks (body s))
      → (s : S) → Shrinks (times n body s)
  unfolding times
  times-Shrinks zero body p s = pure-Shrinks s
  times-Shrinks (suc n) body p s =
      bind-Shrinks (body s) (times n body) (p s) (times-Shrinks n body p)

  pub times-Agrees :
      (bound n : ℕ) (body other : S → Read S)
      → ((s : S) → Shrinks (body s))
      → ((s : S) → Agrees bound (body s) (other s))
      → (s : S) → Agrees bound (times n body s) (times n other s)
  unfolding times
  times-Agrees bound zero body other p q s = same-Agrees bound (pure s)
  times-Agrees bound (suc n) body other p q s =
      bind-Agrees bound (body s) (other s) (times n body) (times n other) (p s) (q s)
        (times-Agrees bound n body other p q)

bytes_shorter : (n : ℕ) (r : Reader) → length (bytes n r).1.rest ≤ length r.rest
unfolding bytes
bytes_shorter n r = elim (Bool-cases (ltb (length r.rest) n)) [
  | inl q ↦ rw (q) (omega arith)
  | inr q ↦ rw (q) (omega (arith, length-drop n r.rest))
]

pub number-Shrinks : (n : ℕ) → Shrinks (number n)
unfolding number
number-Shrinks n = record { shorter = bytes_shorter n }

u1_shorter :
    (s : Bytes) (e : Bool) → length (u1 (record { rest = s; failed = e })).1.rest ≤ length s
unfolding u1
u1_shorter [] e = omega arith
u1_shorter (b ∷ s) e = omega arith

pub u1-Shrinks : Shrinks u1
u1-Shrinks = record { shorter = λ r. u1_shorter r.rest r.failed }

-- ===== src/ClassFile/Constants/Reads.antt =====
-- internal/classfile/classfile.go: what the loop over the constant pool reads.
use kotlsp.Prelude.{
  ℕ, zero, suc, ◌+◌, ◌≤◌, ◌≡◌, refl, sym, ap, subst, ◌∙◌, Bool, true, false, [], Option, none, some,
  length, arith, Bool-cases, inl, inr,
}
use kotlsp.ClassFile.Constants.{
  Constant, Pool, no_constant, cons, pool_of, unsupported, read_constant, keep_constant, pool_round,
  pool_loop, read_pool, eight,
}
use kotlsp.ClassFile.Reader.{Reader, Read, u1, number}
use kotlsp.ClassFile.Reader.Pays.{
  Pays, bind-Pays, pure-Pays, u1-Pays, bytes-Pays, number-Pays, within-Pays,
}
use kotlsp.Std.Strconv.{Strconv}

read_constant_keeps :
    (f : Strconv) (tag : ℕ) (r : Reader)
    → (read_constant f tag r).1.failed ≡ false
    → r.failed ≡ false
unfolding read_constant eight
read_constant_keeps f tag r h = ground (
  arith,
  h,
  (number-Pays 2 0).before r,
  (number-Pays 4 0).before r,
  (bytes-Pays 8 0).before r,
  (bytes-Pays 4 0).before r,
  (bytes-Pays 3 0).before r,
  (bytes-Pays (number 2 r).0 0).before (number 2 r).1,
)

read_constant_pays :
    (f : Strconv) (tag : ℕ) (r : Reader)
    → (read_constant f tag r).1.failed ≡ false
    → length (read_constant f tag r).1.rest ≤ length r.rest
unfolding read_constant eight
read_constant_pays f tag r h = ground (
  arith,
  h,
  (number-Pays 2 0).paid r,
  (number-Pays 4 0).paid r,
  (bytes-Pays 8 0).paid r,
  (bytes-Pays 4 0).paid r,
  (bytes-Pays 3 0).paid r,
  (bytes-Pays (number 2 r).0 0).before (number 2 r).1,
  (bytes-Pays (number 2 r).0 0).paid (number 2 r).1,
)

read_constant-Pays :
    (f : Strconv) (tag budget : ℕ) → Pays budget (read_constant f tag) (λ _. budget)
read_constant-Pays f tag budget = record {
  before = read_constant_keeps f tag;
  paid = λ r h. omega (arith, read_constant_pays f tag r h);
}

keep_constant-Pays :
    (more : Bool → Read Pool) (budget tag : ℕ)
    → ((second : Bool) → Pays budget (more second) (λ _. budget))
    → (entry : Option (Constant × Bool)) → Pays budget (keep_constant more tag entry) (λ _. budget)
keep_constant-Pays more budget tag p none =
    pure-Pays (unsupported tag) budget (λ _. budget) (omega arith)
keep_constant-Pays more budget tag p (some e) =
    bind-Pays (more e.1) _ (p e.1)
      (λ rest. pure-Pays (cons e.0 rest) budget (λ _. budget) (omega arith))

pool_round-Pays :
    (f : Strconv) (more : Bool → Read Pool) (budget : ℕ)
    → ((second : Bool) → Pays budget (more second) (λ _. budget))
    → Pays budget (pool_round f more) (λ _. budget)
unfolding pool_round
pool_round-Pays f more budget p = bind-Pays u1 _ (u1-Pays budget) (λ tag.
    bind-Pays (read_constant f tag) _ (read_constant-Pays f tag (budget + 1)) (λ entry.
      within-Pays (keep_constant more tag entry) (omega arith) (λ _. omega arith)
        (keep_constant-Pays more budget tag p entry)))

abbrev unless_failed : Read Pool → Read Pool
unless_failed m r = elim r.failed [ true ↦ (pool_of [], r) | false ↦ m r ]

unless_failed_keeps :
    (m : Read Pool) (r : Reader) → (unless_failed m r).1.failed ≡ false → r.failed ≡ false
unless_failed_keeps m r h = elim (Bool-cases r.failed) [
  | inl q ↦ let f : true ≡ false = rw (q) at h in q ∙ f
  | inr q ↦ q
]

unless_failed_is : (m : Read Pool) (r : Reader) → r.failed ≡ false → unless_failed m r ≡ m r
unless_failed_is m r q = rw (q) refl

unless_failed-Pays :
    (m : Read Pool) (budget : ℕ)
    → Pays budget m (λ _. budget)
    → Pays budget (unless_failed m) (λ _. budget)
unless_failed-Pays m budget p = record {
  before = unless_failed_keeps m;
  paid = λ r h.
      let e = unless_failed_is m r (unless_failed_keeps m r h) in
      let k : (m r).1.failed ≡ false = ap (λ x. x.1.failed) (sym e) ∙ h in
      subst (λ x. budget + length x.1.rest ≤ budget + length r.rest) (sym e) (p.paid r k);
}

pool_loop-Pays :
    (f : Strconv) (left : ℕ) (second : Bool) (budget : ℕ)
    → Pays budget (pool_loop f left second) (λ _. budget)
unfolding pool_loop
pool_loop-Pays f zero second budget = pure-Pays (pool_of []) budget (λ _. budget) (omega arith)
pool_loop-Pays f (suc left) true budget =
    bind-Pays (pool_loop f left false) _ (pool_loop-Pays f left false budget)
      (λ rest. pure-Pays (cons no_constant rest) budget (λ _. budget) (omega arith))
pool_loop-Pays f (suc left) false budget =
    unless_failed-Pays (pool_round f (λ second. pool_loop f left second)) budget (
      pool_round-Pays f (λ second. pool_loop f left second) budget
        (λ second. pool_loop-Pays f left second budget))

pub read_pool-Pays :
    (f : Strconv) (count budget : ℕ) → Pays budget (read_pool f count) (λ _. budget)
unfolding read_pool
read_pool-Pays f zero budget = pure-Pays (pool_of []) budget (λ _. budget) (omega arith)
read_pool-Pays f (suc left) budget =
    bind-Pays (pool_loop f left false) _ (pool_loop-Pays f left false budget)
      (λ rest. pure-Pays (cons no_constant rest) budget (λ _. budget) (omega arith))

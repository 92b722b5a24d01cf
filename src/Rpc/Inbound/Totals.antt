-- ===== src/Rpc/Inbound/Totals.antt =====
-- internal/jsonrpc/conn.go: sums over the jobs and the workers of a connection.
use kotlsp.Prelude.{ℕ, zero, suc, ◌+◌, ◌≡◌, refl, ap, List, [], ◌∷◌, ◌++◌, some, map, arith}
use mathlib.Core.Option.{some-injective}
use kotlsp.Rpc.Inbound.{Worker, worker_at, set_worker, free_worker}

abbrev pub total : {A : Type 0} → (A → ℕ) → List A → ℕ
total f [] = 0
total f (x ∷ xs) = f x + total f xs

pub total-append :
    {A : Type 0} (f : A → ℕ) (xs ys : List A) → total f (xs ++ ys) ≡ total f xs + total f ys
total-append f [] ys = omega arith
total-append f (x ∷ xs) ys = omega (arith, total-append f xs ys)

pub total-map :
    {A : Type 0} (f : A → ℕ) (g : A → A) (xs : List A)
    → ((x : A) → f (g x) ≡ f x)
    → total f (map g xs) ≡ total f xs
total-map f g [] h = refl
total-map f g (x ∷ xs) h = omega (arith, h x, total-map f g xs h)

pub total-set :
    (f : Worker → ℕ) (ws : List Worker) (i : ℕ) (w v : Worker)
    → worker_at ws i ≡ some w
    → total f (set_worker ws i v) + f w ≡ total f ws + f v
unfolding worker_at set_worker
total-set f [] i w v e = cc
total-set f (x ∷ ws) zero w v e = let q = ap f (some-injective _ _ e) in omega arith
total-set f (x ∷ ws) (suc i) w v e = omega (arith, total-set f ws i w v e)

pub total-free :
    (f : Worker → ℕ) (ws : List Worker) (i : ℕ) (w : Worker)
    → worker_at ws i ≡ some w
    → total f (free_worker ws i) + f w ≡ total f ws
unfolding worker_at free_worker
total-free f [] i w e = cc
total-free f (x ∷ ws) zero w e = let q = ap f (some-injective _ _ e) in omega arith
total-free f (x ∷ ws) (suc i) w e = omega (arith, total-free f ws i w e)

-- ===== src/Std/Search.antt =====
-- Go's `sort.Search`: the binary search for the first index at which a test holds.
use kotlsp.Prelude.{ℕ, zero, suc, ◌+◌, ◌/◌, ◌≤◌, ◌<◌, ◌≡◌, Bool, true, false, arith, ltb}

-- `for i < j { h := (i + j) >> 1; if !f(h) { i = h + 1 } else { j = h } }`, on fuel.
search_loop : ℕ → ℕ → ℕ → (ℕ → Bool) → ℕ
search_loop zero i j f = i
search_loop (suc fuel) i j f = elim (ltb i j) [
  | true ↦ elim (f ((i + j) / 2)) [
    | false ↦ search_loop fuel ((i + j) / 2 + 1) j f
    | true ↦ search_loop fuel i ((i + j) / 2) f
  ]
  | false ↦ i
]

unfoldable pub search : ℕ → (ℕ → Bool) → ℕ
unfolding search_loop
search n f = search_loop (suc n) 0 n f

-- `f` is false below `k` and true from `k` on.
pub record TurnsAt (f : ℕ → Bool) (n k : ℕ) : Type 0 where
  pub within : k ≤ n
  pub below : (i : ℕ) → i < k → f i ≡ false
  pub above : (i : ℕ) → k ≤ i → i < n → f i ≡ true

module _ (f : ℕ → Bool) (n k : ℕ) (t : TurnsAt f n k) where
  false_below : (h : ℕ) → h < n → f h ≡ false → h < k
  false_below h b e = ground (arith, t.above h)

  true_above : (h : ℕ) → f h ≡ true → k ≤ h
  true_above h e = ground (arith, t.below h)

  search_loop_lem :
      (fuel i j : ℕ) → j < fuel + i → i ≤ k → k ≤ j → j ≤ n → search_loop fuel i j f ≡ k
  unfolding search_loop
  search_loop_lem zero i j e p q r = absurd (omega arith)
  search_loop_lem (suc fuel) i j e p q r = ground (
    arith,
    false_below ((i + j) / 2),
    true_above ((i + j) / 2),
    search_loop_lem fuel ((i + j) / 2 + 1) j,
    search_loop_lem fuel i ((i + j) / 2),
  )

  -- The search finds the place where a monotone test turns.
  pub search_lem : search n f ≡ k
  unfolding search
  search_lem = search_loop_lem (suc n) 0 n (omega arith) (omega arith) t.within (omega arith)

-- ===== src/Archive/Ratio.antt =====
-- internal/archiveio/read.go: what `compressionRatioExceeds` decides, without a product.
use native.Mathlib.Nat.{div-add-mod, mul-le-mul_left}
use kotlsp.Prelude.{ℕ, zero, suc, ◌+◌, ◌*◌, ◌/◌, ◌%◌, ◌≤◌, ◌<◌, ◌≡◌, ◌↔◌, true, arith}
use kotlsp.Archive.{compression_ratio_exceeds}

-- A quotient below the limit, at it and above it, without the division.
product_below : (k q c r : ℕ) → q < k → r < suc c → suc c * q + r < k * suc c
product_below k q c r l m =
    let p : suc c * (q + 1) ≤ suc c * k = mul-le-mul_left (suc c) (omega arith) in grind arith

product_above : (k q c r : ℕ) → k < q → k * suc c < suc c * q + r
product_above k q c r l =
    let p : suc c * (k + 1) ≤ suc c * q = mul-le-mul_left (suc c) (omega arith) in grind arith

product_at : (k q c : ℕ) → q ≡ k → suc c * q ≡ k * suc c
product_at k q c e = grind arith

-- compressionRatioExceeds holds exactly where the expanded size is above the limit times the
-- compressed size.
pub compression_ratio_exceeds_iff :
    (expanded compressed limit : ℕ)
    → (compression_ratio_exceeds expanded compressed limit ≡ true) ↔ (limit * compressed < expanded)
unfolding compression_ratio_exceeds
compression_ratio_exceeds_iff expanded zero limit = ground arith
compression_ratio_exceeds_iff expanded (suc c) limit =
    let q = expanded / suc c in
    let r = expanded % suc c in
    let d : suc c * q + r ≡ expanded = div-add-mod expanded (suc c) in
    let m : r < suc c = omega arith in
    let below = product_below limit q c r in
    let above = product_above limit q c r in let at = product_at limit q c in ground arith

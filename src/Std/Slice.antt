-- ===== src/Std/Slice.antt =====
-- A Go byte slice that is written in place: the cells of its backing array from its first
-- element on, of which the first `len` are in the slice. The number of cells is its capacity.
use kotlsp.Prelude.{
  ◌≤◌, ◌≡◌, arith, length-take, length-append, length-drop, take_all, ℕ, ◌+◌, ◌-◌, ◌++◌, Bytes,
  length, take, drop, replicate, min,
}

pub record Slice : Type 0 where
  pub cells : Bytes
  pub len : ℕ

abbrev pub cap : Slice → ℕ
cap s = length s.cells

-- The bytes that the slice shows.
abbrev pub shown : Slice → Bytes
shown s = take s.len s.cells

-- `make([]byte, n, c)` for `n ≤ c`.
abbrev pub make : ℕ → ℕ → Slice
make n c = record { cells = replicate c 0; len = n }

-- `s[:n]`, for `n ≤ cap(s)`.
abbrev pub reslice : Slice → ℕ → Slice
reslice s n = record s { len = n }

-- `copy(s[lo:hi], src)`: as many bytes as both sides have; `src` is read before it is overwritten.
unfoldable pub copy : Slice → ℕ → ℕ → Bytes → Slice
copy s lo hi src = record s {
  cells = take lo s.cells ++ (take (hi - lo) src ++ drop (lo + min (hi - lo) (length src)) s.cells);
}

-- A slice never shows more than its array holds.
abbrev pub IsValid : Slice → Type 0
IsValid s = s.len ≤ cap s

pub length-shown : (s : Slice) → IsValid s → length (shown s) ≡ s.len
length-shown s v = omega (arith, length-take s.len s.cells)

-- A copy of bytes that fit.
pub copy_fits :
    (s : Slice) (lo hi : ℕ) (src : Bytes)
    → length src ≤ hi - lo
    → copy s lo hi src
      ≡ record s { cells = take lo s.cells ++ (src ++ drop (lo + length src) s.cells) }
unfolding copy
copy_fits s lo hi src h =
    let all = take_all (hi - lo) src h in
    let least : min (hi - lo) (length src) ≡ length src = omega arith in rw (all, least)

pub length-copied :
    (cells src : Bytes) (lo : ℕ)
    → lo + length src ≤ length cells
    → length (take lo cells ++ (src ++ drop (lo + length src) cells)) ≡ length cells
length-copied cells src lo h = omega (
  arith,
  length-append (take lo cells) (src ++ drop (lo + length src) cells),
  length-append src (drop (lo + length src) cells),
  length-take lo cells,
  length-drop (lo + length src) cells,
)

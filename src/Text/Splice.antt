-- ===== src/Text/Splice.antt =====
-- The in-place edit of the byte buffer shows the replaced text, and nothing of its spare cells.
use native.Mathlib.Nat.{zero-add}
use kotlsp.Prelude.{
  ℕ, ◌+◌, ◌-◌, ◌≤◌, ◌<◌, ◌≡◌, refl, sym, ap, ◌∙◌, ◌++◌, arith, length, length-append, length-take,
  length-drop, length-replicate, take, drop, replicate, true, false, ltb, leb, if◌then◌else◌, Bytes,
  append_assoc, take_all, take-append, drop-append, take-append_left, take-take, Bool-cases, inl,
  inr, ltb→lt, Bool, ltb→le,
}
use kotlsp.Std.Slice.{
  Slice, cap, shown, make, reslice, copy, IsValid, length-shown, copy_fits, length-copied,
}
use kotlsp.Text.Apply.{grow, splice, overwrite}
use kotlsp.Text.Table.Replace.{replaced}

-- After `grow` the slice shows what it showed, and has room.
record Grown (s room : Slice) (size : ℕ) : Type 0 where
  same : shown room ≡ shown s
  len_is : room.len ≡ s.len
  fits : size ≤ cap room
  valid : IsValid room

grow-Grown : (s : Slice) (size : ℕ) → IsValid s → Grown s (grow s size) size
unfolding grow
grow-Grown s size v = elim (Bool-cases (ltb (cap s) size)) [
  | inr enough ↦
      rw enough (record { same = refl; len_is = refl; fits = ltb→le _ _ enough; valid = v })
  | inl short ↦ rw short (rw (copied (ltb→lt _ _ short)) (bigger (ltb→lt _ _ short)))
]
  where
    zeros : Bytes
    zeros = drop (length (shown s)) (replicate size 0)

    copied :
        cap s < size
        → copy (make s.len size) 0 s.len (shown s)
          ≡ record { cells = shown s ++ zeros; len = s.len }
    copied h =
        copy_fits (make s.len size) 0 s.len (shown s) (omega (arith, length-shown s v))
        ∙ rw zero-add

    room : length (shown s ++ zeros) ≡ length (shown s) + (size - length (shown s))
    room = omega (
      arith,
      length-append (shown s) zeros,
      length-drop {A = ℕ} (length (shown s)) (replicate size 0),
      length-replicate {A = ℕ} size 0,
    )

    bigger : cap s < size → Grown s (record { cells = shown s ++ zeros; len = s.len }) size
    bigger h = record {
      same = take-append (shown s) zeros s.len (sym (length-shown s v));
      len_is = refl;
      fits = omega (arith, room, length-shown s v);
      valid = omega (arith, room, length-shown s v);
    }

-- The two copies of an edit, on the cells of the grown buffer.
abbrev moved_cells : Bytes → ℕ → Bytes → Bytes
moved_cells cells lo src = take lo cells ++ (src ++ drop (lo + length src) cells)

two_copies :
    (cells text tail : Bytes) (start size : ℕ)
    → start + length text + length tail ≡ size
    → size ≤ length cells
    → take size (moved_cells (moved_cells cells (start + length text) tail) start text)
      ≡ take start cells ++ (text ++ tail)
two_copies cells text tail start size e h = rw (kept, behind, regroup) cut
  where
    lo : ℕ
    lo = start + length text

    rest : Bytes
    rest = drop (lo + length tail) cells

    head_size : length (take lo cells) ≡ lo
    head_size = omega (arith, length-take lo cells)

    kept : take start (take lo cells ++ (tail ++ rest)) ≡ take start cells
    kept =
        take-append_left start (take lo cells) (tail ++ rest) (omega (arith, head_size))
        ∙ take-take start lo cells (omega arith)

    behind : drop lo (take lo cells ++ (tail ++ rest)) ≡ tail ++ rest
    behind = drop-append (take lo cells) (tail ++ rest) lo (sym head_size)

    regroup :
        take start cells ++ (text ++ (tail ++ rest)) ≡ (take start cells ++ (text ++ tail)) ++ rest
    regroup = rw (append_assoc, append_assoc)

    cut :
        take size ((take start cells ++ (text ++ tail)) ++ rest)
        ≡ take start cells ++ (text ++ tail)
    cut = take-append (take start cells ++ (text ++ tail)) rest size (
        omega (
          arith,
          length-append (take start cells) (text ++ tail),
          length-append text tail,
          length-take start cells,
        ))

-- What `splice` leaves in the buffer.
pub record Spliced (s t : Slice) (start end : ℕ) (text : Bytes) : Type 0 where
  pub shows : shown t ≡ replaced (shown s) start end text
  pub len_is : t.len ≡ s.len - (end - start) + length text
  pub valid : IsValid t

-- Whether the text grows or shrinks, and whether or not the array has to be replaced, the buffer
-- then shows the old bytes with the text in place of those between the offsets.
pub splice-Spliced :
    (s : Slice) (start end : ℕ) (text : Bytes)
    → IsValid s
    → start ≤ end
    → end ≤ s.len
    → Spliced s (splice s start end text) start end text
unfolding splice
splice-Spliced s start end text v p q =
    rw (one_move (leb s.len size) refl, final)
      (record {
        shows = two_copies room.cells text tail start size fit g.fits ∙ rw (first, old);
        len_is = refl;
        valid = omega (arith, g.fits, sizes);
      })
  where
    size : ℕ
    size = s.len - (end - start) + length text

    lo : ℕ
    lo = start + length text

    room : Slice
    room = grow s size

    g : Grown s room size
    g = grow-Grown s size v

    tail : Bytes
    tail = drop end (take s.len room.cells)

    old : take s.len room.cells ≡ shown s
    old = ap (λ n. take n room.cells) (sym g.len_is) ∙ g.same

    first : take start room.cells ≡ take start (shown s)
    first = sym (ap (take start) (sym old) ∙ take-take start s.len room.cells (omega arith))

    tail_size : length tail ≡ s.len - end
    tail_size = rw old (omega (arith, length-drop end (shown s), length-shown s v))

    fit : start + length text + length tail ≡ size
    fit = omega (arith, tail_size)

    moved : Slice
    moved = record { cells = moved_cells room.cells lo tail; len = size }

    one_move :
        (b : Bool)
        → leb s.len size ≡ b
        → (if b
            then copy (reslice room size) lo size tail
            else reslice (copy room lo s.len tail) size)
          ≡ moved
    one_move true e = copy_fits (reslice room size) lo size tail (omega (arith, tail_size))
    one_move false e =
        ap (λ t. reslice t size) (copy_fits room lo s.len tail (ground (arith, tail_size)))

    final :
        copy moved start lo text ≡ record { cells = moved_cells moved.cells start text; len = size }
    final = copy_fits moved start lo text (omega arith)

    sizes : length (moved_cells moved.cells start text) ≡ length room.cells
    sizes = length-copied moved.cells text start (omega (arith, inner, g.fits, fit)) ∙ inner
      where
        inner : length moved.cells ≡ length room.cells
        inner = length-copied room.cells tail lo (omega (arith, g.fits, fit))

-- `append(content[:0], text...)` shows the new text, in the old array or in a new one.
pub overwrite-shown :
    (s : Slice) (text : Bytes) → (shown (overwrite s text) ≡ text) × IsValid (overwrite s text)
unfolding overwrite
overwrite-shown s text = elim (Bool-cases (ltb (cap s) (length text))) [
  | inl short ↦ rw short (take_all (length text) text (omega arith), omega arith)
  | inr enough ↦
      rw (enough, copy_fits (reslice s (length text)) 0 (length text) text (omega arith))
        (
          take-append text _ (length text) refl,
          omega (arith, length-append text (drop (0 + length text) s.cells)),
        )
]

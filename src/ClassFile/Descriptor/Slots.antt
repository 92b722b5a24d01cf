-- ===== src/ClassFile/Descriptor/Slots.antt =====
-- internal/classfile/classfile.go: the local variable slots that `methodParameterSlots` finds.
use kotlsp.Prelude.{
  ℕ, zero, suc, ◌+◌, ◌<◌, ◌≡◌, refl, sym, ap, subst, ◌∙◌, Bool, false, List, [], ◌∷◌, ◌++◌,
  append_assoc, some, Bytes, codes, ◌==◌, if◌then◌else◌, length, length-append, drop, drop-append,
  arith,
}
use kotlsp.ClassFile.Descriptor.{
  array_run, width_behind, slot_width, slots_loop, method_parameter_slots,
}
use kotlsp.ClassFile.Descriptor.Grammar.{
  JvmType, byte, char, double, float, int, long, short, boolean, void, object, array, descriptor,
  descriptors, IsType, AllTypes, slots, offsets, opening,
}
use kotlsp.ClassFile.Descriptor.Methods.{length-descriptors}
use kotlsp.Std.Find.{Lacks, index_byte-append}

drop_past : (s : Bytes) (c : ℕ) (rest : Bytes) → drop (length s + 1) (s ++ (c ∷ rest)) ≡ rest
drop_past s c rest =
    ap (drop (length s + 1)) (sym (append_assoc s (c ∷ []) rest))
    ∙ drop-append (s ++ (c ∷ [])) rest (length s + 1) (rw (length-append s (c ∷ [])) refl)

-- A further bracket makes the width one.
width_behind-suc :
    (arrays : ℕ) (d : Bytes) (w : ℕ) (r : Bytes)
    → width_behind arrays d ≡ some (w, r)
    → width_behind (suc arrays) d ≡ some (1, r)
unfolding width_behind
width_behind-suc arrays [] w r e = cc
width_behind-suc arrays (b ∷ s) w r e = ground arith

slot_width_array :
    (d : Bytes) (w : ℕ) (r : Bytes)
    → slot_width d ≡ some (w, r)
    → slot_width (b'[' ∷ d) ≡ some (1, r)
unfolding slot_width array_run
slot_width_array d w r e = width_behind-suc (array_run d) (drop (array_run d) d) w r e

width_behind_class :
    (name rest : Bytes)
    → Lacks name b';'
    → slot_width (b'L' ∷ (name ++ (b';' ∷ rest))) ≡ some (1, rest)
unfolding slot_width array_run width_behind
width_behind_class name rest h =
    let e = index_byte-append (b'L' ∷ name) b';' rest (refl, h) in
    simp (e, drop_past (b'L' ∷ name) b';' rest)

slot_width-descriptor :
    (t : JvmType) (rest : Bytes)
    → IsType t
    → slot_width (descriptor t ++ rest) ≡ some (slots t, rest)
unfolding slot_width array_run width_behind
slot_width-descriptor byte rest h = refl
slot_width-descriptor char rest h = refl
slot_width-descriptor double rest h = refl
slot_width-descriptor float rest h = refl
slot_width-descriptor int rest h = refl
slot_width-descriptor long rest h = refl
slot_width-descriptor short rest h = refl
slot_width-descriptor boolean rest h = refl
slot_width-descriptor void rest h = refl
slot_width-descriptor (object name) rest h =
    subst (λ s. slot_width (b'L' ∷ s) ≡ some (1, rest)) (sym (append_assoc name (codes ";") rest))
      (width_behind_class name rest h)
slot_width-descriptor (array t) rest h =
    slot_width_array (descriptor t ++ rest) (slots t) rest (slot_width-descriptor t rest h)

slots_step :
    (fuel slot b : ℕ) (s : Bytes) (w : ℕ) (r : Bytes) (found : List ℕ)
    → (b == b')') ≡ false
    → slot_width (b ∷ s) ≡ some (w, r)
    → slots_loop fuel (slot + w) r ≡ some found
    → slots_loop (suc fuel) slot (b ∷ s) ≡ some (slot ∷ found)
unfolding slots_loop
slots_step fuel slot b s w r found n e f = simp (slots_loop, n, e, f)

slots_append :
    (fuel slot : ℕ) (t : JvmType) (rest : Bytes) (found : List ℕ)
    → IsType t
    → slots_loop fuel (slot + slots t) rest ≡ some found
    → slots_loop (suc fuel) slot (descriptor t ++ rest) ≡ some (slot ∷ found)
slots_append fuel slot t rest found h f =
    let o = opening t in
    let e = ap (λ s. s ++ rest) o.spelled in
    subst (λ s. slots_loop (suc fuel) slot s ≡ some (slot ∷ found)) (sym e)
      (slots_step fuel slot o.byte_of (o.others ++ rest) (slots t) rest found o.no_close
        (ap slot_width (sym e) ∙ slot_width-descriptor t rest h) f)

slots_loop-descriptors :
    (ts : List JvmType) (fuel slot : ℕ) (rest : Bytes)
    → AllTypes ts
    → length ts < fuel
    → slots_loop fuel slot (descriptors ts ++ (b')' ∷ rest)) ≡ some (offsets slot ts)
unfolding slots_loop
slots_loop-descriptors [] zero slot rest h l = absurd (omega arith)
slots_loop-descriptors [] (suc fuel) slot rest h l = refl
slots_loop-descriptors (t ∷ ts) zero slot rest h l = absurd (omega arith)
slots_loop-descriptors (t ∷ ts) (suc fuel) slot rest (h, hs) l =
    subst (λ s. slots_loop (suc fuel) slot s ≡ some (offsets slot (t ∷ ts)))
      (sym (append_assoc (descriptor t) (descriptors ts) (b')' ∷ rest)))
      (slots_append fuel slot t _ _ h
        (slots_loop-descriptors ts fuel (slot + slots t) rest hs (omega arith)))

-- methodParameterSlots finds the first slot of each parameter of a method: the parameters stand one
-- behind another, from 0 in a static method and from 1 in any other, a long or a double takes two
-- slots, and every other type, an array of them too, takes one.
pub method_parameter_slots-descriptors :
    (ts : List JvmType) (rest : Bytes) (static : Bool)
    → AllTypes ts
    → method_parameter_slots (b'(' ∷ (descriptors ts ++ (b')' ∷ rest))) static
      ≡ offsets (if static then 0 else 1) ts
unfolding method_parameter_slots
method_parameter_slots-descriptors ts rest static hs =
    let s = descriptors ts ++ (b')' ∷ rest) in
    let n : length ts < length s =
      omega (arith, length-append (descriptors ts) (b')' ∷ rest), length-descriptors ts) in
    let e = slots_loop-descriptors ts (length s) (if static then 0 else 1) rest hs n in simp (e)

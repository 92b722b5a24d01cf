-- ===== src/ClassFile/Modifiers/Words.antt =====
-- internal/classfile/classfile.go: `javaModifierWords` takes the spelling of `modifiers` apart.
use kotlsp.Prelude.{
  ℕ, ◌≡◌, refl, sym, ap, ◌∙◌, Bool, true, false, not, ◌&&◌, List, [], ◌∷◌, ◌++◌, append-nil,
  append_assoc, arith, Bytes, codes, same,
}
use kotlsp.ClassFile.Modifiers.{
  say_all, modifier_table, modifier_list, modifiers, java_modifier_words,
}
use kotlsp.Std.Strings.{fields, fields_from, is_white, join}

-- Whether a text has no white space in it.
abbrev pub solid : Bytes → Bool
solid [] = true
solid (b ∷ s) = not (is_white b) && solid s

-- A word is not empty, and it has no white space in it.
abbrev pub IsWord : Bytes → Type 0
IsWord w = (same w [] ≡ false) × (solid w ≡ true)

abbrev pub AllWords : List Bytes → Type 0
AllWords [] = Unit
AllWords (w ∷ ws) = IsWord w × AllWords ws

-- A word is gone over before the space behind it, or the end.
fields_from_word :
    (front w s : Bytes) → solid w ≡ true → fields_from front (w ++ s) ≡ fields_from (front ++ w) s
unfolding fields_from
fields_from_word front [] s h = ap (λ x. fields_from x s) (sym (append-nil front))
fields_from_word front (b ∷ w) s e =
    let n : is_white b ≡ false = ground arith in
    let h : solid w ≡ true = ground arith in
    (rw (n, fields_from) refl)
    ∙ fields_from_word (front ++ (b ∷ [])) w s h
    ∙ ap (λ x. fields_from x s) (append_assoc front (b ∷ []) w)

fields_from_space :
    (w s : Bytes) → same w [] ≡ false → fields_from w (0x20 ∷ s) ≡ w ∷ fields_from [] s
unfolding fields_from
fields_from_space w s n = rw (n) refl

fields_from_end : (w : Bytes) → same w [] ≡ false → fields_from w [] ≡ w ∷ []
unfolding fields_from
fields_from_end w n = rw (n) refl

-- A word and a space.
fields_word : (w s : Bytes) → IsWord w → fields_from [] (w ++ (0x20 ∷ s)) ≡ w ∷ fields_from [] s
fields_word w s (n, h) = fields_from_word [] w (0x20 ∷ s) h ∙ fields_from_space w s n

-- Fields gives back words that are joined by a space and followed by one.
fields-join :
    (w : Bytes) (ws : List Bytes)
    → IsWord w
    → AllWords ws
    → fields_from [] (join (w ∷ ws) (codes " ") ++ codes " ") ≡ w ∷ ws
unfolding join fields_from
fields-join w [] h hs = fields_word w [] h
fields-join w (x ∷ ws) h (k, hs) =
    ap (fields_from []) (append_assoc w (codes " " ++ join (x ∷ ws) (codes " ")) (codes " "))
    ∙ fields_word w (join (x ∷ ws) (codes " ") ++ codes " ") h
    ∙ ap (◌∷◌ w) (fields-join x ws k hs)

abbrev TableWords : List (Bool × Bytes) → Type 0
TableWords [] = Unit
TableWords (w ∷ table) = IsWord w.1 × TableWords table

say_all-AllWords : (table : List (Bool × Bytes)) → TableWords table → AllWords (say_all table)
unfolding say_all
say_all-AllWords [] h = tt
say_all-AllWords ((true, w) ∷ table) (h, hs) = (h, say_all-AllWords table hs)
say_all-AllWords ((false, w) ∷ table) (h, hs) = say_all-AllWords table hs

modifier_table-TableWords : (access : ℕ) (class : Bool) → TableWords (modifier_table access class)
unfolding modifier_table
modifier_table-TableWords access class = (
  (refl, refl),
  (
    (refl, refl),
    (
      (refl, refl),
      (
        (refl, refl),
        (
          (refl, refl),
          (
            (refl, refl),
            ((refl, refl), ((refl, refl), ((refl, refl), ((refl, refl), ((refl, refl), tt))))),
          ),
        ),
      ),
    ),
  ),
)

fields_of_list :
    (ws : List Bytes)
    → AllWords ws
    → fields (elim ws as (λ _. Bytes) [ [] ↦ [] | w ∷ ws ↦ join (w ∷ ws) (codes " ") ++ codes " " ])
      ≡ ws
unfolding fields fields_from
fields_of_list [] h = refl
fields_of_list (w ∷ ws) (h, hs) = fields-join w ws h hs

-- javaModifierWords, which takes the text of modifiers apart at its white space, returns the list of
-- words that modifiers joins, for every access word.
java_modifier_words-modifier_list :
    (access : ℕ) (class : Bool) → java_modifier_words access class ≡ modifier_list access class
unfolding java_modifier_words modifiers
java_modifier_words-modifier_list access class =
    fields_of_list (modifier_list access class)
      (say_all-AllWords (modifier_table access class) (modifier_table-TableWords access class))

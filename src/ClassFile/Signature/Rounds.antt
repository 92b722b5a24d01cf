-- ===== src/ClassFile/Signature/Rounds.antt =====
-- internal/classfile/classfile.go: the loops of the parser of generic signatures end.
use kotlsp.Prelude.{
  ℕ, zero, suc, ◌+◌, ◌≤◌, ◌<◌, ◌≡◌, refl, ap, ◌∙◌, [], ◌∷◌, Bytes, ◌==◌, length, drop, length-drop,
  arith, Bool-cases, Option-cases, inl, inr,
}
use kotlsp.ClassFile.Signature.{Parser, variance, arguments_loop, type_arguments, name_loop}
use kotlsp.ClassFile.Signature.Ends.{
  Ends, none-Ends, some-Ends, Shortens, variance-le, arguments_loop-Ends,
}

-- A parser that takes a byte at least from what it reads.
abbrev pub Takes : Parser → Type 0
Takes p = (s : Bytes) (n : ℕ) → length s ≤ suc n → Ends n (p s)

module _ (p : Parser) (takes : Takes p) where
  arguments_round :
      (fuel other : ℕ)
      → ((t : Bytes) → length t < fuel → arguments_loop p other t ≡ arguments_loop p fuel t)
      → (s : Bytes) → length s < suc fuel
      → arguments_loop p (suc other) s ≡ arguments_loop p (suc fuel) s
  unfolding arguments_loop
  arguments_round fuel other again [] l = refl
  arguments_round fuel other again (b ∷ s) l = elim (Bool-cases (b == b'>')) [
    | inl t ↦ rw (arguments_loop, t) refl
    | inr t ↦ elim (Bool-cases (b == b'*')) [
      | inl k ↦ rw (arguments_loop, t, k, again s (omega arith)) refl
      | inr k ↦
          let g = variance-le (b ∷ s) in
          elim (Option-cases (p (variance (b ∷ s)).1)) [
            | inl e ↦ rw (arguments_loop, t, k, e) refl
            | inr (x, e) ↦
                let h = (takes (variance (b ∷ s)).1 (length s) (omega arith)).ends x e in
                rw (arguments_loop, t, k, e, again x.1 (omega arith)) refl
          ]
    ]
  ]

  pub arguments_loop_enough :
      (fuel more : ℕ) (s : Bytes)
      → length s < fuel
      → arguments_loop p (fuel + more) s ≡ arguments_loop p fuel s
  arguments_loop_enough zero more s l = absurd (omega arith)
  arguments_loop_enough (suc fuel) more s l =
      let n : suc fuel + more ≡ suc (fuel + more) = omega arith in
      ap (λ n. arguments_loop p n s) n
      ∙ arguments_round fuel (fuel + more) (arguments_loop_enough fuel more) s l

  type_arguments_takes : (s : Bytes) (n : ℕ) → length s ≤ suc n → Ends n (type_arguments p s)
  unfolding type_arguments
  type_arguments_takes s n l = elim (Option-cases (arguments_loop p (suc (length s)) (drop 1 s))) [
    | inl e ↦ rw (type_arguments, e) (none-Ends n)
    | inr (x, e) ↦
        let g = length-drop 1 s in
        let shortens : Shortens p = λ t. takes t (length t) (omega arith) in
        let h =
          (arguments_loop-Ends p shortens (suc (length s)) (drop 1 s) n (omega arith)).ends x e in
        rw (type_arguments, e) (some-Ends n _ x.1 h)
  ]

  name_round :
      (fuel other : ℕ)
      → ((t : Bytes) → length t ≤ fuel → name_loop p other t ≡ name_loop p fuel t)
      → (s : Bytes) → length s ≤ suc fuel
      → name_loop p (suc other) s ≡ name_loop p (suc fuel) s
  unfolding name_loop
  name_round fuel other again [] l = refl
  name_round fuel other again (b ∷ s) l = elim (Bool-cases (b == b';')) [
    | inl t ↦ rw (name_loop, t) refl
    | inr t ↦ elim (Bool-cases (b == b'<')) [
      | inr k ↦ rw (name_loop, t, k, again s (omega arith)) refl
      | inl k ↦ elim (Option-cases (type_arguments p (b ∷ s))) [
        | inl e ↦ rw (name_loop, t, k, e) refl
        | inr (x, e) ↦
            let h = (type_arguments_takes (b ∷ s) (length s) (omega arith)).ends x e in
            rw (name_loop, t, k, e, again x.1 (omega arith)) refl
      ]
    ]
  ]

  pub name_loop_enough :
      (fuel more : ℕ) (s : Bytes)
      → length s ≤ fuel
      → name_loop p (fuel + more) s ≡ name_loop p fuel s
  unfolding name_loop
  name_loop_enough zero zero [] l = refl
  name_loop_enough zero (suc more) [] l =
      let n : 0 + suc more ≡ suc more = omega arith in ap (λ n. name_loop p n []) n
  name_loop_enough zero more (b ∷ s) l = absurd (omega arith)
  name_loop_enough (suc fuel) more s l =
      let n : suc fuel + more ≡ suc (fuel + more) = omega arith in
      ap (λ n. name_loop p n s) n ∙ name_round fuel (fuel + more) (name_loop_enough fuel more) s l

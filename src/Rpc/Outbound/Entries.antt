-- ===== src/Rpc/Outbound/Entries.antt =====
-- internal/jsonrpc/conn.go: the entries of `pending`, their keys and the answers they hold.
use kotlsp.Prelude.{
  ℕ, suc, ◌^◌, ◌≤◌, ◌<◌, ◌≡◌, refl, sym, ap, subst, ◌∙◌, false, List, [], ◌∷◌, Option, none, some,
  Bytes, same, same→eq, length, drop, arith, pos, Bool-cases, inl, inr,
}
use mathlib.Core.Option.{some-injective}
use kotlsp.Prelude.Int.{pos_part}
use kotlsp.Std.Decimal.{format_int-Decimal}
use kotlsp.Std.Strconv.{format_int, atoi}
use kotlsp.Rpc.{Message, Json, request_id_key}
use kotlsp.Rpc.Outbound.{Pending, delete_pending, find_pending, request_key, send_answer}

-- The id of a message is that of a key.
abbrev pub Answers : Json → Bytes → Option Message → Type 0
Answers json key none = Unit
Answers json key (some m) = request_id_key json m.id ≡ some key

-- Each channel holds an answer to its own request, and has the key of an id that was given out.
abbrev pub AreRouted : Json → ℕ → List Pending → Type 0
AreRouted json next [] = Unit
AreRouted json next (p ∷ ps) =
    Answers json p.key p.answer
    × ((id : ℕ) × (id ≤ next) × (p.key ≡ request_key id))
    × AreRouted json next ps

-- No key stands twice.
abbrev pub AreDistinct : List Pending → Type 0
AreDistinct [] = Unit
AreDistinct (p ∷ ps) = (find_pending ps p.key ≡ none) × AreDistinct ps

-- Ids below 2 ^ 63 have different keys.
request_key-injective : (a b : ℕ) → a < 2 ^ 63 → b < 2 ^ 63 → request_key a ≡ request_key b → a ≡ b
request_key-injective a b ha hb e =
    let f : format_int (pos a) ≡ format_int (pos b) = ap (drop 2) e in
    let v : some (pos a) ≡ some (pos b) =
      sym (format_int-Decimal a ha).value ∙ ap atoi f ∙ (format_int-Decimal b hb).value in
    ap pos_part (some-injective _ _ v)

pub AreRouted-mono :
    (json : Json) (next : ℕ) (ps : List Pending)
    → AreRouted json next ps
    → AreRouted json (suc next) ps
AreRouted-mono json next [] r = tt
AreRouted-mono json next (p ∷ ps) (a, (id, l, e), r) =
    (a, (id, omega arith, e), AreRouted-mono json next ps r)

-- The next key is new.
pub fresh_key :
    (json : Json) (next : ℕ) (ps : List Pending)
    → suc next < 2 ^ 63
    → AreRouted json next ps
    → find_pending ps (request_key (suc next)) ≡ none
unfolding find_pending
fresh_key json next [] l r = refl
fresh_key json next (p ∷ ps) l (a, (id, k, e), r) =
    elim (Bool-cases (same p.key (request_key (suc next)))) [
      | inl q ↦
          let f = request_key-injective id (suc next) (omega arith) l (sym e ∙ same→eq _ _ q) in
          absurd (omega arith)
      | inr q ↦ rw (find_pending, q) (fresh_key json next ps l r)
    ]

pub delete_absent :
    (ps : List Pending) (key : Bytes) → find_pending ps key ≡ none → delete_pending ps key ≡ ps
unfolding find_pending delete_pending
delete_absent [] key h = refl
delete_absent (p ∷ ps) key h = elim (Bool-cases (same p.key key)) [
  | inl q ↦ let f : some p ≡ none = rw (find_pending, q) at h in cc
  | inr q ↦
      let f : find_pending ps key ≡ none = rw (find_pending, q) at h in
      rw (delete_pending, q) (ap (◌∷◌ p) (delete_absent ps key f))
]

pub length-delete : (ps : List Pending) (key : Bytes) → length (delete_pending ps key) ≤ length ps
unfolding delete_pending
length-delete [] key = omega arith
length-delete (p ∷ ps) key = ground (arith, length-delete ps key)

find-delete :
    (ps : List Pending) (key other : Bytes)
    → find_pending ps other ≡ none
    → find_pending (delete_pending ps key) other ≡ none
unfolding find_pending delete_pending
find-delete [] key other h = refl
find-delete (p ∷ ps) key other h = elim (Bool-cases (same p.key other)) [
  | inl o ↦ let f : some p ≡ none = rw (find_pending, o) at h in cc
  | inr o ↦
      let f : find_pending ps other ≡ none = rw (find_pending, o) at h in
      let ih = find-delete ps key other f in
      elim (Bool-cases (same p.key key)) [
        | inl q ↦ rw (delete_pending, q) ih
        | inr q ↦ rw (delete_pending, q, find_pending, o) ih
      ]
]

pub delete-AreDistinct :
    (ps : List Pending) (key : Bytes) → AreDistinct ps → AreDistinct (delete_pending ps key)
unfolding delete_pending
delete-AreDistinct [] key d = tt
delete-AreDistinct (p ∷ ps) key (n, d) = elim (Bool-cases (same p.key key)) [
  | inl q ↦ rw (delete_pending, q) (delete-AreDistinct ps key d)
  | inr q ↦ rw (delete_pending, q) (find-delete ps key p.key n, delete-AreDistinct ps key d)
]

pub delete-AreRouted :
    (json : Json) (next : ℕ) (ps : List Pending) (key : Bytes)
    → AreRouted json next ps
    → AreRouted json next (delete_pending ps key)
unfolding delete_pending
delete-AreRouted json next [] key r = tt
delete-AreRouted json next (p ∷ ps) key (a, i, r) = elim (Bool-cases (same p.key key)) [
  | inl q ↦ rw (delete_pending, q) (delete-AreRouted json next ps key r)
  | inr q ↦ rw (delete_pending, q) (a, i, delete-AreRouted json next ps key r)
]

pub length-send :
    (ps : List Pending) (key : Bytes) (m : Message) → length (send_answer ps key m) ≡ length ps
unfolding send_answer
length-send [] key m = refl
length-send (p ∷ ps) key m = ground (arith, length-send ps key m)

abbrev put : Pending → Message → Pending
put p m = elim p.answer [ none ↦ record { key = p.key; answer = some m } | some first ↦ p ]

key_put :
    (key : Bytes) (answer : Option Message) (m : Message)
    → (put (record { key = key; answer = answer }) m).key ≡ key
key_put key none m = refl
key_put key (some first) m = refl

find-send :
    (ps : List Pending) (key other : Bytes) (m : Message)
    → find_pending ps other ≡ none
    → find_pending (send_answer ps key m) other ≡ none
unfolding find_pending send_answer
find-send [] key other m h = refl
find-send (p ∷ ps) key other m h = elim (Bool-cases (same p.key other)) [
  | inl o ↦ let f : some p ≡ none = rw (find_pending, o) at h in cc
  | inr o ↦
      let f : find_pending ps other ≡ none = rw (find_pending, o) at h in
      elim (Bool-cases (same p.key key)) [
        | inl q ↦
            let k : same (put p m).key other ≡ false =
              ap (λ x. same x other) (key_put p.key p.answer m) ∙ o in
            rw (send_answer, q, find_pending, k) f
        | inr q ↦ rw (send_answer, q, find_pending, o) (find-send ps key other m f)
      ]
]

pub send-AreDistinct :
    (ps : List Pending) (key : Bytes) (m : Message)
    → AreDistinct ps
    → AreDistinct (send_answer ps key m)
unfolding send_answer
send-AreDistinct [] key m d = tt
send-AreDistinct (p ∷ ps) key m (n, d) = elim (Bool-cases (same p.key key)) [
  | inl q ↦ rw (send_answer, q) (ap (find_pending ps) (key_put p.key p.answer m) ∙ n, d)
  | inr q ↦ rw (send_answer, q) (find-send ps key p.key m n, send-AreDistinct ps key m d)
]

put-Answers :
    (json : Json) (key : Bytes) (answer : Option Message) (m : Message)
    → Answers json key answer
    → request_id_key json m.id ≡ some key
    → Answers json
        (put (record { key = key; answer = answer }) m).key
        (put (record { key = key; answer = answer }) m).answer
put-Answers json key none m a e = e
put-Answers json key (some first) m a e = a

pub send-AreRouted :
    (json : Json) (next : ℕ) (ps : List Pending) (key : Bytes) (m : Message)
    → request_id_key json m.id ≡ some key
    → AreRouted json next ps
    → AreRouted json next (send_answer ps key m)
unfolding send_answer
send-AreRouted json next [] key m e r = tt
send-AreRouted json next (p ∷ ps) key m e (a, (id, l, k), r) = elim (Bool-cases (same p.key key)) [
  | inl q ↦
      rw (send_answer, q)
        (
          put-Answers json p.key p.answer m a (e ∙ ap some (sym (same→eq p.key key q))),
          (id, l, key_put p.key p.answer m ∙ k),
          r,
        )
  | inr q ↦ rw (send_answer, q) (a, (id, l, k), send-AreRouted json next ps key m e r)
]

pub find-Answers :
    (json : Json) (next : ℕ) (ps : List Pending) (key : Bytes) (p : Pending)
    → AreRouted json next ps
    → find_pending ps key ≡ some p
    → Answers json key p.answer
unfolding find_pending
find-Answers json next [] key p r e = cc
find-Answers json next (x ∷ ps) key p (a, i, r) e = elim (Bool-cases (same x.key key)) [
  | inl q ↦
      let f : x ≡ p = some-injective _ _ (rw (find_pending, q) at e) in
      subst (λ p. Answers json key p.answer) f
        (subst (λ k. Answers json k x.answer) (same→eq x.key key q) a)
  | inr q ↦ find-Answers json next ps key p r (rw (find_pending, q) at e)
]

-- ===== src/Budget/Release.antt =====
-- internal/resourcebudget/memory.go: a reservation and its release.
use kotlsp.Prelude.{
  ℕ, ◌+◌, ◌≤◌, ◌<◌, ◌≡◌, refl, sym, ap, ◌∙◌, true, false, List, [], ◌∷◌, ◌++◌, none, some, Bytes,
  pos, ltb, leb, length, arith,
}
use kotlsp.Prelude.Int.{leb_ℤ}
use kotlsp.Budget.{Handle, reserve, admit, give_back, once, charge, tool_process_limit_bytes}
use kotlsp.Budget.Accounts.{current_of, current_of-charge, current_of-refund}
use kotlsp.Budget.Run.{System, acquire, attempt, release}

-- The function that is returned last, at its call and after it.
once-append :
    (hs : List Handle) (h : Handle)
    → h.released ≡ false
    → once (hs ++ (h ∷ [])) (length hs) ≡ some (h, hs ++ (record h { released = true } ∷ []))
unfolding once
once-append [] h e = rw (e) refl
once-append (g ∷ hs) h e = rw (once-append hs h e, once) refl

once_again :
    (hs : List Handle) (h : Handle) → h.released ≡ true → once (hs ++ (h ∷ [])) (length hs) ≡ none
unfolding once
once_again [] h e = rw (e) refl
once_again (g ∷ hs) h e = rw (once_again hs h e, once) refl

abbrev handle : Bytes → ℕ → Handle
handle component bytes = record { component = component; bytes = bytes; released = false }

-- The state with a reservation made, and the one with it released.
abbrev reserved : System → Bytes → ℕ → System
reserved s component bytes = record s {
  memory = reserve s.memory component bytes;
  handles = s.handles ++ (handle component bytes ∷ []);
}

abbrev returned : System → Bytes → ℕ → System
returned s component bytes = record s {
  memory = give_back (reserve s.memory component bytes) (handle component bytes);
  handles = s.handles ++ (record (handle component bytes) { released = true } ∷ []);
}

acquire-reserved :
    (s : System) (component : Bytes) (bytes : ℕ)
    → 0 < bytes
    → s.memory.current + bytes ≤ tool_process_limit_bytes
    → (acquire s component (pos bytes)).0 ≡ reserved s component bytes
unfolding acquire attempt admit
acquire-reserved s component bytes some_bytes room =
    let q : leb_ℤ (pos bytes) (pos 0) ≡ false = ground arith in
    let r : ltb tool_process_limit_bytes bytes ≡ false = ground arith in
    let t : leb (s.memory.current + bytes) tool_process_limit_bytes ≡ true = ground arith in
    rw (q, r, t, acquire, attempt, admit) refl

release-reserved :
    (s : System) (component : Bytes) (bytes : ℕ)
    → release (reserved s component bytes) (length s.handles) ≡ returned s component bytes
unfolding release
release-reserved s component bytes =
    rw (once-append s.handles (handle component bytes) refl, release) refl

release-returned :
    (s : System) (component : Bytes) (bytes : ℕ)
    → release (returned s component bytes) (length s.handles) ≡ returned s component bytes
unfolding release
release-returned s component bytes =
    rw (once_again s.handles (record (handle component bytes) { released = true }) refl, release)
      refl

-- The state after an admitted reservation of some bytes and a call of the function it returns.
abbrev pub acquire_release : System → Bytes → ℕ → System
acquire_release s component bytes = release (acquire s component (pos bytes)).0 (length s.handles)

-- A reservation that has room and is then released leaves the total and the usage of every
-- component as they were, and calling its function a second time changes nothing.
release-acquire :
    (s : System) (component : Bytes) (bytes : ℕ)
    → 0 < bytes
    → s.memory.current + bytes ≤ tool_process_limit_bytes
    → ((acquire_release s component bytes).memory.current ≡ s.memory.current)
      × ((name : Bytes)
          → current_of (acquire_release s component bytes).memory.components name
            ≡ current_of s.memory.components name)
      × (release (acquire_release s component bytes) (length s.handles)
          ≡ acquire_release s component bytes)
unfolding give_back reserve
release-acquire s component bytes some_bytes room =
    let end : acquire_release s component bytes ≡ returned s component bytes =
      rw (acquire-reserved s component bytes some_bytes room)
        (release-reserved s component bytes) in
    (
      ap (λ t. t.memory.current) end ∙ counted,
      λ name. ap (λ t. current_of t.memory.components name) end ∙ usage name,
      ap (λ t. release t (length s.handles)) end ∙ release-returned s component bytes ∙ sym end,
    )
  where
    counted : (returned s component bytes).memory.current ≡ s.memory.current
    counted = omega arith

    usage :
        (name : Bytes)
        → current_of (returned s component bytes).memory.components name
          ≡ current_of s.memory.components name
    usage name =
        let c = current_of-charge s.memory.components component name bytes in
        let r =
          current_of-refund (charge s.memory.components component bytes) component name bytes in
        ground arith

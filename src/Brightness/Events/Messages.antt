-- ===== src/Brightness/Events/Messages.antt =====
-- The messages are the bytes of the device, cut after every 24.
use mltk.Common.{
  ℕ, ◌+◌, ◌-◌, ◌≤◌, ◌<◌, ◌≡◌, refl, sym, ◌∙◌, ap, subst, true, List, [], ◌∷◌, ◌++◌, ◌==◌, length,
  length-append, length-take, take, drop, take-append-drop, min, append_assoc, append-nil, All,
  All-append, arith, Bool-cases, inl, inr, if_true, if_false,
}
use mltk.Brightness.Events.{
  Input, ready, interrupted, would_block, broken, Handled, handled, fd_loop, handle_fd,
}

abbrev pub IsMessage : List ℕ → Type 0
IsMessage m = length m ≡ 24

-- A read that finds something where there is something.
abbrev pub IsRead : Input → Type 0
IsRead (ready n) = 0 < n
IsRead interrupted = ⊥
IsRead would_block = ⊥
IsRead broken = ⊥

-- All messages one after the other.
unfoldable pub joined : List (List ℕ) → List ℕ
joined [] = []
joined (m ∷ ms) = m ++ joined ms

joined-append : (ms ns : List (List ℕ)) → joined (ms ++ ns) ≡ joined ms ++ joined ns
unfolding joined
joined-append [] ns = refl
joined-append (m ∷ ms) ns =
    ap (λ xs. m ++ xs) (joined-append ms ns) ∙ sym (append_assoc m (joined ms) (joined ns))

-- What is handled is whole messages, less than one is left, and together it is all there was.
pub IsCut : List ℕ → Handled → Type 0
IsCut all h =
    (messages : List (List ℕ)) × (rest : List ℕ) × (h ≡ handled messages true)
    × All IsMessage messages
    × (length rest < 24)
    × (joined messages ++ rest ≡ all)

put_back :
    (num : ℕ) (bytes part : List ℕ) (messages : List (List ℕ))
    → joined messages ++ ((part ++ take num bytes) ++ drop num bytes)
      ≡ joined messages ++ (part ++ bytes)
put_back num bytes part messages =
    ap (λ xs. joined messages ++ xs)
      (append_assoc part (take num bytes) (drop num bytes)
        ∙ ap (λ xs. part ++ xs) (take-append-drop num bytes))

rejoined :
    (num : ℕ) (bytes part : List ℕ) (messages : List (List ℕ))
    → joined (messages ++ (part ++ take num bytes) ∷ []) ++ drop num bytes
      ≡ joined messages ++ (part ++ bytes)
unfolding joined
rejoined num bytes part messages =
    let m : List ℕ = part ++ take num bytes in
    ap (λ xs. xs ++ drop num bytes)
      (joined-append messages (m ∷ []) ∙ ap (λ xs. joined messages ++ xs) (append-nil m))
    ∙ append_assoc (joined messages) m (drop num bytes)
    ∙ put_back num bytes part messages

fd_loop-IsCut :
    (reads more_inputs : List Input) (bytes part : List ℕ) (messages : List (List ℕ))
    → All IsRead reads
    → length bytes ≤ length reads
    → length part < 24
    → All IsMessage messages
    → IsCut
        (joined messages ++ (part ++ bytes))
        (fd_loop (reads ++ would_block ∷ more_inputs) bytes part messages)
unfolding fd_loop IsCut
fd_loop-IsCut [] more_inputs bytes part messages q enough short h =
    (messages, part ++ bytes, refl, h, omega (arith, length-append part bytes), refl)
fd_loop-IsCut (would_block ∷ reads) more_inputs bytes part messages q enough short h = absurd q.0
fd_loop-IsCut (broken ∷ reads) more_inputs bytes part messages q enough short h = absurd q.0
fd_loop-IsCut (interrupted ∷ reads) more_inputs bytes part messages q enough short h = absurd q.0
fd_loop-IsCut (ready n ∷ reads) more_inputs bytes part messages q enough short h =
    let num : ℕ = min n (24 - length part) in
    let fresh : List ℕ = take num bytes in
    let left : List ℕ = drop num bytes in
    let message : List ℕ = part ++ fresh in
    let all : List ℕ = joined messages ++ (part ++ bytes) in
    let inputs : List Input = reads ++ would_block ∷ more_inputs in
    let whole : Handled = fd_loop inputs left [] (messages ++ message ∷ []) in
    let more : Handled = fd_loop inputs left message messages in
    let size : length message ≡ length part + length fresh = length-append part fresh in
    let taken : length fresh ≡ min num (length bytes) = length-take num bytes in
    let both : length fresh + length left ≡ length bytes =
      sym (length-append fresh left) ∙ ap length (take-append-drop num bytes) in
    let positive : 0 < n = q.0 in
    elim (Bool-cases (length fresh == 0)) [
      | inl nothing ↦
          let nothing_read : length fresh ≡ 0 = ground arith in
          subst (λ r. IsCut all r) (sym (if_true _ _ (length fresh == 0) nothing))
            (messages, part ++ bytes, refl, h, omega (arith, length-append part bytes), refl)
      | inr fresh_read ↦
          let some_read : 0 < length fresh = ground arith in
          let fewer : length left ≤ length reads = omega arith in
          subst (λ r. IsCut all r) (sym (if_false _ _ (length fresh == 0) fresh_read))
            (elim (Bool-cases (length fresh + length part == 24)) [
              | inl full ↦
                  let is_message : IsMessage message = ground arith in
                  subst (λ r. IsCut all r)
                    (sym (if_true whole more (length fresh + length part == 24) full))
                    (subst (λ a. IsCut a whole) (rejoined num bytes part messages)
                      (fd_loop-IsCut reads more_inputs left [] (messages ++ message ∷ []) q.1 fewer
                        (omega arith)
                        (All-append IsMessage messages (message ∷ []) h (is_message, tt))))
              | inr partial ↦
                  let shorter : length message < 24 = ground arith in
                  subst (λ r. IsCut all r)
                    (sym (if_false whole more (length fresh + length part == 24) partial))
                    (subst (λ a. IsCut a more) (put_back num bytes part messages)
                      (fd_loop-IsCut reads more_inputs left message messages q.1 fewer shorter h))
            ])
    ]

-- If every read gives at least a byte as long as the device has some, and there are as many reads
-- as bytes before one would block, then however the reads cut them, the bytes of the device are
-- handled as messages of 24 bytes each in their order, only the last bytes that are less than a
-- message are not handled, and the device stays in use.
pub handle_fd-IsCut :
    (reads more_inputs : List Input) (bytes : List ℕ)
    → All IsRead reads
    → length bytes ≤ length reads
    → IsCut bytes (handle_fd (reads ++ would_block ∷ more_inputs) bytes)
unfolding handle_fd joined
handle_fd-IsCut reads more_inputs bytes q enough =
    fd_loop-IsCut reads more_inputs bytes [] [] q enough (omega arith) tt

-- ===== src/Socket/Sending.antt =====
-- TCP::send_raw of common/wivrn_sockets.cpp against the answers of `sendmsg`.
use wi_vrn.Common.{
  ℕ, zero, suc, ◌+◌, ◌-◌, ◌%◌, ◌^◌, ◌<◌, ◌≤◌, ◌≡◌, ◌≢◌, inl, inr, refl, sym, ap, ◌∙◌, List, [], ◌∷◌,
  ◌++◌, length, take, drop, concat, leb, false, arith, length-append, drop_all, length-drop,
  take-append-drop, take_all, drop-append, append-nil, append_assoc, Bool-cases,
}
use wi_vrn.Serial.Encoding.{bytes_of}
use wi_vrn.Socket.{
  Sent, sent, Progress, returned, waiting, threw, iovecs_of, consume, send_loop, send_raw,
}
use wi_vrn.Socket.Receiving.{frame}

drop_past : (n : ℕ) (xs ys : List ℕ) → length xs ≤ n → drop n (xs ++ ys) ≡ drop (n - length xs) ys
drop_past n [] ys h = let e : n - 0 ≡ n = omega arith in rw e
drop_past zero (x ∷ xs) ys h = absurd (omega arith)
drop_past (suc n) (x ∷ xs) ys h =
    let e : suc n - suc (length xs) ≡ n - length xs = omega arith in
    rw e (drop_past n xs ys (omega arith))

concat-consume : (n : ℕ) (vs : List (List ℕ)) → concat (consume n vs) ≡ drop n (concat vs)
unfolding consume
concat-consume n [] = sym (drop_all n [] (omega arith))
concat-consume n (v ∷ vs) = elim (Bool-cases (leb (length v) n)) [
  | inl whole ↦
      rw (whole, drop_past n v (concat vs) (ground arith)) (concat-consume (n - length v) vs)
  | inr part ↦ rw (part, drop-append n v (concat vs) (ground arith))
]

-- Iovecs are left only while bytes are left.
consume-nonempty : (n : ℕ) (vs : List (List ℕ)) → consume n vs ≢ [] → n < length (concat vs)
unfolding consume
consume-nonempty n [] h = absurd (h refl)
consume-nonempty n (v ∷ vs) h = elim (Bool-cases (leb (length v) n)) [
  | inl whole ↦
      let rest = consume-nonempty (n - length v) vs (λ e. h (rw (whole, e))) in
      omega (arith, length-append v (concat vs), rest)
  | inr part ↦ ground (arith, length-append v (concat vs))
]

consume-empty : (n : ℕ) (vs : List (List ℕ)) → consume n vs ≡ [] → length (concat vs) ≤ n
consume-empty n vs h =
    omega (arith, length-drop n (concat vs), ap length (sym (concat-consume n vs) ∙ ap concat h))

-- One round of the loop, whose `sendmsg` takes `n` bytes.
send_loop_step :
    (P : Progress × List ℕ → Type 0) (n : ℕ) (answers : List Sent) (vs : List (List ℕ))
    → 0 < n
    → (length (concat vs) ≤ n → P (returned, concat vs))
    → (n < length (concat vs)
        → P (
          (send_loop answers (consume n vs)).0,
          take n (concat vs) ++ (send_loop answers (consume n vs)).1,
        ))
    → P (send_loop (sent n ∷ answers) vs)
unfolding send_loop
send_loop_step P n answers vs h done more = go (consume n vs) refl
  where
    positive : leb n 0 ≡ false
    positive = ground arith

    go : (left : List (List ℕ)) → consume n vs ≡ left → P (send_loop (sent n ∷ answers) vs)
    go [] e =
        let small = consume-empty n vs e in
        rw (positive, e) (rw (take_all n (concat vs) small) (done small))
    go (w ∷ ws) e = let large = consume-nonempty n vs (λ z. cc) in rw (positive, e) (more large)

-- Answers that are byte counts, none of them 0.
abbrev pub AllSent : List Sent → Type 0
AllSent [] = Unit
AllSent (Sent.failed ∷ answers) = ⊥
AllSent (sent n ∷ answers) = (0 < n) × AllSent answers

send_loop_complete :
    (answers : List Sent) (vs : List (List ℕ))
    → AllSent answers
    → 0 < length (concat vs)
    → length (concat vs) ≤ length answers
    → send_loop answers vs ≡ (returned, concat vs)
send_loop_complete [] vs a p enough = absurd (omega arith)
send_loop_complete (Sent.failed ∷ answers) vs a p enough = absurd a
send_loop_complete (sent n ∷ answers) vs a p enough =
    send_loop_step (λ r. r ≡ (returned, concat vs)) n answers vs a.0 (λ h. refl)
      λ h.
        let left = consume n vs in
        let size : length (concat left) ≡ length (concat vs) - n =
          ap length (concat-consume n vs) ∙ length-drop n (concat vs) in
        rw (send_loop_complete answers left a.1 (omega (arith, size)) (omega (arith, size)))
          (rw (concat-consume n vs, take-append-drop n (concat vs)))

-- For a message below 64 KiB, whatever its spans, `send_raw` returns once `sendmsg` was answered
-- as often as the message and its size have bytes, each answer taking at least one byte; by then
-- exactly the frame of the message went out.
pub send_raw-frame :
    (answers : List Sent) (spans : List (List ℕ))
    → length (concat spans) < 2 ^ 16
    → AllSent answers
    → length (concat spans) + 2 ≤ length answers
    → send_raw answers spans ≡ (returned, frame (concat spans))
unfolding send_raw iovecs_of
send_raw-frame answers spans small a enough =
    let total = length (concat spans) in
    let e : total % 2 ^ 16 ≡ total = omega arith in
    rw e (send_loop_complete answers (bytes_of 2 total ∷ spans) a (omega arith) (omega arith))

-- Of a call that returned, what went out is the whole message.
abbrev pub IsWhole : List ℕ → Progress → List ℕ → Type 0
IsWhole whole returned out = out ≡ whole
IsWhole whole waiting out = Unit
IsWhole whole (threw e) out = Unit

-- What went out is the beginning of the message.
abbrev pub IsBeginning : List ℕ → Progress × List ℕ → Type 0
IsBeginning whole r = ((rest : List ℕ) × (r.1 ++ rest ≡ whole)) × IsWhole whole r.0 r.1

IsWhole-front :
    (p : Progress) (front left whole out : List ℕ)
    → front ++ left ≡ whole
    → IsWhole left p out
    → IsWhole whole p (front ++ out)
IsWhole-front returned front left whole out e h = ap (◌++◌ front) h ∙ e
IsWhole-front waiting front left whole out e h = tt
IsWhole-front (threw x) front left whole out e h = tt

send_loop-IsBeginning :
    (answers : List Sent) (vs : List (List ℕ)) → IsBeginning (concat vs) (send_loop answers vs)
send_loop-IsBeginning [] vs = unfold send_loop in ((concat vs, refl), tt)
send_loop-IsBeginning (Sent.failed ∷ answers) vs = unfold send_loop in ((concat vs, refl), tt)
send_loop-IsBeginning (sent zero ∷ answers) vs = unfold send_loop in ((concat vs, refl), tt)
send_loop-IsBeginning (sent (suc n) ∷ answers) vs =
    send_loop_step (IsBeginning (concat vs)) (suc n) answers vs (omega arith)
      (λ h. (([], append-nil (concat vs)), refl))
      λ h.
        let later = send_loop answers (consume (suc n) vs) in
        let ((rest, e), all) = send_loop-IsBeginning answers (consume (suc n) vs) in
        let front = take (suc n) (concat vs) in
        let whole : front ++ concat (consume (suc n) vs) ≡ concat vs =
          ap (◌++◌ front) (concat-consume (suc n) vs) ∙ take-append-drop (suc n) (concat vs) in
        (
          (rest, append_assoc front _ rest ∙ ap (◌++◌ front) e ∙ whole),
          IsWhole-front later.0 front (concat (consume (suc n) vs)) (concat vs) later.1 whole all,
        )

-- Whatever `sendmsg` answers, errors included, what went out is the beginning of the message with
-- its size, and it is the whole of it if `send_raw` returned.
pub send_raw-IsBeginning :
    (answers : List Sent) (spans : List (List ℕ))
    → IsBeginning
        (bytes_of 2 (length (concat spans) % 2 ^ 16) ++ concat spans)
        (send_raw answers spans)
unfolding send_raw iovecs_of
send_raw-IsBeginning answers spans =
    send_loop-IsBeginning answers (bytes_of 2 (length (concat spans) % 2 ^ 16) ∷ spans)

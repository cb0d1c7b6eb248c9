-- ===== src/Decoding/Ffmpeg/Answers.antt =====
-- `frame_completed` of client/decoder/ffmpeg/ffmpeg_decoder.cpp ends when FFmpeg stops asking to be asked
-- again: the fuel of the loop is no limit.

use wi_vrn.Common.{
  ℕ, zero, suc, ◌<◌, ◌≤◌, ◌≡◌, refl, List, [], ◌∷◌, ◌++◌, Bool, length, arith, Option-cases,
  Bool-cases, inl, inr,
}
use wi_vrn.Decoding.Ffmpeg.{
  Decoder, Answer, sent, try_again, not_sent, received, no_frame_yet, not_received, Outcome,
  returned, thrown, unanswered, pop_back, fill_image, take_image, receive_frame, send_loop,
  frame_completed,
}

-- A call that returns leaves some of the answers.
abbrev Leaves : ℕ → Outcome → Type 0
Leaves n (returned d left) = length left ≤ n
Leaves n (thrown d) = Unit {0}
Leaves n (unanswered d) = Unit {0}

Leaves-more : (n m : ℕ) (o : Outcome) → n ≤ m → Leaves n o → Leaves m o
Leaves-more n m (returned d left) le h = omega arith
Leaves-more n m (thrown d) le h = tt
Leaves-more n m (unanswered d) le h = tt

take_image-Leaves :
    (has_scene scaled : Bool) (more : List Answer) (d : Decoder)
    → Leaves (length more) (take_image has_scene scaled more d)
unfolding take_image fill_image
take_image-Leaves has_scene scaled more d = elim (Option-cases (pop_back d.free_images)) [
  | inl n ↦ rw (n, take_image) (omega arith)
  | inr ((front, last), e) ↦
      rw (e, take_image) (elim (Bool-cases scaled) [ inl y ↦ rw y (omega arith) | inr n ↦ rw n tt ])
]

receive_frame-Leaves :
    (has_scene : Bool) (a : Answer) (more : List Answer) (d : Decoder)
    → Leaves (length more) (receive_frame has_scene a more d)
unfolding receive_frame
receive_frame-Leaves has_scene a more d =
    elim (a.receiving)
      as (λ r. Leaves (length more) (elim r [
        | no_frame_yet ↦ returned d more
        | not_received ↦ thrown d
        | received ↦ take_image has_scene a.scaled more (record d { packet = [] })
      ])) [
        | no_frame_yet ↦ omega arith
        | not_received ↦ tt
        | received ↦ take_image-Leaves has_scene a.scaled more (record d { packet = [] })
      ]

again-Leaves :
    (n : ℕ) (o : Outcome) (next : List Answer → Decoder → Outcome)
    → Leaves n o
    → ((left : List Answer) (d : Decoder) → length left ≤ n → Leaves n (next left d))
    → Leaves n (elim o [
      | returned d left ↦ next left d
      | thrown d ↦ thrown d
      | unanswered d ↦ unanswered d
    ])
again-Leaves n (returned d left) next h all = all left d h
again-Leaves n (thrown d) next h all = tt
again-Leaves n (unanswered d) next h all = tt

send_loop-Leaves :
    (fuel : ℕ) (has_scene : Bool) (bytes : List ℕ) (answers : List Answer) (d : Decoder)
    → Leaves (length answers) (send_loop fuel has_scene bytes answers d)
unfolding send_loop
send_loop-Leaves zero has_scene bytes answers d = tt
send_loop-Leaves (suc fuel) has_scene bytes [] d = tt
send_loop-Leaves (suc fuel) has_scene bytes (a ∷ more) d =
    let d' = record d { sent_packets = d.sent_packets ++ (bytes ∷ []) } in
    let inner = send_loop fuel has_scene d.packet more d' in
    elim (a.sending)
      as (λ s. Leaves (suc (length more)) (elim s [
        | not_sent ↦ thrown d'
        | sent ↦ receive_frame has_scene a more d'
        | try_again ↦ elim (send_loop fuel has_scene d.packet more d') [
          | returned d'' left ↦ send_loop fuel has_scene bytes left d''
          | thrown d'' ↦ thrown d''
          | unanswered d'' ↦ unanswered d''
        ]
      ])) [
        | not_sent ↦ tt
        | sent ↦
            Leaves-more (length more) (suc (length more)) (receive_frame has_scene a more d')
              (omega arith) (receive_frame-Leaves has_scene a more d')
        | try_again ↦
            again-Leaves (suc (length more)) inner
              (λ left d''. send_loop fuel has_scene bytes left d'')
              (Leaves-more (length more) (suc (length more)) inner (omega arith)
                (send_loop-Leaves fuel has_scene d.packet more d'))
              (λ left d'' le.
                Leaves-more (length left) (suc (length more))
                  (send_loop fuel has_scene bytes left d'') le
                  (send_loop-Leaves fuel has_scene bytes left d''))
      ]

again-same :
    (n : ℕ) (o o' : Outcome) (next next' : List Answer → Decoder → Outcome)
    → o ≡ o'
    → Leaves n o'
    → ((left : List Answer) (d : Decoder) → length left ≤ n → next left d ≡ next' left d)
    → elim o [ returned d left ↦ next left d | thrown d ↦ thrown d | unanswered d ↦ unanswered d ]
      ≡ elim o' [
        | returned d left ↦ next' left d
        | thrown d ↦ thrown d
        | unanswered d ↦ unanswered d
      ]
again-same n o (returned d left) next next' e h all = rw e (all left d h)
again-same n o (thrown d) next next' e h all = rw e refl
again-same n o (unanswered d) next next' e h all = rw e refl

-- Any fuel above the number of answers gives the same.
send_loop-fuel :
    (fuel fuel' : ℕ) (has_scene : Bool) (bytes : List ℕ) (answers : List Answer) (d : Decoder)
    → length answers < fuel
    → length answers < fuel'
    → send_loop fuel has_scene bytes answers d ≡ send_loop fuel' has_scene bytes answers d
unfolding send_loop
send_loop-fuel zero fuel' has_scene bytes answers d few few' = absurd (omega arith)
send_loop-fuel (suc fuel) zero has_scene bytes answers d few few' = absurd (omega arith)
send_loop-fuel (suc fuel) (suc fuel') has_scene bytes [] d few few' = refl
send_loop-fuel (suc fuel) (suc fuel') has_scene bytes (a ∷ more) d few few' =
    let d' = record d { sent_packets = d.sent_packets ++ (bytes ∷ []) } in
    elim (a.sending)
      as (λ s.
        elim s [
          | not_sent ↦ thrown d'
          | sent ↦ receive_frame has_scene a more d'
          | try_again ↦ elim (send_loop fuel has_scene d.packet more d') [
            | returned d'' left ↦ send_loop fuel has_scene bytes left d''
            | thrown d'' ↦ thrown d''
            | unanswered d'' ↦ unanswered d''
          ]
        ]
        ≡ elim s [
          | not_sent ↦ thrown d'
          | sent ↦ receive_frame has_scene a more d'
          | try_again ↦ elim (send_loop fuel' has_scene d.packet more d') [
            | returned d'' left ↦ send_loop fuel' has_scene bytes left d''
            | thrown d'' ↦ thrown d''
            | unanswered d'' ↦ unanswered d''
          ]
        ]) [
          | not_sent ↦ refl
          | sent ↦ refl
          | try_again ↦
              again-same (length more) (send_loop fuel has_scene d.packet more d')
                (send_loop fuel' has_scene d.packet more d')
                (λ left d''. send_loop fuel has_scene bytes left d'')
                (λ left d''. send_loop fuel' has_scene bytes left d'')
                (send_loop-fuel fuel fuel' has_scene d.packet more d' (omega arith) (omega arith))
                (send_loop-Leaves fuel' has_scene d.packet more d')
                (λ left d'' le.
                  send_loop-fuel fuel fuel' has_scene bytes left d'' (omega arith) (omega arith))
        ]

-- So `frame_completed` is the loop with any fuel that is enough.
frame_completed-fuel :
    (fuel : ℕ) (has_scene : Bool) (answers : List Answer) (d : Decoder)
    → length answers < fuel
    → frame_completed has_scene answers d ≡ send_loop fuel has_scene d.packet answers d
unfolding frame_completed
frame_completed-fuel fuel has_scene answers d few =
    send_loop-fuel (suc (length answers)) fuel has_scene d.packet answers d (omega arith) few

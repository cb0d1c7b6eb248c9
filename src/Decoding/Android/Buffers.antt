-- ===== src/Decoding/Android/Buffers.antt =====
-- The input buffers that `push_nals` of client/decoder/android/android_decoder.cpp fills.

use wi_vrn.Common.{
  ℕ, ◌+◌, ◌≤◌, ◌<◌, ◌≡◌, ◌↔◌, ◌⊎◌, refl, ap, ◌∙◌, inl, inr, List, [], ◌∷◌, ◌++◌, none, some, Bool,
  false, ltb, if◌then◌else◌, length, concat, All, arith, Bool-cases, ok, err, runtime_error,
  length-append, ltb→lt,
}
use wi_vrn.Queue.{done, pop, with_front}
use wi_vrn.Decoding.Android.{
  Decoder, Call, memcpy, queue_input_buffer, send_feedback, push_blit_handle, copy_spans,
  finish_input, push_nals,
}

-- The calls write the spans into the buffer, one behind the other, from the offset on.
abbrev pub Copies : ℕ → ℕ → List (List ℕ) → List Call → Type 0
Copies buffer offset [] calls = calls ≡ []
Copies buffer offset (span ∷ spans) calls =
    (later : List Call) × ((calls ≡ memcpy buffer offset span ∷ later)
      × Copies buffer (offset + length span) spans later)

-- Where a call stops writing.
abbrev pub end_of : Call → ℕ
end_of (memcpy buffer offset bytes) = offset + length bytes
end_of (queue_input_buffer buffer size timestamp partial) = 0
end_of (send_feedback f) = 0
end_of (push_blit_handle info) = 0

abbrev pub AreInside : ℕ → List Call → Type 0
AreInside size calls = All (λ c. end_of c ≤ size) calls

abbrev pub Fit : ℕ → List (List ℕ) → Type 0
Fit size spans = All (λ span. length span ≤ size) spans

-- The spans before the first one that is larger than the buffer, and that one.
abbrev pub Skips : ℕ → List (List ℕ) → List (List ℕ) → Type 0
Skips size spans fitting =
    (large : List ℕ) × (more : List (List ℕ)) × ((spans ≡ fitting ++ (large ∷ more))
      × ((size < length large) × Fit size fitting))

Copied : ℕ → ℕ → ℕ → List (List ℕ) → Type 0
Copied size buffer offset spans =
    (calls : List Call) × (Copies buffer offset spans calls
      × (copy_spans size buffer offset spans ≡ (calls, some (offset + length (concat spans)))))

Stopped : ℕ → ℕ → ℕ → List (List ℕ) → Type 0
Stopped size buffer offset spans =
    (fitting : List (List ℕ)) × (calls : List Call) × (Skips size spans fitting
      × (Copies buffer offset fitting calls
          × (copy_spans size buffer offset spans ≡ (calls, none))))

copy_spans-outcome :
    (size buffer offset : ℕ) (spans : List (List ℕ))
    → (Fit size spans × Copied size buffer offset spans) ⊎ Stopped size buffer offset spans
unfolding Copied Stopped copy_spans
copy_spans-outcome size buffer offset [] =
    let e : offset ≡ offset + 0 = omega arith in inl (tt, ([], (refl, λ i. ([], some (e i)))))
copy_spans-outcome size buffer offset (span ∷ spans) = elim (Bool-cases (ltb size (length span))) [
  | inl t ↦ inr ([], [], ((span, spans, (refl, (ltb→lt _ _ t, tt))), (refl, rw t refl)))
  | inr f ↦
      let fits : length span ≤ size = ground arith in
      elim (copy_spans-outcome size buffer (offset + length span) spans) [
        | inl (all, (calls, (copies, run))) ↦
            let e : offset + length span + length (concat spans)
                ≡ offset + length (concat (span ∷ spans)) =
              omega (arith, length-append span (concat spans)) in
            inl (
              (fits, all),
              (
                memcpy buffer offset span ∷ calls,
                (
                  (calls, (refl, copies)),
                  rw (f, run) (λ i. (memcpy buffer offset span ∷ calls, some (e i))),
                ),
              ),
            )
        | inr (fitting, calls, ((large, more, (e, (l, all))), (copies, run))) ↦ inr (
          span ∷ fitting,
          memcpy buffer offset span ∷ calls,
          (
            (large, more, (ap (◌∷◌ span) e, (l, (fits, all)))),
            ((calls, (refl, copies)), rw (f, run) refl),
          ),
        )
      ]
]

inside_total :
    (size buffer offset : ℕ) (spans : List (List ℕ)) (calls : List Call)
    → Copies buffer offset spans calls
    → offset ≤ size
    → AreInside size calls
    → offset + length (concat spans) ≤ size
inside_total size buffer offset [] calls copies h a = omega arith
inside_total size buffer offset (span ∷ spans) calls (later, (e, copies)) h a =
    let a' : AreInside size (memcpy buffer offset span ∷ later) = rw e at a in
    omega (
      arith,
      length-append span (concat spans),
      inside_total size buffer (offset + length span) spans later copies a'.0 a'.1,
    )

total_inside :
    (size buffer offset : ℕ) (spans : List (List ℕ)) (calls : List Call)
    → Copies buffer offset spans calls
    → offset + length (concat spans) ≤ size
    → AreInside size calls
total_inside size buffer offset [] calls copies h = rw copies tt
total_inside size buffer offset (span ∷ spans) calls (later, (e, copies)) h =
    let split = length-append span (concat spans) in
    rw e (
      omega arith,
      total_inside size buffer (offset + length span) spans later copies (omega arith),
    )

push_nals-popped :
    (sizes : ℕ → ℕ) (accepts : Bool) (spans : List (List ℕ)) (timestamp : ℕ) (partial : Bool)
    (d : Decoder) (buffer : ℕ) (rest : List ℕ)
    → d.input_buffers ≡ record { queue = buffer ∷ rest; closed = false }
    → push_nals sizes accepts spans timestamp partial d ≡ (
        let finished =
          finish_input accepts buffer timestamp partial
            (copy_spans (sizes buffer) buffer 0 spans) in
        done (
          record d { input_buffers = record { queue = rest; closed = false } },
          finished.0,
          finished.1,
        ))
unfolding push_nals pop with_front
push_nals-popped sizes accepts spans timestamp partial d buffer rest e = rw e refl

-- `push_nals` with a buffer at hand. Either no span alone is larger than the buffer: then it writes
-- them into it one behind the other and hands it to the codec with their whole size, and the writes
-- stay inside the buffer exactly if that whole size does. Or one is: then it writes those before
-- the first such, and hands nothing to the codec, and the buffer is in the queue no more.
pub push_nals-outcome :
    (sizes : ℕ → ℕ) (accepts : Bool) (spans : List (List ℕ)) (timestamp : ℕ) (partial : Bool)
    (d : Decoder) (buffer : ℕ) (rest : List ℕ)
    → d.input_buffers ≡ record { queue = buffer ∷ rest; closed = false }
    → let d' = record d { input_buffers = record { queue = rest; closed = false } } in
      let total = length (concat spans) in
      (Fit (sizes buffer) spans
        × ((calls : List Call) × (Copies buffer 0 spans calls
              × ((push_nals sizes accepts spans timestamp partial d
                    ≡ done (
                      d',
                      calls ++ (queue_input_buffer buffer total timestamp partial ∷ []),
                      if accepts then ok tt else err runtime_error,
                    ))
                  × (AreInside (sizes buffer) calls ↔ (total ≤ sizes buffer))))))
      ⊎ ((fitting : List (List ℕ)) × (calls : List Call) × (Skips (sizes buffer) spans fitting
            × (Copies buffer 0 fitting calls
                × (push_nals sizes accepts spans timestamp partial d ≡ done (d', calls, ok tt)))))
unfolding Copied Stopped finish_input
push_nals-outcome sizes accepts spans timestamp partial d buffer rest e =
    let popped = push_nals-popped sizes accepts spans timestamp partial d buffer rest e in
    elim (copy_spans-outcome (sizes buffer) buffer 0 spans) [
      | inl (all, (calls, (copies, run))) ↦
          let zeroed : 0 + length (concat spans) ≡ length (concat spans) = omega arith in
          inl (
            all,
            (
              calls,
              (
                copies,
                (
                  popped ∙ rw (run, zeroed) refl,
                  (
                    λ a.
                        rw zeroed at
                          (inside_total (sizes buffer) buffer 0 spans calls copies (omega arith) a),
                    λ t. total_inside (sizes buffer) buffer 0 spans calls copies (omega arith),
                  ),
                ),
              ),
            ),
          )
      | inr (fitting, calls, (skips, (copies, run))) ↦
          inr (fitting, calls, (skips, (copies, popped ∙ rw run refl)))
    ]

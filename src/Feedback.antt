-- ===== src/Feedback.antt =====
-- `on_feedback` and `reset_encoders` of server/driver/wivrn_comp_target.cpp: which encoders are
-- asked to synchronise. An access outside the list of encoders is undefined in the source.

mod Runs
use wi_vrn.Common.{
  ℕ, zero, suc, ◌+◌, ◌<◌, ◌≤◌, ◌≡◌, ◌↔◌, refl, List, [], ◌∷◌, Option, none, some, Bool, true, false,
  if◌then◌else◌, ltb, ◌==◌, length, set, get_elem?, map, arith, Option-cases, Bool-cases, inl, inr,
}
use wi_vrn.Video.Encoder.{Encoder, sync_requested}
use wi_vrn.Video.Accumulator.{Feedback}

pub data Access {ℓ} (A : Type ℓ) : Type ℓ where
  valid : A → Access A
  out_of_bounds : Access A

-- `encoders[i]->SyncNeeded()`
unfoldable pub sync_encoder : ℕ → List Encoder → Access (List Encoder)
sync_encoder i encoders = elim (get_elem? encoders i) [
  | none ↦ out_of_bounds
  | some e ↦ valid (set encoders i (sync_requested e))
]

-- `offset_known` is whether the clock offset is, which `on_feedback` asks for again; the pacer is
-- in Pacer.
unfoldable pub on_feedback : Bool → Feedback → List Encoder → Access (List Encoder)
unfolding sync_encoder
on_feedback offset_known feedback encoders =
    if offset_known
    then (if feedback.sent_to_decoder == 0
        then (if ltb (length encoders) feedback.stream_index
            then valid encoders
            else sync_encoder feedback.stream_index encoders)
        else valid encoders)
    else valid encoders

unfoldable pub reset_encoders : List Encoder → List Encoder
reset_encoders = map sync_requested

get_elem?-inside :
    (es : List Encoder) (i : ℕ) → i < length es → (e : Encoder) × (get_elem? es i ≡ some e)
get_elem?-inside [] i h = elim h [ ]
get_elem?-inside (e ∷ es) zero h = (e, refl)
get_elem?-inside (e ∷ es) (suc i) h = get_elem?-inside es i (omega arith)

get_elem?-outside : (es : List Encoder) (i : ℕ) → length es ≤ i → get_elem? es i ≡ none
get_elem?-outside [] i h = refl
get_elem?-outside (e ∷ es) zero h = absurd (omega arith)
get_elem?-outside (e ∷ es) (suc i) h = get_elem?-outside es i (omega arith)

on_feedback-ignored :
    (feedback : Feedback) (encoders : List Encoder)
    → length encoders < feedback.stream_index
    → on_feedback true feedback encoders ≡ valid encoders
unfolding on_feedback
on_feedback-ignored feedback encoders outside =
    let u : ltb (length encoders) feedback.stream_index ≡ true = ground arith in
    elim (Bool-cases (feedback.sent_to_decoder == 0)) [ inl t ↦ rw (t, u) refl | inr f ↦ rw f refl ]

on_feedback-past :
    (feedback : Feedback) (encoders : List Encoder)
    → feedback.sent_to_decoder ≡ 0
    → feedback.stream_index ≡ length encoders
    → on_feedback true feedback encoders ≡ out_of_bounds
unfolding on_feedback
on_feedback-past feedback encoders lost here =
    let t : (feedback.sent_to_decoder == 0) ≡ true = ground arith in
    let u : ltb (length encoders) feedback.stream_index ≡ false = ground arith in
    let p : get_elem? encoders feedback.stream_index ≡ none =
      get_elem?-outside encoders feedback.stream_index (omega arith) in
    rw (t, u) rw (p, sync_encoder) refl

-- Once the clock offset is known, feedback that a frame was not decoded, for a stream that has an
-- encoder, asks exactly that encoder to synchronise.
pub on_feedback-inside :
    (feedback : Feedback) (encoders : List Encoder)
    → feedback.sent_to_decoder ≡ 0
    → feedback.stream_index < length encoders
    → (e : Encoder) × (get_elem? encoders feedback.stream_index ≡ some e)
      × (on_feedback true feedback encoders
          ≡ valid (set encoders feedback.stream_index (sync_requested e)))
unfolding on_feedback
on_feedback-inside feedback encoders lost inside =
    let (e, p) = get_elem?-inside encoders feedback.stream_index inside in
    let t : (feedback.sent_to_decoder == 0) ≡ true = ground arith in
    let u : ltb (length encoders) feedback.stream_index ≡ false = ground arith in
    (e, p, rw (t, u) rw (p, sync_encoder) refl)

-- The guard of `on_feedback` lets one index too many through: an access outside the list of
-- encoders happens for feedback of a frame that was not decoded, with the offset known, exactly
-- if the stream index that the headset sent is the number of encoders.
pub on_feedback-out_of_bounds :
    (feedback : Feedback) (encoders : List Encoder)
    → feedback.sent_to_decoder ≡ 0
    → (on_feedback true feedback encoders ≡ out_of_bounds)
      ↔ (feedback.stream_index ≡ length encoders)
on_feedback-out_of_bounds feedback encoders lost = (
  (λ p.
      let not_inside : feedback.stream_index < length encoders → ⊥ =
        λ less. let (e, q, r) = on_feedback-inside feedback encoders lost less in cc in
      let not_past : length encoders < feedback.stream_index → ⊥ =
        λ more. let q = on_feedback-ignored feedback encoders more in cc in
      ground (arith, not_inside, not_past)),
  on_feedback-past feedback encoders lost,
)

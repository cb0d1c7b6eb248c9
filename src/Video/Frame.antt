-- ===== src/Video/Frame.antt =====
-- A whole frame from the encoder to the decoder.
use wi_vrn.Common.{
  ℕ, suc, ◌+◌, ◌^◌, ◌<◌, ◌≡◌, refl, sym, ap, ◌∙◌, List, [], ◌∷◌, ◌++◌, some, Bool, true, false,
  ◌&&◌, arith, length, length-append, concat, concat-append, map, All, append-nil,
}
use mathlib.Core.Path.{subst}
use mathlib.Core.List.{map-append}
use wi_vrn.Video.Shard.{Shard, ViewInfo, no_timing, IsTrain, is_nil}
use wi_vrn.Video.Encoder.{Encoder, encode, send_data, send_loop, fill}
use wi_vrn.Video.Encoder.Split.{send_data-concat, send_data-IsTrain}
use wi_vrn.Video.Accumulator.{
  Accumulator, Feedback, push_data, frame_completed, frame_index, push_all, payloads, timing_of,
}
use wi_vrn.Video.Accumulator.AnyOrder.{AreOf, Distinct, push_all-frame}

-- The calls of `SendData` that an encoder makes for one frame, each with its time; the last one
-- ends the frame.
unfoldable pub send_slices : List (List ℕ × ℕ) → Encoder → List Shard × Encoder
send_slices [] e = ([], e)
send_slices (s ∷ []) e = send_data s.0 true s.1 e
send_slices (s ∷ t ∷ slices) e =
    let (outs, e') = send_data s.0 false s.1 e in
    let (later, e'') = send_slices (t ∷ slices) e' in (outs ++ later, e'')

abbrev pub bytes_of_slices : List (List ℕ × ℕ) → List ℕ
bytes_of_slices slices = concat (map (λ s. s.0) slices)

abbrev pub AreNonempty : List (List ℕ × ℕ) → Type 0
AreNonempty = All (λ s. 0 < length s.0)

IsTrain-append :
    (frame start : ℕ) (final : Bool) (xs : List Shard) (ys : List Shard)
    → is_nil ys ≡ false
    → IsTrain frame false start xs
    → IsTrain frame final (start + length xs) ys
    → IsTrain frame final start (xs ++ ys)
IsTrain-append frame start final [] ys n h k =
    let e : start + 0 ≡ start = omega arith in subst (λ i. IsTrain frame final i ys) e k
IsTrain-append frame start final (x ∷ xs) ys n h k =
    let e : start + suc (length xs) ≡ start + 1 + length xs = omega arith in
    (
      h.0,
      h.1,
      h.2 ∙ unmarked final (is_nil-append xs ys n),
      IsTrain-append frame (start + 1) final xs ys n h.3
          (subst (λ i. IsTrain frame final i ys) e k),
    )
  where
    is_nil-append : (us vs : List Shard) → is_nil vs ≡ false → is_nil (us ++ vs) ≡ false
    is_nil-append [] vs p = p
    is_nil-append (u ∷ us) vs p = refl

    unmarked : (b : Bool) → is_nil (xs ++ ys) ≡ false → false ≡ (b && is_nil (xs ++ ys))
    unmarked true p = sym p
    unmarked false p = refl

-- The first shard carries the template's position information.
send_data-first :
    (bytes : List ℕ) (ends : Bool) (now : ℕ) (e : Encoder)
    → 0 < length bytes
    → (s : Shard) × (ss : List Shard) × ((send_data bytes ends now e).0 ≡ s ∷ ss)
      × (s.view_info ≡ e.shard.view_info)
unfolding send_data send_loop fill
send_data-first [] ends now e h = absurd (omega arith)
send_data-first (b ∷ bs) ends now e h = (_, _, refl, refl)

pub send_slices-concat :
    (slices : List (List ℕ × ℕ)) (e : Encoder)
    → concat (payloads (send_slices slices e).0) ≡ bytes_of_slices slices
unfolding send_slices
send_slices-concat [] e = refl
send_slices-concat (s ∷ []) e = (send_data-concat s.0 true s.1 e).0 ∙ sym (append-nil s.0)
send_slices-concat (s ∷ t ∷ slices) e =
    let (outs, e') = send_data s.0 false s.1 e in
    ap concat (map-append (λ (o : Shard). o.payload) outs (send_slices (t ∷ slices) e').0)
    ∙ concat-append (payloads outs) (payloads (send_slices (t ∷ slices) e').0)
    ∙ ap (λ xs. xs ++ concat (payloads (send_slices (t ∷ slices) e').0))
        (send_data-concat s.0 false s.1 e).0
    ∙ ap (◌++◌ s.0) (send_slices-concat (t ∷ slices) e')

send_slices-first :
    (slices : List (List ℕ × ℕ)) (e : Encoder)
    → AreNonempty slices
    → 0 < length slices
    → (s : Shard) × (ss : List Shard) × ((send_slices slices e).0 ≡ s ∷ ss)
      × (s.view_info ≡ e.shard.view_info)
unfolding send_slices
send_slices-first [] e h k = absurd (omega arith)
send_slices-first (s ∷ []) e h k = send_data-first s.0 true s.1 e h.0
send_slices-first (s ∷ t ∷ slices) e h k =
    let (u, us, p, q) = send_data-first s.0 false s.1 e h.0 in
    (
      u,
      us ++ (send_slices (t ∷ slices) (send_data s.0 false s.1 e).1).0,
      ap (λ xs. xs ++ (send_slices (t ∷ slices) (send_data s.0 false s.1 e).1).0) p,
      q,
    )

send_slices-IsTrain :
    (slices : List (List ℕ × ℕ)) (e : Encoder)
    → AreNonempty slices
    → 0 < length slices
    → e.shard.shard_idx + length (send_slices slices e).0 < 2 ^ 16
    → IsTrain e.shard.frame_idx true e.shard.shard_idx (send_slices slices e).0
unfolding send_slices
send_slices-IsTrain [] e h k small = absurd (omega arith)
send_slices-IsTrain (s ∷ []) e h k small = (send_data-IsTrain s.0 true s.1 e small).0
send_slices-IsTrain (s ∷ t ∷ slices) e h k small =
    let outs = (send_data s.0 false s.1 e).0 in
    let e' = (send_data s.0 false s.1 e).1 in
    let later = (send_slices (t ∷ slices) e').0 in
    let (train, count, frame) =
      send_data-IsTrain s.0 false s.1 e (omega (arith, length-append outs later)) in
    let (u, us, p, q) = send_slices-first (t ∷ slices) e' h.1 (omega arith) in
    IsTrain-append e.shard.frame_idx e.shard.shard_idx true outs later (ap is_nil p) train (
      subst (λ f. IsTrain f true (e.shard.shard_idx + length outs) later) frame
        (subst (λ i. IsTrain e'.shard.frame_idx true i later) count
          (send_slices-IsTrain (t ∷ slices) e' h.1 (omega arith)
            (omega (arith, count, length-append outs later)))))

-- What `Encode` prepares for the shards of its frame.
encode-shard :
    (e : Encoder) (view : ViewInfo) (frame now : ℕ)
    → let b = (encode e view frame now).0 in
      (b.shard.view_info ≡ some view) × (b.shard.frame_idx ≡ frame) × (b.shard.shard_idx ≡ 0)
unfolding encode
encode-shard e view frame now = (refl, refl, refl)

-- From the encoder's slices of one frame to the decoder: for any non-empty slices that make fewer
-- than 65536 shards, and any order and times in which those shards arrive, each once, at an
-- accumulator that waits for the frame with an empty current set, the decoder gets one `push_data`
-- whose spans are together exactly the encoded bytes, under the frame's index, and then the
-- frame is completed with the position information that was given to `Encode`.
pub frame_delivered :
    (e : Encoder) (view : ViewInfo) (frame now : ℕ) (slices : List (List ℕ × ℕ))
    (arrivals : List (ℕ × Shard)) (a : Accumulator)
    → AreNonempty slices
    → 0 < length slices
    → let outs = (send_slices slices (encode e view frame now).0).0 in
      length outs < 2 ^ 16
      → AreOf frame outs arrivals
      → Distinct arrivals
      → length arrivals ≡ length outs
      → frame_index a.current ≡ frame
      → a.current.slots ≡ []
      → (b : Accumulator) × (fb : Feedback) × (push_all arrivals a
          ≡ some (
            b,
            push_data (payloads outs) frame
                ∷ frame_completed fb (timing_of no_timing outs) view
                ∷ [],
          ))
        × (concat (payloads outs) ≡ bytes_of_slices slices)
frame_delivered e view frame now slices arrivals a full some_slice small of d count cur empty =
    let enc = (encode e view frame now).0 in
    let (viewed, framed, fresh) = encode-shard e view frame now in
    let outs = (send_slices slices enc).0 in
    let train : IsTrain frame true 0 outs =
      subst (λ f. IsTrain f true 0 outs) framed
        (subst (λ i. IsTrain enc.shard.frame_idx true i outs) fresh
          (send_slices-IsTrain slices enc full some_slice (omega (arith, fresh)))) in
    let (s, ss, p, q) = send_slices-first slices enc full some_slice in
    let (b, fb, run, _, _) =
      push_all-frame frame s ss (subst (IsTrain frame true 0) p train) view (q ∙ viewed) arrivals a
        cur empty (subst (λ os. AreOf frame os arrivals) p of) d (count ∙ ap length p) in
    (
      b,
      fb,
      subst
          (λ os.
            push_all arrivals a
            ≡ some (
              b,
              push_data (payloads os) frame ∷ frame_completed fb (timing_of no_timing os) view ∷ [],
            ))
          (sym p) run,
      send_slices-concat slices enc,
    )

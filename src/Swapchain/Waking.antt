-- ===== src/Swapchain/Waking.antt =====
-- The waits of the encoder threads of server/driver/wivrn_comp_target.cpp on `present_gen`.
use mathlib.Core.Path.{subst}
use wi_vrn.Common.{
  ℕ, suc, ◌<◌, ◌≡◌, ◌⊎◌, inl, inr, refl, sym, ap, ◌∙◌, true, none, [], arith, ltb, ltb→lt, ◌==◌,
  Bool-cases, ==_iff, update, update-all, update-same, update-other,
}
use wi_vrn.Swapchain.{
  Status, Item, image_count, image_free, image_acquired, image_presented, has_bit, has_status_bit,
  clear_status_bit, Compositor, EncoderThread, Swapchain, look, set_thread, Step, IsInitial, Reach,
}
use wi_vrn.Swapchain.Bits.{no_status_bit-replicate, clear_status-keeps_false, has_status_bit-early}
use wi_vrn.Swapchain.Alert.{
  IsPending, IsAnnouncing, IsAlert, IsQuiet, IsAlert-quiet, IsAlert-announce, look-IsAlert,
}

record Inv (s : Swapchain) : Type 0 where
  alert : (j : ℕ) → IsAlert s.images s.present_gen s.compositor j (s.encoder_threads j)

thread_step :
    {s : Swapchain} (v : Inv s) (thread : ℕ) (t : EncoderThread)
    → IsAlert s.images s.present_gen s.compositor thread t
    → Inv (record s { encoder_threads = set_thread s thread t })
thread_step {s} v thread t a = record {
  alert =
      update-all (IsAlert s.images s.present_gen s.compositor) s.encoder_threads thread t v.alert a;
}

compositor_step :
    {s : Swapchain} (v : Inv s) (index : ℕ) (item : Item) (c : Compositor)
    → IsQuiet s.images (update s.images index item) s.compositor c
    → Inv (record s { images = update s.images index item; compositor = c })
compositor_step {s} v index item c q = record {
  alert = λ j.
      IsAlert-quiet s.images (update s.images index item) s.present_gen s.compositor c j
        (s.encoder_threads j) q (v.alert j);
}

IsAlert-at :
    {s : Swapchain} {t : EncoderThread} (v : Inv s) (thread : ℕ)
    → s.encoder_threads thread ≡ t
    → IsAlert s.images s.present_gen s.compositor thread t
IsAlert-at {s} v thread h =
    subst (IsAlert s.images s.present_gen s.compositor thread) h (v.alert thread)

had_bit :
    (status : Status) (i j : ℕ)
    → has_status_bit (clear_status_bit status i) j ≡ true
    → has_status_bit status j ≡ true
had_bit status i j h = elim (Bool-cases (has_status_bit status j)) [
  | inl b ↦ b
  | inr n ↦ let never = clear_status-keeps_false status i j n in cc
]

-- The images change at one place.
IsQuiet-at :
    (images : ℕ → Item) (index : ℕ) (item : Item) (c c' : Compositor)
    → ((j : ℕ) → IsPending item j → IsPending (images index) j ⊎ IsAnnouncing c' index)
    → ((k : ℕ) → IsAnnouncing c k → IsAnnouncing c' k)
    → IsQuiet images (update images index item) c c'
IsQuiet-at images index item c c' here there j k pending before = elim (Bool-cases (index == k)) [
  | inl e ↦
      let same : index ≡ k = (==_iff index k).0 e in
      let p : IsPending item j =
        subst (λ x. IsPending x j)
          (ap (update images index item) (sym same) ∙ update-same images index item) pending in
      elim (here j p) [
        | inl old ↦ there k (before (subst (λ x. IsPending (images x) j) same old))
        | inr new ↦ subst (IsAnnouncing c') same new
      ]
  | inr e ↦ there k (
      before (
        subst (λ x. IsPending x j) (update-other images index k item (λ same. ground arith))
          pending))
]

step-Inv : (count : ℕ) {s t : Swapchain} → Inv s → Step count s t → Inv t
step-Inv count {s} v (Step.acquire index idle lt free) =
    compositor_step v index (record (s.images index) { status = image_acquired count })
      (Compositor.holding index)
      (IsQuiet-at s.images index (record (s.images index) { status = image_acquired count })
        s.compositor (Compositor.holding index)
        (λ j (b, time). absurd (ground (arith, no_status_bit-replicate true count j, b)))
        (λ k announcing. subst (λ c. IsAnnouncing c k) idle announcing))
step-Inv count {s} v (Step.discard index h) =
    compositor_step v index (record (s.images index) { status = image_free count }) Compositor.idle
      (IsQuiet-at s.images index (record (s.images index) { status = image_free count })
        s.compositor Compositor.idle
        (λ j (b, time). absurd (ground (arith, no_status_bit-replicate true count j, b)))
        (λ k announcing. subst (λ c. IsAnnouncing c k) h announcing))
step-Inv count {s} v (Step.mark index h) =
    compositor_step v index (record (s.images index) { status = image_presented count })
      (Compositor.marked index)
      (IsQuiet-at s.images index (record (s.images index) { status = image_presented count })
        s.compositor (Compositor.marked index) (λ j p. inr refl)
        (λ k announcing. absurd (subst (λ c. IsAnnouncing c k) h announcing)))
step-Inv count {s} v (Step.describe index frame_index display_time h) =
    compositor_step v index
      (record (s.images index) { frame_index = frame_index; display_time = display_time })
      (Compositor.described index)
      (IsQuiet-at s.images index
        (record (s.images index) { frame_index = frame_index; display_time = display_time })
        s.compositor (Compositor.described index) (λ j p. inr refl)
        (λ k announcing. subst (λ c. IsAnnouncing c k) h announcing))
step-Inv count {s} v (Step.announce index h) = record {
  alert = λ j.
      IsAlert-announce s.images s.present_gen s.compositor Compositor.idle j (s.encoder_threads j)
        (v.alert j);
}
step-Inv count {s} v (Step.begin thread lt h) =
    thread_step v thread (EncoderThread.scanning s.present_gen 0 none [])
      (omega arith, λ e k less p. absurd (omega arith))
step-Inv count {s} v (Step.inspect thread gen i p indices h lt) =
    thread_step v thread (look thread gen i (s.images i) p indices) (
      look-IsAlert s.images s.present_gen s.compositor thread gen i p indices
        (IsAlert-at v thread h))
step-Inv count {s} v (Step.sleep thread gen indices h) =
    thread_step v thread (EncoderThread.waiting gen) (IsAlert-at v thread h)
step-Inv count {s} v (Step.wake thread gen h ne) = thread_step v thread EncoderThread.starting tt
step-Inv count {s} v (Step.choose thread gen p indices h) =
    thread_step v thread (EncoderThread.fencing p indices) tt
step-Inv count {s} v (Step.signalled thread p indices h) =
    thread_step v thread (EncoderThread.clearing p indices) tt
step-Inv count {s} v (Step.fail thread p indices h) = thread_step v thread EncoderThread.stopped tt
step-Inv count {s} v (Step.clear thread p index indices h) =
    thread_step
      (compositor_step v index
        (record (s.images index) { status = clear_status_bit (s.images index).status thread })
        s.compositor
        (IsQuiet-at s.images index
          (record (s.images index) { status = clear_status_bit (s.images index).status thread })
          s.compositor s.compositor
          (λ j (b, time). inl (had_bit (s.images index).status thread j b, time))
          (λ k announcing. announcing)))
      thread (EncoderThread.clearing p indices) tt
step-Inv count {s} v (Step.cleared thread p h) = thread_step v thread (EncoderThread.encoding p) tt
step-Inv count {s} v (Step.encoded thread p h) = thread_step v thread EncoderThread.starting tt

initial-Inv : (count : ℕ) {s : Swapchain} → IsInitial count s → Inv s
initial-Inv count (IsInitial.initial images free) = record { alert = λ _. tt }

reach-Inv : (count : ℕ) {s : Swapchain} → Reach count s → Inv s
reach-Inv count (Reach.start i) = initial-Inv count i
reach-Inv count (Reach.later before step) = step-Inv count (reach-Inv count before) step

-- No wake-up is lost by one of the first seven encoder threads: in every interleaving, an image that
-- has the bit of such a thread which waits for another `present_gen` than the current one has no time
-- to be shown at, unless the compositor is in `comp_wivrn_present` with it and has not counted
-- `present_gen` up yet.
pub reach_awake :
    (count : ℕ) (s : Swapchain) (thread index : ℕ)
    → Reach count s
    → thread < 7
    → ¬ IsAnnouncing s.compositor index
    → s.encoder_threads thread ≡ EncoderThread.waiting s.present_gen
    → index < image_count
    → has_bit (s.images index).status (suc thread) ≡ true
    → (s.images index).display_time ≡ 0
reach_awake count s thread index r early not_announcing asleep lt b =
    elim (Bool-cases (ltb 0 (s.images index).display_time)) [
      | inl later ↦ absurd (
          not_announcing (
            (IsAlert-at (reach-Inv count r) thread asleep).1 refl index lt (
              has_status_bit-early (s.images index).status thread early b,
              ltb→lt 0 (s.images index).display_time later,
            )))
      | inr never ↦ ground (arith, never)
    ]

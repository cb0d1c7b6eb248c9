-- ===== src/Swapchain/Holding.antt =====
-- Which images an encoder thread of server/driver/wivrn_comp_target.cpp holds.
use mathlib.Core.Path.{subst}
use wi_vrn.Common.{
  ℕ, suc, ◌≡◌, ◌≢◌, inl, inr, ap, ◌∙◌, true, false, Option, none, some, List, [], ◌∷◌, ◌++◌, arith,
  ltb, ◌==◌, if◌then◌else◌, Bool-cases, ==_iff, update, update-all, update-same, update-other,
}
use wi_vrn.Swapchain.{
  Item, image_free, image_acquired, image_presented, is_free, has_bit, has_status_bit,
  clear_status_bit, Compositor, EncoderThread, Swapchain, look, set_status, set_thread, Step,
  IsInitial, Reach,
}
use wi_vrn.Swapchain.Bits.{
  has, no_status_bit-replicate, no_status_bit-free, has_status_bit-clear-other,
  clear_status-keeps_false, bit_of_status,
}
use wi_vrn.Swapchain.Held.{
  indices_of, IsBelow, IsOrderly, HasBits, HasNoBits, Inv, has-snoc, IsDistinct-snoc,
  HasBits-update,
}

thread_step :
    {s : Swapchain} (v : Inv s) (thread : ℕ) (t : EncoderThread)
    → IsOrderly t
    → HasBits s.images thread (indices_of t)
    → Inv (record s { encoder_threads = set_thread s thread t })
thread_step {s} v thread t o b = record {
  orderly = update-all (λ _. IsOrderly) s.encoder_threads thread t v.orderly o;
  bits = update-all (λ j u. HasBits s.images j (indices_of u)) s.encoder_threads thread t v.bits b;
  no_bits = v.no_bits;
}

compositor_step :
    {s : Swapchain} (v : Inv s) (index : ℕ) (item : Item) (c : Compositor)
    → ((thread : ℕ)
        → has_status_bit (s.images index).status thread ≡ true
        → has_status_bit item.status thread ≡ true)
    → HasNoBits (update s.images index item) c
    → Inv (record s { images = update s.images index item; compositor = c })
compositor_step {s} v index item c keep n = record {
  orderly = v.orderly;
  bits = λ j.
      HasBits-update s.images index item j (indices_of (s.encoder_threads j)) (keep j) (v.bits j);
  no_bits = n;
}

-- An image that the compositor holds has no bit of an encoder thread.
no_holder :
    {s : Swapchain} {index : ℕ} (v : Inv s)
    → s.compositor ≡ Compositor.holding index
    → (thread : ℕ) → has_status_bit (s.images index).status thread ≡ false
no_holder {s} v h = subst (λ c. HasNoBits s.images c) h v.no_bits

IsOrderly-at :
    {s : Swapchain} {t : EncoderThread} (v : Inv s) (thread : ℕ)
    → s.encoder_threads thread ≡ t
    → IsOrderly t
IsOrderly-at v thread h = subst IsOrderly h (v.orderly thread)

bits_at :
    {s : Swapchain} {t : EncoderThread} (v : Inv s) (thread : ℕ)
    → s.encoder_threads thread ≡ t
    → HasBits s.images thread (indices_of t)
bits_at {s} v thread h = subst (λ t. HasBits s.images thread (indices_of t)) h (v.bits thread)

fresh_image : (is : List ℕ) (i : ℕ) → IsBelow i is → has is i ≡ false
fresh_image is i below = ground (arith, below i)

inspect_step :
    {s : Swapchain} (v : Inv s) (thread gen i : ℕ) (p : Option ℕ) (indices : List ℕ)
    → s.encoder_threads thread ≡ EncoderThread.scanning gen i p indices
    → Inv (record s {
      encoder_threads = set_thread s thread (look thread gen i (s.images i) p indices);
    })
inspect_step {s} v thread gen i p indices h =
    let (distinct, below) = IsOrderly-at v thread h in
    elim (Bool-cases (has_status_bit (s.images i).status thread)) [
      | inl set ↦ rw set (
          thread_step v thread
            (EncoderThread.scanning gen (suc i)
              (if ltb 0 (s.images i).display_time then some i else p) (indices ++ (i ∷ [])))
            (
              IsDistinct-snoc indices i distinct (fresh_image indices i below),
              λ k e. ground (arith, has-snoc indices i k e, below k),
            )
            (λ k e. elim (has-snoc indices i k e) [
              | inl old ↦ bits_at v thread h k old
              | inr same ↦ subst (λ k. has_status_bit (s.images k).status thread ≡ true) same set
            ]))
      | inr unset ↦ rw unset (
          thread_step v thread (EncoderThread.scanning gen (suc i) p indices)
            (distinct, λ k e. omega (arith, below k e)) (bits_at v thread h))
    ]

abbrev cleared_item : (ℕ → Item) → ℕ → ℕ → Item
cleared_item images index thread = record (images index) {
  status = clear_status_bit (images index).status thread;
}

clear_no_bits :
    (images : ℕ → Item) (index thread : ℕ) (c : Compositor)
    → HasNoBits images c
    → HasNoBits (update images index (cleared_item images index thread)) c
clear_no_bits images index thread Compositor.idle n = tt
clear_no_bits images index thread (Compositor.holding k) n = λ j. elim (Bool-cases (index == k)) [
  | inl e ↦ rw e (
      clear_status-keeps_false (images index).status thread j
        (ap (λ x. has_status_bit (images x).status j) ((==_iff index k).0 e) ∙ n j))
  | inr e ↦ rw e (n j)
]
clear_no_bits images index thread (Compositor.marked k) n = tt
clear_no_bits images index thread (Compositor.described k) n = tt

clear_bits :
    {s : Swapchain} (v : Inv s) (thread p index : ℕ) (indices : List ℕ)
    → s.encoder_threads thread ≡ EncoderThread.clearing p (index ∷ indices)
    → (j : ℕ)
    → HasBits
        (update s.images index (cleared_item s.images index thread))
        j
        (indices_of (set_thread s thread (EncoderThread.clearing p indices) j))
clear_bits {s} v thread p index indices h j = elim (Bool-cases (thread == j)) [
  | inl e ↦ rw e (
      subst (λ j. HasBits (update s.images index (cleared_item s.images index thread)) j indices)
        ((==_iff thread j).0 e)
        (λ k in_rest.
          ap (λ x. has_status_bit x.status thread)
            (update-other s.images index k (cleared_item s.images index thread)
              (λ same. ground (arith, (IsOrderly-at v thread h).0, ap (has indices) same)))
          ∙ bits_at v thread h k (ground (arith, in_rest))))
  | inr ne ↦ rw ne (
      HasBits-update s.images index (cleared_item s.images index thread) j
        (indices_of (s.encoder_threads j))
        (λ b. has_status_bit-clear-other (s.images index).status thread j (λ e. ground arith) ∙ b)
        (v.bits j))
]

clear_step :
    {s : Swapchain} (v : Inv s) (thread p index : ℕ) (indices : List ℕ)
    → s.encoder_threads thread ≡ EncoderThread.clearing p (index ∷ indices)
    → Inv (record s {
      images = set_status s index (clear_status_bit (s.images index).status thread);
      encoder_threads = set_thread s thread (EncoderThread.clearing p indices);
    })
clear_step {s} v thread p index indices h =
    let (fresh, distinct) = IsOrderly-at v thread h in
    record {
      orderly =
          update-all (λ _. IsOrderly) s.encoder_threads thread (EncoderThread.clearing p indices)
            v.orderly distinct;
      bits = clear_bits v thread p index indices h;
      no_bits = clear_no_bits s.images index thread s.compositor v.no_bits;
    }

step-Inv : (count : ℕ) {s t : Swapchain} → Inv s → Step count s t → Inv t
step-Inv count {s} v (Step.acquire index idle lt free) =
    compositor_step v index (record (s.images index) { status = image_acquired count })
      (Compositor.holding index)
      (λ j b. ground (arith, no_status_bit-free (s.images index).status j free, b))
      (λ j.
        ap (λ x. has_status_bit x.status j)
          (update-same s.images index (record (s.images index) { status = image_acquired count }))
        ∙ no_status_bit-replicate true count j)
step-Inv count {s} v (Step.discard index h) =
    compositor_step v index (record (s.images index) { status = image_free count }) Compositor.idle
      (λ j b. ground (arith, no_holder v h j, b)) tt
step-Inv count {s} v (Step.mark index h) =
    compositor_step v index (record (s.images index) { status = image_presented count })
      (Compositor.marked index) (λ j b. ground (arith, no_holder v h j, b)) tt
step-Inv count {s} v (Step.describe index frame_index display_time h) =
    compositor_step v index
      (record (s.images index) { frame_index = frame_index; display_time = display_time })
      (Compositor.described index) (λ j b. b) tt
step-Inv count {s} v (Step.announce index h) = record {
  orderly = v.orderly;
  bits = v.bits;
  no_bits = tt;
}
step-Inv count {s} v (Step.begin thread lt h) =
    thread_step v thread (EncoderThread.scanning s.present_gen 0 none [])
      (tt, λ k e. ground (arith, e)) (λ k e. ground (arith, e))
step-Inv count {s} v (Step.inspect thread gen i p indices h lt) =
    inspect_step v thread gen i p indices h
step-Inv count {s} v (Step.sleep thread gen indices h) =
    thread_step v thread (EncoderThread.waiting gen) tt (λ k e. ground (arith, e))
step-Inv count {s} v (Step.wake thread gen h ne) =
    thread_step v thread EncoderThread.starting tt (λ k e. ground (arith, e))
step-Inv count {s} v (Step.choose thread gen p indices h) =
    thread_step v thread (EncoderThread.fencing p indices) (IsOrderly-at v thread h).0
      (bits_at v thread h)
step-Inv count {s} v (Step.signalled thread p indices h) =
    thread_step v thread (EncoderThread.clearing p indices) (IsOrderly-at v thread h)
      (bits_at v thread h)
step-Inv count {s} v (Step.fail thread p indices h) =
    thread_step v thread EncoderThread.stopped tt (λ k e. ground (arith, e))
step-Inv count {s} v (Step.clear thread p index indices h) = clear_step v thread p index indices h
step-Inv count {s} v (Step.cleared thread p h) =
    thread_step v thread (EncoderThread.encoding p) tt (λ k e. ground (arith, e))
step-Inv count {s} v (Step.encoded thread p h) =
    thread_step v thread EncoderThread.starting tt (λ k e. ground (arith, e))

initial-Inv : (count : ℕ) {s : Swapchain} → IsInitial count s → Inv s
initial-Inv count (IsInitial.initial images free) = record {
  orderly = λ _. tt;
  bits = λ j k e. ground (arith, e);
  no_bits = tt;
}

reach-Inv : (count : ℕ) {s : Swapchain} → Reach count s → Inv s
reach-Inv count (Reach.start i) = initial-Inv count i
reach-Inv count (Reach.later before step) = step-Inv count (reach-Inv count before) step

-- In every interleaving, an image that an encoder thread found to be its own and has not cleared
-- yet still has the thread's bit, so that no acquire finds it free, and the compositor does not
-- hold it.
pub reach_held :
    (count : ℕ) (s : Swapchain) (thread index : ℕ)
    → Reach count s
    → has (indices_of (s.encoder_threads thread)) index ≡ true
    → (has_bit (s.images index).status (suc thread) ≡ true)
      × (is_free (s.images index).status ≡ false)
      × (s.compositor ≢ Compositor.holding index)
reach_held count s thread index r held =
    let v = reach-Inv count r in
    let b = v.bits thread index held in
    (
      bit_of_status (s.images index).status thread b,
      ground (arith, no_status_bit-free (s.images index).status thread, b),
      λ h. ground (arith, no_holder v h thread, b),
    )

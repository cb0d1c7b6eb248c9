-- ===== src/Swapchain.antt =====
-- The images that the compositor and the encoder threads of the server share:
-- `pseudo_swapchain` of server/driver/wivrn_comp_target.h, `comp_wivrn_acquire`,
-- `comp_wivrn_present` and `comp_wivrn_present_thread` of server/driver/wivrn_comp_target.cpp.
-- The steps are the accesses to what the threads share. A status is the list of its bits, the
-- lowest one first, for less than 31 encoder threads, and `present_gen` does not wrap around. The compositor holds one image at a
-- time, as its caller acquires and presents them in turns. What goes to the GPU is left out.
mod Bits
mod Held
mod Holding
mod Alert
mod Waking
mod Choice
mod Runs
use wi_vrn.Common.{
  ℕ, zero, suc, ◌+◌, ◌*◌, ◌<◌, ◌≡◌, ◌≢◌, Bool, true, false, not, ◌&&◌, Option, none, some, List, [],
  ◌∷◌, ◌++◌, ltb, if◌then◌else◌, set, replicate, update,
}

-- The bits of `status`: the first for acquired, the rest for each encoder thread.
abbrev pub Status : Type 0
Status = List Bool

abbrev pub image_free : ℕ → Status
image_free threads = replicate (suc threads) false

abbrev pub image_acquired : ℕ → Status
image_acquired threads = true ∷ replicate threads false

-- What `comp_wivrn_present` stores, (1 << (threads + 1)) - 2.
abbrev pub image_presented : ℕ → Status
image_presented threads = false ∷ replicate threads true

-- The number that the bits stand for.
abbrev pub value : Status → ℕ
value [] = 0
value (b ∷ bs) = (if b then 1 else 0) + 2 * value bs

-- Whether `status` equals `image_free`.
abbrev pub is_free : Status → Bool
is_free [] = true
is_free (b ∷ bs) = not b && is_free bs

-- `status & (1 << i)`.
abbrev pub has_bit : Status → ℕ → Bool
has_bit [] i = false
has_bit (b ∷ bs) zero = b
has_bit (b ∷ bs) (suc i) = has_bit bs i

-- `status &= ~(1 << i)`.
abbrev pub clear_bit : Status → ℕ → Status
clear_bit status i = set status i false

-- `status_bit` is a `uint8_t`: 1 << (index + 1) is 0 in it from index 7 on. What `status & status_bit`
-- tests, and `status &= ~status_bit`.
abbrev pub has_status_bit : Status → ℕ → Bool
has_status_bit status thread = ltb thread 7 && has_bit status (suc thread)

abbrev pub clear_status_bit : Status → ℕ → Status
clear_status_bit status thread = if ltb thread 7 then clear_bit status (suc thread) else status

-- `display_time` is the unsigned number that the threads compare it as.
pub record Item : Type 0 where
  pub status : Status
  pub frame_index : ℕ
  pub display_time : ℕ

abbrev pub image_count : ℕ
image_count = 3

-- Where the compositor stands: with no image; with one that it acquired; in
-- `comp_wivrn_present`, before it stores what the image shows; before it counts `present_gen` up.
pub data Compositor : Type 0 where
  idle : Compositor
  holding : (index : ℕ) → Compositor
  marked : (index : ℕ) → Compositor
  described : (index : ℕ) → Compositor

-- Where an encoder thread stands: before it loads `present_gen`; at image `i` of its loop over the
-- images; in `present_gen.wait`; waiting for the fences; clearing its bits; encoding; out of its
-- loop, after a failed wait for the fences.
pub data EncoderThread : Type 0 where
  starting : EncoderThread
  scanning : (gen i : ℕ) (presenting_index : Option ℕ) (indices : List ℕ) → EncoderThread
  waiting : (gen : ℕ) → EncoderThread
  fencing : (presenting_index : ℕ) (indices : List ℕ) → EncoderThread
  clearing : (presenting_index : ℕ) (indices : List ℕ) → EncoderThread
  encoding : (presenting_index : ℕ) → EncoderThread
  stopped : EncoderThread

pub record Swapchain : Type 0 where
  pub images : ℕ → Item
  pub present_gen : ℕ
  pub compositor : Compositor
  pub encoder_threads : ℕ → EncoderThread

-- The loop over the images at image `i`: `timestamp` stays 0.
abbrev pub look : ℕ → ℕ → ℕ → Item → Option ℕ → List ℕ → EncoderThread
look thread gen i item presenting_index indices =
    if has_status_bit item.status thread
    then EncoderThread.scanning gen (suc i)
        (if ltb 0 item.display_time then some i else presenting_index) (indices ++ (i ∷ []))
    else EncoderThread.scanning gen (suc i) presenting_index indices

abbrev pub set_status : Swapchain → ℕ → Status → ℕ → Item
set_status s index status = update s.images index (record (s.images index) { status = status })

abbrev pub set_thread : Swapchain → ℕ → EncoderThread → ℕ → EncoderThread
set_thread s thread t = update s.encoder_threads thread t

-- `count` is the number of encoder threads.
module _ (count : ℕ) where
  pub data Step (s : Swapchain) : Swapchain → Type 0 where
    -- `comp_wivrn_acquire` tries the images until it exchanges a free status.
    acquire :
        (index : ℕ)
        → s.compositor ≡ Compositor.idle
        → index < image_count
        → is_free (s.images index).status ≡ true
        → Step s (record s {
          images = set_status s index (image_acquired count);
          compositor = Compositor.holding index;
        })
    -- `comp_wivrn_present` with no layer or with no clock offset.
    discard :
        (index : ℕ)
        → s.compositor ≡ Compositor.holding index
        → Step s (record s {
          images = set_status s index (image_free count);
          compositor = Compositor.idle;
        })
    mark :
        (index : ℕ)
        → s.compositor ≡ Compositor.holding index
        → Step s (record s {
          images = set_status s index (image_presented count);
          compositor = Compositor.marked index;
        })
    describe :
        (index frame_index display_time : ℕ)
        → s.compositor ≡ Compositor.marked index
        → Step s (record s {
          images =
              update s.images index (record (s.images index) {
                frame_index = frame_index;
                display_time = display_time;
              });
          compositor = Compositor.described index;
        })
    announce :
        (index : ℕ)
        → s.compositor ≡ Compositor.described index
        → Step s (record s { present_gen = suc s.present_gen; compositor = Compositor.idle })
    begin :
        (thread : ℕ)
        → thread < count
        → s.encoder_threads thread ≡ EncoderThread.starting
        → Step s (record s {
          encoder_threads = set_thread s thread (EncoderThread.scanning s.present_gen 0 none []);
        })
    inspect :
        (thread gen i : ℕ) (presenting_index : Option ℕ) (indices : List ℕ)
        → s.encoder_threads thread ≡ EncoderThread.scanning gen i presenting_index indices
        → i < image_count
        → Step s (record s {
          encoder_threads =
              set_thread s thread (look thread gen i (s.images i) presenting_index indices);
        })
    sleep :
        (thread gen : ℕ) (indices : List ℕ)
        → s.encoder_threads thread ≡ EncoderThread.scanning gen image_count none indices
        → Step s (record s { encoder_threads = set_thread s thread (EncoderThread.waiting gen) })
    wake :
        (thread gen : ℕ)
        → s.encoder_threads thread ≡ EncoderThread.waiting gen
        → s.present_gen ≢ gen
        → Step s (record s { encoder_threads = set_thread s thread EncoderThread.starting })
    choose :
        (thread gen presenting_index : ℕ) (indices : List ℕ)
        → s.encoder_threads thread
          ≡ EncoderThread.scanning gen image_count (some presenting_index) indices
        → Step s (record s {
          encoder_threads = set_thread s thread (EncoderThread.fencing presenting_index indices);
        })
    signalled :
        (thread presenting_index : ℕ) (indices : List ℕ)
        → s.encoder_threads thread ≡ EncoderThread.fencing presenting_index indices
        → Step s (record s {
          encoder_threads = set_thread s thread (EncoderThread.clearing presenting_index indices);
        })
    fail :
        (thread presenting_index : ℕ) (indices : List ℕ)
        → s.encoder_threads thread ≡ EncoderThread.fencing presenting_index indices
        → Step s (record s { encoder_threads = set_thread s thread EncoderThread.stopped })
    clear :
        (thread presenting_index index : ℕ) (indices : List ℕ)
        → s.encoder_threads thread ≡ EncoderThread.clearing presenting_index (index ∷ indices)
        → Step s (record s {
          images = set_status s index (clear_status_bit (s.images index).status thread);
          encoder_threads = set_thread s thread (EncoderThread.clearing presenting_index indices);
        })
    cleared :
        (thread presenting_index : ℕ)
        → s.encoder_threads thread ≡ EncoderThread.clearing presenting_index []
        → Step s (record s {
          encoder_threads = set_thread s thread (EncoderThread.encoding presenting_index);
        })
    encoded :
        (thread presenting_index : ℕ)
        → s.encoder_threads thread ≡ EncoderThread.encoding presenting_index
        → Step s (record s { encoder_threads = set_thread s thread EncoderThread.starting })

  -- `create_images` frees every image, and `create_encoders` starts the threads.
  pub data IsInitial : Swapchain → Type 0 where
    initial :
        (images : ℕ → Item)
        → ((i : ℕ) → (images i).status ≡ image_free count)
        → IsInitial (record {
          images = images;
          present_gen = 0;
          compositor = Compositor.idle;
          encoder_threads = λ i. EncoderThread.starting;
        })

  pub data Reach : Swapchain → Type 0 where
    start : {s : Swapchain} → IsInitial s → Reach s
    later : {s t : Swapchain} → Reach s → Step s t → Reach t

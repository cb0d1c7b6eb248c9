-- ===== src/RingBuffer/Runs.antt =====
-- A run of the ring of common/utils/ring_buffer.h on three slots, and the theorems on it.
use wi_vrn.Common.{update, ℕ, ◌≡◌, ◌≢◌, ◌↔◌, ◌+◌, ◌<◌, ◌++◌, List, [], ◌∷◌, refl, arith, length}
use wi_vrn.RingBuffer.{Writer, Reader, Ring, Step, Reach, next, size}
use wi_vrn.RingBuffer.Fifo.{reach_in_order, reach_apart}

abbrev slots : ℕ → ℕ
slots i = 0

-- One item is written, and the next one while the first is read.
abbrev both_inside : Ring ℕ
both_inside = record {
  container = update slots 1 7;
  read_index = 0;
  write_index = 1;
  writer = Writer.filling 2 8;
  reader = Reader.taking 1;
  written = 7 ∷ [];
  taken = [];
}

both_inside_reached : Reach 3 slots both_inside
both_inside_reached =
    Reach.later
      (Reach.later
        (Reach.later
          (Reach.later (Reach.later Reach.start (Step.begin_write 7 refl (λ e. omega (arith, e))))
            (Step.fill 1 7 refl))
          (Step.publish 1 7 refl))
        (Step.begin_write 8 refl (λ e. omega (arith, e))))
      (Step.begin_read refl (λ e. omega (arith, e)))

reach_in_order_example :
    (unread : List ℕ) × (both_inside.written ≡ both_inside.taken ++ unread)
    × (length unread < 3)
    × (size 3 both_inside ≡ length unread)
    × ((next 3 both_inside.write_index ≡ both_inside.read_index) ↔ (length unread + 1 ≡ 3))
    × ((both_inside.read_index ≡ both_inside.write_index) ↔ (length unread ≡ 0))
reach_in_order_example =
    reach_in_order 3 slots both_inside (omega arith) (omega arith) both_inside_reached

reach_apart_example : ◌≢◌ {A = ℕ} 2 1
reach_apart_example =
    reach_apart 3 slots both_inside 2 1 8 (omega arith) both_inside_reached refl refl

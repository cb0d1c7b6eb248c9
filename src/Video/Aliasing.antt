-- ===== src/Video/Aliasing.antt =====
-- `uint8_t frame_diff` in `push_shard` keeps the difference of two 64-bit counters modulo 256.
use wi_vrn.Common.{ℕ, suc, ◌+◌, ◌*◌, ◌^◌, ◌<◌, ◌≡◌, refl, some, arith}
use wi_vrn.Video.Shard.{Shard}
use wi_vrn.Video.Accumulator.{
  Accumulator, frame_index, frame_diff, insert, try_submit_frame, push_shard,
}
use wi_vrn.Video.Accumulator.Progress.{push_shard_cases}

-- A shard with a 64-bit frame index, any positive multiple of 256 frames ahead of the current frame, is taken for a
-- shard of the current frame: it is put into the current set, instead of ending that frame as the
-- loss of more than one frame does.
pub push_shard-alias :
    (fuel now laps : ℕ) (s : Shard) (a : Accumulator)
    → 0 < laps
    → s.frame_idx ≡ frame_index a.current + 256 * laps
    → s.frame_idx < 2 ^ 64
    → push_shard (suc fuel) now s a
      ≡ some (try_submit_frame (record a { current = insert now s a.current }))
push_shard-alias fuel now laps s a ahead e small =
    let d : frame_diff s a ≡ 0 = omega arith in
    push_shard_cases
      (λ r. r ≡ some (try_submit_frame (record a { current = insert now s a.current }))) fuel now s
      a (λ past. absurd (omega arith)) (λ le z. refl) (λ le z. absurd (omega arith))
      (λ le z. absurd (omega arith)) (λ le z. absurd (omega arith))

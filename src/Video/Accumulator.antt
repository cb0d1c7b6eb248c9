-- ===== src/Video/Accumulator.antt =====
-- `shard_set` and `shard_accumulator` of client/decoder/shard_accumulator.cpp. The decoder and the
-- scene are seen by the calls that they get; logging is left out.
pub mod Slots
pub mod Progress
pub mod Delivery
pub mod AnyOrder
use wi_vrn.Common.{
  ℕ, zero, suc, ◌+◌, ◌-◌, ◌%◌, ◌^◌, List, [], ◌∷◌, ◌++◌, Option, none, some, Bool, true, false,
  ◌&&◌, ltb, leb, ◌==◌, if◌then◌else◌, length, take, drop, set, get_elem?, replicate, map,
}
use wi_vrn.Video.Shard.{Shard, ViewInfo, TimingInfo, no_timing, ends_frame}

pub record Feedback : Type 0 where
  pub frame_index : ℕ
  pub stream_index : ℕ
  pub received_first_packet : ℕ
  pub received_last_packet : ℕ
  pub sent_to_decoder : ℕ
  pub received_from_decoder : ℕ
  pub blitted : ℕ
  pub displayed : ℕ
  pub times_displayed : ℕ

-- `feedback = {}`, then the two indices.
abbrev pub new_feedback : ℕ → ℕ → Feedback
new_feedback frame_index stream_index = record {
  frame_index = frame_index;
  stream_index = stream_index;
  received_first_packet = 0;
  received_last_packet = 0;
  sent_to_decoder = 0;
  received_from_decoder = 0;
  blitted = 0;
  displayed = 0;
  times_displayed = 0;
}

pub record ShardSet : Type 0 where
  pub num_shards : ℕ
  pub min_for_reconstruction : ℕ
  pub slots : List (Option Shard)
  pub feedback : Feedback

abbrev pub frame_index : ShardSet → ℕ
frame_index s = s.feedback.frame_index

-- The constructor.
abbrev pub new_set : ℕ → ShardSet
new_set stream_index = record {
  num_shards = 0;
  min_for_reconstruction = 2 ^ 64 - 1;
  slots = [];
  feedback = new_feedback 0 stream_index;
}

unfoldable pub reset : ℕ → ShardSet → ShardSet
reset index s = record {
  num_shards = 0;
  min_for_reconstruction = 2 ^ 64 - 1;
  slots = [];
  feedback = new_feedback index s.feedback.stream_index;
}

-- `data.resize(n)`, used to grow.
abbrev pub resize : ℕ → List (Option Shard) → List (Option Shard)
resize n slots = slots ++ replicate (n - length slots) none

abbrev pub is_free : List (Option Shard) → ℕ → Bool
is_free slots i = elim (get_elem? slots i) [ some (some s) ↦ false | _ ↦ true ]

unfoldable pub insert : ℕ → Shard → ShardSet → ShardSet
insert now shard s =
    let idx = shard.shard_idx in
    let f = s.feedback in
    let slots = if leb (length s.slots) idx then resize (idx + 1) s.slots else s.slots in
    record s {
      num_shards = if is_free slots idx then s.num_shards + 1 else s.num_shards;
      slots = set slots idx (some shard);
      feedback = record f {
        received_first_packet = if s.num_shards == 0 then now else f.received_first_packet;
        received_last_packet = now;
      };
    }

abbrev pub join : Shard → Option (List Shard) → Option (List Shard)
join s none = none
join s (some ss) = some (s ∷ ss)

-- Every slot, if none is empty.
abbrev pub sequence : List (Option Shard) → Option (List Shard)
sequence [] = some []
sequence (none ∷ slots) = none
sequence (some s ∷ slots) = join s (sequence slots)

abbrev pub last : Shard → List Shard → Shard
last s [] = s
last s (t ∷ ss) = last t ss

-- No slot is empty, and the last shard ends the frame.
abbrev pub ends_well : Option (List Shard) → Bool
ends_well none = false
ends_well (some []) = false
ends_well (some (s ∷ ss)) = ends_frame (last s ss)

unfoldable pub is_complete : ShardSet → Bool
is_complete s = ends_well (sequence s.slots)

-- The timing of the last shard that has one.
abbrev pub timing_of : TimingInfo → List Shard → TimingInfo
timing_of t [] = t
timing_of t (s ∷ ss) = timing_of (elim (s.timing_info) [ none ↦ t | some u ↦ u ]) ss

-- The calls of the decoder and of the scene.
pub data Effect : Type 0 where
  push_data : List (List ℕ) → ℕ → Effect
  frame_completed : Feedback → TimingInfo → ViewInfo → Effect
  send_feedback : Feedback → Effect

pub record Accumulator : Type 0 where
  pub current : ShardSet
  pub next : ShardSet

-- The constructor, with `next.reset(1)`.
unfoldable pub new_accumulator : ℕ → Accumulator
unfolding reset
new_accumulator stream_index = record {
  current = new_set stream_index;
  next = reset 1 (new_set stream_index);
}

unfoldable pub advance : Accumulator → Accumulator
unfolding reset
advance a = record { current = a.next; next = reset ((frame_index a.next + 1) % 2 ^ 64) a.current }

abbrev pub payloads : List Shard → List (List ℕ)
payloads = map (λ s. s.payload)

unfoldable pub submit : Accumulator → Shard → List Shard → Accumulator × List Effect
unfolding advance
submit a s ss =
    let data_pushed = push_data (payloads (s ∷ ss)) s.frame_idx in
    elim (s.view_info) [
      | none ↦ (a, data_pushed ∷ [])
      | some v ↦ (
        advance a,
        data_pushed ∷ frame_completed a.current.feedback (timing_of no_timing (s ∷ ss)) v ∷ [],
      )
    ]

-- `try_submit_frame`. It is not called with no slot at all.
unfoldable pub try_submit_frame : Accumulator → Accumulator × List Effect
unfolding submit
try_submit_frame a = elim (sequence a.current.slots) [
  | some (s ∷ ss) ↦ if ends_frame (last s ss) then submit a s ss else (a, [])
  | _ ↦ (a, [])
]

abbrev pub with_effect :
    Effect → Option (Accumulator × List Effect) → Option (Accumulator × List Effect)
with_effect e none = none
with_effect e (some (a, es)) = some (a, e ∷ es)

-- `uint8_t frame_diff`
abbrev pub frame_diff : Shard → Accumulator → ℕ
frame_diff shard a = (shard.frame_idx + 2 ^ 64 - frame_index a.current) % 2 ^ 64 % 256

-- The branch for a shard of the next frame.
unfoldable pub push_next : ℕ → Shard → Accumulator → Accumulator × List Effect
unfolding insert is_complete try_submit_frame advance
push_next now shard a =
    let b = record a { next = insert now shard a.next } in
    let (c, es) = try_submit_frame (advance b) in
    if is_complete b.next then (c, send_feedback a.current.feedback ∷ es) else (b, [])

-- The accumulator after the loss of more than a frame.
unfoldable pub restart : ℕ → Accumulator → Accumulator
unfolding reset
restart index a = record {
  current = reset index a.current;
  next = reset ((index + 1) % 2 ^ 64) a.next;
}

-- `push_shard`, which calls itself; none if it would call itself more often than `fuel` allows.
unfoldable pub push_shard : ℕ → ℕ → Shard → Accumulator → Option (Accumulator × List Effect)
unfolding insert try_submit_frame push_next advance restart
push_shard zero now shard a = none
push_shard (suc fuel) now shard a =
    let behind =
      with_effect (send_feedback a.current.feedback) (push_shard fuel now shard (advance a)) in
    let lost = with_effect (send_feedback a.current.feedback) (
      with_effect (send_feedback a.next.feedback)
        (push_shard fuel now shard (restart shard.frame_idx a))) in
    if ltb shard.frame_idx (frame_index a.current)
    then some (a, [])
    else if frame_diff shard a == 0
    then some (try_submit_frame (record a { current = insert now shard a.current }))
    else if frame_diff shard a == 1
    then some (push_next now shard a)
    else if frame_diff shard a == 2
    then behind
    else lost

-- A call goes one level deep, or two (`push_shard-Returns`).
abbrev pub push : ℕ → Shard → Accumulator → Option (Accumulator × List Effect)
push now shard a = push_shard 2 now shard a

abbrev pub with_effects :
    List Effect → Option (Accumulator × List Effect) → Option (Accumulator × List Effect)
with_effects es none = none
with_effects es (some (a, fs)) = some (a, es ++ fs)

-- The shards of a list pushed one after the other, each with its time of arrival.
unfoldable pub push_all : List (ℕ × Shard) → Accumulator → Option (Accumulator × List Effect)
push_all [] a = some (a, [])
push_all ((now, s) ∷ arrivals) a = elim (push now s a) [
  | none ↦ none
  | some (b, es) ↦ with_effects es (push_all arrivals b)
]

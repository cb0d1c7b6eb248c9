-- ===== src/Video/Runs.antt =====
-- Concrete runs of the video path.
use wi_vrn.Common.{ℕ, ◌≡◌, refl, List, [], ◌∷◌, none, some, Bool, true, false, arith, concat}
use wi_vrn.Serial.Types.{Value}
use wi_vrn.Protocol.Base.{posef, fovf}
use wi_vrn.Video.Shard.{Shard, ViewInfo, no_timing}
use wi_vrn.Video.Encoder.{Encoder, encode, send_data, sync_requested, initial_last_idr_frame}
use wi_vrn.Video.Encoder.Throttle.{idr_frames, AreSpaced, idr_frames-AreSpaced}
use wi_vrn.Video.Accumulator.{
  Accumulator, Feedback, push_data, frame_completed, push_all, push_shard, payloads, timing_of,
  new_set, reset, insert, try_submit_frame,
}
use wi_vrn.Video.Accumulator.Progress.{IsLinked, Returns, push_shard-Returns}
use wi_vrn.Video.Accumulator.AnyOrder.{Delivers, push_all-frame}
use wi_vrn.Video.Frame.{send_slices, bytes_of_slices, frame_delivered}
use wi_vrn.Video.Aliasing.{push_shard-alias}

abbrev pose : Value posef
pose = ((0, (0, (0, (1065353216, tt)))), ((0, (0, (0, tt))), tt))

abbrev fov : Value fovf
fov = (0, (0, (0, (0, tt))))

abbrev eyes : ViewInfo
eyes = (5000, (pose ∷ pose ∷ [], (fov ∷ fov ∷ [], tt)))

abbrev encoder : Encoder
encoder = record {
  stream_idx = 0;
  shard = record {
    stream_item_idx = 0;
    frame_idx = 0;
    shard_idx = 0;
    flags = 0;
    view_info = none;
    timing_info = none;
    payload = [];
  };
  timing_info = no_timing;
  sync_needed = true;
  last_idr_frame = initial_last_idr_frame;
}

abbrev slices : List (List ℕ × ℕ)
slices = (1 ∷ 2 ∷ [], 20) ∷ (3 ∷ [], 30) ∷ []

abbrev encoded : Encoder
unfolding encode
encoded = (encode encoder eyes 7 10).0

abbrev shards : List Shard
unfolding send_slices send_data
shards = (send_slices slices encoded).0

abbrev first_shard : Shard
first_shard = record {
  stream_item_idx = 0;
  frame_idx = 7;
  shard_idx = 0;
  flags = 3;
  view_info = some eyes;
  timing_info = none;
  payload = 1 ∷ 2 ∷ [];
}

abbrev second_shard : Shard
second_shard = record {
  stream_item_idx = 0;
  frame_idx = 7;
  shard_idx = 1;
  flags = 7;
  view_info = none;
  timing_info = some (record { encode_begin = 10; send_begin = 20; send_end = 30 });
  payload = 3 ∷ [];
}

shards_run : shards ≡ first_shard ∷ second_shard ∷ []
unfolding shards encoded send_slices send_data encode
shards_run = refl

-- The second shard arrives first.
abbrev swapped : List (ℕ × Shard)
swapped = (100, second_shard) ∷ (101, first_shard) ∷ []

abbrev waiting : Accumulator
unfolding reset
waiting = record { current = reset 7 (new_set 0); next = reset 8 (new_set 0) }

frame_delivered_example :
    (b : Accumulator) × (fb : Feedback) × (push_all swapped waiting
      ≡ some (
        b,
        push_data (payloads (send_slices slices (encode encoder eyes 7 10).0).0) 7
            ∷ frame_completed fb
                (timing_of no_timing (send_slices slices (encode encoder eyes 7 10).0).0)
                eyes
            ∷ [],
      ))
    × (concat (payloads (send_slices slices (encode encoder eyes 7 10).0).0)
        ≡ bytes_of_slices slices)
unfolding send_slices send_data encode reset
frame_delivered_example =
    frame_delivered encoder eyes 7 10 slices swapped waiting (omega arith, (omega arith, tt))
      (omega arith) (omega arith) ((refl, refl), ((refl, refl), tt)) ((λ e. cc, tt), (tt, tt)) refl
      refl refl

push_all-frame_example :
    Delivers 7 first_shard
      (second_shard ∷ [])
      (refl, refl, refl, (refl, refl, refl, tt))
      eyes
      refl
      waiting.next
      (push_all swapped waiting)
unfolding reset
push_all-frame_example =
    push_all-frame 7 first_shard (second_shard ∷ []) (refl, refl, refl, (refl, refl, refl, tt)) eyes
      refl swapped waiting refl refl ((refl, refl), ((refl, refl), tt)) ((λ e. cc, tt), (tt, tt))
      refl

push_shard-Returns_example : Returns IsLinked (push_shard 2 100 second_shard waiting)
unfolding reset
push_shard-Returns_example =
    push_shard-Returns 0 100 second_shard waiting (omega arith) (omega arith, refl)

-- 512 frames ahead of the current one.
abbrev far_shard : Shard
far_shard = record second_shard { frame_idx = 519 }

push_shard-alias_example :
    push_shard 2 100 far_shard waiting
    ≡ some (try_submit_frame (record waiting { current = insert 100 far_shard waiting.current }))
unfolding reset
push_shard-alias_example =
    push_shard-alias 1 100 2 far_shard waiting (omega arith) refl (omega arith)

-- A request before every frame, as the headset sends them while it decodes nothing.
abbrev calls : List (Bool × ViewInfo × ℕ × ℕ)
calls =
    (true, eyes, 150, 0) ∷ (true, eyes, 200, 1) ∷ (false, eyes, 249, 2) ∷ (true, eyes, 251, 3) ∷ []

abbrev answered : Encoder
answered = record encoder { last_idr_frame = 3; sync_needed = false }

idr_frames_run : idr_frames calls answered ≡ 150 ∷ 251 ∷ []
unfolding idr_frames encode sync_requested
idr_frames_run = refl

idr_frames-AreSpaced_example : AreSpaced 3 (idr_frames calls answered)
idr_frames-AreSpaced_example =
    idr_frames-AreSpaced calls answered (omega arith)
      (omega arith, (omega arith, (omega arith, (omega arith, tt))))

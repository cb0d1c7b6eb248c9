-- ===== src/Decoding/Runs.antt =====
-- Concrete runs of the decoders.

use wi_vrn.Common.{ℕ, ◌≤◌, ◌≡◌, ◌↔◌, ◌⊎◌, refl, List, [], ◌∷◌, ◌++◌, true, false, ok, arith}
use wi_vrn.Queue.{done}
use wi_vrn.Video.Accumulator.{new_feedback}
use wi_vrn.Video.Shard.{ViewInfo, no_timing}
use wi_vrn.Serial.Types.{Value}
use wi_vrn.Protocol.Base.{posef, fovf}
use wi_vrn.Decoding.Nal.{is_header, filter_csd, inside, outside}
use wi_vrn.Decoding.Nal.Units.{ClassedUnit, bytes_of, AreUnits, of_csd, of_payload, ends_in_header}
use wi_vrn.Decoding.Nal.Filtered.{filter_csd-units}
use wi_vrn.Decoding.Android.{
  Decoder, FrameInfo, Call, queue_input_buffer, push_nals, fake_timestamp_us,
}
use wi_vrn.Decoding.Android.Buffers.{Copies, AreInside, Fit, Skips, push_nals-outcome}
use wi_vrn.Decoding.Android.Pictures.{
  complete, picture, end, completes, shows, Event, Trace, Delivers, sent_at, Trace-Delivers,
}
use wi_vrn.Decoding.Ffmpeg.{
  handle_events, new_decoder, pop_back, pushed, completed, destroyed, sent, received, no_frame_yet,
  Answer,
}
use wi_vrn.Decoding.Ffmpeg.Images.{IsOwned, handle_events-IsOwned}

-- A video parameter set and a slice.
abbrev packet : List ℕ
packet = 0 ∷ 0 ∷ 0 ∷ 1 ∷ 64 ∷ 9 ∷ 0 ∷ 0 ∷ 1 ∷ 2 ∷ 7 ∷ []

filter_csd_run : filter_csd packet ≡ inside (0 ∷ 0 ∷ 0 ∷ 1 ∷ 64 ∷ 9 ∷ [], 0 ∷ 0 ∷ 1 ∷ 2 ∷ 7 ∷ [])
unfolding filter_csd
filter_csd_run = refl

-- A start code at the end has no byte behind it that tells its class.
filter_csd_outside : filter_csd (0 ∷ 0 ∷ 0 ∷ 1 ∷ 64 ∷ 0 ∷ 0 ∷ 1 ∷ []) ≡ outside
unfolding filter_csd
filter_csd_outside = refl

filter_csd-units_example :
    (units : List ClassedUnit) × ((bytes_of units ≡ packet)
      × (AreUnits units × (filter_csd packet ≡ inside (of_csd units, of_payload units))))
unfolding ends_in_header is_header
filter_csd-units_example = filter_csd-units packet (omega arith) refl

abbrev decoder : Decoder
decoder = record {
  media_codec = true;
  input_buffers = record { queue = 3 ∷ 4 ∷ []; closed = false };
  frame_infos = record { queue = []; closed = false };
}

abbrev decoder' : Decoder
decoder' = record decoder { input_buffers = record { queue = 4 ∷ []; closed = false } }

-- Two spans that fit the buffer each, but not together: the second is written over its end.
abbrev spans : List (List ℕ)
spans = (1 ∷ 2 ∷ 3 ∷ []) ∷ (4 ∷ 5 ∷ []) ∷ []

push_nals-outcome_example :
    (Fit 4 spans
      × ((calls : List Call) × (Copies 3 0 spans calls
            × ((push_nals (λ b. 4) true spans 70000 false decoder
                  ≡ done (decoder', calls ++ (queue_input_buffer 3 5 70000 false ∷ []), ok tt))
                × (AreInside 4 calls ↔ (5 ≤ 4))))))
    ⊎ ((fitting : List (List ℕ)) × (calls : List Call) × (Skips 4 spans fitting
          × (Copies 3 0 fitting calls
              × (push_nals (λ b. 4) true spans 70000 false decoder
                  ≡ done (decoder', calls, ok tt)))))
push_nals-outcome_example =
    push_nals-outcome (λ b. 4) true spans 70000 false decoder 3 (4 ∷ []) refl

abbrev pose : Value posef
pose = ((0, (0, (0, (1065353216, tt)))), ((0, (0, (0, tt))), tt))

abbrev fov : Value fovf
fov = (0, (0, (0, (0, tt))))

abbrev eyes : ViewInfo
eyes = (5000, (pose ∷ pose ∷ [], (fov ∷ fov ∷ [], tt)))

abbrev info : ℕ → FrameInfo
info index = record { feedback = new_feedback index 0; timing_info = no_timing; view_info = eyes }

-- Frames 7 and 8 are completed, the codec leaves 7 out, and its timestamps are not exact.
abbrev events : List Event
events = complete 100 (info 7) ∷ complete 200 (info 8) ∷ picture 80000999 ∷ []

events-Trace : Trace [] events (sent_at 200 (info 8) ∷ [])
unfolding fake_timestamp_us
events-Trace = completes [] 100 (info 7) tt (
    completes _ 200 (info 8) (omega arith, tt)
      (shows _ (sent_at 100 (info 7) ∷ []) [] 80000999 (sent_at 200 (info 8)) refl
        (record { no_wrap = omega arith; late = omega arith; early = omega arith }) (end [])))

Trace-Delivers_example : Delivers events (sent_at 200 (info 8) ∷ []) decoder
Trace-Delivers_example =
    Trace-Delivers decoder [] events (sent_at 200 (info 8) ∷ []) refl tt events-Trace

abbrev at_once : Answer
at_once = record { sending = sent; receiving = received; scaled = true }

abbrev later : Answer
later = record { sending = sent; receiving = no_frame_yet; scaled = true }

handle_events-IsOwned_example : IsOwned (
    handle_events
      (pushed spans 7
        ∷ completed true (at_once ∷ [])
        ∷ destroyed 0
        ∷ pushed spans 8
        ∷ completed false (at_once ∷ [])
        ∷ [])
      new_decoder)
handle_events-IsOwned_example = handle_events-IsOwned (
    pushed spans 7
    ∷ completed true (at_once ∷ [])
    ∷ destroyed 0
    ∷ pushed spans 8
    ∷ completed false (at_once ∷ [])
    ∷ [])

-- After an answer that there is no frame yet, the bytes of a frame go out once more with the next.
resent :
    (handle_events
      (pushed ((1 ∷ []) ∷ []) 7
        ∷ completed true (later ∷ [])
        ∷ pushed ((2 ∷ []) ∷ []) 8
        ∷ completed true (at_once ∷ [])
        ∷ [])
      new_decoder).sent_packets
    ≡ (1 ∷ []) ∷ (1 ∷ 2 ∷ []) ∷ []
unfolding handle_events new_decoder pop_back
resent = refl

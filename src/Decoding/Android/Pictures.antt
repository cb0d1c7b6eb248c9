-- ===== src/Decoding/Android/Pictures.antt =====
-- The pictures that the codec hands back to client/decoder/android/android_decoder.cpp, and the
-- information about frames that waits for them.

use wi_vrn.Common.{
  ℕ, ◌+◌, ◌*◌, ◌^◌, ◌≤◌, ◌<◌, ◌≡◌, refl, List, [], ◌∷◌, ◌++◌, some, Bool, true, false, leb, ◌==◌,
  All, arith, ==-refl, ok,
}
use wi_vrn.Queue.{done, push, pop_if, drop_until, drop_items, with_front}
use wi_vrn.Decoding.Android.{
  Decoder, FrameInfo, push_blit_handle, fake_timestamp_us, frame_completed, frame_of_ns,
  on_image_available,
}

abbrev pub index_of : FrameInfo → ℕ
index_of info = info.feedback.frame_index

-- The frame indices ascend.
abbrev pub IsAscending : List FrameInfo → Type 0
IsAscending [] = Unit {0}
IsAscending (x ∷ more) = All (λ y. index_of x < index_of y) more × IsAscending more

-- `frame_completed` of a frame at a time, or the picture of a timestamp.
pub data Event : Type 0 where
  complete : ℕ → FrameInfo → Event
  picture : ℕ → Event

-- What `frame_completed` keeps of a frame.
abbrev pub sent_at : ℕ → FrameInfo → FrameInfo
sent_at now info = record info { feedback = record info.feedback { sent_to_decoder = now } }

-- The timestamp in nanoseconds is less than five milliseconds off the one in microseconds that the
-- frame went to the codec with, which did not wrap.
pub record IsNear (timestamp_ns : ℕ) (info : FrameInfo) : Type 0 where
  pub no_wrap : index_of info * 10000 < 2 ^ 64
  pub late : fake_timestamp_us (index_of info) * 1000 ≤ timestamp_ns + 5000000
  pub early : timestamp_ns < fake_timestamp_us (index_of info) * 1000 + 5000000

-- Frames are completed in ascending order, and the codec hands back a picture of a frame only after
-- that, and at most one, in the order of the frames, but may leave frames out. The first list has
-- the frames whose pictures may still come, and the second those whose pictures do.
pub data Trace : List FrameInfo → List Event → List FrameInfo → Type 0 where
  end : (pending : List FrameInfo) → Trace pending [] []
  completes :
      (pending : List FrameInfo) (now : ℕ) (x : FrameInfo) {events : List Event}
      {shown : List FrameInfo}
      → All (λ y. index_of y < index_of x) pending
      → Trace (pending ++ (sent_at now x ∷ [])) events shown
      → Trace pending (complete now x ∷ events) shown
  shows :
      (pending before after : List FrameInfo) (timestamp_ns : ℕ) (x : FrameInfo)
      {events : List Event} {shown : List FrameInfo}
      → pending ≡ before ++ (x ∷ after)
      → IsNear timestamp_ns x
      → Trace after events shown
      → Trace pending (picture timestamp_ns ∷ events) (x ∷ shown)

-- The decoder handles the events without waiting, and gives the scene the pictures with exactly
-- this information, each picture when it comes.
abbrev pub Delivers : List Event → List FrameInfo → Decoder → Type 0
Delivers [] shown d = shown ≡ []
Delivers (complete now x ∷ events) shown d = Delivers events shown (frame_completed true now x d).0
Delivers (picture timestamp_ns ∷ events) shown d =
    (x : FrameInfo) × (later : List FrameInfo) × (d' : Decoder) × ((shown ≡ x ∷ later)
      × ((on_image_available true timestamp_ns d ≡ done (d', push_blit_handle x ∷ []))
          × Delivers events later d'))

frame_of_ns-near :
    (timestamp_ns : ℕ) (x : FrameInfo)
    → IsNear timestamp_ns x
    → frame_of_ns timestamp_ns ≡ index_of x
unfolding frame_of_ns fake_timestamp_us
frame_of_ns-near timestamp_ns x near =
    let small = near.no_wrap in let late = near.late in let early = near.early in omega arith

All-append-last :
    (x : FrameInfo) (z : FrameInfo) (l : List FrameInfo)
    → All (λ y. index_of z < index_of y) l
    → index_of z < index_of x
    → All (λ y. index_of z < index_of y) (l ++ (x ∷ []))
All-append-last x z [] h lt = (lt, tt)
All-append-last x z (y ∷ l) h lt = (h.0, All-append-last x z l h.1 lt)

IsAscending-append :
    (l : List FrameInfo) (x : FrameInfo)
    → IsAscending l
    → All (λ y. index_of y < index_of x) l
    → IsAscending (l ++ (x ∷ []))
IsAscending-append [] x h a = (tt, tt)
IsAscending-append (y ∷ l) x h a = (All-append-last x y l h.0 a.0, IsAscending-append l x h.1 a.1)

All-middle :
    (z : FrameInfo) (before : List FrameInfo) (x : FrameInfo) (after : List FrameInfo)
    → All (λ y. index_of z < index_of y) (before ++ (x ∷ after))
    → index_of z < index_of x
All-middle z [] x after h = h.0
All-middle z (y ∷ before) x after h = All-middle z before x after h.1

abbrev not_before : ℕ → FrameInfo → Bool
not_before n x = leb n x.feedback.frame_index

-- Of ascending frames, those before a frame are dropped, and those behind it ascend.
drop_items-middle :
    (before : List FrameInfo) (x : FrameInfo) (after : List FrameInfo)
    → IsAscending (before ++ (x ∷ after))
    → (drop_items (not_before (index_of x)) (before ++ (x ∷ after)) ≡ x ∷ after) × IsAscending after
unfolding drop_items
drop_items-middle [] x after h =
    let e : leb x.feedback.frame_index x.feedback.frame_index ≡ true = ground arith in
    (rw e refl, h.1)
drop_items-middle (y ∷ before) x after h =
    let less = All-middle y before x after h.0 in
    let e : leb x.feedback.frame_index y.feedback.frame_index ≡ false = ground arith in
    let rest = drop_items-middle before x after h.1 in (rw e rest.0, rest.1)

drop_until_pending :
    (x : FrameInfo) (d : Decoder) (pending before after : List FrameInfo)
    → d.frame_infos ≡ record { queue = pending; closed = false }
    → pending ≡ before ++ (x ∷ after)
    → IsAscending (before ++ (x ∷ after))
    → drop_until (not_before (index_of x)) d.frame_infos
      ≡ record { queue = x ∷ after; closed = false }
unfolding drop_until
drop_until_pending x d pending before after e split asc =
    rw (e, split, (drop_items-middle before x after asc).0) refl

pop_if_front :
    (x : FrameInfo) (after : List FrameInfo)
    → pop_if
        (λ (y : FrameInfo). y.feedback.frame_index == index_of x)
        (record { queue = x ∷ after; closed = false })
      ≡ done (ok (some x, record { queue = after; closed = false }))
unfolding pop_if with_front
pop_if_front x after = rw (==-refl (index_of x)) refl

shows_middle :
    (d : Decoder) (pending before after : List FrameInfo) (timestamp_ns : ℕ) (x : FrameInfo)
    → d.frame_infos ≡ record { queue = pending; closed = false }
    → pending ≡ before ++ (x ∷ after)
    → IsAscending pending
    → IsNear timestamp_ns x
    → on_image_available true timestamp_ns d
      ≡ done (
        record d { frame_infos = record { queue = after; closed = false } },
        push_blit_handle x ∷ [],
      )
unfolding on_image_available
shows_middle d pending before after timestamp_ns x e split asc near =
    let asc' : IsAscending (before ++ (x ∷ after)) = rw split at asc in
    rw
      (
        frame_of_ns-near timestamp_ns x near,
        drop_until_pending x d pending before after e split asc',
        pop_if_front x after,
      )
      refl

-- Frames are completed in ascending order, on a decoder whose queue is open and has the frames
-- whose pictures may still come: then, whichever frames the codec leaves out, and however
-- completions and pictures alternate, each picture is given to the scene at once with the
-- information about its own frame, if the codec keeps the timestamps up to five milliseconds.
pub Trace-Delivers :
    (d : Decoder) (pending : List FrameInfo) (events : List Event) (shown : List FrameInfo)
    → d.frame_infos ≡ record { queue = pending; closed = false }
    → IsAscending pending
    → Trace pending events shown
    → Delivers events shown d
unfolding frame_completed push
Trace-Delivers d pending events shown e asc (end _) = refl
Trace-Delivers d pending events shown e asc (completes _ now x less trace) =
    Trace-Delivers (frame_completed true now x d).0 (pending ++ (sent_at now x ∷ [])) _ shown
      (rw e refl) (IsAscending-append pending (sent_at now x) asc less) trace
Trace-Delivers d pending events shown e asc (shows _ before after timestamp_ns x split near trace) =
    let asc' : IsAscending (before ++ (x ∷ after)) = rw split at asc in
    let d' = record d { frame_infos = record { queue = after; closed = false } } in
    (
      x,
      _,
      d',
      (
        refl,
        (
          shows_middle d pending before after timestamp_ns x e split asc near,
          Trace-Delivers d' after _ _ refl (drop_items-middle before x after asc').1 trace,
        ),
      ),
    )

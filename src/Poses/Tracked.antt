-- ===== src/Poses/Tracked.antt =====
-- The samples of a tracked device after any packets, server/driver/pose_list.cpp and history.h.
use wi_vrn.Common.{
  ℕ, ◌≡◌, ◌≤◌, ◌⊎◌, inl, inr, refl, some, List, [], ◌∷◌, All, length, Option-cases, arith,
}
use wi_vrn.ClockOffset.{Doubles, ClockOffset, from_headset}
use wi_vrn.History.{TimedData}
use wi_vrn.History.Kept.{All-add_sample}
use wi_vrn.History.Order.{IsAscending, add_sample-IsAscending}
use wi_vrn.Poses.{Space, Pose, Relation, convert_pose, pose_of, update_tracking}

-- A `tracking` packet, and the clock offset when it is handled.
pub record Tracking (v : Space) (d : Doubles) : Type 0 where
  pub production_timestamp : ℕ
  pub timestamp : ℕ
  pub device_poses : List (Pose v)
  pub offset : ClockOffset d

module _ {v : Space} {d : Doubles} (max_samples device : ℕ) where
  abbrev pub track :
      List (Tracking v d) → List (TimedData (Relation v)) → List (TimedData (Relation v))
  track [] l = l
  track (p ∷ packets) l = track packets (
      update_tracking p.offset max_samples device p.production_timestamp p.timestamp p.device_poses
        l)

  -- The sample is the first pose of the device in the packet, at the packet's times.
  abbrev pub IsSampleOf : Tracking v d → TimedData (Relation v) → Type 0
  IsSampleOf p x =
      (pose : Pose v) × (pose_of device p.device_poses ≡ some pose)
      × (x ≡ record {
        sample = convert_pose pose;
        produced_timestamp = from_headset p.offset p.production_timestamp;
        at_timestamp_ns = from_headset p.offset p.timestamp;
      })

  abbrev pub IsSampleOfOne : List (Tracking v d) → TimedData (Relation v) → Type 0
  IsSampleOfOne [] x = ⊥
  IsSampleOfOne (p ∷ packets) x = IsSampleOf p x ⊎ IsSampleOfOne packets x

  -- Every sample of each of the packets satisfies `Q`.
  abbrev AllGive : (TimedData (Relation v) → Type 0) → List (Tracking v d) → Type 0
  AllGive Q [] = Unit
  AllGive Q (p ∷ packets) =
      ((x : TimedData (Relation v)) → IsSampleOf p x → Q x) × AllGive Q packets

  AllGive-mono :
      (Q R : TimedData (Relation v) → Type 0) (packets : List (Tracking v d))
      → ((x : TimedData (Relation v)) → Q x → R x)
      → AllGive Q packets
      → AllGive R packets
  AllGive-mono Q R [] f give = tt
  AllGive-mono Q R (p ∷ packets) f (g, give) =
      (λ x is. f x (g x is), AllGive-mono Q R packets f give)

  own : (packets : List (Tracking v d)) → AllGive (IsSampleOfOne packets) packets
  own [] = tt
  own (p ∷ packets) = (
    λ x is. inl is,
    AllGive-mono (IsSampleOfOne packets) (IsSampleOfOne (p ∷ packets)) packets (λ x is. inr is)
        (own packets),
  )

  update-All :
      (Q : TimedData (Relation v) → Type 0) (p : Tracking v d) (l : List (TimedData (Relation v)))
      → ((x : TimedData (Relation v)) → IsSampleOf p x → Q x)
      → All Q l
      → All Q (
          update_tracking p.offset max_samples device p.production_timestamp p.timestamp
            p.device_poses l)
  unfolding update_tracking
  update-All Q p l give all = elim (Option-cases (pose_of device p.device_poses)) [
    | inl unseen ↦ rw unseen all
    | inr (pose, seen) ↦ rw seen (
        All-add_sample Q (from_headset p.offset) max_samples p.production_timestamp p.timestamp
          (convert_pose pose) l
          (give
            (record {
              sample = convert_pose pose;
              produced_timestamp = from_headset p.offset p.production_timestamp;
              at_timestamp_ns = from_headset p.offset p.timestamp;
            })
            (pose, seen, refl))
          all)
  ]

  update-IsAscending :
      (p : Tracking v d) (l : List (TimedData (Relation v)))
      → IsAscending l
      → length l ≤ max_samples
      → IsAscending (
          update_tracking p.offset max_samples device p.production_timestamp p.timestamp
            p.device_poses l)
        × (length (
              update_tracking p.offset max_samples device p.production_timestamp p.timestamp
                p.device_poses l)
            ≤ max_samples)
  unfolding update_tracking
  update-IsAscending p l asc fits = elim (Option-cases (pose_of device p.device_poses)) [
    | inl unseen ↦ rw unseen (asc, fits)
    | inr (pose, seen) ↦ rw seen (
        add_sample-IsAscending (from_headset p.offset) max_samples p.production_timestamp
          p.timestamp (convert_pose pose) l asc fits)
  ]

  track-keeps :
      (Q : TimedData (Relation v) → Type 0) (packets : List (Tracking v d))
      (l : List (TimedData (Relation v)))
      → AllGive Q packets
      → All Q l
      → IsAscending l
      → length l ≤ max_samples
      → IsAscending (track packets l)
        × (length (track packets l) ≤ max_samples)
        × All Q (track packets l)
  track-keeps Q [] l give all asc fits = (asc, fits, all)
  track-keeps Q (p ∷ packets) l (g, give) all asc fits =
      let (asc', fits') = update-IsAscending p l asc fits in
      track-keeps Q packets
        (update_tracking p.offset max_samples device p.production_timestamp p.timestamp
          p.device_poses l)
        give (update-All Q p l g all) asc' fits'

  -- After any tracking packets, in any order and with any clock offsets, the samples of a device
  -- ascend by their 64-bit times as unsigned numbers, in which a negative time counts as a great one,
  -- no two have the same time, and they are at most `MaxSamples`; and each of them is the first pose
  -- of that device in one of the packets, at the packet's times on the server.
  pub track-samples :
      (packets : List (Tracking v d))
      → IsAscending (track packets [])
        × (length (track packets []) ≤ max_samples)
        × All (IsSampleOfOne packets) (track packets [])
  track-samples packets =
      track-keeps (IsSampleOfOne packets) packets [] (own packets) tt tt (omega arith)

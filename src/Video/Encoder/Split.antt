-- ===== src/Video/Encoder/Split.antt =====
-- What `SendData` cuts a byte string into.
use wi_vrn.Common.{
  ℕ, zero, suc, ◌+◌, ◌%◌, ◌^◌, ◌<◌, ◌≤◌, ◌≡◌, ◌⊎◌, refl, sym, ap, ◌∙◌, List, [], ◌∷◌, ◌++◌, Bool,
  true, false, not, ◌&&◌, leb, ◌==◌, if◌then◌else◌, length, take, drop, concat, map, arith,
  length-take, length-drop, take-append-drop, All, Bool-cases, inl, inr,
}
use mathlib.Core.Path.{subst}
use Prim.Native.Nat.{bit_and, bit_or}
use wi_vrn.Video.Shard.{Shard, TimingInfo, IsTrain, is_nil, ends_frame, start_of_slice}
use wi_vrn.Video.Encoder.{Encoder, room, fill, following, send_loop, send_data, stamp}

room_bounds : (s : Shard) → (1304 ≤ room s) × (room s ≤ 1400)
room_bounds s = ground arith

-- A fuel that the length of the data covers is enough: no byte is left over, and none is changed.
send_loop-concat :
    (fuel : ℕ) (ends : Bool) (timing : TimingInfo) (s : Shard) (bytes : List ℕ)
    → length bytes ≤ fuel
    → concat (map (λ o. o.payload) (send_loop fuel ends timing s bytes).0) ≡ bytes
unfolding send_loop
send_loop-concat fuel ends timing s [] h = refl
send_loop-concat zero ends timing s (b ∷ bs) h = absurd (omega arith)
send_loop-concat (suc fuel) ends timing s (b ∷ bs) h =
    let out = fill ends timing s (b ∷ bs) in
    let rest = drop (room s) (b ∷ bs) in
    ap (◌++◌ (take (room s) (b ∷ bs))) (
      send_loop-concat fuel ends timing (following out) rest
        (omega (arith, length-drop (room s) (b ∷ bs), room_bounds s)))
    ∙ take-append-drop (room s) (b ∷ bs)

-- The room of the template leaves space for the position information.
abbrev pub Fits : Shard → Type 0
Fits o = (0 < length o.payload) × (length o.payload ≤ room o)

send_loop-Fits :
    (fuel : ℕ) (ends : Bool) (timing : TimingInfo) (s : Shard) (bytes : List ℕ)
    → All Fits (send_loop fuel ends timing s bytes).0
unfolding send_loop
send_loop-Fits fuel ends timing s [] = tt
send_loop-Fits zero ends timing s (b ∷ bs) = tt
send_loop-Fits (suc fuel) ends timing s (b ∷ bs) =
    let out = fill ends timing s (b ∷ bs) in
    let size = length-take (room s) (b ∷ bs) in
    (
      (omega (arith, size, room_bounds s), omega (arith, size)),
      send_loop-Fits fuel ends timing (following out) (drop (room s) (b ∷ bs)),
    )

fill-ends_frame :
    (ends : Bool) (timing : TimingInfo) (s : Shard) (bytes : List ℕ) (f : ℕ)
    → s.flags ≡ f
    → (f ≡ 0) ⊎ (f ≡ start_of_slice)
    → ends_frame (fill ends timing s bytes) ≡ (ends && leb (length bytes) (room s))
unfolding fill
fill-ends_frame ends timing s bytes f e c = elim (Bool-cases (leb (length bytes) (room s))) [
  | inl t ↦ rw (e, t) (last ends c)
  | inr t ↦ rw (e, t) (other ends c)
]
  where
    last :
        (b : Bool)
        → (f ≡ 0) ⊎ (f ≡ start_of_slice)
        → not (bit_and (bit_or (bit_or f 2) (if b then 4 else 0)) 4 == 0) ≡ (b && true)
    last true (inl z) = rw z
    last true (inr z) = rw z
    last false (inl z) = rw z
    last false (inr z) = rw z

    other : (b : Bool) → (f ≡ 0) ⊎ (f ≡ start_of_slice) → not (bit_and f 4 == 0) ≡ (b && false)
    other true (inl z) = rw z
    other true (inr z) = rw z
    other false (inl z) = rw z
    other false (inr z) = rw z

is_nil-send_loop :
    (fuel : ℕ) (ends : Bool) (timing : TimingInfo) (s : Shard) (bytes : List ℕ)
    → length bytes ≤ fuel
    → is_nil (send_loop fuel ends timing s bytes).0 ≡ leb (length bytes) 0
unfolding send_loop
is_nil-send_loop fuel ends timing s [] h = refl
is_nil-send_loop zero ends timing s (b ∷ bs) h = absurd (omega arith)
is_nil-send_loop (suc fuel) ends timing s (b ∷ bs) h = ground arith

leb-drop : (n : ℕ) (xs : List ℕ) → leb (length (drop n xs)) 0 ≡ leb (length xs) n
leb-drop n xs = ground (arith, length-drop n xs)

send_loop-IsTrain :
    (fuel : ℕ) (ends : Bool) (timing : TimingInfo) (s : Shard) (bytes : List ℕ)
    → length bytes ≤ fuel
    → (s.flags ≡ 0) ⊎ (s.flags ≡ start_of_slice)
    → let r = send_loop fuel ends timing s bytes in
      s.shard_idx + length r.0 < 2 ^ 16
      → IsTrain s.frame_idx ends s.shard_idx r.0
        × (r.1.shard_idx ≡ s.shard_idx + length r.0)
        × (r.1.frame_idx ≡ s.frame_idx)
unfolding send_loop
send_loop-IsTrain fuel ends timing s [] h c small = (tt, omega arith, refl)
send_loop-IsTrain zero ends timing s (b ∷ bs) h c small = absurd (omega arith)
send_loop-IsTrain (suc fuel) ends timing s (b ∷ bs) h c small =
    let out = fill ends timing s (b ∷ bs) in
    let rest = drop (room s) (b ∷ bs) in
    let covered : length rest ≤ fuel =
      omega (arith, length-drop (room s) (b ∷ bs), room_bounds s) in
    let e : (s.shard_idx + 1) % 2 ^ 16 ≡ s.shard_idx + 1 = omega arith in
    let (train, count, frame) =
      send_loop-IsTrain fuel ends timing (following out) rest covered (inl refl)
        (omega (arith, e)) in
    let outs = (send_loop fuel ends timing (following out) rest).0 in
    (
      (
        refl,
        refl,
        fill-ends_frame ends timing s (b ∷ bs) s.flags refl c
            ∙ ap (◌&&◌ ends) (
                sym (
                  is_nil-send_loop fuel ends timing (following out) rest covered
                  ∙ leb-drop (room s) (b ∷ bs))),
        subst (λ k. IsTrain s.frame_idx ends k outs) e train,
      ),
      omega (arith, count, e),
      frame,
    )

-- `SendData` cuts any data into shards whose payloads, one after the other, are the data. No
-- payload is empty, and each fits the 1400 bytes of a shard, less the position information where
-- the shard carries it.
pub send_data-concat :
    (bytes : List ℕ) (ends : Bool) (now : ℕ) (e : Encoder)
    → let outs = (send_data bytes ends now e).0 in
      (concat (map (λ o. o.payload) outs) ≡ bytes) × All Fits outs
unfolding send_data
send_data-concat bytes ends now e =
    let template = record (e.shard) { flags = start_of_slice } in
    (
      send_loop-concat (length bytes) ends (stamp e ends now) template bytes (omega arith),
      send_loop-Fits (length bytes) ends (stamp e ends now) template bytes,
    )

-- As long as the shard counter of a frame stays below 65536, `SendData` numbers its shards on from
-- the counter, all in the frame of the last `Encode`, and advances the counter by as many; exactly
-- the last shard is marked as the end of the frame if the data ends it, and otherwise none is.
pub send_data-IsTrain :
    (bytes : List ℕ) (ends : Bool) (now : ℕ) (e : Encoder)
    → let r = send_data bytes ends now e in
      e.shard.shard_idx + length r.0 < 2 ^ 16
      → IsTrain e.shard.frame_idx ends e.shard.shard_idx r.0
        × (r.1.shard.shard_idx ≡ e.shard.shard_idx + length r.0)
        × (r.1.shard.frame_idx ≡ e.shard.frame_idx)
unfolding send_data
send_data-IsTrain bytes ends now e small =
    send_loop-IsTrain (length bytes) ends (stamp e ends now)
      (record (e.shard) { flags = start_of_slice }) bytes (omega arith) (inr refl) small

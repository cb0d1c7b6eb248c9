-- ===== src/Decoding/Ffmpeg/Images.antt =====
-- The images of client/decoder/ffmpeg/ffmpeg_decoder.cpp, and the handles that show them.

use wi_vrn.Common.{
  ℕ, zero, suc, ◌+◌, ◌≤◌, ◌<◌, ◌==◌, ◌≡◌, ◌≢◌, refl, ap, ◌∙◌, List, [], ◌∷◌, ◌++◌, none, some, Bool,
  true, false, if◌then◌else◌, length, All, arith, inl, inr, ◌⊎◌, map, update, update-same,
  update-other,
}
use wi_vrn.Decoding.Ffmpeg.{
  Decoder, BlitHandle, image_count, counting, new_decoder, push_data, Answer, Outcome, returned,
  thrown, unanswered, pop_back, hand_over, fill_image, take_image, receive_frame, send_loop,
  frame_completed, state_of, remove_at, destroy_handle, Event, pushed, completed, destroyed,
  handle_event, handle_events, received, no_frame_yet, not_received, sent, not_sent, try_again,
}

-- How often an image is in a list.
abbrev pub count : ℕ → List ℕ → ℕ
count i [] = 0
count i (j ∷ images) = if i == j then suc (count i images) else count i images

abbrev pub images_of : List BlitHandle → List ℕ
images_of handles = map (λ (h : BlitHandle). h.image_index) handles

-- No image is free twice, held by two handles, or free and held; and each handle shows the frame
-- that it was made for.
pub record IsOwned (d : Decoder) : Type 0 where
  pub owned_once : (i : ℕ) → count i d.free_images + count i (images_of d.handles) ≤ 1
  pub shown : All (λ h. d.decoded_images h.image_index ≡ h.frame_index) d.handles

count-append : (i : ℕ) (xs ys : List ℕ) → count i (xs ++ ys) ≡ count i xs + count i ys
count-append i [] ys = omega arith
count-append i (x ∷ xs) ys = ground (arith, count-append i xs ys)

pop_back-none : (xs : List ℕ) → pop_back xs ≡ none → xs ≡ []
unfolding pop_back
pop_back-none [] e = refl
pop_back-none (x ∷ xs) e = ground arith

-- `back` is the last image, and there is one unless the list is empty.
pop_back-cases :
    (xs : List ℕ)
    → (pop_back xs ≡ none)
      ⊎ ((front : List ℕ) × (last : ℕ) × ((pop_back xs ≡ some (front, last))
            × (xs ≡ front ++ (last ∷ []))))
unfolding pop_back
pop_back-cases [] = inl refl
pop_back-cases (x ∷ xs) = elim (pop_back-cases xs) [
  | inl e ↦ inr ([], x, (rw e refl, ap (◌∷◌ x) (pop_back-none xs e)))
  | inr (front, last, (e, split)) ↦ inr (x ∷ front, last, (rw e refl, ap (◌∷◌ x) split))
]

count-zero :
    (i : ℕ) (h : BlitHandle) (handles : List BlitHandle)
    → count i (images_of (h ∷ handles)) ≡ 0
    → (i ≢ h.image_index) × (count i (images_of handles) ≡ 0)
count-zero i h handles e = (λ p. ground arith, ground arith)

-- A frame written to an image that no handle has changes nothing that is shown.
shown-update :
    (f : ℕ → ℕ) (i frame : ℕ) (handles : List BlitHandle)
    → count i (images_of handles) ≡ 0
    → All (λ h. f h.image_index ≡ h.frame_index) handles
    → All (λ h. update f i frame h.image_index ≡ h.frame_index) handles
shown-update f i frame [] e s = tt
shown-update f i frame (h ∷ handles) e s =
    let other = count-zero i h handles e in
    (update-other f i h.image_index frame other.0 ∙ s.0, shown-update f i frame handles other.1 s.1)

count_self : (i : ℕ) → count i (i ∷ []) ≡ 1
count_self i = ground arith

hand_over-IsOwned :
    (has_scene : Bool) (index : ℕ) (d : Decoder)
    → IsOwned d
    → count index d.free_images + count index (images_of d.handles) ≡ 0
    → d.decoded_images index ≡ d.frame_index
    → IsOwned (hand_over has_scene index d)
unfolding hand_over
hand_over-IsOwned true index d o unused e = record {
  owned_once = λ i. ground (arith, o.owned_once i);
  shown = (e, o.shown);
}
hand_over-IsOwned false index d o unused e = record {
  owned_once = λ i. ground (arith, o.owned_once i, count-append i d.free_images (index ∷ []));
  shown = o.shown;
}

-- An image that is taken from the free ones is in no handle, and can be written to.
fill_image-IsOwned :
    (has_scene scaled : Bool) (more : List Answer) (front : List ℕ) (last : ℕ) (d : Decoder)
    → IsOwned d
    → d.free_images ≡ front ++ (last ∷ [])
    → IsOwned (state_of (fill_image has_scene scaled more last (record d { free_images = front })))
unfolding fill_image
fill_image-IsOwned has_scene scaled more front last d o split =
    let one : (i : ℕ) → count i d.free_images ≡ count i front + count i (last ∷ []) =
      λ i. ap (count i) split ∙ count-append i front (last ∷ []) in
    let unheld : count last (images_of d.handles) ≡ 0 =
      omega (arith, o.owned_once last, one last, count_self last) in
    let written = record d {
      free_images = front;
      decoded_images = update d.decoded_images last d.frame_index;
    } in
    let owned : IsOwned written = record {
      owned_once = λ i. omega (arith, o.owned_once i, one i);
      shown = shown-update d.decoded_images last d.frame_index d.handles unheld o.shown;
    } in
    elim scaled
      as (λ b. IsOwned (
        state_of
          (if b then returned (hand_over has_scene last written) more else thrown written))) [
            | true ↦
                hand_over-IsOwned has_scene last written owned
                  (omega (arith, o.owned_once last, one last, count_self last))
                  (update-same d.decoded_images last d.frame_index)
            | false ↦ owned
          ]

take_image-IsOwned :
    (has_scene scaled : Bool) (more : List Answer) (d : Decoder)
    → IsOwned d
    → IsOwned (state_of (take_image has_scene scaled more d))
unfolding take_image
take_image-IsOwned has_scene scaled more d o = elim (pop_back-cases d.free_images) [
  | inl e ↦ rw (e, state_of, take_image) o
  | inr (front, last, (e, split)) ↦
      rw (e, state_of, take_image) (fill_image-IsOwned has_scene scaled more front last d o split)
]

receive_frame-IsOwned :
    (has_scene : Bool) (a : Answer) (more : List Answer) (d : Decoder)
    → IsOwned d
    → IsOwned (state_of (receive_frame has_scene a more d))
unfolding receive_frame
receive_frame-IsOwned has_scene a more d o =
    elim (a.receiving)
      as (λ r. IsOwned (
        state_of (elim r [
          | no_frame_yet ↦ returned d more
          | not_received ↦ thrown d
          | received ↦ take_image has_scene a.scaled more (record d { packet = [] })
        ]))) [
          | no_frame_yet ↦ o
          | not_received ↦ o
          | received ↦
              take_image-IsOwned has_scene a.scaled more (record d { packet = [] })
                (record { owned_once = o.owned_once; shown = o.shown })
        ]

again-IsOwned :
    (o : Outcome) (next : List Answer → Decoder → Outcome)
    → IsOwned (state_of o)
    → ((left : List Answer) (d : Decoder) → IsOwned d → IsOwned (state_of (next left d)))
    → IsOwned (
        state_of (elim o [
          | returned d left ↦ next left d
          | thrown d ↦ thrown d
          | unanswered d ↦ unanswered d
        ]))
again-IsOwned (returned d left) next h all = all left d h
again-IsOwned (thrown d) next h all = h
again-IsOwned (unanswered d) next h all = h

send_loop-IsOwned :
    (fuel : ℕ) (has_scene : Bool) (bytes : List ℕ) (answers : List Answer) (d : Decoder)
    → IsOwned d
    → IsOwned (state_of (send_loop fuel has_scene bytes answers d))
unfolding send_loop
send_loop-IsOwned zero has_scene bytes answers d o = o
send_loop-IsOwned (suc fuel) has_scene bytes [] d o = o
send_loop-IsOwned (suc fuel) has_scene bytes (a ∷ more) d o =
    let d' = record d { sent_packets = d.sent_packets ++ (bytes ∷ []) } in
    let o' : IsOwned d' = record { owned_once = o.owned_once; shown = o.shown } in
    elim (a.sending)
      as (λ s. IsOwned (
        state_of (elim s [
          | not_sent ↦ thrown d'
          | sent ↦ receive_frame has_scene a more d'
          | try_again ↦ elim (send_loop fuel has_scene d.packet more d') [
            | returned d'' left ↦ send_loop fuel has_scene bytes left d''
            | thrown d'' ↦ thrown d''
            | unanswered d'' ↦ unanswered d''
          ]
        ]))) [
          | not_sent ↦ o'
          | sent ↦ receive_frame-IsOwned has_scene a more d' o'
          | try_again ↦
              again-IsOwned (send_loop fuel has_scene d.packet more d')
                (λ left d''. send_loop fuel has_scene bytes left d'')
                (send_loop-IsOwned fuel has_scene d.packet more d' o')
                (λ left d'' h. send_loop-IsOwned fuel has_scene bytes left d'' h)
        ]

-- A handle that ends gives its image back, and those that stay are as they were.
remove_at-cases :
    (i : ℕ) (f : ℕ → ℕ) (handles : List BlitHandle)
    → (remove_at i handles ≡ none)
      ⊎ ((h : BlitHandle) × (left : List BlitHandle) × ((remove_at i handles ≡ some (h, left))
            × (((j : ℕ)
                  → count j (images_of handles)
                    ≡ count j (images_of left) + count j (h.image_index ∷ []))
                × (All (λ g. f g.image_index ≡ g.frame_index) handles
                    → All (λ g. f g.image_index ≡ g.frame_index) left))))
unfolding remove_at
remove_at-cases i f [] = inl refl
remove_at-cases zero f (h ∷ handles) = inr (h, handles, (refl, ((λ j. ground arith), λ s. s.1)))
remove_at-cases (suc i) f (h ∷ handles) = elim (remove_at-cases i f handles) [
  | inl e ↦ inl (rw e refl)
  | inr (h', left, (e, (counts, shown))) ↦
      inr (h', h ∷ left, (rw e refl, ((λ j. ground (arith, counts j)), λ s. (s.0, shown s.1))))
]

destroy_handle-IsOwned : (i : ℕ) (d : Decoder) → IsOwned d → IsOwned (destroy_handle i d)
unfolding destroy_handle
destroy_handle-IsOwned i d o = elim (remove_at-cases i d.decoded_images d.handles) [
  | inl e ↦ rw (e, destroy_handle) o
  | inr (h, left, (e, (counts, shown))) ↦
      rw (e, destroy_handle)
        (record {
          owned_once = λ j.
              omega (
                arith,
                o.owned_once j,
                counts j,
                count-append j d.free_images (h.image_index ∷ []),
              );
          shown = shown o.shown;
        })
]

handle_event-IsOwned : (e : Event) (d : Decoder) → IsOwned d → IsOwned (handle_event e d)
unfolding handle_event push_data frame_completed
handle_event-IsOwned (pushed spans frame_index) d o = record {
  owned_once = o.owned_once;
  shown = o.shown;
}
handle_event-IsOwned (completed has_scene answers) d o =
    send_loop-IsOwned (suc (length answers)) has_scene d.packet answers d o
handle_event-IsOwned (destroyed i) d o = destroy_handle-IsOwned i d o

count-counting :
    (n from i : ℕ) → (i < from → count i (counting n from) ≡ 0) × (count i (counting n from) ≤ 1)
unfolding counting
count-counting zero from i = ((λ h. refl), omega arith)
count-counting (suc n) from i =
    let ih = count-counting n (suc from) i in
    ((λ h. ground (arith, ih.0 (omega arith))), ground (arith, ih.0, ih.1))

new_decoder-IsOwned : IsOwned new_decoder
unfolding new_decoder
new_decoder-IsOwned = record {
  owned_once = λ i. let once = (count-counting image_count 0 i).1 in omega (arith, once);
  shown = tt;
}

handle_events-IsOwned' :
    (events : List Event) (d : Decoder) → IsOwned d → IsOwned (handle_events events d)
unfolding handle_events
handle_events-IsOwned' [] d o = o
handle_events-IsOwned' (e ∷ events) d o =
    handle_events-IsOwned' events (handle_event e d) (handle_event-IsOwned e d o)

-- Whatever data comes, whatever FFmpeg answers, whether or not the scene is still there, and in
-- whatever order handles end: no image is free twice, or held by two handles, or both free and held;
-- and each handle that is alive shows the frame that it was made for, since its image is not written
-- to before the handle ends.
pub handle_events-IsOwned : (events : List Event) → IsOwned (handle_events events new_decoder)
handle_events-IsOwned events = handle_events-IsOwned' events new_decoder new_decoder-IsOwned

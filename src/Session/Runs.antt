-- ===== src/Session/Runs.antt =====
-- A concrete handshake of the headset: a part of a packet, the server's handshake, a lost one.
use wi_vrn.Common.{List, [], ◌∷◌, some, false, ◌≡◌, refl}
use wi_vrn.Common.Int.{pos}
use wi_vrn.Session.{
  FirstTurn, partial, handshake, SecondTurn, ready, returned, shake_hands, first_loop, second_loop,
  send_handshake, resend_handshake, open_stream, needs_stream,
}
use wi_vrn.Session.Established.{WhenReturned, IsEstablished, shake_hands-IsEstablished}

abbrev first_turns : List FirstTurn
first_turns = partial ∷ handshake (pos 9757) false ∷ []

abbrev second_turns : List SecondTurn
second_turns = ready 0 false ∷ ready 1 false ∷ []

shake_hands_run :
    shake_hands first_turns second_turns
    ≡ returned (record { stream = some 9757; sent_on_control = 0; sent_on_stream = 2 })
unfolding shake_hands first_loop second_loop send_handshake resend_handshake open_stream
    needs_stream
shake_hands_run = refl

shake_hands-IsEstablished_example :
    WhenReturned IsEstablished (shake_hands first_turns second_turns)
shake_hands-IsEstablished_example = shake_hands-IsEstablished first_turns second_turns

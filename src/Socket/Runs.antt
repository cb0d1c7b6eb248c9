-- ===== src/Socket/Runs.antt =====
-- Concrete runs of the control socket.
use wi_vrn.Common.{ℕ, ◌%◌, ◌^◌, ◌≡◌, refl, List, [], ◌∷◌, ◌++◌, arith, length, concat}
use wi_vrn.Serial.Cursor.{is_empty}
use wi_vrn.Serial.Encoding.{bytes_of}
use wi_vrn.Socket.{
  Tcp, Sent, sent, returned, send_raw, send_loop, iovecs_of, consume, receive_raw, finish_receive,
}
use wi_vrn.Socket.Receiving.{frame, frames, deliver, deliver-frames}
use wi_vrn.Socket.Sending.{IsBeginning, send_raw-frame, send_raw-IsBeginning}

abbrev new_socket : Tcp
new_socket = record { buffer = []; bytes_received = 0; bytes_sent = 0 }

abbrev messages : List (List ℕ)
messages = (7 ∷ 8 ∷ []) ∷ (9 ∷ []) ∷ []

-- The kernel hands over one byte, then three, and so on.
abbrev pieces : List ℕ
pieces = 1 ∷ 3 ∷ 1 ∷ 9 ∷ 1 ∷ 1 ∷ 2 ∷ []

deliver_run : deliver pieces new_socket (frames messages) ≡ messages
unfolding deliver receive_raw finish_receive is_empty
deliver_run = refl

deliver-frames_example : deliver pieces new_socket (frames messages) ≡ messages
deliver-frames_example =
    deliver-frames messages pieces new_socket refl
      ((omega arith, omega arith), ((omega arith, omega arith), tt))
      (
        omega arith,
        (
          omega arith,
          (omega arith, (omega arith, (omega arith, (omega arith, (omega arith, tt))))),
        ),
      )
      (omega arith)

abbrev answers : List Sent
answers = sent 1 ∷ sent 2 ∷ sent 1 ∷ sent 1 ∷ sent 1 ∷ []

send_raw_run : send_raw answers messages ≡ (returned, 3 ∷ 0 ∷ 7 ∷ 8 ∷ 9 ∷ [])
unfolding send_raw iovecs_of send_loop consume
send_raw_run = refl

send_raw-frame_example : send_raw answers messages ≡ (returned, frame (concat messages))
send_raw-frame_example =
    send_raw-frame answers messages (omega arith)
      (omega arith, (omega arith, (omega arith, (omega arith, (omega arith, tt))))) (omega arith)

send_raw-IsBeginning_example :
    IsBeginning
      (bytes_of 2 (length (concat messages) % 2 ^ 16) ++ concat messages)
      (send_raw answers messages)
send_raw-IsBeginning_example = send_raw-IsBeginning answers messages

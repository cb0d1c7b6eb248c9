-- ===== src/Protocol/Runs.antt =====
-- Concrete messages of the protocol.
use wi_vrn.Common.{◌≡◌, refl, [], ◌∷◌, some, arith}
use wi_vrn.Common.{ok}
use wi_vrn.Serial.Types.{Value, Fields}
use wi_vrn.Serial.Packet.{wire}
use wi_vrn.Serial.Cursor.{Cursor, At}
use wi_vrn.Protocol.TypedSocket.{Alternative, here, there, inject, send, receive}
use wi_vrn.Protocol.Exchange.{held, wire-send, receive-send-held}
use wi_vrn.Common.{ℕ, ap, List, length}
use wi_vrn.Serial.Packet.{to_spans}
use wi_vrn.Socket.{Tcp, Sent, sent, returned, send_raw}
use wi_vrn.Protocol.OverTcp.{received, received-send}
use wi_vrn.Protocol.Base.{audio_data, audio_data_fields}
use wi_vrn.Protocol.ToHeadset

-- The server's handshake, with the port of the stream.
abbrev announced : Value ToHeadset.handshake
announced = (9757, tt)

abbrev announced_as : Alternative ToHeadset.handshake ToHeadset.packets
announced_as = here

abbrev announcement : Cursor
announcement = record { buffer = 5 ∷ 0 ∷ 0 ∷ 29 ∷ 38 ∷ 0 ∷ 0 ∷ []; read_index = 2 }

announcement_run : At announcement (wire (send announced_as announced))
announcement_run = record {
  inside = omega arith;
  small = omega arith;
  left = rw (wire-send announced_as announced) refl;
}

-- Three bytes of audio, at a time, and a holder that owns nothing.
abbrev audio : Fields audio_data_fields
audio = (6, (1 ∷ 2 ∷ 3 ∷ [], tt))

abbrev audio_as : Alternative audio_data ToHeadset.packets
audio_as = there (there (there here))

abbrev audio_packet : Cursor
audio_packet = record {
  buffer = 14 ∷ 0 ∷ 3 ∷ 6 ∷ 0 ∷ 0 ∷ 0 ∷ 0 ∷ 0 ∷ 0 ∷ 0 ∷ 3 ∷ 0 ∷ 1 ∷ 2 ∷ 3 ∷ [];
  read_index = 2;
}

audio_run : At audio_packet (wire (send audio_as (held audio_data_fields audio [])))
audio_run = record {
  inside = omega arith;
  small = omega arith;
  left = rw (wire-send audio_as (held audio_data_fields audio [])) refl;
}

receive-send-held_example :
    receive ToHeadset.packets audio_packet
    ≡ ok (some (inject audio_as (held audio_data_fields audio audio_packet.buffer)))
receive-send-held_example =
    receive-send-held audio_data_fields audio_as audio [] audio_packet (omega arith) (tt, (tt, tt))
      (omega arith, ((omega arith, (omega arith, (omega arith, (omega arith, tt)))), tt)) audio_run

abbrev nobody : Tcp
nobody = record { buffer = []; bytes_received = 0; bytes_sent = 0 }

-- `sendmsg` takes one byte, then the rest; `recv` hands over three, then what is there.
abbrev taken : List Sent
taken = sent 1 ∷ sent 6 ∷ sent 1 ∷ sent 1 ∷ sent 1 ∷ sent 1 ∷ sent 1 ∷ []

abbrev handed_over : List ℕ
handed_over = 3 ∷ 9 ∷ 9 ∷ 9 ∷ 9 ∷ 9 ∷ 9 ∷ []

received-send_example :
    ((send_raw taken (to_spans (send announced_as announced))).0 ≡ returned)
    × (received ToHeadset.packets handed_over nobody
          (send_raw taken (to_spans (send announced_as announced))).1
        ≡ ok (some (inject announced_as announced)) ∷ [])
received-send_example =
    received-send announced_as announced taken handed_over nobody (omega arith) (tt, tt)
      (omega arith, tt) (omega (arith, ap length (wire-send announced_as announced)))
      (
        omega arith,
        (
          omega arith,
          (omega arith, (omega arith, (omega arith, (omega arith, (omega arith, tt))))),
        ),
      )
      (omega (arith, ap length (wire-send announced_as announced))) refl
      (
        omega arith,
        (
          omega arith,
          (omega arith, (omega arith, (omega arith, (omega arith, (omega arith, tt))))),
        ),
      )
      (omega (arith, ap length (wire-send announced_as announced)))

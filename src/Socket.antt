-- ===== src/Socket.antt =====
-- `TCP` of common/wivrn_sockets.cpp: messages with a 16-bit size in front, over a byte stream. The
-- kernel's answers to `recv` and `sendmsg` are arguments.
pub mod Receiving
pub mod Sending
mod Runs
use wi_vrn.Common.{
  ℕ, zero, suc, ◌+◌, ◌-◌, ◌%◌, ◌^◌, List, [], ◌∷◌, ◌++◌, length, take, drop, concat, replicate, map,
  ltb, leb, if◌then◌else◌, Bool,
}
use wi_vrn.Common.{Result, ok, err, Exception, system_error, socket_shutdown}
use wi_vrn.Serial.Cursor.{Cursor}
use wi_vrn.Serial.Encoding.{bytes_of, number_of}

pub record Tcp : Type 0 where
  pub buffer : List ℕ
  pub bytes_received : ℕ
  pub bytes_sent : ℕ

-- What `recv` returns: a negative number, or the bytes that it put into the buffer.
pub data Recv : Type 0 where
  failed : Recv
  received : List ℕ → Recv

-- `*reinterpret_cast<uint16_t *>(buffer.data())`
abbrev pub payload_size : List ℕ → ℕ
payload_size buffer = number_of (take 2 buffer)

abbrev pub expected_size : List ℕ → ℕ
expected_size buffer =
    if ltb (length buffer) 2
    then 2 - length buffer
    else (payload_size buffer + 2 + 2 ^ 64 - length buffer) % 2 ^ 64

-- A default `deserialization_packet`.
abbrev pub no_packet : Cursor
no_packet = record { buffer = []; read_index = 0 }

-- The bytes have been received; the packet is complete, or there is none yet.
unfoldable pub finish_receive : Tcp → Result Cursor × Tcp
finish_receive s =
    if ltb (length s.buffer) 2
    then (ok no_packet, s)
    else if ltb (length s.buffer) (2 + payload_size s.buffer)
    then (ok no_packet, s)
    else (ok (record { buffer = s.buffer; read_index = 2 }), record s { buffer = [] })

-- An exception leaves the buffer resized for the bytes that did not come.
unfoldable pub receive_raw : (ℕ → Recv) → Tcp → Result Cursor × Tcp
unfolding finish_receive
receive_raw recv s =
    let n = expected_size s.buffer in
    let padded = record s { buffer = s.buffer ++ replicate n 0 } in
    elim (recv n) [
      | failed ↦ (err system_error, padded)
      | received [] ↦ (err socket_shutdown, padded)
      | received (x ∷ xs) ↦ finish_receive (record s {
        buffer = s.buffer ++ (x ∷ xs);
        bytes_received = s.bytes_received + length (x ∷ xs);
      })
    ]

-- The iovecs of a message: its size, truncated to 16 bits, and its spans.
unfoldable pub iovecs_of : List (List ℕ) → List (List ℕ)
iovecs_of spans = bytes_of 2 (length (concat spans) % 2 ^ 16) ∷ spans

-- The iovecs that are left after `sent` bytes went out.
unfoldable pub consume : ℕ → List (List ℕ) → List (List ℕ)
consume sent [] = []
consume sent (v ∷ vs) =
    let next = consume (sent - length v) vs in
    if leb (length v) sent then next else drop sent v ∷ vs

-- What `sendmsg` returns: a negative number, or a number of bytes.
pub data Sent : Type 0 where
  failed : Sent
  sent : ℕ → Sent

-- How a call of `send_raw` stands after some answers of the kernel.
pub data Progress : Type 0 where
  returned waiting : Progress
  threw : Exception → Progress

-- The loop of `send_raw`, and the bytes that went out on the way.
unfoldable pub send_loop : List Sent → List (List ℕ) → Progress × List ℕ
unfolding consume
send_loop [] iovecs = (waiting, [])
send_loop (failed ∷ answers) iovecs = (threw system_error, [])
send_loop (sent n ∷ answers) iovecs =
    let left = consume n iovecs in
    let later = send_loop answers left in
    if leb n 0 then (threw socket_shutdown, []) else (elim left [
      | [] ↦ (returned, take n (concat iovecs))
      | v ∷ vs ↦ (later.0, take n (concat iovecs) ++ later.1)
    ])

unfoldable pub send_raw : List Sent → List (List ℕ) → Progress × List ℕ
unfolding send_loop iovecs_of
send_raw answers spans = send_loop answers (iovecs_of spans)

-- ===== src/Protocol/TypedSocket.antt =====
-- `typed_socket` and `details::Index` of common/wivrn_sockets.h, over any socket.
use wi_vrn.Common.{ℕ, suc, ◌%◌, Option, none, some, inl, inr, if◌then◌else◌}
use wi_vrn.Common.{Result, ok, ◌>>=◌}
use wi_vrn.Serial.Types.{Ty, Tys, cons, variant, Value, Choice}
use wi_vrn.Serial.Packet.{Packet, clear, write}
use wi_vrn.Serial.Cursor.{Cursor, is_empty}
use wi_vrn.Serial.Encoding.{bytes_of, serialize, deserialize}

-- `t` is one of the alternatives `ts`.
pub data Alternative (t : Ty) : Tys → Type 0 where
  here : {ts : Tys} → Alternative t (cons t ts)
  there : {u : Ty} {ts : Tys} → Alternative t ts → Alternative t (cons u ts)

-- `details::Index<T, std::tuple<Types...>>::value`
abbrev pub position : {t : Ty} {ts : Tys} → Alternative t ts → ℕ
position here = 0
position (there a) = suc (position a)

abbrev pub inject : {t : Ty} {ts : Tys} → Alternative t ts → Value t → Choice ts
inject here v = inl v
inject (there a) v = inr (inject a v)

-- The packet that `send` hands to `send_raw`: the index of the type, then the value.
unfoldable pub send : {t : Ty} {ts : Tys} → Alternative t ts → Value t → Packet
unfolding clear write serialize
send {t} a v = serialize t v (write (bytes_of 1 (position a % 256)) clear)

-- What `receive` makes of the packet that `receive_raw` returned.
unfoldable pub receive : (ts : Tys) → Cursor → Result (Option (Choice ts))
unfolding is_empty deserialize
receive ts packet =
    if is_empty packet then ok none else (deserialize (variant ts) packet >>= λ r. ok (some r.0))

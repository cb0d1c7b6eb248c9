-- ===== src/Connection/Polling.antt =====
-- `poll` and `poll_control` of server/driver/wivrn_connection.h and .cpp. What `::poll` reports and
-- what the sockets receive are the environment.
use wi_vrn.Common.{
  ℕ, Option, none, some, Bool, if◌then◌else◌, Result, ok, err, system_error, socket_error,
}

-- `ready` is the number of ready sockets, or none if `::poll` failed; `stream_packet` and
-- `control_packet` are what the socket's `receive` gives if it has something to read.
pub record Polled (A : Type 0) : Type 0 where
  pub ready : Option ℕ
  pub is_stream_broken : Bool
  pub is_control_broken : Bool
  pub stream_packet : Option (Result (Option A))
  pub control_packet : Option (Result (Option A))

-- The visitor changes a state, and may throw.
abbrev pub Visitor : Type 0 → Type 0 → Type 0
Visitor A S = A → S → Result (Unit {0}) × S

module _ {S : Type 0} where
  abbrev pub after_visit : Result (Unit {0}) × S → (S → Result ℕ × S) → Result ℕ × S
  after_visit (ok _, t) next = next t
  after_visit (err e, t) next = (err e, t)

module _ {A S : Type 0} where
  -- One socket, and then what follows.
  abbrev pub visit :
      Visitor A S → Option (Result (Option A)) → (S → Result ℕ × S) → S → Result ℕ × S
  visit visitor none next s = next s
  visit visitor (some (err e)) next s = (err e, s)
  visit visitor (some (ok none)) next s = next s
  visit visitor (some (ok (some packet))) next s = after_visit (visitor packet s) next

  -- The stream socket comes first; a broken socket throws before any packet is read.
  abbrev pub poll_ready : Visitor A S → Polled A → ℕ → S → Result ℕ × S
  poll_ready visitor p r s =
      if p.is_stream_broken
      then (err socket_error, s)
      else if p.is_control_broken
      then (err socket_error, s)
      else visit visitor p.stream_packet (visit visitor p.control_packet (λ t. (ok r, t))) s

  unfoldable pub poll : Visitor A S → Polled A → S → Result ℕ × S
  poll visitor p s = elim (p.ready) [
    | none ↦ (err system_error, s)
    | some r ↦ poll_ready visitor p r s
  ]

module _ {A : Type 0} where
  abbrev pub received : Option (Result (Option A)) → Result (Option A)
  received none = ok none
  received (some packet) = packet

  -- It looks at the control socket alone, and not at its errors.
  unfoldable pub poll_control : Polled A → Result (Option A)
  poll_control p = elim (p.ready) [ none ↦ err system_error | some r ↦ received p.control_packet ]

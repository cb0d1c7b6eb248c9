-- ===== src/Connection/Runs.antt =====
-- A concrete handshake: a datagram of a stranger, then one of the client.
use wi_vrn.Common.{ℕ, List, [], ◌∷◌, some, true, false, ◌≡◌, refl}
use wi_vrn.Connection.{
  Turn, Connection, finished, connected, absent, port, nothing_read, init, loop, turn, heard,
  after_datagram, conclude, send_handshake,
}
use wi_vrn.Connection.Handshake.{Agreed, init-Agreed}

abbrev datagram_from : ℕ → Turn
datagram_from address = record {
  poll_failed = false;
  stream_broken = false;
  control_broken = false;
  datagram = some (address, 4000);
  control = nothing_read;
  is_late = false;
}

abbrev fresh : Connection
fresh = record { active = false; stream = absent; sent = [] }

abbrev turns : List Turn
turns = datagram_from 2 ∷ datagram_from 1 ∷ []

init_run :
    init false 9757 1 turns fresh
    ≡ finished
        (record { active = true; stream = connected 1 4000; sent = port 9757 ∷ port 9757 ∷ [] })
unfolding init loop turn heard after_datagram conclude send_handshake
init_run = refl

init-Agreed_example : Agreed 1 (port 9757) (init false 9757 1 turns fresh)
init-Agreed_example = init-Agreed false 9757 1 turns fresh refl

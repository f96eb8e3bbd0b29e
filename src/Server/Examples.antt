-- ===== src/Server/Examples.antt =====
-- The theorems on the server, applied to a server with two clients.
use fritz2ci.Prelude.{
  inl, count, ℕ, ◌+◌, arith, ◌≡◌, refl, ◌==◌, Bool, true, false, not, if◌then◌else◌, Option, none,
  some, List, [], ◌∷◌, ◌++◌,
}
use fritz2ci.Memory.{Bytes}
use fritz2ci.Connection.{Arrival, arrived}
use fritz2ci.Server.{
  Client, Server, initialized, call, SendResult, sent, refused, init, run, broadcast_message,
  disconnect,
}
use fritz2ci.Server.Listen.{NetMessage, version, round}
use fritz2ci.Server.Clients.{socks}
use fritz2ci.Server.Broadcast.{kept, stays, broadcast_message-kept}
use fritz2ci.Server.Reach.{Reach, made, ran, accepted, Reach-count, disconnect-count}

-- A format whose header is one byte, the length, and whose only message is the version 3.0.0.
abbrev read_header : Bytes → Option ℕ
read_header [] = none
read_header (n ∷ rest) = some n

abbrev read_msg : Bytes → Option NetMessage
read_msg buffer = some (version 3 0 0)

-- Every socket has its version to tell.
abbrev speaking : ℕ → Option (Arrival × List Arrival)
speaking fd = some (arrived (1 ∷ []), arrived (9 ∷ []) ∷ [])

abbrev started : Server
started = (run 63690 true true (init (some 3)).0).0

abbrev one_client : Server
one_client = round read_header read_msg (some 7) speaking started

abbrev two_clients : Server
two_clients = round read_header read_msg (some 8) speaking one_client

two_clients-Reach : Reach read_header read_msg (8 ∷ 7 ∷ []) two_clients
unfolding run init round
two_clients-Reach =
    accepted 8 speaking refl (accepted 7 speaking refl (ran 63690 true true (made (some 3))))

-- Sending to socket 7 fails.
abbrev net : ℕ → List SendResult
net fd = if fd == 7 then refused ∷ [] else sent 40 ∷ sent 60 ∷ []

abbrev served : Client → Bool
served c = not (c.sock == 7)

broadcast_message-kept_example :
    broadcast_message net 100 1500 call true two_clients
    ≡ some (
      record two_clients {
        clientlist = kept (stays served) two_clients.clientlist;
        closed =
            two_clients.closed ++ socks (kept (λ c. not (stays served c)) two_clients.clientlist);
      },
      0,
    )
unfolding run init round
broadcast_message-kept_example = broadcast_message-kept net 100 1500 call two_clients served (
  inl (omega arith, [], refused, [], refl, tt, omega arith, inl refl),
  (inl (omega arith, 40 ∷ 60 ∷ [], [], refl, (omega arith, (omega arith, tt)), omega arith), tt),
)

Reach-count_example :
    count 7 (8 ∷ 7 ∷ []) ≡ count 7 two_clients.closed + count 7 (socks two_clients.clientlist)
Reach-count_example = Reach-count read_header read_msg (8 ∷ 7 ∷ []) two_clients two_clients-Reach 7

-- What cisrv_disconnect leaves.
abbrev ended_server : Server
ended_server = record two_clients {
  sock = none;
  thread = false;
  pipe = false;
  state = initialized;
  clientlist = [];
  closed = 7 ∷ 8 ∷ [];
}

disconnect-count_example :
    (ended_server.clientlist ≡ [])
    × ((fd : ℕ) → count fd (8 ∷ 7 ∷ []) ≡ count fd ended_server.closed)
unfolding run init round disconnect
disconnect-count_example =
    disconnect-count read_header read_msg net 100 1500 (8 ∷ 7 ∷ []) two_clients ended_server
      two_clients-Reach refl

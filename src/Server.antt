-- ===== src/Server.antt =====
-- The server of ci-server.c: its states, its list of clients and what is sent to them. The descriptor
-- of a socket is a number, and -1 is 4294967295. The list keeps distinct objects, so that the removal
-- of one is the removal of its place. What the kernel does is a parameter.
pub mod Listen
pub mod Clients
pub mod Broadcast
pub mod Reads
pub mod Quiet
pub mod Accounts
pub mod Reach
pub mod Requests
pub mod Examples
use fritz2ci.Prelude.{
  bit_or, ℕ, zero, suc, ◌+◌, ◌-◌, ◌*◌, ◌/◌, ◌%◌, Bool, true, false, not, ◌&&◌, ◌||◌, Option, none,
  some, List, [], ◌∷◌, ◌++◌, map, leb, ltb, ◌==◌, if◌then◌else◌, ◌>>=◌,
}
use fritz2ci.Memory.{Bytes}

-- CIServerState
pub data ServerState : Type 0 where
  uninitialized initialized connected running : ServerState

-- CIServerMsg
pub data ServerMsg : Type 0 where
  message update disconnected complete call : ServerMsg

-- CIClient; the only flag is CISRV_CLIENT_REMOVE.
pub record Client : Type 0 where
  pub sock : ℕ
  pub remove : Bool
  pub version : ℕ

-- CIServer, without its lock; `closed` are the sockets of clients that were shut down and closed.
pub record Server : Type 0 where
  pub sock : Option ℕ
  pub port : ℕ
  pub thread : Bool
  pub pipe : Bool
  pub state : ServerState
  pub clientlist : List Client
  pub closed : List ℕ

-- CI_MAKE_VERSION
unfoldable pub make_version : ℕ → ℕ → ℕ → ℕ
make_version maj min pat = bit_or (bit_or (maj * 65536) (min * 256)) pat % 16777216

-- CI_VERSION_MAJ, CI_VERSION_MIN, CI_VERSION_PAT
abbrev pub version_maj : ℕ → ℕ
version_maj ver = ver / 65536 % 256

abbrev pub version_min : ℕ → ℕ
version_min ver = ver / 256 % 256

abbrev pub version_pat : ℕ → ℕ
version_pat ver = ver % 256

-- CI_CHECK_VERSION
unfoldable pub check_version : ℕ → ℕ → Bool
check_version ver min =
    leb (version_maj min) (version_maj ver)
    && leb (version_min min) (version_min ver)
    && leb (version_pat min) (version_pat ver)

-- cisrv_init, where `opened` is what `socket` returns, -1 as `none`.
unfoldable pub init : Option ℕ → Server × ℕ
init opened =
    let s : Server = record {
      sock = opened;
      port = 0;
      thread = false;
      pipe = false;
      state = uninitialized;
      clientlist = [];
      closed = [];
    } in
    elim opened [ none ↦ (s, 1) | some fd ↦ (record s { state = initialized }, 0) ]

-- cisrv_run, where the flags say whether `pipe` and `g_thread_new` succeed.
unfoldable pub start : ℕ → Bool → Bool → Server → Server × ℕ
start port piped started s =
    if not piped
    then (s, 3)
    else if not started
    then (record s { port = port; pipe = true; thread = false }, 4)
    else (record s { port = port; pipe = true; thread = true; state = running }, 0)

unfoldable pub run_from : ServerState → ℕ → Bool → Bool → Server → Server × ℕ
unfolding start
run_from uninitialized port piped started s = (s, 1)
run_from initialized port piped started s = start port piped started s
run_from connected port piped started s = start port piped started s
run_from running port piped started s = (s, 2)

unfoldable pub run : ℕ → Bool → Bool → Server → Server × ℕ
unfolding run_from
run port piped started s = run_from s.state port piped started s

-- _cisrv_add_client
unfoldable pub add_client : ℕ → Server → Server
unfolding make_version
add_client sock s =
    let cl : Client = record { sock = sock; remove = false; version = make_version 2 0 0 } in
    record s { clientlist = s.clientlist ++ (cl ∷ []) }

-- The walk of _cisrv_remove_marked_clients: the clients left, and the sockets closed.
unfoldable pub remove_marked : List Client → List Client × List ℕ
remove_marked [] = ([], [])
remove_marked (c ∷ cs) =
    let rest = remove_marked cs in
    if c.remove then (rest.0, c.sock ∷ rest.1) else (c ∷ rest.0, rest.1)

unfoldable pub remove_marked_clients : Server → Server
unfolding remove_marked
remove_marked_clients s =
    let r = remove_marked s.clientlist in record s { clientlist = r.0; closed = s.closed ++ r.1 }

-- The walk of _cisrv_remove_client, which stops at the first client with the socket.
unfoldable pub remove_first : ℕ → List Client → List Client × List ℕ
remove_first sock [] = ([], [])
remove_first sock (c ∷ cs) =
    let rest = remove_first sock cs in
    if c.sock == sock then (cs, sock ∷ []) else (c ∷ rest.0, rest.1)

unfoldable pub remove_client : ℕ → Server → Server
unfolding remove_first
remove_client sock s =
    let r = remove_first sock s.clientlist in
    record s { clientlist = r.0; closed = s.closed ++ r.1 }

-- _cisrv_close_all_clients
unfoldable pub close_all_clients : Server → Server
close_all_clients s = record s {
  clientlist = [];
  closed = s.closed ++ map (λ (c : Client). c.sock) s.clientlist;
}

-- The result of `send`: a number of bytes, or -1.
pub data SendResult : Type 0 where
  sent : (bytes : ℕ) → SendResult
  refused : SendResult

-- The loop that sends `len` bytes: whether all went out, or `none` if a call of `send` never returns.
unfoldable pub send_all : List SendResult → ℕ → ℕ → Option Bool
send_all [] len written = if ltb written len then none else some true
send_all (refused ∷ rs) len written = some (not (ltb written len))
send_all (sent n ∷ rs) len written =
    let rest = send_all rs len (written + n) in
    if ltb written len then (if n == 0 then some false else rest) else some true

-- `send(…) < sizeof(CINetMessage)` of a client before version 3: the comparison is unsigned, and -1
-- is not less.
unfoldable pub send_old : List SendResult → ℕ → Option Bool
send_old [] size = none
send_old (refused ∷ rs) size = some true
send_old (sent n ∷ rs) size = some (not (ltb n size))

abbrev pub is_call : ServerMsg → Bool
is_call call = true
is_call _ = false

module _ (net : ℕ → List SendResult) (len size : ℕ) where
  -- The body of the loop over the clients: `len` bytes of the message are sent, or the `size` bytes of
  -- the old one, but not of an outgoing call. Whether the client is left unmarked.
  unfoldable pub serve : ServerMsg → Client → Option Bool
  unfolding check_version make_version send_all send_old
  serve type c =
      if check_version c.version (make_version 3 0 0)
      then send_all (net c.sock) len 0
      else if is_call type
      then some true
      else send_old (net c.sock) size

  -- The loop over the clients, which marks those to remove.
  unfoldable pub send_clients : ServerMsg → List Client → Option (List Client)
  unfolding serve
  send_clients type [] = some []
  send_clients type (c ∷ cs) = do
    ok ← serve type c
    cs' ← send_clients type cs
    some ((if ok then c else record c { remove = true }) ∷ cs')

  -- The loop, and the removal of the clients that it marked.
  unfoldable pub send_and_remove : ServerMsg → Server → Option (Server × ℕ)
  unfolding send_clients remove_marked_clients
  send_and_remove type s = do
    cs ← send_clients type s.clientlist
    some (remove_marked_clients (record s { clientlist = cs }), 0)

  -- cisrv_broadcast_message, where `given` says that `data` is not NULL.
  unfoldable pub broadcast_message : ServerMsg → Bool → Server → Option (Server × ℕ)
  unfolding send_and_remove
  broadcast_message disconnected given s = send_and_remove disconnected s
  broadcast_message type true s = send_and_remove type s
  broadcast_message type false s = some (s, 1)

  -- cisrv_disconnect: the cases of the `switch` fall through; the thread is joined.
  unfoldable pub stop_thread : Server → Server
  stop_thread s = record s { thread = false; pipe = false; state = connected }

  unfoldable pub say_goodbye : Server → Option Server
  unfolding broadcast_message
  say_goodbye s = do
    (s', _) ← broadcast_message disconnected false s
    some (record s' { state = initialized })

  unfoldable pub close_server : Server → Server
  unfolding close_all_clients
  close_server s = record (close_all_clients (record s { state = initialized })) { sock = none }

  -- What is done from a state on.
  unfoldable pub disconnect_from : ServerState → Server → Option Server
  unfolding stop_thread say_goodbye close_server
  disconnect_from uninitialized s = some s
  disconnect_from initialized s = some (close_server s)
  disconnect_from connected s = do s' ← say_goodbye s; some (close_server s')
  disconnect_from running s = do s' ← say_goodbye (stop_thread s); some (close_server s')

  unfoldable pub disconnect : Server → Option Server
  unfolding disconnect_from
  disconnect s = disconnect_from s.state s

-- ===== src/Server/Listen.antt =====
-- The thread of ci-server.c: one round of its loop, and what a client's message does to the client.
-- The format of the messages is that of the library cinet, which is a parameter.
use fritz2ci.Prelude.{
  ℕ, true, Option, none, some, List, [], ◌∷◌, ◌++◌, map, length, ltb, if◌then◌else◌,
}
use fritz2ci.Memory.{Bytes}
use fritz2ci.Connection.{Arrival, arrived, failed}
use fritz2ci.Server.{Client, Server, make_version, add_client, remove_marked_clients}

-- A message of a client: its version, that it leaves, or a request that leaves the client as it is.
pub data NetMessage : Type 0 where
  version : (major minor patch : ℕ) → NetMessage
  leave request : NetMessage

-- The loop that reads the rest of a message, with what it has read; `recv` does not wait here.
unfoldable pub read_rest : List Arrival → ℕ → Bytes → Option Bytes
read_rest [] msglen read = if ltb (length read) msglen then none else some read
read_rest (failed ∷ rs) msglen read = if ltb (length read) msglen then none else some read
read_rest (arrived [] ∷ rs) msglen read = if ltb (length read) msglen then none else some read
read_rest (arrived (b ∷ bs) ∷ rs) msglen read =
    let rest = read_rest rs msglen (read ++ (b ∷ bs)) in
    if ltb (length read) msglen then rest else some read

abbrev mark : Client → Client
mark c = record c { remove = true }

-- The `switch` on the type of the message.
unfoldable pub handle_message : NetMessage → Client → Client
unfolding make_version
handle_message (version maj min pat) c = record c { version = make_version maj min pat }
handle_message leave c = mark c
handle_message request c = c

module _ (read_header : Bytes → Option ℕ) (read_msg : Bytes → Option NetMessage) where
  -- The message with its header and the rest.
  unfoldable pub handle_whole : Option NetMessage → Client → Client
  unfolding handle_message
  handle_whole none c = c
  handle_whole (some msg) c = handle_message msg c

  unfoldable pub handle_rest : Bytes → Option Bytes → Client → Client
  unfolding handle_whole
  handle_rest buffer none c = mark c
  handle_rest buffer (some rest) c = handle_whole (read_msg (buffer ++ rest)) c

  unfoldable pub handle_header : Bytes → Option ℕ → List Arrival → Client → Client
  unfolding handle_rest read_rest
  handle_header buffer none rs c = c
  handle_header buffer (some msglen) rs c = handle_rest buffer (read_rest rs msglen []) c

  -- _cisrv_handle_client_message, with what the calls of `recv` do.
  unfoldable pub handle_client_message : Arrival → List Arrival → Client → Client
  unfolding handle_header
  handle_client_message failed rs c = mark c
  handle_client_message (arrived []) rs c = mark c
  handle_client_message (arrived (b ∷ bs)) rs c = handle_header (b ∷ bs) (read_header (b ∷ bs)) rs c

  -- A client that is ready to be read, and one that is not.
  unfoldable pub handle_ready : Option (Arrival × List Arrival) → Client → Client
  unfolding handle_client_message
  handle_ready none c = c
  handle_ready (some (first, rs)) c = handle_client_message first rs c

  -- One round of _cisrv_listen_thread_proc: the socket that `accept` gives, if it is called, and
  -- what there is to read from each socket that was listed before it.
  unfoldable pub handle_clients : (ℕ → Option (Arrival × List Arrival)) → Server → Server
  unfolding handle_ready
  handle_clients ready s = record s {
    clientlist = map (λ (c : Client). handle_ready (ready c.sock) c) s.clientlist;
  }

  unfoldable pub round : Option ℕ → (ℕ → Option (Arrival × List Arrival)) → Server → Server
  unfolding handle_clients add_client remove_marked_clients
  round none ready s = remove_marked_clients (handle_clients ready s)
  round (some newsock) ready s = remove_marked_clients (handle_clients ready (add_client newsock s))

-- ===== src/Fritz/Link/Rounds.antt =====
-- One round of the listening thread (fritz.c): _fritz_listen_thread_proc and the handlers of the
-- messages on the network's state.
use fritz2ci.Prelude.{
  ℕ, Bool, true, false, Option, none, some, List, [], ◌∷◌, length, take, ◌==◌, if◌then◌else◌,
}
use fritz2ci.Memory.{Bytes}
use fritz2ci.Text.{Text, same, text_of}
use fritz2ci.Connection.{Arrival, arrived, failed}
use fritz2ci.Fritz.Link.{FritzServer, Attempt, close_sock, try_connect}

-- _fritz_handle_net_up and _fritz_handle_net_down, with the attempt that the first makes.
pub data LinkEvent : Type 0 where
  up : (a : Attempt) → LinkEvent
  down : (ifindex : ℕ) → LinkEvent

unfoldable pub handle_link : LinkEvent → FritzServer → FritzServer
unfolding try_connect close_sock
handle_link (up a) s = try_connect a s
handle_link (down ifindex) s =
    if ifindex == s.assoc_ifindex then record (close_sock s.sock s) { connected = false } else s

unfoldable pub handle_links : List LinkEvent → FritzServer → FritzServer
unfolding handle_link
handle_links [] s = s
handle_links (e ∷ es) s = handle_links es (handle_link e s)

-- What the thread does before its first round.
unfoldable pub begin : FritzServer → FritzServer
begin s = record s { listening = true }

-- The connection is lost.
unfoldable pub lose : FritzServer → FritzServer
unfolding close_sock
lose s = close_sock s.sock (record s { connected = false })

-- If the socket is readable, what `recv` brings: the text that is parsed, if any.
unfoldable pub read_sock : Option Arrival → FritzServer → FritzServer × Option Text
unfolding lose
read_sock none s = (s, none)
read_sock (some failed) s = (lose s, none)
read_sock (some (arrived [])) s = (lose s, none)
read_sock (some (arrived (b ∷ bs))) s = (s, some (text_of (b ∷ bs)))

abbrev pub stop_word : Bytes
stop_word = b'd' ∷ b'i' ∷ b's' ∷ b'c' ∷ b'o' ∷ b'n' ∷ b'n' ∷ b'e' ∷ b'c' ∷ b't' ∷ []

abbrev pub wake_word : Bytes
wake_word = b'a' ∷ b'd' ∷ b'd' ∷ 32 ∷ b's' ∷ b'o' ∷ b'c' ∷ b'k' ∷ []

-- Whether the bytes from the pipe end the thread: `strncmp` on ten bytes, or on all if there are fewer.
unfoldable pub stops : Bytes → Bool
stops [] = false
stops (b ∷ bs) = same (take 10 (b ∷ bs)) (take (length (b ∷ bs)) stop_word)

-- What a round finds: what the socket brings, what the pipe brings, and the network's messages.
pub record Round : Type 0 where
  pub readable : Option Arrival
  pub piped : Option Bytes
  pub links : List LinkEvent

abbrev pub stopped_by : Option Bytes → Bool
stopped_by none = false
stopped_by (some bs) = stops bs

-- The round behind the socket, and whether the loop goes on.
unfoldable pub finish_round : Bool → List LinkEvent → FritzServer → FritzServer × Bool
unfolding handle_links
finish_round true links s = (record s { listening = false }, false)
finish_round false links s = (handle_links links s, true)

unfoldable pub round : Round → FritzServer → FritzServer × Option Text × Bool
unfolding read_sock finish_round stops
round r s =
    let (s₁, heard) = read_sock r.readable s in
    let (s₂, more) = finish_round (stopped_by r.piped) r.links s₁ in (s₂, heard, more)

-- The loop over rounds, and the texts that it gave to the parser.
unfoldable pub listen : List Round → FritzServer → FritzServer × List (Option Text)
unfolding round
listen [] s = (s, [])
listen (r ∷ rs) s =
    let (s', heard, more) = round r s in
    let rest : FritzServer × List (Option Text) = listen rs s' in
    if more then (rest.0, heard ∷ rest.1) else (s', heard ∷ [])

-- ===== src/Connection.antt =====
-- Sending and receiving one message over a socket (cidbconnection.c). What the socket does is a
-- script: the values that `send` returns in turn, and what `recv` does in turn. A call behind the
-- end of the script is one that never returns.
pub mod Send
pub mod Receive
pub mod Refusal
pub mod Transfer
use fritz2ci.Prelude.{
  ℕ, zero, suc, Option, none, some, List, [], ◌∷◌, length, take, leb, ltb, ◌==◌, if◌then◌else◌,
  ◌>>=◌,
}
use fritz2ci.Memory.{Bytes, copy, malloc}
use fritz2ci.Wire.{add32}
use fritz2ci.Header.{MsgHeader, header_size, total_size, get_header}
use fritz2ci.Messages.{Message, Packet}
use fritz2ci.Messages.Write.{write_message}
use fritz2ci.Messages.Read.{read_message}
use fritz2ci.Transmission.{Transmission, transmission_start, transmission_continue}

-- How a call ends: it returns a number, or waits for the socket for ever.
pub data Outcome : Type 0 where
  returned : (value : ℕ) → Outcome
  waiting : Outcome

-- The bytes that `send` is given: `n` bytes of the buffer.
unfoldable pub outgoing : Bytes → ℕ → Option Bytes
outgoing buffer n = if leb n (length buffer) then some (take n buffer) else none

-- The `while` loop of cidbcon_send_message, and what it gave to `send`.
unfoldable pub send_parts : List ℕ → Bytes → Transmission → ℕ → Option (Outcome × List Bytes)
unfolding outgoing transmission_continue
send_parts results buffer tmsg zero = some (returned 0, [])
send_parts [] buffer tmsg (suc n) = do sent ← outgoing buffer (suc n); some (waiting, sent ∷ [])
send_parts (result ∷ results) buffer tmsg (suc n) =
    let rest : Option (Outcome × List Bytes) = do
      (buffer', tmsg', bytes) ← transmission_continue buffer tmsg
      send_parts results buffer' tmsg' bytes
    in (do
      sent ← outgoing buffer (suc n)
      if result == suc n
          then (do (outcome, log) ← rest; some (outcome, sent ∷ log))
          else some (returned 1, sent ∷ []))

-- What `recv` does: it puts bytes at the start of the buffer and returns their number, or returns -1.
pub data Arrival : Type 0 where
  arrived : (bytes : Bytes) → Arrival
  failed : Arrival

-- The buffer behind a call of `recv`, and its result as an `unsigned int`.
unfoldable pub recv : Arrival → Bytes → Option (Bytes × ℕ)
unfolding copy
recv (arrived bytes) buffer = do
  buffer' ← copy (length bytes) buffer 0 bytes 0
  some (buffer', length bytes)
recv failed buffer = some (buffer, 4294967295)

-- The `while` loop of cidbcon_recv_message, with the buffer, the data, and `bytes_read`.
unfoldable pub recv_parts : List Arrival → Bytes → ℕ → Bytes → ℕ → Option (Outcome × Bytes × ℕ)
unfolding recv get_header copy
recv_parts [] buffer total content bytes_read =
    some (if ltb bytes_read total then waiting else returned 0, content, bytes_read)
recv_parts (arrival ∷ arrivals) buffer total content bytes_read =
    let rest : Option (Outcome × Bytes × ℕ) = do
      (buffer', bytes) ← recv arrival buffer
      if ltb bytes header_size then some (returned 1, content, bytes_read) else (do
        (header, offset) ← get_header buffer'
        content' ← copy header.part_size content header.offset buffer' offset
        recv_parts arrivals buffer' total content' (add32 bytes_read header.part_size))
    in if ltb bytes_read total then rest else some (returned 0, content, bytes_read)

-- The data that the first part brings, and how much of it: `malloc`, `memcpy` if there is any.
unfoldable pub recv_first : (ℕ → ℕ) → Bytes → MsgHeader → ℕ → Option (Option Bytes × ℕ)
unfolding malloc copy
recv_first junk buffer header offset = if header.data_size == 0 then some (none, 0) else (do
  content ← copy header.part_size (malloc junk header.data_size) header.offset buffer offset
  some (some content, header.part_size))

module _ (junk : ℕ → ℕ) where
  -- cidbcon_send_message, where `packet` and `buffer` are what the fresh memory holds.
  unfoldable pub send_message :
      List ℕ → Packet → Bytes → Option Message → Option (Outcome × List Bytes)
  unfolding write_message transmission_start send_parts
  send_message results packet buffer dbmsg = do
    (written, _) ← write_message junk dbmsg (some packet)
    complete ← written
    (buffer', tmsg, bytes) ← transmission_start buffer (record { complete = complete; offset = 0 })
    send_parts results buffer' tmsg bytes

  -- The rest of cidbcon_recv_message, behind its loop.
  unfoldable pub recv_done :
      MsgHeader → Option Message → Outcome × Option Bytes × ℕ → Option (Outcome × Option Message)
  unfolding read_message
  recv_done header dbmsg (returned zero, content, bytes_read) = do
    dbmsg' ←
        read_message junk
          (some (record {
            header = record header { part_size = bytes_read; offset = 0 };
            content = content;
          }))
          dbmsg
    some (returned 0, dbmsg')
  recv_done header dbmsg (outcome, _, _) = some (outcome, dbmsg)

  -- The loop over the data; no byte of no data is missing.
  unfoldable pub recv_rest :
      List Arrival → Bytes → MsgHeader → Option Bytes → ℕ → Option (Outcome × Option Bytes × ℕ)
  unfolding recv_parts
  recv_rest arrivals buffer header none bytes_read = some (returned 0, none, bytes_read)
  recv_rest arrivals buffer header (some content) bytes_read = do
    (outcome, content', n) ← recv_parts arrivals buffer header.data_size content bytes_read
    some (outcome, some content', n)

  -- Behind the first `recv`, which left this buffer and returned this number of bytes.
  unfoldable pub recv_begun :
      List Arrival → Option Message → Bytes × ℕ → Option (Outcome × Option Message)
  unfolding get_header recv_first recv_rest recv_done
  recv_begun arrivals dbmsg (buffer, bytes) =
      if ltb bytes header_size then some (returned 1, dbmsg) else (do
        (header, offset) ← get_header buffer
        (content, bytes_read) ← recv_first junk buffer header offset
        end ← recv_rest arrivals buffer header content bytes_read
        recv_done header dbmsg end)

  -- cidbcon_recv_message, where `buffer` is what the fresh memory holds.
  unfoldable pub recv_message :
      List Arrival → Bytes → Option Message → Option (Outcome × Option Message)
  unfolding recv recv_begun
  recv_message [] buffer dbmsg = some (waiting, dbmsg)
  recv_message (arrival ∷ arrivals) buffer dbmsg = do
    first ← recv arrival buffer
    recv_begun arrivals dbmsg first

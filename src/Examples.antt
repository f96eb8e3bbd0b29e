-- ===== src/Examples.antt =====
-- The theorems on the messages, applied to messages as the call monitor sends them.
use fritz2ci.Prelude.{
  ℕ, ◌+◌, ◌≤◌, ◌<◌, ◌≡◌, ◌≢◌, refl, sym, zero, suc, take, true, none, some, List, [], ◌∷◌, ◌++◌,
  map, replicate, length, length-replicate, drop, All, arith, ◌>>=◌,
}
use fritz2ci.Memory.{Bytes}
use fritz2ci.Wire.{IsByte}
use fritz2ci.Header.{
  MsgHeader, IsHeader, header_size, total_size, prepare_header, read_header, mkmessage,
}
use fritz2ci.Header.RoundTrip.{read_header-prepare_header, prepare_header-read_header}
use fritz2ci.Strings.{IsText, null, object, c_string, write_string, read_string}
use fritz2ci.Strings.RoundTrip.{wire_string, length_bytes, read_string-write_string}
use fritz2ci.Table.{Table, no_table, table_get_size, write_table, read_table}
use fritz2ci.Table.Layout.{Texts, wire_table, Fits, Represents, table_of}
use fritz2ci.Table.RoundTrip.{read_table-write_table}
use fritz2ci.Messages.{Message, Packet, no_message, code}
use fritz2ci.Messages.Write.{write_message}
use fritz2ci.Messages.Read.{read_message}
use fritz2ci.Messages.Body.{
  Body, caller_list_resp, call_list_query, command_of, subcmd_of, wire_body, Valid, body_message,
  read_back,
}
use fritz2ci.Messages.Says.{Says}
use fritz2ci.Messages.RoundTrip.{read_message-wire_body}
use fritz2ci.Messages.Total.{header_for, content_of, write_message-Says, read_message-write_message}
use fritz2ci.Transmission.{transmission_start}
use fritz2ci.Transmission.Parts.{part_header, parts_from}
use fritz2ci.Connection.{returned, arrived, failed, send_parts, send_message, recv_message}
use fritz2ci.Connection.Send.{Cut, start_sends}
use fritz2ci.Connection.Transfer.{recv_message-send_message}
use fritz2ci.Connection.Refusal.{recv_message-failed}

-- What the heap and the stack hold.
abbrev noise : ℕ → ℕ
noise i = i + 7

-- A table of one row and two columns, the second field NULL: "id", "nr"; "42", "".
abbrev call : Table
call = record {
  nrows = 1;
  ncols = 2;
  column_names = object (105 ∷ 100 ∷ 0 ∷ []) ∷ object (110 ∷ 114 ∷ 0 ∷ 9 ∷ []) ∷ [];
  fields = object (52 ∷ 50 ∷ 0 ∷ []) ∷ null ∷ [];
}

abbrev call_texts : Texts
call_texts = record {
  rows = 1;
  names = (105 ∷ 100 ∷ []) ∷ (110 ∷ 114 ∷ []) ∷ [];
  cells = (52 ∷ 50 ∷ []) ∷ [] ∷ [];
}

call_texts-length : length (wire_table call_texts) ≡ 14
unfolding wire_table wire_string length_bytes
call_texts-length = refl

two-IsText : (a b : ℕ) → a ≢ 0 → b ≢ 0 → IsText (a ∷ b ∷ [])
two-IsText a b ha hb = ((ha, (hb, tt)), omega arith)

call_texts-Fits : Fits call_texts
call_texts-Fits = record {
  rows_u16 = omega arith;
  cols_u16 = omega arith;
  full = refl;
  no_wrap = omega arith;
  size_u32 = omega (arith, call_texts-length);
  names_texts = (
    two-IsText 105 100 (omega arith) (omega arith),
    (two-IsText 110 114 (omega arith) (omega arith), tt),
  );
  cells_texts = (two-IsText 52 50 (omega arith) (omega arith), ((tt, omega arith), tt));
}

call-Represents : Represents call call_texts
call-Represents = record {
  nrows = refl;
  ncols = refl;
  names = (
    ([], refl, two-IsText 105 100 (omega arith) (omega arith)),
    (((9 ∷ []), refl, two-IsText 110 114 (omega arith) (omega arith)), tt),
  );
  cells = (([], refl, two-IsText 52 50 (omega arith) (omega arith)), (refl, tt));
}

-- The response to a request for the list of callers, and the message that says it.
abbrev body : Body
body = caller_list_resp 0 call_texts

abbrev message : Message
message = record no_message { cmd = 2; subcmd = 0x81; msgid = 77; clientid = 5; table = call }

message-Says : Says message body
unfolding code
message-Says = record { cmd = refl; subcmd = refl; args = (refl, call-Represents) }

body-Valid : Valid body
body-Valid = (omega arith, call_texts-Fits)

body-small : length (wire_body body) < 4294967296
body-small = omega (arith, call_texts-length)

-- The packet and the buffers that the calls find.
abbrev packet : Packet
packet = record {
  header = record {
    client_id = 1;
    msg_command = 2;
    msg_subcommand = 3;
    msg_id = 4;
    msg_flags = 5;
    data_size = 6;
    part_size = 7;
    offset = 400000;
  };
  content = none;
}

abbrev zeros : Bytes
zeros = replicate 2048 0

zeros-length : length zeros ≡ total_size
zeros-length = length-replicate {A = ℕ} 2048 0

recv_message-send_message_example :
    (log : List Bytes) × (send_message noise (map length log) packet zeros (some message)
      ≡ some (returned 0, log))
    × All (λ part. length part ≤ total_size) log
    × (recv_message noise (map arrived log) zeros (some no_message)
        ≡ some (
          returned 0,
          some (read_back body (body_message (code (command_of body)) (subcmd_of body))),
        ))
recv_message-send_message_example =
    recv_message-send_message noise noise message no_message body packet zeros zeros message-Says
      body-Valid body-small (omega arith) (omega arith) (omega arith) zeros-length zeros-length

read_message-write_message_example :
    (q : Packet) × (write_message noise (some message) (some packet)
      ≡ some (some q, length (wire_body body)))
    × (read_message noise (some q) (some no_message)
        ≡ some (some (read_back body (body_message (code (command_of body)) (subcmd_of body)))))
read_message-write_message_example =
    read_message-write_message noise message no_message body packet message-Says body-Valid
      body-small

write_message-Says_example :
    write_message noise (some message) (some packet)
    ≡ some (
      some (record {
        header = header_for message packet.header (length (wire_body body));
        content = content_of (wire_body body);
      }),
      length (wire_body body),
    )
write_message-Says_example =
    write_message-Says noise message body packet message-Says body-Valid body-small

-- A packet as it comes from the network: the query for three calls from the second on.
abbrev arrived_packet : Packet
arrived_packet = record {
  header = mkmessage 5 6 0x80 1;
  content = some (1 ∷ 0 ∷ 0 ∷ 0 ∷ 3 ∷ 0 ∷ []);
}

read_message-wire_body_example :
    read_message noise (some arrived_packet) (some message)
    ≡ some (
        some (
          read_back (call_list_query 1 3) (
            body_message
              (code (command_of (call_list_query 1 3)))
              (subcmd_of (call_list_query 1 3)))))
unfolding mkmessage code
read_message-wire_body_example =
    read_message-wire_body noise (call_list_query 1 3) arrived_packet message
      (omega arith, omega arith) refl refl refl

read_table-write_table_example :
    (table_get_size (some call) ≡ some (length (take 14 zeros)))
    × (write_table (some (take 14 zeros ++ drop 14 zeros)) (some call)
        ≡ some (some (wire_table call_texts ++ drop 14 zeros), length (take 14 zeros)))
    × (read_table noise (some (wire_table call_texts ++ drop 14 zeros)) (some no_table)
        ≡ some (some (table_of call_texts), length (take 14 zeros)))
read_table-write_table_example =
    read_table-write_table noise call no_table call_texts (take 14 zeros) (drop 14 zeros)
      call-Represents call_texts-Fits (sym call_texts-length)

read_string-write_string_example :
    (write_string (object (52 ∷ 50 ∷ 0 ∷ 8 ∷ [])) ((1 ∷ 2 ∷ 3 ∷ []) ++ (4 ∷ []))
      ≡ some (wire_string (52 ∷ 50 ∷ []) ++ (4 ∷ []), 3))
    × (read_string noise true (some (wire_string (52 ∷ 50 ∷ []) ++ (4 ∷ [])))
        ≡ some (c_string (52 ∷ 50 ∷ []), 3))
unfolding wire_string length_bytes
read_string-write_string_example =
    read_string-write_string noise (object (52 ∷ 50 ∷ 0 ∷ 8 ∷ [])) (52 ∷ 50 ∷ []) (1 ∷ 2 ∷ 3 ∷ [])
      (4 ∷ []) ((8 ∷ []), refl, two-IsText 52 50 (omega arith) (omega arith)) refl

-- A header with every field set.
abbrev header : MsgHeader
header = record {
  client_id = 513;
  msg_command = 11;
  msg_subcommand = 0x81;
  msg_id = 70000;
  msg_flags = 1;
  data_size = 3;
  part_size = 3;
  offset = 2026;
}

header-IsHeader : IsHeader header
header-IsHeader = record {
  client_id = omega arith;
  msg_command = omega arith;
  msg_subcommand = omega arith;
  msg_id = omega arith;
  msg_flags = omega arith;
  data_size = omega arith;
  part_size = omega arith;
  offset = omega arith;
}

read_header-prepare_header_example :
    (dst' : Bytes) × (prepare_header (some (replicate 24 9)) (some header)
      ≡ some (some dst', header_size))
    × (read_header (some packet.header) (some dst') ≡ some (some header, header_size))
    × (drop header_size dst' ≡ drop header_size (replicate 24 9))
read_header-prepare_header_example =
    read_header-prepare_header header packet.header (replicate 24 9) header-IsHeader (omega arith)

replicate-IsByte : (n b : ℕ) → b < 256 → All IsByte (replicate n b)
replicate-IsByte zero b h = tt
replicate-IsByte (suc n) b h = (h, replicate-IsByte n b h)

prepare_header-read_header_example :
    (h : MsgHeader) × (read_header (some packet.header) (some (replicate 22 7 ++ (1 ∷ [])))
      ≡ some (some h, header_size))
    × (prepare_header (some (replicate 30 5)) (some h)
        ≡ some (some (replicate 22 7 ++ drop header_size (replicate 30 5)), header_size))
prepare_header-read_header_example =
    prepare_header-read_header (replicate 22 7) (1 ∷ []) (replicate 30 5) packet.header
      (replicate-IsByte 22 7 (omega arith)) refl (omega arith)

start_sends_example :
    (q : Bytes) × (qs : List Bytes) × Cut (8 ∷ 9 ∷ 8 ∷ []) q qs
    × ((transmission_start zeros (record {
      complete = record { header = part_header header 3 2026; content = some (8 ∷ 9 ∷ 8 ∷ []) };
      offset = 0;
    })
          >>= λ (buffer', tmsg, bytes).
              send_parts (map length (parts_from header 0 (q ∷ qs))) buffer' tmsg bytes)
        ≡ some (returned 0, parts_from header 0 (q ∷ qs)))
start_sends_example =
    start_sends header 3 2026 (some (8 ∷ 9 ∷ 8 ∷ [])) zeros refl (omega arith) zeros-length

recv_message-failed_example :
    recv_message noise (failed ∷ []) zeros (some message)
    ≡ recv_message noise (arrived zeros ∷ []) zeros (some message)
recv_message-failed_example = recv_message-failed noise [] zeros (some message) zeros-length

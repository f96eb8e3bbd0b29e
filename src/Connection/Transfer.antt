-- ===== src/Connection/Transfer.antt =====
-- A message sent by cidbcon_send_message and received by cidbcon_recv_message.
use fritz2ci.Prelude.{
  ℕ, ◌+◌, ◌≤◌, ◌<◌, ◌≡◌, refl, sym, ap, subst, ◌∙◌, inl, inr, true, false, Option, some, List, [],
  ◌∷◌, ◌++◌, map, length, length-append, tabulate, length-tabulate, concat, All, ltb, ◌==◌, arith,
  ◌>>=◌, >>=_assoc, drop,
}
use fritz2ci.Memory.{Bytes, malloc}
use fritz2ci.Memory.Emits.{split_at}
use fritz2ci.Wire.{IsU16, IsU32}
use fritz2ci.Header.{MsgHeader, IsHeader, total_size, header_size, zero_header}
use fritz2ci.Messages.{
  Command, register, caller_list, read_caller, write_caller, write_call, call_list, show_tables,
  describe_table, delete_caller, list_info, listen, Message, Packet, region, code,
}
use fritz2ci.Messages.Body.{Body, command_of, subcmd_of, wire_body, Valid, body_message, read_back}
use fritz2ci.Messages.Says.{Says}
use fritz2ci.Messages.RoundTrip.{subcmd_of_cases, read_message-wire_body}
use fritz2ci.Messages.Total.{header_for, content_of, region-content_of, write_message-Says}
use fritz2ci.Transmission.Parts.{Piece, part_header, part_bytes, parts_from, length-part_bytes}
use fritz2ci.Connection.{
  Outcome, returned, arrived, recv_first, recv_rest, recv_parts, recv_done, recv_message,
  send_message,
}
use fritz2ci.Connection.Send.{Cut, start_sends}
use fritz2ci.Connection.Receive.{
  recv_lem, length-received, get_header-part, copy-part, recv_parts_lem,
}

module _ (junk : ℕ → ℕ) where
  -- The first part in its place, and room for the others.
  first_placed :
      (h : MsgHeader) (q tail : Bytes) (k : ℕ)
      → h.data_size ≡ length q + k
      → (h.data_size == 0) ≡ false
      → (room : Bytes) × (length room ≡ k)
        × (recv_first junk (part_bytes h 0 q ++ tail) (part_header h (length q) 0) header_size
            ≡ some (some (q ++ room), length q))
  unfolding recv_first malloc
  first_placed h q tail k e full =
      let (room₁, room₂, er, e₁, e₂) =
        split_at (length q) k (tabulate h.data_size junk) (length-tabulate h.data_size junk ∙ e) in
      (room₂, e₂, rw (full, er, copy-part h [] q room₁ room₂ tail e₁))

  -- The data of the message, behind the first part and the loop.
  assembled :
      (h : MsgHeader) (q : Bytes) (qs : List Bytes) (content tail : Bytes)
      → Cut content q qs
      → IsHeader h
      → h.data_size ≡ length content
      → length (part_bytes h 0 q ++ tail) ≡ total_size
      → (recv_first junk (part_bytes h 0 q ++ tail) (part_header h (length q) 0) header_size
          >>= λ (d, n).
              recv_rest junk
                (map arrived (parts_from h (0 + length q) qs))
                (part_bytes h 0 q ++ tail)
                (part_header h (length q) 0)
                d
                n)
        ≡ some (returned 0, content_of content, length content)
  unfolding recv_first recv_rest malloc
  assembled h q qs [] tail cut w e eb =
      let empty : (h.data_size == 0) ≡ true = ground arith in rw empty
  assembled h q qs (x ∷ xs) tail (cut, fits, all) w e eb =
      let total : length (q ++ concat qs) ≡ length (x ∷ xs) = ap length cut in
      let full : (h.data_size == 0) ≡ false = ground arith in
      let (room, er, first) =
        first_placed h q tail (length (concat qs)) (omega (arith, length-append q (concat qs)))
          full in
      let z : length q ≡ 0 + length q = omega arith in
      let rest =
        recv_parts_lem qs h h.data_size q room (part_bytes h 0 q ++ tail) w all er
          (omega (arith, length-append q (concat qs))) w.data_size eb in
      let rest' =
        subst
          (λ n.
            recv_parts (map arrived (parts_from h n qs)) (part_bytes h 0 q ++ tail) h.data_size
              (q ++ room) (length q)
            ≡ some (returned 0, q ++ concat qs, h.data_size))
          z rest in
      rw (first, rest', cut, e)

  -- The parts of a message, received.
  recv_message-parts :
      (h : MsgHeader) (q : Bytes) (qs : List Bytes) (content buffer : Bytes) (old : Option Message)
      → Cut content q qs
      → IsHeader h
      → h.data_size ≡ length content
      → length buffer ≡ total_size
      → recv_message junk (map arrived (parts_from h 0 (q ∷ qs))) buffer old
        ≡ recv_done junk
            (part_header h (length q) 0)
            old
            (returned 0, content_of content, length content)
  unfolding recv_message
  recv_message-parts h q qs content buffer old (cut, fits, all) w e eb =
      let part : Bytes = part_bytes h 0 q in
      let n : length part ≡ length q + 22 = length-part_bytes h 0 q in
      let whole : ltb (length part) header_size ≡ false = ground arith in
      let le : length part ≤ length buffer = omega arith in
      let tail : Bytes = drop (length part) buffer in
      rw (recv_lem part buffer le, whole, get_header-part h 0 q tail w (omega arith) (omega arith))
        (sym (
            >>=_assoc (recv_first junk (part ++ tail) (part_header h (length q) 0) header_size)
              (λ (d, n).
                recv_rest junk (map arrived (parts_from h (0 + length q) qs)) (part ++ tail)
                  (part_header h (length q) 0) d n)
              (recv_done junk (part_header h (length q) 0) old))
          ∙ ap
              (λ (o : Option (Outcome × Option Bytes × ℕ)).
                o >>= recv_done junk (part_header h (length q) 0) old)
              (assembled h q qs content tail (cut, fits, all) w e
                (length-received part buffer le ∙ eb)))

parts_from-small :
    (h : MsgHeader) (off : ℕ) (qs : List Bytes)
    → All Piece qs
    → All (λ part. length part ≤ total_size) (parts_from h off qs)
parts_from-small h off [] all = tt
parts_from-small h off (q ∷ qs) (fits, all) =
    (omega (arith, fits.1, length-part_bytes h off q), parts_from-small h (off + length q) qs all)

code_small : (c : Command) → code c < 256
unfolding code
code_small register = omega arith
code_small caller_list = omega arith
code_small read_caller = omega arith
code_small write_caller = omega arith
code_small write_call = omega arith
code_small call_list = omega arith
code_small show_tables = omega arith
code_small describe_table = omega arith
code_small delete_caller = omega arith
code_small list_info = omega arith
code_small listen = omega arith

subcmd_small : (b : Body) → subcmd_of b < 256
subcmd_small b = elim (subcmd_of_cases b) [ inl e ↦ omega (arith, e) | inr e ↦ omega (arith, e) ]

header_for-IsHeader :
    (m : Message) (b : Body) (h : MsgHeader) (size : ℕ)
    → m.cmd ≡ code (command_of b)
    → m.subcmd ≡ subcmd_of b
    → IsU16 m.clientid
    → IsU32 m.msgid
    → IsU32 h.offset
    → IsU32 size
    → IsHeader (header_for m h size)
unfolding zero_header
header_for-IsHeader m b h size ec es wc wi wo ws = record {
  client_id = wc;
  msg_command = omega (arith, ec, code_small (command_of b));
  msg_subcommand = omega (arith, es, subcmd_small b);
  msg_id = wi;
  msg_flags = omega arith;
  data_size = ws;
  part_size = omega arith;
  offset = omega arith;
}

module _ (junk junk' : ℕ → ℕ) (m old : Message) (b : Body) (p : Packet)
    (buffer buffer' : Bytes) where
  -- A valid message of less than 4 GiB whose identifiers are in range, sent over a socket that takes every part whole:
  -- the sender returns 0, no part has more than 2048 bytes, and a receiver that each `recv` brings
  -- one part returns 0 and has the message's command, subcommand and arguments, whatever the memory
  -- of either held before. Nothing is accessed out of bounds.
  pub recv_message-send_message :
      Says m b
      → Valid b
      → length (wire_body b) < 4294967296
      → IsU16 m.clientid
      → IsU32 m.msgid
      → IsU32 p.header.offset
      → length buffer ≡ total_size
      → length buffer' ≡ total_size
      → (log : List Bytes) × (send_message junk (map length log) p buffer (some m)
          ≡ some (returned 0, log))
        × All (λ part. length part ≤ total_size) log
        × (recv_message junk' (map arrived log) buffer' (some old)
            ≡ some
                (returned 0, some (read_back b (body_message (code (command_of b)) (subcmd_of b)))))
  unfolding send_message recv_done
  recv_message-send_message s v small wc wi wo eb eb' =
      let content : Bytes = wire_body b in
      let h : MsgHeader = header_for m p.header (length content) in
      let w : IsHeader h =
        header_for-IsHeader m b p.header (length content) s.cmd s.subcmd wc wi wo small in
      let er : region (content_of content) ≡ content = region-content_of content in
      let (q, qs, cut, sent) =
        start_sends h h.part_size h.offset (content_of content) buffer (sym (ap length er)) small
          eb in
      let cut' : Cut content q qs = subst (λ z. Cut z q qs) er cut in
      let received : Packet = record {
        header = part_header h (length content) 0;
        content = content_of content;
      } in
      (
        parts_from h 0 (q ∷ qs),
        rw (write_message-Says junk m b p s v small) sent,
        (omega (arith, cut.1, length-part_bytes h 0 q), parts_from-small h (0 + length q) qs cut.2),
        recv_message-parts junk' h q qs content buffer' (some old) cut' w refl eb'
            ∙ ap (λ (o : Option (Option Message)). o >>= λ d. some (returned 0, d))
                (read_message-wire_body junk' b received old v s.cmd s.subcmd er),
      )

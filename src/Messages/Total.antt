-- ===== src/Messages/Total.antt =====
-- The whole of the writer, and the writer and the reader together.
use fritz2ci.Prelude.{
  ℕ, ◌<◌, ◌≡◌, refl, ap, ◌∙◌, Option, none, some, [], ◌∷◌, length, tabulate, length-tabulate, ◌>>=◌,
}
use fritz2ci.Memory.{Bytes}
use fritz2ci.Header.{MsgHeader, zero_header}
use fritz2ci.Messages.{Command, code, switch_on, Message, Packet, region}
use fritz2ci.Messages.Write.{
  Size, write_data, stamp, allocate_and_write, fill_sized, fill_label, fill_packet, write_message,
}
use fritz2ci.Messages.Read.{read_message}
use fritz2ci.Messages.Body.{Body, command_of, subcmd_of, wire_body, Valid, body_message, read_back}
use fritz2ci.Messages.Says.{Says}
use fritz2ci.Messages.RoundTrip.{switch_on-code, suc-==-zero, read_message-wire_body}
use fritz2ci.Messages.Emit.{Fills}
use fritz2ci.Messages.Fill.{Fills-body}
use fritz2ci.Messages.Sizes.{data_size_lem}

-- The header that goes with data of a size.
abbrev pub header_for : Message → MsgHeader → ℕ → MsgHeader
header_for m h size = record (stamp m (zero_header (stamp m h))) { data_size = size }

-- The data pointer for a format: NULL if there is nothing to send.
abbrev pub content_of : Bytes → Option Bytes
content_of [] = none
content_of (x ∷ bs) = some (x ∷ bs)

allocate_and_write_lem :
    (junk : ℕ → ℕ) (m : Message) (c : Command) (bs : Bytes) (p : Packet)
    → Fills (write_data c m) bs
    → allocate_and_write junk c m p (length bs)
      ≡ some (
        record { header = header_for m p.header (length bs); content = content_of bs },
        length bs,
      )
unfolding allocate_and_write
allocate_and_write_lem junk m c [] p h = refl
allocate_and_write_lem junk m c (x ∷ bs) p h =
    rw (suc-==-zero (length bs))
      (rw (h (tabulate (length (x ∷ bs)) junk) (length-tabulate (length (x ∷ bs)) junk)))

fill_packet_lem :
    (junk : ℕ → ℕ) (m : Message) (b : Body) (p : Packet)
    → Says m b
    → Valid b
    → length (wire_body b) < 4294967296
    → fill_packet junk m p
      ≡ some (
        record {
          header = header_for m p.header (length (wire_body b));
          content = content_of (wire_body b);
        },
        length (wire_body b),
      )
unfolding fill_packet
fill_packet_lem junk m b p s v small =
    ap (λ k. fill_label junk (switch_on k) m p) s.cmd
    ∙ ap (λ o. fill_label junk o m p) (switch_on-code (command_of b))
    ∙ ap (λ (o : Option Size). o >>= λ z. fill_sized junk z (command_of b) m p)
        (data_size_lem b m s.args v s.subcmd small)
    ∙ allocate_and_write_lem junk m (command_of b) (wire_body b) p
        (Fills-body b m s.args v s.subcmd)

-- For every valid body whose format has less than 4 GiB and every message that says it, whatever the
-- heap and the packet held before: nothing outside the allocated data is accessed, the data is the documented format and
-- fills its allocation, the header says its size, and the size is returned.
pub write_message-Says :
    (junk : ℕ → ℕ) (m : Message) (b : Body) (p : Packet)
    → Says m b
    → Valid b
    → length (wire_body b) < 4294967296
    → write_message junk (some m) (some p)
      ≡ some (
        some (record {
          header = header_for m p.header (length (wire_body b));
          content = content_of (wire_body b);
        }),
        length (wire_body b),
      )
unfolding write_message
write_message-Says junk m b p s v small =
    ap (λ (o : Option (Packet × ℕ)). o >>= λ r. some (some r.0, r.1))
      (fill_packet_lem junk m b p s v small)

pub region-content_of : (bs : Bytes) → region (content_of bs) ≡ bs
region-content_of [] = refl
region-content_of (x ∷ bs) = refl

-- What was written is read back: for every valid body whose format has less than 4 GiB and every
-- message that says it, the writer returns a packet from which the reader gets the command, the subcommand and the arguments.
pub read_message-write_message :
    (junk : ℕ → ℕ) (m old : Message) (b : Body) (p : Packet)
    → Says m b
    → Valid b
    → length (wire_body b) < 4294967296
    → (q : Packet) × (write_message junk (some m) (some p) ≡ some (some q, length (wire_body b)))
      × (read_message junk (some q) (some old)
          ≡ some (some (read_back b (body_message (code (command_of b)) (subcmd_of b)))))
read_message-write_message junk m old b p s v small = (
  record {
    header = header_for m p.header (length (wire_body b));
    content = content_of (wire_body b);
  },
  write_message-Says junk m b p s v small,
  read_message-wire_body junk b _ old v s.cmd s.subcmd (region-content_of (wire_body b)),
)

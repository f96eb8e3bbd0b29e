-- ===== src/Transmission.antt =====
-- The transmission of a message in parts (cidbmessages.c): each part is a header and up to 2026
-- bytes of the data. The data is longer than a part allows, or fits one part.
pub mod Parts
use fritz2ci.Prelude.{ℕ, ◌+◌, ◌-◌, Option, some, ltb, leb, if◌then◌else◌, ◌>>=◌}
use fritz2ci.Memory.{Bytes, copy}
use fritz2ci.Wire.{add32}
use fritz2ci.Header.{MsgHeader, header_size, part_data_size, put_header}
use fritz2ci.Messages.{Packet, region}

-- CIDBMsgTransmission
pub record Transmission : Type 0 where
  pub complete : Packet
  pub offset : ℕ

-- The header of the part that begins at `off`, and the part in the buffer.
unfoldable pub put_part : Bytes → Packet → ℕ → ℕ → Option (Bytes × Transmission × ℕ)
unfolding put_header copy
put_part part p size off = do
  let h : MsgHeader = record p.header { part_size = size; offset = off }
  (part₁, _) ← put_header h part
  part₂ ← copy size part₁ header_size (region p.content) off
  some (
    part₂,
    record { complete = record p { header = h }; offset = add32 off size },
    add32 size header_size,
  )

-- cidbmsg_transmission_start: the new offset is the size of the part, as `0 + size` is.
unfoldable pub transmission_start : Bytes → Transmission → Option (Bytes × Transmission × ℕ)
unfolding put_part
transmission_start part tr =
    let n = tr.complete.header.data_size in
    put_part part tr.complete (if ltb part_data_size n then part_data_size else n) 0

-- cidbmsg_transmission_continue: the subtraction does not wrap behind its test.
unfoldable pub transmission_continue : Bytes → Transmission → Option (Bytes × Transmission × ℕ)
unfolding put_part
transmission_continue part tr =
    let n = tr.complete.header.data_size in
    if leb n tr.offset
    then some (part, tr, 0)
    else put_part part tr.complete
        (if leb part_data_size (n - tr.offset) then part_data_size else n - tr.offset) tr.offset

-- ===== src/Header.antt =====
-- The message header of cidbmessages.c: CIDBMsgHeader and its 22 bytes on the wire.
pub mod RoundTrip
use fritz2ci.Prelude.{ℕ, ◌/◌, ◌*◌, Option, none, some, ◌>>=◌}
use fritz2ci.Memory.{Bytes, clear}
use fritz2ci.Wire.{
  set_uchar, set_ushort, set_ulong, get_uchar, get_ushort, get_ulong, IsByte, IsU16, IsU32,
}

pub record MsgHeader : Type 0 where
  pub client_id : ℕ
  pub msg_command : ℕ
  pub msg_subcommand : ℕ
  pub msg_id : ℕ
  pub msg_flags : ℕ
  pub data_size : ℕ
  pub part_size : ℕ
  pub offset : ℕ

-- The ranges of the fields' C types.
pub record IsHeader (h : MsgHeader) : Type 0 where
  pub client_id : IsU16 h.client_id
  pub msg_command : IsByte h.msg_command
  pub msg_subcommand : IsByte h.msg_subcommand
  pub msg_id : IsU32 h.msg_id
  pub msg_flags : IsU16 h.msg_flags
  pub data_size : IsU32 h.data_size
  pub part_size : IsU32 h.part_size
  pub offset : IsU32 h.offset

abbrev pub total_size : ℕ
total_size = 2048

abbrev pub header_size : ℕ
header_size = 22

abbrev pub part_data_size : ℕ
part_data_size = 2026

-- cidbmsg_prepare_header where neither pointer is NULL.
unfoldable pub put_header : MsgHeader → Bytes → Option (Bytes × ℕ)
unfolding set_uchar set_ushort set_ulong
put_header h dst = do
  d₁ ← set_ushort dst 0 h.client_id
  d₂ ← set_uchar d₁ 2 h.msg_command
  d₃ ← set_uchar d₂ 3 h.msg_subcommand
  d₄ ← set_ulong d₃ 4 h.msg_id
  d₅ ← set_ushort d₄ 8 h.msg_flags
  d₆ ← set_ulong d₅ 10 h.data_size
  d₇ ← set_ulong d₆ 14 h.part_size
  d₈ ← set_ulong d₇ 18 h.offset
  some (d₈, header_size)

-- A NULL pointer is `none`.
unfoldable pub prepare_header : Option Bytes → Option MsgHeader → Option (Option Bytes × ℕ)
unfolding put_header clear
prepare_header none header = some (none, 0)
prepare_header (some dst) none = do dst' ← clear header_size dst; some (some dst', header_size)
prepare_header (some dst) (some h) = do (dst', n) ← put_header h dst; some (some dst', n)

-- cidbmsg_read_header where neither pointer is NULL: it writes every field of the structure.
unfoldable pub get_header : Bytes → Option (MsgHeader × ℕ)
unfolding get_uchar get_ushort get_ulong
get_header src = do
  client_id ← get_ushort src 0
  msg_command ← get_uchar src 2
  msg_subcommand ← get_uchar src 3
  msg_id ← get_ulong src 4
  msg_flags ← get_ushort src 8
  data_size ← get_ulong src 10
  part_size ← get_ulong src 14
  offset ← get_ulong src 18
  let h : MsgHeader = record {
    client_id = client_id;
    msg_command = msg_command;
    msg_subcommand = msg_subcommand;
    msg_id = msg_id;
    msg_flags = msg_flags;
    data_size = data_size;
    part_size = part_size;
    offset = offset;
  }
  some (h, header_size)

-- `memset(header, 0, 22)` on the structure in memory, little-endian and naturally aligned: the
-- structure has 24 bytes, and the last two are the upper half of `offset`.
unfoldable pub zero_header : MsgHeader → MsgHeader
zero_header h = record {
  client_id = 0;
  msg_command = 0;
  msg_subcommand = 0;
  msg_id = 0;
  msg_flags = 0;
  data_size = 0;
  part_size = 0;
  offset = h.offset / 65536 * 65536;
}

unfoldable pub read_header : Option MsgHeader → Option Bytes → Option (Option MsgHeader × ℕ)
unfolding get_header zero_header
read_header none src = some (none, 0)
read_header (some h) none = some (some (zero_header h), header_size)
read_header (some h) (some src) = do (h', n) ← get_header src; some (some h', n)

unfoldable pub mkmessage : ℕ → ℕ → ℕ → ℕ → MsgHeader
mkmessage clientid command subcommand msgid = record {
  client_id = clientid;
  msg_command = command;
  msg_subcommand = subcommand;
  msg_id = msgid;
  msg_flags = 0;
  data_size = 0;
  part_size = 0;
  offset = 0;
}

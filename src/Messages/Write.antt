-- ===== src/Messages/Write.antt =====
-- cidbmsg_write_message: the size of the data, then the data.
use fritz2ci.Prelude.{ℕ, Option, none, some, List, leb, ◌==◌, if◌then◌else◌, ◌>>=◌}
use fritz2ci.Prelude.Loop.{for_loop}
use fritz2ci.Memory.{Bytes, under, malloc}
use fritz2ci.Wire.{set_uchar, set_ushort, set_ulong, add32}
use fritz2ci.Header.{MsgHeader, zero_header}
use fritz2ci.Strings.{StrPtr, null, cut_strlen, write_string}
use fritz2ci.Table.{table_get_size, put_table}
use fritz2ci.Messages.{
  Command, register, caller_list, read_caller, write_caller, write_call, call_list, show_tables,
  describe_table, delete_caller, list_info, listen, switch_on, subcmd_query, subcmd_resp, Message,
  Packet, string_at,
}

-- What the first `switch` comes to: a size, or `return 0`.
pub data Size : Type 0 where
  refused : Size
  sized : ℕ → Size

-- `if (s) { len = strlen(s); if (len >= 255) size += 2; size += len; }`
unfoldable pub add_string : ℕ → StrPtr → Option ℕ
unfolding cut_strlen
add_string size null = some size
add_string size p = do
  len ← cut_strlen p
  some (add32 (if leb 255 len then add32 size 2 else size) len)

-- `if (stringlist && stringlist[i]) …`
unfoldable pub add_listed : Option (List StrPtr) → ℕ → ℕ → Option ℕ
unfolding string_at add_string
add_listed none i size = some size
add_listed (some l) i size = do p ← string_at (some l) i; add_string size p

-- `if (stringlist) for (i = 0; i < nstrings; i++) { size += 1; … }`
unfoldable pub add_strings : Option (List StrPtr) → ℕ → ℕ → Option ℕ
unfolding string_at add_string for_loop
add_strings none n size = some size
add_strings (some l) n size =
    for_loop n 0 (λ i sz. do p ← string_at (some l) i; add_string (add32 sz 1) p) size

-- The two subcommands, and what stands for any other.
unfoldable pub on_subcmd : ℕ → Option ℕ → Option ℕ → Option Size
on_subcmd subcmd query resp =
    if subcmd == subcmd_query
    then (do n ← query; some (sized n))
    else if subcmd == subcmd_resp
    then (do n ← resp; some (sized n))
    else some refused

unfoldable pub table_after : ℕ → Message → Option ℕ
unfolding table_get_size
table_after size m = do n ← table_get_size (some m.table); some (add32 size n)

unfoldable pub data_size : Command → Message → Option Size
unfolding on_subcmd table_after add_listed add_strings
data_size register m = on_subcmd m.subcmd (some 0) (some 4)
data_size caller_list m = on_subcmd m.subcmd (add_listed m.stringlist 0 3) (table_after 2 m)
data_size read_caller m = on_subcmd m.subcmd (add_listed m.stringlist 0 5) (table_after 2 m)
data_size write_caller m = on_subcmd m.subcmd (table_after 4 m) (some 6)
data_size write_call m = on_subcmd m.subcmd (table_after 0 m) (some 6)
data_size call_list m = on_subcmd m.subcmd (some 6) (table_after 2 m)
data_size show_tables m = on_subcmd m.subcmd (some 0) (add_strings m.stringlist m.nstrings 4)
data_size delete_caller m =
    on_subcmd m.subcmd (do n ← add_listed m.stringlist 0 6; add_listed m.stringlist 1 n) (some 2)
data_size list_info m = on_subcmd m.subcmd (some 0) (some 6)
data_size describe_table m =
    on_subcmd m.subcmd (add_listed m.stringlist 0 1) (add_strings m.stringlist m.nstrings 4)
data_size listen m = if m.subcmd == subcmd_query then some (sized 4) else some (sized 2)

-- A call that writes at `&data[off]`, its result not used.
abbrev pub write_at : ℕ → (Bytes → Option (Bytes × ℕ)) → Bytes → Option Bytes
write_at off f msg = do (msg', _) ← under off f msg; some msg'

-- `if (stringlist && stringlist[0]) cidbmsg_write_string(…); else CIDB_SET_UCHAR(…, 0);`
unfoldable pub write_listed : ℕ → Option (List StrPtr) → Bytes → Option Bytes
unfolding string_at write_string under set_uchar
write_listed off none msg = set_uchar msg off 0
write_listed off (some l) msg = do
  p ← string_at (some l) 0
  elim p [ null ↦ set_uchar msg off 0 | other ↦ write_at off (write_string other) msg ]

-- `for (i = 0; i < nstrings; i++) pos += cidbmsg_write_string(&data[pos], stringlist[i]);`
unfoldable pub write_strings : Option (List StrPtr) → ℕ → Bytes → ℕ → Option Bytes
unfolding string_at write_string under for_loop
write_strings l n msg pos = do
  (msg', _) ←
      for_loop n 0
        (λ i s. do
          p ← string_at l i
          (m, k) ← under s.1 (write_string p) s.0
          some (m, add32 s.1 k))
        (msg, pos)
  some msg'

-- The string list of a response, behind the error code.
unfoldable pub write_list : Message → Bytes → Option Bytes
unfolding set_ushort write_strings
write_list m msg = do
  d₁ ← set_ushort msg 0 m.errcode
  elim m.stringlist [
    | none ↦ set_ushort d₁ 2 0
    | some l ↦ do d₂ ← set_ushort d₁ 2 m.nstrings; write_strings (some l) m.nstrings d₂ 4
  ]

-- The table of a response, behind the error code.
unfoldable pub write_rows : Message → Bytes → Option Bytes
unfolding set_ushort put_table under
write_rows m msg = do d₁ ← set_ushort msg 0 m.errcode; write_at 2 (put_table m.table) d₁

-- An error code and a 32-bit number.
unfoldable pub write_number : Message → ℕ → Bytes → Option Bytes
unfolding set_ushort set_ulong
write_number m n msg = do d₁ ← set_ushort msg 0 m.errcode; set_ulong d₁ 2 n

unfoldable pub write_query : Command → Message → Bytes → Option Bytes
unfolding set_ushort set_ulong write_listed write_strings put_table under string_at write_string
write_query register m msg = some msg
write_query caller_list m msg = do d₁ ← set_ushort msg 0 m.userid; write_listed 2 m.stringlist d₁
write_query read_caller m msg = do
  d₁ ← set_ushort msg 0 m.userid
  d₂ ← set_ushort d₁ 2 m.flags
  write_listed 4 m.stringlist d₂
write_query write_caller m msg = do
  d₁ ← set_ushort msg 0 m.userid
  d₂ ← set_ushort d₁ 2 m.flags
  write_at 4 (put_table m.table) d₂
write_query write_call m msg = write_at 0 (put_table m.table) msg
write_query call_list m msg = do d₁ ← set_ulong msg 0 m.offset; set_ushort d₁ 4 m.count
write_query show_tables m msg = some msg
write_query describe_table m msg = elim m.stringlist [
  | none ↦ set_ushort msg 0 0
  | some l ↦ do p ← string_at (some l) 0; write_at 0 (write_string p) msg
]
write_query delete_caller m msg = do
  d₁ ← set_ushort msg 0 m.userid
  d₂ ← set_ushort d₁ 2 m.nstrings
  write_strings m.stringlist m.nstrings d₂ 4
write_query list_info m msg = some msg
write_query listen m msg = set_ulong msg 0 m.mask

unfoldable pub write_resp : Command → Message → Bytes → Option Bytes
unfolding set_ushort write_rows write_list write_number
write_resp register m msg = do d₁ ← set_ushort msg 0 m.errcode; set_ushort d₁ 2 m.clientid
write_resp caller_list m msg = write_rows m msg
write_resp read_caller m msg = write_rows m msg
write_resp write_caller m msg = write_number m m.index msg
write_resp write_call m msg = write_number m m.index msg
write_resp call_list m msg = write_rows m msg
write_resp show_tables m msg = write_list m msg
write_resp describe_table m msg = write_list m msg
write_resp delete_caller m msg = set_ushort msg 0 m.errcode
write_resp list_info m msg = write_number m m.maxentries msg
write_resp listen m msg = set_ushort msg 0 m.errcode

-- The second `switch`: whatever is no query is written as a response.
unfoldable pub write_data : Command → Message → Bytes → Option Bytes
write_data c m msg = if m.subcmd == subcmd_query then write_query c m msg else write_resp c m msg

-- The header fields that are set before the size is known, and again behind it.
abbrev pub stamp : Message → MsgHeader → MsgHeader
stamp m h = record h {
  msg_command = m.cmd;
  msg_subcommand = m.subcmd;
  client_id = m.clientid;
  msg_id = m.msgid;
}

module _ (junk : ℕ → ℕ) where
  -- From the allocation on.
  unfoldable pub allocate_and_write : Command → Message → Packet → ℕ → Option (Packet × ℕ)
  unfolding zero_header malloc write_data
  allocate_and_write c m packet size =
      let h : MsgHeader = record (stamp m (zero_header (stamp m packet.header))) {
        data_size = size;
      } in
      if size == 0 then some (record { header = h; content = none }, 0) else (do
        content ← write_data c m (malloc junk size)
        some (record { header = h; content = some content }, size))

  -- The end of the first `switch`: the packet with its header stamped once is what an early
  -- `return 0` leaves.
  unfoldable pub fill_sized : Size → Command → Message → Packet → Option (Packet × ℕ)
  unfolding allocate_and_write
  fill_sized refused c m packet = some (record packet { header = stamp m packet.header }, 0)
  fill_sized (sized n) c m packet = allocate_and_write c m packet n

  unfoldable pub fill_label : Option Command → Message → Packet → Option (Packet × ℕ)
  unfolding fill_sized data_size
  fill_label none m packet = some (record packet { header = stamp m packet.header }, 0)
  fill_label (some c) m packet = do size ← data_size c m; fill_sized size c m packet

  -- The first `memset` clears the four bytes of the client id, the command and the subcommand,
  -- which are set at once.
  unfoldable pub fill_packet : Message → Packet → Option (Packet × ℕ)
  unfolding fill_label switch_on
  fill_packet m packet = fill_label (switch_on m.cmd) m packet

  -- cidbmsg_write_message; a NULL pointer is `none`.
  unfoldable pub write_message : Option Message → Option Packet → Option (Option Packet × ℕ)
  unfolding fill_packet
  write_message none packet = some (packet, 0)
  write_message (some m) none = some (none, 0)
  write_message (some m) (some packet) = do
    (packet', n) ← fill_packet m packet
    some (some packet', n)

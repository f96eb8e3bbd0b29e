-- ===== src/Messages/Read.antt =====
-- cidbmsg_read_message: the message that a packet holds.
use fritz2ci.Prelude.{
  ℕ, true, not, ◌&&◌, Option, none, some, List, [], ◌∷◌, replicate, ◌==◌, if◌then◌else◌, ◌>>=◌,
}
use fritz2ci.Prelude.Loop.{for_loop}
use fritz2ci.Memory.{Bytes, store, advance}
use fritz2ci.Wire.{get_ushort, get_ulong, add32}
use fritz2ci.Strings.{StrPtr, unset, read_string}
use fritz2ci.Table.{get_table}
use fritz2ci.Messages.{
  Command, register, caller_list, read_caller, write_caller, write_call, call_list, show_tables,
  describe_table, delete_caller, list_info, listen, switch_on, subcmd_query, subcmd_resp, Message,
  no_message, Packet, region,
}

module _ (junk : ℕ → ℕ) where
  -- `cidbmsg_read_string(&data[pos], &…)`
  unfoldable pub read_string_at : Bytes → ℕ → Option (StrPtr × ℕ)
  unfolding advance read_string
  read_string_at msg pos = do r ← advance pos msg; read_string junk true (some r)

  -- A list of one string, which stands at `pos`.
  unfoldable pub read_one : Message → Bytes → ℕ → Option Message
  unfolding read_string_at
  read_one m msg pos = do
    (s, _) ← read_string_at msg pos
    some (record m { nstrings = 1; stringlist = some (s ∷ []) })

  -- One round of the loops over `nstrings`.
  unfoldable pub read_next : Bytes → ℕ → List StrPtr × ℕ → Option (List StrPtr × ℕ)
  unfolding read_string_at store add32
  read_next msg i (l, pos) = do
    (s, n) ← read_string_at msg pos
    l' ← store l i s
    some (l', add32 pos n)

  -- A list whose length stands at 2 and whose strings begin at 4.
  unfoldable pub read_strings : Message → Bytes → Option Message
  unfolding get_ushort for_loop read_next
  read_strings m msg = do
    n ← get_ushort msg 2
    let counted : Message = record m { nstrings = n }
    if n == 0 then some counted else (do
      (l, _) ← for_loop n 0 (read_next msg) (replicate n unset, 4)
      some (record counted { stringlist = some l }))

  unfoldable pub read_rows : Message → Bytes → ℕ → Option Message
  unfolding advance get_table
  read_rows m msg off = do
    r ← advance off msg
    (t, _) ← get_table junk r
    some (record m { table = t })

  unfoldable pub read_userid : Message → Bytes → Option Message
  unfolding get_ushort
  read_userid m msg = do v ← get_ushort msg 0; some (record m { userid = v })

  unfoldable pub read_flags : Message → Bytes → Option Message
  unfolding get_ushort
  read_flags m msg = do v ← get_ushort msg 2; some (record m { flags = v })

  unfoldable pub read_errcode : Message → Bytes → Option Message
  unfolding get_ushort
  read_errcode m msg = do v ← get_ushort msg 0; some (record m { errcode = v })

  unfoldable pub read_query : Command → Message → Bytes → Option Message
  unfolding get_ushort get_ulong read_userid read_flags read_one read_rows read_strings
  read_query register m msg = some m
  read_query caller_list m msg = do m₁ ← read_userid m msg; read_one m₁ msg 2
  read_query read_caller m msg = do
    m₁ ← read_userid m msg
    m₂ ← read_flags m₁ msg
    read_one m₂ msg 4
  read_query write_caller m msg = do
    m₁ ← read_userid m msg
    m₂ ← read_flags m₁ msg
    read_rows m₂ msg 4
  read_query write_call m msg = read_rows m msg 0
  read_query call_list m msg = do
    o ← get_ulong msg 0
    c ← get_ushort msg 4
    some (record m { offset = o; count = c })
  read_query show_tables m msg = some m
  read_query describe_table m msg = read_one m msg 0
  read_query delete_caller m msg = do m₁ ← read_userid m msg; read_strings m₁ msg
  read_query list_info m msg = some m
  read_query listen m msg = do v ← get_ulong msg 0; some (record m { mask = v })

  unfoldable pub read_resp : Command → Message → Bytes → Option Message
  unfolding get_ushort get_ulong read_errcode read_rows read_strings
  read_resp register m msg = do
    m₁ ← read_errcode m msg
    v ← get_ushort msg 2
    some (record m₁ { clientid = v })
  read_resp caller_list m msg = do m₁ ← read_errcode m msg; read_rows m₁ msg 2
  read_resp read_caller m msg = do m₁ ← read_errcode m msg; read_rows m₁ msg 2
  read_resp write_caller m msg = do
    m₁ ← read_errcode m msg
    v ← get_ulong msg 2
    some (record m₁ { index = v })
  read_resp write_call m msg = do
    m₁ ← read_errcode m msg
    v ← get_ulong msg 2
    some (record m₁ { index = v })
  read_resp call_list m msg = do m₁ ← read_errcode m msg; read_rows m₁ msg 2
  read_resp show_tables m msg = do m₁ ← read_errcode m msg; read_strings m₁ msg
  read_resp describe_table m msg = do m₁ ← read_errcode m msg; read_strings m₁ msg
  read_resp delete_caller m msg = read_errcode m msg
  read_resp list_info m msg = do
    m₁ ← read_errcode m msg
    v ← get_ulong msg 2
    some (record m₁ { maxentries = v })
  read_resp listen m msg = read_errcode m msg

  -- The `switch` on the command; `none` is `default`.
  unfoldable pub read_label : Option Command → Message → Bytes → Option Message
  unfolding read_query read_resp
  read_label none m msg = some m
  read_label (some c) m msg =
      if m.subcmd == subcmd_query then read_query c m msg else read_resp c m msg

  -- The body of cidbmsg_read_message, where neither pointer is NULL: it reads the command, the
  -- subcommand and the data.
  unfoldable pub read_parts : ℕ → ℕ → Bytes → Option Message
  unfolding switch_on read_label
  read_parts cmd subcmd msg =
      let m : Message = record no_message { cmd = cmd; subcmd = subcmd } in
      if not (subcmd == subcmd_query) && not (subcmd == subcmd_resp)
      then some m
      else read_label (switch_on cmd) m msg

  unfoldable pub parse_packet : Packet → Option Message
  unfolding read_parts
  parse_packet packet =
      read_parts packet.header.msg_command packet.header.msg_subcommand (region packet.content)

  -- A NULL pointer is `none`; the result is what `dbmsg` points to behind the call.
  unfoldable pub read_message : Option Packet → Option Message → Option (Option Message)
  unfolding parse_packet
  read_message none dbmsg = some dbmsg
  read_message (some packet) none = some none
  read_message (some packet) (some old) = do m ← parse_packet packet; some (some m)

-- ===== src/Messages/Says.antt =====
-- The messages in memory that the writer is given.
use fritz2ci.Prelude.{◌≡◌, some, List, [], ◌∷◌, length}
use fritz2ci.Strings.{StrPtr, Holds}
use fritz2ci.Table.Layout.{Represents, AllHold}
use fritz2ci.Messages.{code, Message}
use fritz2ci.Messages.Body.{
  Body, register_query, show_tables_query, list_info_query, caller_list_query, read_caller_query,
  write_caller_query, write_call_query, call_list_query, describe_table_query, delete_caller_query,
  listen_query, register_resp, caller_list_resp, read_caller_resp, call_list_resp,
  write_caller_resp, write_call_resp, list_info_resp, show_tables_resp, describe_table_resp,
  delete_caller_resp, listen_resp, command_of, subcmd_of, FirstHolds,
}

-- The message in memory has the arguments of the body.
abbrev pub Args : Message → Body → Type 0
Args m register_query = Unit
Args m show_tables_query = Unit
Args m list_info_query = Unit
Args m (caller_list_query u t) = (m.userid ≡ u) × FirstHolds m.stringlist t
Args m (read_caller_query u f t) = (m.userid ≡ u) × (m.flags ≡ f) × FirstHolds m.stringlist t
Args m (write_caller_query u f x) = (m.userid ≡ u) × (m.flags ≡ f) × Represents m.table x
Args m (write_call_query x) = Represents m.table x
Args m (call_list_query o c) = (m.offset ≡ o) × (m.count ≡ c)
Args m (describe_table_query t) =
    (p : StrPtr) × (ps : List StrPtr) × (m.stringlist ≡ some (p ∷ ps)) × Holds p t
Args m (delete_caller_query u t n) =
    (p : StrPtr) × (q : StrPtr) × (m.userid ≡ u)
    × (m.nstrings ≡ 2)
    × (m.stringlist ≡ some (p ∷ q ∷ []))
    × Holds p t
    × Holds q n
Args m (listen_query k) = m.mask ≡ k
Args m (register_resp e c) = (m.errcode ≡ e) × (m.clientid ≡ c)
Args m (caller_list_resp e x) = (m.errcode ≡ e) × Represents m.table x
Args m (read_caller_resp e x) = (m.errcode ≡ e) × Represents m.table x
Args m (call_list_resp e x) = (m.errcode ≡ e) × Represents m.table x
Args m (write_caller_resp e n) = (m.errcode ≡ e) × (m.index ≡ n)
Args m (write_call_resp e n) = (m.errcode ≡ e) × (m.index ≡ n)
Args m (list_info_resp e n) = (m.errcode ≡ e) × (m.maxentries ≡ n)
Args m (show_tables_resp e l) =
    (ps : List StrPtr) × (m.errcode ≡ e)
    × (m.nstrings ≡ length l)
    × (m.stringlist ≡ some ps)
    × AllHold ps l
Args m (describe_table_resp e l) =
    (ps : List StrPtr) × (m.errcode ≡ e)
    × (m.nstrings ≡ length l)
    × (m.stringlist ≡ some ps)
    × AllHold ps l
Args m (delete_caller_resp e) = m.errcode ≡ e
Args m (listen_resp e) = m.errcode ≡ e

-- The message is this one: its command, its subcommand and its arguments.
pub record Says (m : Message) (b : Body) : Type 0 where
  pub cmd : m.cmd ≡ code (command_of b)
  pub subcmd : m.subcmd ≡ subcmd_of b
  pub args : Args m b

-- ===== src/Messages.antt =====
-- The messages of cidbmessages.h: CIDBMessage, CIDBMsg, the commands and the subcommands.
pub mod Write
pub mod Read
pub mod Body
pub mod Emit
pub mod Says
pub mod Fill
pub mod Sizes
pub mod Total
pub mod RoundTrip
use fritz2ci.Prelude.{ℕ, ◌+◌, ◌≡◌, Bool, Option, none, some, List, [], ◌==◌, if◌then◌else◌}
use fritz2ci.Memory.{Bytes, load}
use fritz2ci.Header.{MsgHeader}
use fritz2ci.Strings.{StrPtr}
use fritz2ci.Table.{Table, no_table}

-- The CIDBMSG_CMD_ constants.
pub data Command : Type 0 where
  register caller_list read_caller write_caller write_call call_list : Command
  show_tables describe_table delete_caller list_info listen : Command

unfoldable pub code : Command → ℕ
code register = 0x01
code caller_list = 0x02
code read_caller = 0x03
code write_caller = 0x04
code write_call = 0x05
code call_list = 0x06
code show_tables = 0x07
code describe_table = 0x08
code delete_caller = 0x09
code list_info = 0x0a
code listen = 0x0b

-- The label that a `switch` on a command takes; `none` is `default`.
unfoldable pub switch_on : ℕ → Option Command
switch_on cmd =
    if cmd == 0x01
    then some register
    else if cmd == 0x02
    then some caller_list
    else if cmd == 0x03
    then some read_caller
    else if cmd == 0x04
    then some write_caller
    else if cmd == 0x05
    then some write_call
    else if cmd == 0x06
    then some call_list
    else if cmd == 0x07
    then some show_tables
    else if cmd == 0x08
    then some describe_table
    else if cmd == 0x09
    then some delete_caller
    else if cmd == 0x0a
    then some list_info
    else if cmd == 0x0b
    then some listen
    else none

abbrev pub subcmd_query : ℕ
subcmd_query = 0x80

abbrev pub subcmd_resp : ℕ
subcmd_resp = 0x81

-- CIDBMessage; a NULL string list is `none`.
pub record Message : Type 0 where
  pub cmd : ℕ
  pub subcmd : ℕ
  pub msgid : ℕ
  pub clientid : ℕ
  pub errcode : ℕ
  pub userid : ℕ
  pub flags : ℕ
  pub nstrings : ℕ
  pub stringlist : Option (List StrPtr)
  pub table : Table
  pub index : ℕ
  pub offset : ℕ
  pub count : ℕ
  pub mask : ℕ
  pub maxentries : ℕ

-- `memset(dbmsg, 0, sizeof(CIDBMessage))`
abbrev pub no_message : Message
no_message = record {
  cmd = 0;
  subcmd = 0;
  msgid = 0;
  clientid = 0;
  errcode = 0;
  userid = 0;
  flags = 0;
  nstrings = 0;
  stringlist = none;
  table = no_table;
  index = 0;
  offset = 0;
  count = 0;
  mask = 0;
  maxentries = 0;
}

-- CIDBMsg; a NULL `data` is `none`.
pub record Packet : Type 0 where
  pub header : MsgHeader
  pub content : Option Bytes

-- What can be read through `data`.
abbrev pub region : Option Bytes → Bytes
region none = []
region (some d) = d

-- `dbmsg->stringlist[i]`
unfoldable pub string_at : Option (List StrPtr) → ℕ → Option StrPtr
unfolding load
string_at none i = none
string_at (some l) i = load l i

-- ===== src/Messages/Body.antt =====
-- What the messages say, apart from how they stand in memory: the message formats as
-- cidbmessages.h documents them command by command.
use fritz2ci.Prelude.{ℕ, ◌+◌, ◌<◌, ◌≡◌, Option, none, some, List, [], ◌∷◌, ◌++◌, map, length, All}
use fritz2ci.Memory.{Bytes}
use fritz2ci.Wire.{le16, le32, IsU16, IsU32}
use fritz2ci.Strings.{StrPtr, IsText, Holds, c_string}
use fritz2ci.Strings.RoundTrip.{wire_string}
use fritz2ci.Table.Layout.{AllHold, Texts, wire_strings, wire_table, Fits, table_of}
use fritz2ci.Messages.{
  Command, register, caller_list, read_caller, write_caller, write_call, call_list, show_tables,
  describe_table, delete_caller, list_info, listen, subcmd_query, subcmd_resp, Message, no_message,
}

-- A query or a response of each command, with its arguments.
pub data Body : Type 0 where
  register_query show_tables_query list_info_query : Body
  caller_list_query : (userid : ℕ) → (filter : Bytes) → Body
  read_caller_query : (userid flags : ℕ) → (number : Bytes) → Body
  write_caller_query : (userid flags : ℕ) → Texts → Body
  write_call_query : Texts → Body
  call_list_query : (offset count : ℕ) → Body
  describe_table_query : (name : Bytes) → Body
  delete_caller_query : (userid : ℕ) → (number name : Bytes) → Body
  listen_query : (mask : ℕ) → Body
  register_resp : (errcode clientid : ℕ) → Body
  caller_list_resp read_caller_resp call_list_resp : (errcode : ℕ) → Texts → Body
  write_caller_resp write_call_resp list_info_resp : (errcode number : ℕ) → Body
  show_tables_resp describe_table_resp : (errcode : ℕ) → List Bytes → Body
  delete_caller_resp listen_resp : (errcode : ℕ) → Body

abbrev pub command_of : Body → Command
command_of register_query = register
command_of show_tables_query = show_tables
command_of list_info_query = list_info
command_of (caller_list_query u t) = caller_list
command_of (read_caller_query u f t) = read_caller
command_of (write_caller_query u f x) = write_caller
command_of (write_call_query x) = write_call
command_of (call_list_query o c) = call_list
command_of (describe_table_query t) = describe_table
command_of (delete_caller_query u t n) = delete_caller
command_of (listen_query m) = listen
command_of (register_resp e c) = register
command_of (caller_list_resp e x) = caller_list
command_of (read_caller_resp e x) = read_caller
command_of (call_list_resp e x) = call_list
command_of (write_caller_resp e n) = write_caller
command_of (write_call_resp e n) = write_call
command_of (list_info_resp e n) = list_info
command_of (show_tables_resp e l) = show_tables
command_of (describe_table_resp e l) = describe_table
command_of (delete_caller_resp e) = delete_caller
command_of (listen_resp e) = listen

abbrev pub subcmd_of : Body → ℕ
subcmd_of register_query = subcmd_query
subcmd_of show_tables_query = subcmd_query
subcmd_of list_info_query = subcmd_query
subcmd_of (caller_list_query u t) = subcmd_query
subcmd_of (read_caller_query u f t) = subcmd_query
subcmd_of (write_caller_query u f x) = subcmd_query
subcmd_of (write_call_query x) = subcmd_query
subcmd_of (call_list_query o c) = subcmd_query
subcmd_of (describe_table_query t) = subcmd_query
subcmd_of (delete_caller_query u t n) = subcmd_query
subcmd_of (listen_query m) = subcmd_query
subcmd_of _ = subcmd_resp

abbrev wire_list : ℕ → List Bytes → Bytes
wire_list e l = le16 e ++ (le16 (length l) ++ wire_strings l)

-- The data part of a message.
abbrev pub wire_body : Body → Bytes
wire_body register_query = []
wire_body show_tables_query = []
wire_body list_info_query = []
wire_body (caller_list_query u t) = le16 u ++ wire_string t
wire_body (read_caller_query u f t) = le16 u ++ (le16 f ++ wire_string t)
wire_body (write_caller_query u f x) = le16 u ++ (le16 f ++ wire_table x)
wire_body (write_call_query x) = wire_table x
wire_body (call_list_query o c) = le32 o ++ le16 c
wire_body (describe_table_query t) = wire_string t
wire_body (delete_caller_query u t n) = le16 u ++ (le16 2 ++ wire_strings (t ∷ n ∷ []))
wire_body (listen_query m) = le32 m
wire_body (register_resp e c) = le16 e ++ le16 c
wire_body (caller_list_resp e x) = le16 e ++ wire_table x
wire_body (read_caller_resp e x) = le16 e ++ wire_table x
wire_body (call_list_resp e x) = le16 e ++ wire_table x
wire_body (write_caller_resp e n) = le16 e ++ le32 n
wire_body (write_call_resp e n) = le16 e ++ le32 n
wire_body (list_info_resp e n) = le16 e ++ le32 n
wire_body (show_tables_resp e l) = wire_list e l
wire_body (describe_table_resp e l) = wire_list e l
wire_body (delete_caller_resp e) = le16 e
wire_body (listen_resp e) = le16 e

-- A list of texts that a counter of 16 bits and an offset of 32 bits reach through.
abbrev pub IsList : List Bytes → Type 0
IsList l = IsU16 (length l) × All IsText l × (length (wire_strings l) + 4 < 4294967296)

-- The numbers are in the range of their C types, and the texts and tables fit.
abbrev pub Valid : Body → Type 0
Valid register_query = Unit
Valid show_tables_query = Unit
Valid list_info_query = Unit
Valid (caller_list_query u t) = IsU16 u × IsText t
Valid (read_caller_query u f t) = IsU16 u × IsU16 f × IsText t
Valid (write_caller_query u f x) = IsU16 u × IsU16 f × Fits x
Valid (write_call_query x) = Fits x
Valid (call_list_query o c) = IsU32 o × IsU16 c
Valid (describe_table_query t) = IsText t
Valid (delete_caller_query u t n) = IsU16 u × IsText t × IsText n
Valid (listen_query m) = IsU32 m
Valid (register_resp e c) = IsU16 e × IsU16 c
Valid (caller_list_resp e x) = IsU16 e × Fits x
Valid (read_caller_resp e x) = IsU16 e × Fits x
Valid (call_list_resp e x) = IsU16 e × Fits x
Valid (write_caller_resp e n) = IsU16 e × IsU32 n
Valid (write_call_resp e n) = IsU16 e × IsU32 n
Valid (list_info_resp e n) = IsU16 e × IsU32 n
Valid (show_tables_resp e l) = IsU16 e × IsList l
Valid (describe_table_resp e l) = IsU16 e × IsList l
Valid (delete_caller_resp e) = IsU16 e
Valid (listen_resp e) = IsU16 e

-- The string list that a query with one string is given: NULL, or the first of the list, which may
-- be NULL too, and stands for the empty text in both cases.
abbrev pub FirstHolds : Option (List StrPtr) → Bytes → Type 0
FirstHolds none t = t ≡ []
FirstHolds (some []) t = ⊥
FirstHolds (some (p ∷ ps)) t = Holds p t

-- All the strings of the list.
abbrev pub ListHolds : Option (List StrPtr) → List Bytes → Type 0
ListHolds none ts = ts ≡ []
ListHolds (some ps) ts = AllHold ps ts

-- The list that is read back.
abbrev pub listed : List Bytes → Option (List StrPtr)
listed [] = none
listed (t ∷ ts) = some (map c_string (t ∷ ts))

abbrev pub body_message : ℕ → ℕ → Message
body_message cmd subcmd = record no_message { cmd = cmd; subcmd = subcmd }

-- The message that the reader makes of a body.
abbrev pub read_back : Body → Message → Message
read_back register_query m = m
read_back show_tables_query m = m
read_back list_info_query m = m
read_back (caller_list_query u t) m = record m {
  userid = u;
  nstrings = 1;
  stringlist = some (c_string t ∷ []);
}
read_back (read_caller_query u f t) m = record m {
  userid = u;
  flags = f;
  nstrings = 1;
  stringlist = some (c_string t ∷ []);
}
read_back (write_caller_query u f x) m = record m { userid = u; flags = f; table = table_of x }
read_back (write_call_query x) m = record m { table = table_of x }
read_back (call_list_query o c) m = record m { offset = o; count = c }
read_back (describe_table_query t) m = record m {
  nstrings = 1;
  stringlist = some (c_string t ∷ []);
}
read_back (delete_caller_query u t n) m = record m {
  userid = u;
  nstrings = 2;
  stringlist = some (c_string t ∷ c_string n ∷ []);
}
read_back (listen_query k) m = record m { mask = k }
read_back (register_resp e c) m = record m { errcode = e; clientid = c }
read_back (caller_list_resp e x) m = record m { errcode = e; table = table_of x }
read_back (read_caller_resp e x) m = record m { errcode = e; table = table_of x }
read_back (call_list_resp e x) m = record m { errcode = e; table = table_of x }
read_back (write_caller_resp e n) m = record m { errcode = e; index = n }
read_back (write_call_resp e n) m = record m { errcode = e; index = n }
read_back (list_info_resp e n) m = record m { errcode = e; maxentries = n }
read_back (show_tables_resp e l) m = record m {
  errcode = e;
  nstrings = length l;
  stringlist = listed l;
}
read_back (describe_table_resp e l) m = record m {
  errcode = e;
  nstrings = length l;
  stringlist = listed l;
}
read_back (delete_caller_resp e) m = record m { errcode = e }
read_back (listen_resp e) m = record m { errcode = e }

-- ===== src/Main/Handle.antt =====
-- What is done with a call that the box reports (main.c): handle_fritz_message.
pub mod Queue
pub mod Report
pub mod Examples
use fritz2ci.Prelude.{
  ℕ, Bool, true, false, Option, none, some, List, [], ◌∷◌, ◌++◌, ◌==◌, if◌then◌else◌, ◌>>=◌,
}
use fritz2ci.Text.{Text, strcpy}
use fritz2ci.Server.{ServerMsg, message, update, complete, call}
use fritz2ci.Lookup.Caller.{DataSet}
use fritz2ci.Fritz.Notify.{CallMsg, call_type, ring_type}

-- What the handler calls: the formats of strftime, the area code, the rest of the number and the area
-- that ci_get_area_code writes, the alias that msnl_lookup writes, if it does, and
-- lookup_get_caller_data with its result. `none` is a fault, but for the alias.
pub record Services (Date : Type 0) : Type 0 where
  pub format_time : Date → Text
  pub format_backup : Date → Text
  pub format_date : Date → Text
  pub get_area_code : Text → Option (Text × Text × Text)
  pub lookup_alias : Text → Option Text
  pub get_caller_data : DataSet → Option (DataSet × ℕ)

-- A call of cisrv_broadcast_message.
pub record Event : Type 0 where
  pub type : ServerMsg
  pub set : DataSet
  pub msgid : Option Text

-- The backup file, what the clients were told, the database, and the queue of sets for the database.
pub record Program : Type 0 where
  pub backup : List DataSet
  pub told : List Event
  pub stored : List DataSet
  pub todo : List DataSet

-- `memset(&set, 0, sizeof(CIDataSet))`
abbrev pub no_data : DataSet
no_data = record {
  number = [];
  number_complete = [];
  name = [];
  date = [];
  time = [];
  msn = [];
  alias = [];
  service = [];
  fix = [];
  area = [];
  area_code = [];
}

abbrev pub service_word : Text
service_word = b'T' ∷ b'e' ∷ b'l' ∷ b'e' ∷ b'f' ∷ b'o' ∷ b'n' ∷ b'i' ∷ b'e' ∷ []

abbrev pub fix_word : Text
fix_word = b'F' ∷ b'i' ∷ b'x' ∷ []

-- What is written to an array that it may leave alone.
abbrev pub written : Option Text → Text → Text
written none old = old
written (some t) old = t

-- backup_data_write, where the file can be opened.
abbrev pub backup_data_write : DataSet → Program → Program
backup_data_write d p = record p { backup = p.backup ++ (d ∷ []) }

abbrev pub broadcast : ServerMsg → DataSet → Option Text → Program → Program
broadcast type d msgid p = record p {
  told = p.told ++ (record { type = type; set = d; msgid = msgid } ∷ []);
}

-- The section under the lock of the queue, with the queue and whether dbhandler_add_data succeeds.
unfoldable pub queue_data : List DataSet → Bool → DataSet → Program → Program
queue_data [] true d p = record p { stored = p.stored ++ (d ∷ []) }
queue_data [] false d p = record p { todo = p.todo ++ (d ∷ []) }
queue_data (x ∷ xs) added d p = record p { todo = p.todo ++ (d ∷ []) }

module _ {Date : Type 0} (services : Services Date) where
  open services use {
    format_time, format_backup, format_date, get_area_code, lookup_alias, get_caller_data,
  }

  -- The data of an incoming call; `date` is not yet set.
  unfoldable pub ring_data : CallMsg Date → Option DataSet
  unfolding strcpy
  ring_data m = do
    whole ← strcpy 32 m.calling_number
    msn ← strcpy 16 m.called_number
    (code, number, area) ← get_area_code whole
    name ← strcpy 256 area
    some (record no_data {
      time = format_time m.datetime;
      number_complete = whole;
      msn = msn;
      service = service_word;
      fix = fix_word;
      area_code = code;
      number = number;
      area = area;
      name = name;
      alias = written (lookup_alias msn) [];
    })

  -- From the backup on, with the data, what the lookup made of it, and its result.
  unfoldable pub tell_ring : DataSet → DataSet → DataSet → ℕ → Text → Bool → Program → Program
  unfolding queue_data
  tell_ring d₀ d d' rc msgid added p =
      let p₁ = broadcast message d (some msgid) (backup_data_write d₀ p) in
      let p₂ = queue_data p₁.todo added d' p₁ in
      let p₃ = if rc == 0 then broadcast update d' (some msgid) p₂ else p₂ in
      broadcast complete d' (some msgid) p₃

  unfoldable pub handle_ring : CallMsg Date → Text → Bool → Program → Option Program
  unfolding ring_data tell_ring
  handle_ring m msgid added p = do
    d ← ring_data m
    let d₁ = record d { date = format_date m.datetime }
    (d', rc) ← get_caller_data d₁
    some (tell_ring (record d { date = format_backup m.datetime }) d₁ d' rc msgid added p)

  -- An outgoing call.
  unfoldable pub handle_call : CallMsg Date → Program → Option Program
  unfolding strcpy
  handle_call m p = do
    whole ← strcpy 32 m.called_number
    msn ← strcpy 16 m.calling_number
    some (
        broadcast call
          (record no_data {
            time = format_time m.datetime;
            date = format_date m.datetime;
            number_complete = whole;
            msn = msn;
            alias = written (lookup_alias msn) [];
          })
          none p)

  -- By whether it is an incoming and whether it is an outgoing call; other messages are left alone.
  unfoldable pub dispatch : Bool → Bool → CallMsg Date → Text → Bool → Program → Option Program
  unfolding handle_ring handle_call
  dispatch false false m msgid added p = some p
  dispatch true is_call m msgid added p = handle_ring m msgid added p
  dispatch false true m msgid added p = handle_call m p

  -- handle_fritz_message, with the identifier that generate_msg_id makes, and whether
  -- dbhandler_add_data succeeds, if it is called. A NULL pointer is `none`.
  unfoldable pub handle_fritz_message :
      Option (CallMsg Date) → Text → Bool → Program → Option Program
  unfolding dispatch
  handle_fritz_message none msgid added p = some p
  handle_fritz_message (some m) msgid added p =
      dispatch (m.msgtype == ring_type) (m.msgtype == call_type) m msgid added p

  -- One message after the other.
  unfoldable pub handle_all : List (CallMsg Date × Text × Bool) → Program → Option Program
  unfolding handle_fritz_message
  handle_all [] p = some p
  handle_all ((m, msgid, added) ∷ ms) p = do
    p' ← handle_fritz_message (some m) msgid added p
    handle_all ms p'

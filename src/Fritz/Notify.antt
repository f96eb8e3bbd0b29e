-- ===== src/Fritz/Notify.antt =====
-- The notifications of the call monitor (fritz.c): _fritz_parse_notification. The library functions
-- g_strsplit, atoi, strtoul and strptime are parameters.
pub mod Decode
pub mod Examples
use fritz2ci.Prelude.{
  ℕ, ◌%◌, Bool, true, false, Option, none, some, List, [], ◌∷◌, get_elem?, ◌==◌, if◌then◌else◌,
}
use fritz2ci.Text.{Text, same, strlcpy}

-- The CALLMSGTYPE_ constants.
abbrev pub call_type : ℕ
call_type = 0

abbrev pub ring_type : ℕ
ring_type = 1

abbrev pub connect_type : ℕ
connect_type = 2

abbrev pub disconnect_type : ℕ
disconnect_type = 3

-- CIFritzCallMsg, with the dates of the C library as a parameter.
pub record CallMsg (Date : Type 0) : Type 0 where
  pub msgtype : ℕ
  pub connectionid : ℕ
  pub nst : ℕ
  pub calling_number : Text
  pub called_number : Text
  pub number : Text
  pub duration : ℕ
  pub datetime : Date

-- The words of the notifications.
abbrev pub ring_word : Text
ring_word = b'R' ∷ b'I' ∷ b'N' ∷ b'G' ∷ []

abbrev pub call_word : Text
call_word = b'C' ∷ b'A' ∷ b'L' ∷ b'L' ∷ []

abbrev pub connect_word : Text
connect_word = b'C' ∷ b'O' ∷ b'N' ∷ b'N' ∷ b'E' ∷ b'C' ∷ b'T' ∷ []

abbrev pub disconnect_word : Text
disconnect_word = b'D' ∷ b'I' ∷ b'S' ∷ b'C' ∷ b'O' ∷ b'N' ∷ b'N' ∷ b'E' ∷ b'C' ∷ b'T' ∷ []

-- The chain of comparisons that sets the type; `none` is its `goto out`.
unfoldable pub type_of_word : Text → Option ℕ
type_of_word w =
    if same w ring_word
    then some ring_type
    else if same w call_word
    then some call_type
    else if same w connect_word
    then some connect_type
    else if same w disconnect_word
    then some disconnect_type
    else none

-- The library functions that the parser calls, and the dates of the C library.
pub record Library : Type 1 where
  pub Date : Type 0
  pub no_date : Date
  pub strsplit : Text → List Text
  pub atoi : Text → ℕ
  pub strtoul : Text → ℕ
  pub strptime : Text → Date → Date

module _ (lib : Library) where
  open lib use {Date, no_date, strsplit, atoi, strtoul, strptime}

  -- `memset(cmsg, 0, sizeof(CIFritzCallMsg))`
  abbrev pub no_call : CallMsg Date
  no_call = record {
    msgtype = 0;
    connectionid = 0;
    nst = 0;
    calling_number = [];
    called_number = [];
    number = [];
    duration = 0;
    datetime = no_date;
  }

  -- The cases of the `switch`, each with the fourth field and those that it tests for NULL: the
  -- structure, and the result, which is 3 behind `goto out`.
  unfoldable pub read_ring : Text → Option Text → CallMsg Date → CallMsg Date × ℕ
  unfolding strlcpy
  read_ring f₃ none m = (m, 3)
  read_ring f₃ (some f₄) m =
      (record m { calling_number = strlcpy 32 f₃; called_number = strlcpy 32 f₄ }, 0)

  unfoldable pub read_call : Text → Option Text → Option Text → CallMsg Date → CallMsg Date × ℕ
  unfolding strlcpy
  read_call f₃ none f₅ m = (m, 3)
  read_call f₃ (some f₄) none m = (m, 3)
  read_call f₃ (some f₄) (some f₅) m = (
    record m {
      nst = atoi f₃ % 65536;
      calling_number = strlcpy 32 f₄;
      called_number = strlcpy 32 f₅;
    },
    0,
  )

  unfoldable pub read_connect : Text → Option Text → CallMsg Date → CallMsg Date × ℕ
  unfolding strlcpy
  read_connect f₃ none m = (m, 3)
  read_connect f₃ (some f₄) m =
      (record m { nst = atoi f₃ % 65536; calling_number = strlcpy 32 f₄ }, 0)

  -- The `switch` on the type.
  unfoldable pub read_type : ℕ → Text → List Text → CallMsg Date → CallMsg Date × ℕ
  unfolding read_ring read_call read_connect
  read_type type f₃ fields m =
      if type == ring_type
      then read_ring f₃ (get_elem? fields 4) m
      else if type == call_type
      then read_call f₃ (get_elem? fields 4) (get_elem? fields 5) m
      else if type == connect_type
      then read_connect f₃ (get_elem? fields 4) m
      else if type == disconnect_type
      then (record m { duration = strtoul f₃ }, 0)
      else (m, 0)

  -- From the type on.
  unfoldable pub read_word : Option ℕ → Text → Text → List Text → CallMsg Date → CallMsg Date × ℕ
  unfolding read_type
  read_word none f₂ f₃ fields m = (m, 3)
  read_word (some type) f₂ f₃ fields m =
      read_type type f₃ fields (record m { msgtype = type; connectionid = atoi f₂ % 65536 })

  -- The first four fields, NULL if they are not there.
  unfoldable pub read_fields :
      Option Text → Option Text → Option Text → Option Text → List Text → CallMsg Date × ℕ
  unfolding read_word type_of_word
  read_fields (some f₀) (some f₁) (some f₂) (some f₃) fields =
      read_word (type_of_word f₁) f₂ f₃ fields (record no_call { datetime = strptime f₀ no_date })
  read_fields _ _ _ _ fields = (no_call, 3)

  -- _fritz_parse_notification: what `cmsg` points to behind the call, and the result. A NULL pointer
  -- is `none`.
  unfoldable pub parse_notification :
      Option Text → Option (CallMsg Date) → Option (CallMsg Date) × ℕ
  unfolding read_fields
  parse_notification none cmsg = (cmsg, 1)
  parse_notification (some notify) none = (none, 2)
  parse_notification (some notify) (some old) =
      let fields = strsplit notify in
      let r =
        read_fields (get_elem? fields 0) (get_elem? fields 1) (get_elem? fields 2)
          (get_elem? fields 3) fields in
      (some r.0, r.1)

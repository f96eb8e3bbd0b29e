-- ===== src/Database/Times.antt =====
-- The time of a call (dbhandler.c): parse_datetime. A string is its characters with its NUL and what
-- stands behind; atoi and mktime are parameters.
use fritz2ci.Prelude.{
  leb, ◌-◌, ℕ, suc, ◌+◌, ◌<◌, ◌≡◌, ◌≢◌, refl, true, false, Option, none, some, [], ◌∷◌, ◌++◌,
  length, All, ltb, ◌==◌, if◌then◌else◌, ◌>>=◌, arith,
}
use fritz2ci.Memory.{Bytes}
use fritz2ci.Text.{Text}

-- The loops that copy to `buf`, an array of 64, from the `i`-th character of it on and up to an end,
-- with the NUL behind them: the text in `buf`, and what follows the end in the string.
unfoldable pub copy_until : ℕ → ℕ → Bytes → Option (Text × Bytes)
copy_until stop i [] = none
copy_until stop i (c ∷ s) =
    let rest = copy_until stop (suc i) s in
    if ltb i 64
    then (if c == stop then some ([], s) else (do (t, s') ← rest; some (c ∷ t, s')))
    else none

-- An `int`; `negsuc n` is -(n + 1).
pub data ℤ : Type 0 where
  pos : ℕ → ℤ
  negsuc : ℕ → ℤ

abbrev pub minus : ℤ → ℕ → ℤ
minus (pos a) k = if leb k a then pos (a - k) else negsuc (k - a - 1)
minus (negsuc a) k = negsuc (a + k)

-- `struct tm`, of which `tm_isdst` is always -1.
pub record Tm : Type 0 where
  pub tm_year : ℤ
  pub tm_mon : ℤ
  pub tm_mday : ℤ
  pub tm_hour : ℤ
  pub tm_min : ℤ
  pub tm_sec : ℤ

-- `memset(&t, 0, sizeof(struct tm))`
abbrev pub no_time : Tm
no_time = record {
  tm_year = pos 0;
  tm_mon = pos 0;
  tm_mday = pos 0;
  tm_hour = pos 0;
  tm_min = pos 0;
  tm_sec = pos 0;
}

module _ (atoi : Text → ℤ) where
  unfoldable pub parse_date : Option Bytes → Tm → Option Tm
  unfolding copy_until
  parse_date none t = some t
  parse_date (some date) t = do
    (year, s₁) ← copy_until b'-' 0 date
    (month, s₂) ← copy_until b'-' 0 s₁
    (day, s₃) ← copy_until 0 0 s₂
    some (record t {
      tm_year = minus (atoi year) 1900;
      tm_mon = minus (atoi month) 1;
      tm_mday = atoi day;
    })

  unfoldable pub parse_time : Option Bytes → Tm → Option Tm
  unfolding copy_until
  parse_time none t = some t
  parse_time (some time) t = do
    (hour, s₁) ← copy_until b':' 0 time
    (minute, s₂) ← copy_until b':' 0 s₁
    (second, s₃) ← copy_until 0 0 s₂
    some (record t { tm_hour = atoi hour; tm_min = atoi minute; tm_sec = atoi second })

  -- parse_datetime
  unfoldable pub parse_datetime : (Tm → ℕ) → Option Bytes → Option Bytes → Option ℕ
  unfolding parse_date parse_time
  parse_datetime mktime date time = do
    t ← parse_date date no_time
    t' ← parse_time time t
    some (mktime t')

-- A text without a character, which fits the buffer from a place on.
abbrev pub Part : ℕ → Text → Type 0
Part stop t = (length t < 64) × All (λ c. c ≢ stop) t

copy_until_lem :
    (stop i : ℕ) (t : Text) (s : Bytes)
    → i + length t < 64
    → All (λ c. c ≢ stop) t
    → copy_until stop i (t ++ (stop ∷ s)) ≡ some (t, s)
unfolding copy_until
copy_until_lem stop i [] s h p =
    let e : ltb i 64 ≡ true = ground (arith, h) in
    let k : (stop == stop) ≡ true = ground arith in rw (e, k) refl
copy_until_lem stop i (c ∷ t) s h p =
    let e : ltb i 64 ≡ true = ground (arith, h) in
    let k : (c == stop) ≡ false = ground (arith, p.0) in
    rw (e, k, copy_until_lem stop (suc i) t s (omega arith) p.1) refl

part_lem :
    (stop : ℕ) (t : Text) (s : Bytes)
    → Part stop t
    → copy_until stop 0 (t ++ (stop ∷ s)) ≡ some (t, s)
part_lem stop t s h = copy_until_lem stop 0 t s (omega (arith, h.0)) h.1

-- A date `year-month-day` and a time `hour:minute:second`, each part of at most 63 characters and
-- without the character that ends it, are read with no access outside of the strings and the buffer,
-- and each part is what atoi makes of it, the year less 1900 and the month less 1.
pub parse_datetime-parts :
    (atoi : Text → ℤ) (mktime : Tm → ℕ) (year month day hour minute second : Text) (s s' : Bytes)
    → Part b'-' year
    → Part b'-' month
    → Part 0 day
    → Part b':' hour
    → Part b':' minute
    → Part 0 second
    → parse_datetime atoi mktime
        (some (year ++ (b'-' ∷ (month ++ (b'-' ∷ (day ++ (0 ∷ s)))))))
        (some (hour ++ (b':' ∷ (minute ++ (b':' ∷ (second ++ (0 ∷ s')))))))
      ≡ some (
          mktime (record {
            tm_year = minus (atoi year) 1900;
            tm_mon = minus (atoi month) 1;
            tm_mday = atoi day;
            tm_hour = atoi hour;
            tm_min = atoi minute;
            tm_sec = atoi second;
          }))
unfolding parse_datetime
parse_datetime-parts atoi mktime year month day hour minute second s s' y m d h n c =
    rw
      (
        part_lem b'-' year _ y,
        part_lem b'-' month _ m,
        part_lem 0 day s d,
        part_lem b':' hour _ h,
        part_lem b':' minute _ n,
        part_lem 0 second s' c,
      )
      refl

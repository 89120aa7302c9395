-- ===== src/Secretary/Timers.antt =====
-- internal/secretary/timer.go: the timers of a user, in one JSON file. A time is a number of
-- nanoseconds. Reading and writing the file can fail, and so can crypto/rand: what they give is an
-- argument. The text of a request is matched by a regular expression, whose groups are arguments.
pub mod Duration
pub mod Limit
pub mod Spent
use mathlib.Core.Option
use ia_lab.Prelude.{
  ℕ, zero, suc, ◌+◌, ◌*◌, ◌/◌, String, Bool, true, false, not, ◌&&◌, ◌||◌, Option, none, some, List,
  [], ◌∷◌, ◌++◌, filter, length, str_eq, ltb, leb, ◌==◌, if◌then◌else◌,
}

pub record Timer : Type 0 where
  pub id : String
  pub user_id : ℕ
  pub chat_id : ℕ
  pub created_at : ℕ
  pub due_at : ℕ
  pub delivered : Bool
  pub canceled : Bool

-- What stands in timers.json.
pub data TimerFile : Type 0 where
  missing unreadable malformed : TimerFile
  stored : List Timer → TimerFile

pub data TimerError : Type 0 where
  cannot_read invalid_state cannot_persist cannot_create_id limit_reached no_longer_exists :
      TimerError

pub data Result {ℓ} (A : Type ℓ) : Type ℓ where
  ok : A → Result A
  err : TimerError → Result A

abbrev second : ℕ
second = 1000000000

abbrev minute : ℕ
minute = 60 * second

abbrev hour : ℕ
hour = 60 * minute

abbrev pub one_of : String → List String → Bool
one_of s [] = false
one_of s (t ∷ ts) = str_eq s t || one_of s ts

-- The duration of a lower-case unit.
unit_duration : String → Option ℕ
unit_duration unit =
    if one_of unit ("s" ∷ "seg" ∷ "segundo" ∷ "segundos" ∷ [])
    then some second
    else if one_of unit ("m" ∷ "min" ∷ "minuto" ∷ "minutos" ∷ "'" ∷ "’" ∷ "′" ∷ [])
    then some minute
    else if one_of unit ("h" ∷ "hora" ∷ "horas" ∷ [])
    then some hour
    else none

within_a_day : ℕ → Option ℕ → Option ℕ
within_a_day amount none = none
within_a_day amount (some d) = if ltb (24 * hour / d) amount then none else some (amount * d)

-- parseTimerRequest, from the amount and the unit that the expression matched. (`none` for the
-- amount is one that strconv.Atoi refuses.)
unfoldable pub parse_timer_request : Option ℕ → String → Option ℕ
unfolding unit_duration within_a_day
parse_timer_request none unit = none
parse_timer_request (some amount) unit =
    if ltb amount 1 then none else within_a_day amount (unit_duration unit)

unfoldable pub read_timers : TimerFile → Result (List Timer)
read_timers missing = ok []
read_timers unreadable = err cannot_read
read_timers malformed = err invalid_state
read_timers (stored timers) = ok timers

-- A write that fails leaves the file: atomicJSON renames a temporary one.
unfoldable pub write_timers {ℓ} :
    {A : Type ℓ} → Bool → List Timer → A → TimerFile → TimerFile × Result A
write_timers true timers a file = (stored timers, ok a)
write_timers false timers a file = (file, err cannot_persist)

-- timer.UserID == user && !timer.Canceled && !timer.Delivered
abbrev pub is_active : ℕ → Timer → Bool
is_active user t = t.user_id == user && not t.canceled && not t.delivered

unfoldable pub new_timer : String → ℕ → ℕ → ℕ → Timer
new_timer id user now duration = record {
  id = id;
  user_id = user;
  chat_id = user;
  created_at = now;
  due_at = now + duration;
  delivered = false;
  canceled = false;
}

save_new : Option String → ℕ → ℕ → ℕ → Bool → List Timer → TimerFile → TimerFile × Result Timer
unfolding write_timers new_timer
save_new none user now duration writable timers file = (file, err cannot_create_id)
save_new (some id) user now duration writable timers file =
    let timer = new_timer id user now duration in
    write_timers writable (timers ++ timer ∷ []) timer file

create_from :
    Result (List Timer) → Option String → ℕ → ℕ → ℕ → Bool → TimerFile → TimerFile × Result Timer
unfolding save_new
create_from (err e) id user now duration writable file = (file, err e)
create_from (ok timers) id user now duration writable file =
    if leb 10 (length (filter (is_active user) timers))
    then (file, err limit_reached)
    else save_new id user now duration writable timers file

unfoldable pub create_timer :
    Option String → ℕ → ℕ → ℕ → Bool → TimerFile → TimerFile × Result Timer
unfolding create_from read_timers
create_timer id user now duration writable file =
    create_from (read_timers file) id user now duration writable file

abbrev select : (Timer → Bool) → Result (List Timer) → Result (List Timer)
select p (err e) = err e
select p (ok timers) = ok (filter p timers)

unfoldable pub timers_for_user : ℕ → TimerFile → Result (List Timer)
unfolding read_timers
timers_for_user user file = select (is_active user) (read_timers file)

-- `!timer.DueAt.After(now)`
abbrev pub is_due : ℕ → Timer → Bool
is_due now t = not t.canceled && not t.delivered && not (ltb now t.due_at)

unfoldable pub due_timers : ℕ → TimerFile → Result (List Timer)
unfolding read_timers
due_timers now file = select (is_due now) (read_timers file)

-- The first timer that passes the test is replaced; `none` if none does.
unfoldable pub replace_first : (Timer → Bool) → (Timer → Timer) → List Timer → Option (List Timer)
replace_first p f [] = none
replace_first p f (t ∷ ts) =
    if p t then some (f t ∷ ts) else Option.map (λ us. t ∷ us) (replace_first p f ts)

abbrev pub is_cancelable : ℕ → String → Timer → Bool
is_cancelable user id t = str_eq t.id id && is_active user t

abbrev pub cancel : Timer → Timer
cancel t = record t { canceled = true }

abbrev pub is_deliverable : String → Timer → Bool
is_deliverable id t = str_eq t.id id && not t.canceled

abbrev pub deliver : Timer → Timer
deliver t = record t { delivered = true }

cancel_found : Bool → Option (List Timer) → TimerFile → TimerFile × Result Bool
unfolding write_timers
cancel_found writable none file = (file, ok false)
cancel_found writable (some timers) file = write_timers writable timers true file

cancel_from : Result (List Timer) → ℕ → String → Bool → TimerFile → TimerFile × Result Bool
unfolding cancel_found replace_first
cancel_from (err e) user id writable file = (file, err e)
cancel_from (ok timers) user id writable file =
    cancel_found writable (replace_first (is_cancelable user id) cancel timers) file

unfoldable pub cancel_timer : ℕ → String → Bool → TimerFile → TimerFile × Result Bool
unfolding cancel_from read_timers
cancel_timer user id writable file = cancel_from (read_timers file) user id writable file

deliver_found : Bool → Option (List Timer) → TimerFile → TimerFile × Result (Unit {0})
unfolding write_timers
deliver_found writable none file = (file, err no_longer_exists)
deliver_found writable (some timers) file = write_timers writable timers tt file

deliver_from : Result (List Timer) → String → Bool → TimerFile → TimerFile × Result (Unit {0})
unfolding deliver_found replace_first
deliver_from (err e) id writable file = (file, err e)
deliver_from (ok timers) id writable file =
    deliver_found writable (replace_first (is_deliverable id) deliver timers) file

unfoldable pub mark_timer_delivered : String → Bool → TimerFile → TimerFile × Result (Unit {0})
unfolding deliver_from read_timers
mark_timer_delivered id writable file = deliver_from (read_timers file) id writable file

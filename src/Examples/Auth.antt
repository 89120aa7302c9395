-- ===== src/Examples/Auth.antt =====
-- Requests with and without a key at the guard of the handlers.
use ia_lab.Prelude.{
  ℕ, ◌≡◌, ◌≤◌, inr, refl, true, false, none, some, List, [], ◌∷◌, String, Option, filter, arith,
  All, trim_space, trim_left, trim_right, trim_prefix, before_comma,
}
use ia_lab.Auth.{
  bot, check_scope, Request, BruteForceTracker, ApiKey, ApiKeys, served, refused, source_blocked,
  middleware, is_public_path, is_blocked, get_client_ip, get_api_key_by_hash, record_failure,
  recent, new_brute_force_tracker, reset, operator,
}
use ia_lab.Auth.Laws.{middleware-served, IsAuthorized, check_scope_monotone}
use ia_lab.Auth.Blocking.{Attempt, is_bad, comes_from, run_all, bad_attempts}
use ia_lab.Auth.Blocking.Step.{view}
use ia_lab.Auth.Blocking.Refinement.{view_run, run_all-view_run}
use ia_lab.Auth.Blocking.Cause.{blocked-cause}
use ia_lab.Auth.Blocking.Lockout.{IsIntrusion, lockout}

abbrev no_host : String → Option String
no_host address = none

abbrev plain : String → String
plain token = token

abbrev from_address : String → String → Request
from_address address authorization = record {
  path = "/tasks/";
  method = "GET";
  authorization = authorization;
  forwarded_for = address;
  remote_addr = "10.0.0.1:80";
}

abbrev keys : ApiKeys
keys = record {
  rows =
      record { id = "k1"; key_hash = "secret"; scope = bot; is_active = true; revoked_at = none }
      ∷ [];
  answers = true;
}

-- Two attempts block for ten seconds.
abbrev tracker : BruteForceTracker
tracker = new_brute_force_tracker 2 10 10

check_scope_monotone_example : check_scope operator "POST" "/tasks/" ≡ none
unfolding check_scope
check_scope_monotone_example = check_scope_monotone bot operator "POST" "/tasks/" (omega arith) refl

abbrev known : ApiKey
known = record { id = "k1"; key_hash = "secret"; scope = bot; is_active = true; revoked_at = none }

let_through : middleware plain no_host keys 5 (from_address "10.0.0.7" "Bearer secret") tracker ≡ (
  (middleware plain no_host keys 5 (from_address "10.0.0.7" "Bearer secret") tracker).0,
  served (some known),
)
unfolding middleware is_public_path is_blocked get_client_ip get_api_key_by_hash check_scope reset
    trim_space trim_left trim_right trim_prefix before_comma
let_through = refl

private_path : is_public_path "/tasks/" ≡ false
unfolding is_public_path
private_path = refl

middleware-served_example :
    (key : ApiKey) × ((some known ≡ some key)
      × IsAuthorized plain no_host keys 5 (from_address "10.0.0.7" "Bearer secret") tracker key)
middleware-served_example =
    middleware-served plain no_host keys 5 (from_address "10.0.0.7" "Bearer secret") tracker _
      (some known) let_through private_path

abbrev guess : ℕ → String → Attempt
guess time token = record { time = time; request = from_address "10.0.0.7" token }

abbrev elsewhere : Attempt
elsewhere = record { time = 4; request = from_address "10.0.0.9, 10.0.0.7" "Bearer secret" }

abbrev attempts : List Attempt
attempts = guess 3 "Bearer guess" ∷ elsewhere ∷ guess 5 "" ∷ []

run_all-view_run_example :
    view "10.0.0.7" (run_all plain no_host keys attempts tracker)
    ≡ view_run plain keys
        (filter (comes_from no_host "10.0.0.7") attempts)
        (view "10.0.0.7" tracker)
run_all-view_run_example = run_all-view_run plain no_host keys "10.0.0.7" attempts tracker

is_locked :
    (is_blocked 7 "10.0.0.7"
      (run_all plain no_host keys attempts (new_brute_force_tracker 2 10 10))).1
    ≡ true
unfolding run_all middleware is_public_path is_blocked get_client_ip get_api_key_by_hash check_scope
    reset trim_space trim_left trim_right trim_prefix before_comma record_failure recent
is_locked = refl

blocked-cause_example : 2 ≤ bad_attempts plain no_host keys "10.0.0.7" attempts
blocked-cause_example = blocked-cause plain no_host keys 2 10 10 7 "10.0.0.7" attempts is_locked

intrusions : All (IsIntrusion plain keys 3 tracker.window tracker.block) (
    filter
      (comes_from no_host (get_client_ip no_host (from_address "10.0.0.7" "Bearer secret")))
      attempts)
unfolding is_bad is_public_path get_client_ip get_api_key_by_hash trim_space trim_left trim_right
    trim_prefix before_comma
intrusions = (
  record { later = omega arith; soon = omega arith; within_block = omega arith; kind = inr refl },
  (
    record { later = omega arith; soon = omega arith; within_block = omega arith; kind = inr refl },
    tt,
  ),
)

enough :
    2
    ≤ bad_attempts plain no_host keys
        (get_client_ip no_host (from_address "10.0.0.7" "Bearer secret"))
        attempts
unfolding is_bad is_public_path get_client_ip get_api_key_by_hash trim_space trim_left trim_right
    trim_prefix before_comma
enough = omega arith

lockout_example :
    (middleware plain no_host keys 7
      (from_address "10.0.0.7" "Bearer secret")
      (run_all plain no_host keys attempts tracker)).1
    ≡ refused 403 source_blocked
lockout_example =
    lockout plain no_host keys keys 3 7 (from_address "10.0.0.7" "Bearer secret") attempts tracker
      refl (omega arith) intrusions enough (omega arith) private_path

-- ===== src/Auth/Blocking.antt =====
-- The blocking of a source after failed attempts, over a sequence of requests at their times.
pub mod Step
pub mod Apart
pub mod Refinement
pub mod Cause
pub mod Lockout
use ia_lab.Prelude.{
  ℕ, suc, String, Bool, true, false, not, ◌&&◌, ◌||◌, Option, none, some, List, [], ◌∷◌, filter,
  length, is_empty, str_eq, starts_with, if◌then◌else◌,
}
use ia_lab.Auth.{
  Request, BruteForceTracker, ApiKey, ApiKeys, middleware, is_public_path, get_client_ip,
  get_api_key_by_hash, bearer_token,
}

pub record Attempt : Type 0 where
  pub time : ℕ
  pub request : Request

abbrev pub is_unknown : Option (Option ApiKey) → Bool
is_unknown (some none) = true
is_unknown _ = false

-- A request without a token that the table knows, to a path that asks for one.
unfoldable pub is_bad : (String → String) → ApiKeys → Request → Bool
is_bad hash keys r =
    not (is_public_path r.path)
    && (not (starts_with r.authorization "Bearer ")
        || is_empty (bearer_token r)
        || is_unknown (get_api_key_by_hash (hash (bearer_token r)) keys))

abbrev pub comes_from : (String → Option String) → String → Attempt → Bool
comes_from split_host source a = str_eq source (get_client_ip split_host a.request)

abbrev pub count_bad : (String → String) → ApiKeys → List Attempt → ℕ
count_bad hash keys [] = 0
count_bad hash keys (a ∷ attempts) =
    let rest = count_bad hash keys attempts in if is_bad hash keys a.request then suc rest else rest

-- How many of the attempts of a source are bad ones.
abbrev pub bad_attempts :
    (String → String) → (String → Option String) → ApiKeys → String → List Attempt → ℕ
bad_attempts hash split_host keys source attempts =
    count_bad hash keys (filter (comes_from split_host source) attempts)

-- The tracker after requests, one after the other
unfoldable pub run_all :
    (String → String)
    → (String → Option String)
    → ApiKeys
    → List Attempt
    → BruteForceTracker
    → BruteForceTracker
run_all hash split_host keys [] b = b
run_all hash split_host keys (a ∷ attempts) b =
    run_all hash split_host keys attempts (middleware hash split_host keys a.time a.request b).0

-- ===== src/Auth.antt =====
-- internal/orchestratorgo/httpapi/middleware.go: the guard in front of the handlers. A request carries
-- the headers that the guard reads. `hash` is the hexadecimal SHA-256 sum, `split_host` is what
-- net.SplitHostPort finds, both of Go's library. Times are nanoseconds.
pub mod Laws
pub mod Blocking
use ia_lab.Prelude.{
  ℕ, ◌+◌, ◌*◌, String, Bool, true, false, not, ◌&&◌, ◌||◌, Option, none, some, List, [], ◌∷◌, ◌++◌,
  any, filter, find, length, leb, ltb, is_blank, is_empty, is_some, str_eq, starts_with, trim_space,
  trim_prefix, before_comma, if◌then◌else◌,
}

-- domain.ApiKeyScope; a text of another kind has no methods.
pub data ApiKeyScope : Type 0 where
  admin operator bot readonly : ApiKeyScope
  unrecognized : String → ApiKeyScope

abbrev is_admin : ApiKeyScope → Bool
is_admin admin = true
is_admin _ = false

abbrev is_operator : ApiKeyScope → Bool
is_operator operator = true
is_operator _ = false

pub data AuthError : Type 0 where
  source_blocked missing_token invalid_token key_lookup_failed : AuthError
  admin_required operator_required method_not_allowed : AuthError

abbrev pub has_method : List String → String → Bool
has_method methods m = any (λ n. str_eq n m) methods

abbrev pub scope_allowed_methods : ApiKeyScope → List String
scope_allowed_methods admin = "GET" ∷ "POST" ∷ "PUT" ∷ "PATCH" ∷ "DELETE" ∷ "HEAD" ∷ "OPTIONS" ∷ []
scope_allowed_methods operator =
    "GET" ∷ "POST" ∷ "PUT" ∷ "PATCH" ∷ "DELETE" ∷ "HEAD" ∷ "OPTIONS" ∷ []
scope_allowed_methods bot = "GET" ∷ "POST" ∷ "HEAD" ∷ "OPTIONS" ∷ []
scope_allowed_methods readonly = "GET" ∷ "HEAD" ∷ "OPTIONS" ∷ []
scope_allowed_methods (unrecognized _) = []

abbrev public_paths : List String
public_paths = "/health" ∷ "/ready" ∷ "/metrics" ∷ "/docs" ∷ "/openapi.json" ∷ "/redoc" ∷ []

abbrev admin_only_prefixes : List String
admin_only_prefixes = "/config/" ∷ "/audit" ∷ []

abbrev operator_only_prefixes : List String
operator_only_prefixes = "/bridges" ∷ []

-- The loop over a list of prefixes: whether one of them starts the path.
abbrev pub is_under : String → List String → Bool
is_under path prefixes = any (λ p. starts_with path p) prefixes

abbrev pub is_admin_path : String → Bool
is_admin_path path = is_under path admin_only_prefixes

abbrev pub is_operator_path : String → Bool
is_operator_path path = is_under path operator_only_prefixes

unfoldable pub is_public_path : String → Bool
is_public_path path =
    any (λ p. str_eq p path) public_paths || starts_with path "/docs" || starts_with path "/redoc"

unfoldable pub check_scope : ApiKeyScope → String → String → Option AuthError
check_scope scope method path =
    if is_admin_path path && not (is_admin scope)
    then some admin_required
    else if is_operator_path path && not (is_admin scope) && not (is_operator scope)
    then some operator_required
    else if not (has_method (scope_allowed_methods scope) method)
    then some method_not_allowed
    else none

pub record Request : Type 0 where
  pub path : String
  pub method : String
  pub authorization : String
  pub forwarded_for : String
  pub remote_addr : String

unfoldable pub get_client_ip : (String → Option String) → Request → String
get_client_ip split_host r =
    if not (is_blank r.forwarded_for)
    then trim_space (before_comma r.forwarded_for)
    else elim (split_host r.remote_addr) [ some host ↦ host | none ↦ r.remote_addr ]

-- bruteForceTracker; a map of the source is a function of the source.
pub record BruteForceTracker : Type 0 where
  pub max_attempts : ℕ
  pub window : ℕ
  pub block : ℕ
  pub failures : String → List ℕ
  pub blocked : String → Option ℕ

abbrev seconds : ℕ → ℕ
seconds n = n * 1000000000

abbrev pub new_brute_force_tracker : ℕ → ℕ → ℕ → BruteForceTracker
new_brute_force_tracker max_attempts window_seconds block_seconds = record {
  max_attempts = max_attempts;
  window = seconds window_seconds;
  block = seconds block_seconds;
  failures = λ source. [];
  blocked = λ source. none;
}

-- The map with another value for one source.
abbrev pub assign {ℓ} : {A : Type ℓ} → String → A → (String → A) → String → A
assign source a f other = if str_eq other source then a else f other

abbrev pub unblock_after : ℕ → String → Option ℕ → BruteForceTracker → BruteForceTracker × Bool
unblock_after now source none b = (b, false)
unblock_after now source (some expiry) b =
    if ltb expiry now
    then (
      record b { blocked = assign source none b.blocked; failures = assign source [] b.failures },
      false,
    )
    else (b, true)

-- IsBlocked
unfoldable pub is_blocked : ℕ → String → BruteForceTracker → BruteForceTracker × Bool
is_blocked now source b = unblock_after now source (b.blocked source) b

-- The failures after the cutoff, `now` less the window, and the new one.
unfoldable pub recent : ℕ → ℕ → List ℕ → List ℕ
recent window now times = filter (λ ts. ltb now (ts + window)) times ++ now ∷ []

abbrev pub block_if : Bool → ℕ → String → BruteForceTracker → BruteForceTracker
block_if full now source b =
    if full then record b { blocked = assign source (some (now + b.block)) b.blocked } else b

-- RecordFailure
unfoldable pub record_failure : ℕ → String → BruteForceTracker → BruteForceTracker
unfolding recent
record_failure now source b =
    let current = recent b.window now (b.failures source) in
    block_if (leb b.max_attempts (length current)) now source
      (record b { failures = assign source current b.failures })

-- Reset
unfoldable pub reset : String → BruteForceTracker → BruteForceTracker
reset source b = record b { failures = assign source [] b.failures }

-- A row of api_keys.
pub record ApiKey : Type 0 where
  pub id : String
  pub key_hash : String
  pub scope : ApiKeyScope
  pub is_active : Bool
  pub revoked_at : Option ℕ

-- The table, and whether the database answers.
pub record ApiKeys : Type 0 where
  pub rows : List ApiKey
  pub answers : Bool

abbrev pub is_valid_key : String → ApiKey → Bool
is_valid_key h k = str_eq k.key_hash h && k.is_active && not (is_some k.revoked_at)

-- GetAPIKeyByHash: no result at all, or the row if there is one.
unfoldable pub get_api_key_by_hash : String → ApiKeys → Option (Option ApiKey)
get_api_key_by_hash h keys = if keys.answers then some (find (is_valid_key h) keys.rows) else none

-- The handler runs, for the key if the path is not public, or an error goes back.
pub data Outcome : Type 0 where
  served : Option ApiKey → Outcome
  refused : ℕ → AuthError → Outcome

abbrev pub admit : String → Request → ApiKey → BruteForceTracker → BruteForceTracker × Outcome
admit ip r key b = elim (check_scope key.scope r.method r.path) [
  | some e ↦ (b, refused 403 e)
  | none ↦ (reset ip b, served (some key))
]

abbrev pub judge :
    ℕ → String → Request → Option (Option ApiKey) → BruteForceTracker → BruteForceTracker × Outcome
judge now ip r none b = (b, refused 500 key_lookup_failed)
judge now ip r (some none) b = (record_failure now ip b, refused 401 invalid_token)
judge now ip r (some (some key)) b = admit ip r key b

abbrev pub bearer_token : Request → String
bearer_token r = trim_space (trim_prefix "Bearer " r.authorization)

abbrev pub authenticate :
    (String → String)
    → ApiKeys
    → ℕ
    → String
    → Request
    → BruteForceTracker
    → BruteForceTracker × Outcome
authenticate hash keys now ip r b =
    let raw_token = bearer_token r in
    if not (starts_with r.authorization "Bearer ")
    then (record_failure now ip b, refused 401 missing_token)
    else if is_empty raw_token
    then (record_failure now ip b, refused 401 missing_token)
    else judge now ip r (get_api_key_by_hash (hash raw_token) keys) b

abbrev pub unless_blocked :
    (String → String)
    → ApiKeys
    → ℕ
    → String
    → Request
    → BruteForceTracker × Bool
    → BruteForceTracker × Outcome
unless_blocked hash keys now ip r (b, true) = (b, refused 403 source_blocked)
unless_blocked hash keys now ip r (b, false) = authenticate hash keys now ip r b

-- Middleware, for one request at a time
unfoldable pub middleware :
    (String → String)
    → (String → Option String)
    → ApiKeys
    → ℕ
    → Request
    → BruteForceTracker
    → BruteForceTracker × Outcome
unfolding is_blocked
middleware hash split_host keys now r b =
    let ip = get_client_ip split_host r in
    if is_public_path r.path
    then (b, served none)
    else unless_blocked hash keys now ip r (is_blocked now ip b)

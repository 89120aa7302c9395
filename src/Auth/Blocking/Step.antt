-- ===== src/Auth/Blocking/Step.antt =====
-- What one request does to the record that the tracker keeps of a source.
use ia_lab.Prelude.{
  ℕ, ◌+◌, ltb, is_some, ◌≡◌, inl, inr, refl, ap, ◌∙◌, String, Bool, true, false, not, Option, none,
  some, List, [], Bool-cases, Option-cases, starts_with, is_empty, leb, length, if◌then◌else◌,
  eq_iff,
}
use ia_lab.Auth.{
  Request, BruteForceTracker, ApiKey, ApiKeys, middleware, is_public_path, is_blocked,
  get_client_ip, bearer_token, get_api_key_by_hash, unless_blocked, authenticate, judge, admit,
  reset, record_failure, unblock_after, recent, check_scope,
}
use ia_lab.Auth.Blocking.{is_bad, is_unknown}

-- The record of a source and the limits of the tracker.
pub record View : Type 0 where
  pub max_attempts : ℕ
  pub window : ℕ
  pub block : ℕ
  pub failures : List ℕ
  pub blocked : Option ℕ

abbrev pub view : String → BruteForceTracker → View
view source b = record {
  max_attempts = b.max_attempts;
  window = b.window;
  block = b.block;
  failures = b.failures source;
  blocked = b.blocked source;
}

-- The same operations on the record of one source.
abbrev pub expire : ℕ → Option ℕ → View → View × Bool
expire now none v = (v, false)
expire now (some expiry) v =
    if ltb expiry now then (record v { blocked = none; failures = [] }, false) else (v, true)

abbrev pub fail : ℕ → View → View
fail now v =
    let current = recent v.window now v.failures in
    if leb v.max_attempts (length current)
    then record v { failures = current; blocked = some (now + v.block) }
    else record v { failures = current }

abbrev pub lets_in : Request → Option (Option ApiKey) → Bool
lets_in r (some (some key)) = not (is_some (check_scope key.scope r.method r.path))
lets_in r _ = false

abbrev pub settle : (String → String) → ApiKeys → ℕ → Request → View × Bool → View
settle hash keys now r (v, true) = v
settle hash keys now r (v, false) =
    if is_bad hash keys r
    then fail now v
    else if lets_in r (get_api_key_by_hash (hash (bearer_token r)) keys)
    then record v { failures = [] }
    else v

-- What a request of the source does to its record.
unfoldable pub view_step : (String → String) → ApiKeys → ℕ → Request → View → View
view_step hash keys now r v =
    if is_public_path r.path then v else settle hash keys now r (expire now v.blocked v)

record_failure-view :
    (now : ℕ) (s : String) (b : BruteForceTracker)
    → view s (record_failure now s b) ≡ fail now (view s b)
unfolding record_failure
record_failure-view now s b =
    elim (Bool-cases (leb b.max_attempts (length (recent b.window now (b.failures s))))) [
      | inl full ↦ rw (full, (eq_iff s s).1 refl)
      | inr room ↦ rw (room, (eq_iff s s).1 refl)
    ]

reset-view :
    (s : String) (b : BruteForceTracker) → view s (reset s b) ≡ record (view s b) { failures = [] }
unfolding reset
reset-view s b = rw ((eq_iff s s).1 refl)

admit-view :
    (s : String) (r : Request) (key : ApiKey) (b : BruteForceTracker)
    → view s (admit s r key b).0 ≡ (
        if not (is_some (check_scope key.scope r.method r.path))
        then record (view s b) { failures = [] }
        else view s b)
admit-view s r key b = elim (Option-cases (check_scope key.scope r.method r.path)) [
  | inl e ↦ rw (e, admit) (reset-view s b)
  | inr (x, e) ↦ rw (e, admit)
]

judge-view :
    (now : ℕ) (s : String) (r : Request) (res : Option (Option ApiKey)) (b : BruteForceTracker)
    → view s (judge now s r res b).0 ≡ (
        if is_unknown res
        then fail now (view s b)
        else if lets_in r res
        then record (view s b) { failures = [] }
        else view s b)
judge-view now s r none b = refl
judge-view now s r (some none) b = record_failure-view now s b
judge-view now s r (some (some key)) b = admit-view s r key b

authenticate-view :
    (hash : String → String) (keys : ApiKeys) (now : ℕ) (s : String) (r : Request)
    (b : BruteForceTracker)
    → is_public_path r.path ≡ false
    → view s (authenticate hash keys now s r b).0 ≡ settle hash keys now r (view s b, false)
unfolding is_bad
authenticate-view hash keys now s r b private =
    elim (Bool-cases (starts_with r.authorization "Bearer ")) [
      | inr bare ↦ rw (private, bare) (record_failure-view now s b)
      | inl given ↦ elim (Bool-cases (is_empty (bearer_token r))) [
        | inl empty ↦ rw (private, given, empty) (record_failure-view now s b)
        | inr token ↦
            rw (private, given, token)
              (judge-view now s r (get_api_key_by_hash (hash (bearer_token r)) keys) b)
      ]
    ]

unblock_after-view :
    (now : ℕ) (s : String) (e : Option ℕ) (b : BruteForceTracker)
    → (view s (unblock_after now s e b).0, (unblock_after now s e b).1) ≡ expire now e (view s b)
unblock_after-view now s none b = refl
unblock_after-view now s (some expiry) b = elim (Bool-cases (ltb expiry now)) [
  | inl past ↦ rw (past, (eq_iff s s).1 refl)
  | inr still ↦ rw still
]

unless_blocked-view :
    (hash : String → String) (keys : ApiKeys) (now : ℕ) (s : String) (r : Request)
    (p : BruteForceTracker × Bool)
    → is_public_path r.path ≡ false
    → view s (unless_blocked hash keys now s r p).0 ≡ settle hash keys now r (view s p.0, p.1)
unless_blocked-view hash keys now s r (b, true) private = refl
unless_blocked-view hash keys now s r (b, false) private =
    authenticate-view hash keys now s r b private

pub middleware-view_own :
    (hash : String → String) (split_host : String → Option String) (keys : ApiKeys) (now : ℕ)
    (r : Request) (b : BruteForceTracker)
    → view (get_client_ip split_host r) (middleware hash split_host keys now r b).0
      ≡ view_step hash keys now r (view (get_client_ip split_host r) b)
unfolding middleware is_blocked view_step
middleware-view_own hash split_host keys now r b = elim (Bool-cases (is_public_path r.path)) [
  | inl public ↦ rw public
  | inr private ↦ rw private (
      unless_blocked-view hash keys now (get_client_ip split_host r) r
        (unblock_after now (get_client_ip split_host r) (b.blocked (get_client_ip split_host r)) b)
        private
      ∙ ap (settle hash keys now r) (
          unblock_after-view now (get_client_ip split_host r)
            (b.blocked (get_client_ip split_host r)) b))
]

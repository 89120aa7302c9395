-- ===== src/Auth/Blocking/Apart.antt =====
-- What one request does to the records of the other sources.
use ia_lab.Prelude.{
  ℕ, ltb, ◌≡◌, inl, inr, refl, ◌∙◌, String, Bool, true, false, Option, none, some, Bool-cases,
  Option-cases, str_eq, starts_with, is_empty, leb, length,
}
use ia_lab.Auth.{
  Request, BruteForceTracker, ApiKey, ApiKeys, middleware, is_public_path, is_blocked,
  get_client_ip, bearer_token, get_api_key_by_hash, unless_blocked, authenticate, judge, admit,
  reset, record_failure, unblock_after, recent, check_scope,
}
use ia_lab.Auth.Blocking.Step.{view}

record_failure-other :
    (now : ℕ) (s t : String) (b : BruteForceTracker)
    → str_eq t s ≡ false
    → view t (record_failure now s b) ≡ view t b
unfolding record_failure
record_failure-other now s t b other =
    elim (Bool-cases (leb b.max_attempts (length (recent b.window now (b.failures s))))) [
      | inl full ↦ rw (full, other)
      | inr room ↦ rw (room, other)
    ]

reset-other :
    (s t : String) (b : BruteForceTracker) → str_eq t s ≡ false → view t (reset s b) ≡ view t b
unfolding reset
reset-other s t b other = rw other

admit-other :
    (s t : String) (r : Request) (key : ApiKey) (b : BruteForceTracker)
    → str_eq t s ≡ false
    → view t (admit s r key b).0 ≡ view t b
admit-other s t r key b other = elim (Option-cases (check_scope key.scope r.method r.path)) [
  | inl e ↦ rw (e, admit) (reset-other s t b other)
  | inr (x, e) ↦ rw (e, admit)
]

judge-other :
    (now : ℕ) (s t : String) (r : Request) (res : Option (Option ApiKey)) (b : BruteForceTracker)
    → str_eq t s ≡ false
    → view t (judge now s r res b).0 ≡ view t b
judge-other now s t r none b other = refl
judge-other now s t r (some none) b other = record_failure-other now s t b other
judge-other now s t r (some (some key)) b other = admit-other s t r key b other

authenticate-other :
    (hash : String → String) (keys : ApiKeys) (now : ℕ) (s t : String) (r : Request)
    (b : BruteForceTracker)
    → str_eq t s ≡ false
    → view t (authenticate hash keys now s r b).0 ≡ view t b
authenticate-other hash keys now s t r b other =
    elim (Bool-cases (starts_with r.authorization "Bearer ")) [
      | inr bare ↦ rw bare (record_failure-other now s t b other)
      | inl given ↦ elim (Bool-cases (is_empty (bearer_token r))) [
        | inl empty ↦ rw (given, empty) (record_failure-other now s t b other)
        | inr token ↦
            rw (given, token)
              (judge-other now s t r (get_api_key_by_hash (hash (bearer_token r)) keys) b other)
      ]
    ]

unblock_after-other :
    (now : ℕ) (s t : String) (e : Option ℕ) (b : BruteForceTracker)
    → str_eq t s ≡ false
    → view t (unblock_after now s e b).0 ≡ view t b
unblock_after-other now s t none b other = refl
unblock_after-other now s t (some expiry) b other = elim (Bool-cases (ltb expiry now)) [
  | inl past ↦ rw (past, other)
  | inr still ↦ rw still
]

unless_blocked-other :
    (hash : String → String) (keys : ApiKeys) (now : ℕ) (s t : String) (r : Request)
    (p : BruteForceTracker × Bool)
    → str_eq t s ≡ false
    → view t (unless_blocked hash keys now s r p).0 ≡ view t p.0
unless_blocked-other hash keys now s t r (b, true) other = refl
unless_blocked-other hash keys now s t r (b, false) other =
    authenticate-other hash keys now s t r b other

pub middleware-view_other :
    (hash : String → String) (split_host : String → Option String) (keys : ApiKeys) (now : ℕ)
    (t : String) (r : Request) (b : BruteForceTracker)
    → str_eq t (get_client_ip split_host r) ≡ false
    → view t (middleware hash split_host keys now r b).0 ≡ view t b
unfolding middleware is_blocked
middleware-view_other hash split_host keys now t r b other =
    elim (Bool-cases (is_public_path r.path)) [
      | inl public ↦ rw public
      | inr private ↦ rw private (
          unless_blocked-other hash keys now (get_client_ip split_host r) t r
            (unblock_after now (get_client_ip split_host r) (b.blocked (get_client_ip split_host r))
              b)
            other
          ∙ unblock_after-other now (get_client_ip split_host r) t
              (b.blocked (get_client_ip split_host r)) b other)
    ]

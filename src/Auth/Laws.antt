-- ===== src/Auth/Laws.antt =====
-- Who reaches a handler, and what the scope of a key lets it call.
use ia_lab.Prelude.{
  ℕ, ◌≤◌, ◌≡◌, inl, inr, refl, subst, String, Bool, true, false, Option, none, some, List, [], ◌∷◌,
  find, arith, Bool-cases, some_injective,
}
use ia_lab.Auth.{
  ApiKeyScope, admin, operator, bot, readonly, unrecognized, check_scope, Request,
  BruteForceTracker, ApiKey, ApiKeys, served, middleware, is_public_path, is_blocked, get_client_ip,
  bearer_token, is_valid_key, get_api_key_by_hash, unless_blocked, authenticate, judge, admit,
}

-- How much a scope may do.
abbrev pub rank : ApiKeyScope → ℕ
rank admin = 4
rank operator = 3
rank bot = 2
rank readonly = 1
rank (unrecognized _) = 0

covers_readonly : (m p : String) → check_scope readonly m p ≡ none → check_scope bot m p ≡ none
unfolding check_scope
covers_readonly m p e = ground arith

covers_bot : (m p : String) → check_scope bot m p ≡ none → check_scope operator m p ≡ none
unfolding check_scope
covers_bot m p e = ground arith

covers_operator : (m p : String) → check_scope operator m p ≡ none → check_scope admin m p ≡ none
unfolding check_scope
covers_operator m p e = ground arith

covers_unrecognized :
    (s m p : String) (a : ApiKeyScope)
    → check_scope (unrecognized s) m p ≡ none
    → check_scope a m p ≡ none
unfolding check_scope
covers_unrecognized s m p a e = ground arith

-- What a scope may call, every scope above it may call, where administrators stand above
-- operators, operators above bots and bots above readers.
pub check_scope_monotone :
    (a c : ApiKeyScope) (m p : String)
    → rank a ≤ rank c
    → check_scope a m p ≡ none
    → check_scope c m p ≡ none
check_scope_monotone (unrecognized s) c m p le e = covers_unrecognized s m p c e
check_scope_monotone readonly (unrecognized s) m p le e = ground arith
check_scope_monotone readonly readonly m p le e = e
check_scope_monotone readonly bot m p le e = covers_readonly m p e
check_scope_monotone readonly operator m p le e = covers_bot m p (covers_readonly m p e)
check_scope_monotone readonly admin m p le e =
    covers_operator m p (covers_bot m p (covers_readonly m p e))
check_scope_monotone bot (unrecognized s) m p le e = ground arith
check_scope_monotone bot readonly m p le e = ground arith
check_scope_monotone bot bot m p le e = e
check_scope_monotone bot operator m p le e = covers_bot m p e
check_scope_monotone bot admin m p le e = covers_operator m p (covers_bot m p e)
check_scope_monotone operator (unrecognized s) m p le e = ground arith
check_scope_monotone operator readonly m p le e = ground arith
check_scope_monotone operator bot m p le e = ground arith
check_scope_monotone operator operator m p le e = e
check_scope_monotone operator admin m p le e = covers_operator m p e
check_scope_monotone admin (unrecognized s) m p le e = ground arith
check_scope_monotone admin readonly m p le e = ground arith
check_scope_monotone admin bot m p le e = ground arith
check_scope_monotone admin operator m p le e = ground arith
check_scope_monotone admin admin m p le e = e

-- Why a request was let through to a handler for a key.
pub record IsAuthorized (hash : String → String) (split_host : String → Option String)
    (keys : ApiKeys) (now : ℕ) (r : Request) (b : BruteForceTracker) (key : ApiKey) : Type 0 where
  pub unblocked : (is_blocked now (get_client_ip split_host r) b).1 ≡ false
  pub listed : find (is_valid_key (hash (bearer_token r))) keys.rows ≡ some key
  pub active : key.is_active ≡ true
  pub unrevoked : key.revoked_at ≡ none
  pub in_scope : check_scope key.scope r.method r.path ≡ none

find-true :
    (h : String) (rows : List ApiKey) (key : ApiKey)
    → find (is_valid_key h) rows ≡ some key
    → is_valid_key h key ≡ true
find-true h [] key e = ground arith
find-true h (k ∷ rows) key e = elim (Bool-cases (is_valid_key h k)) [
  | inl valid ↦ subst (λ x. is_valid_key h x ≡ true) (some_injective (rw valid at e)) valid
  | inr other ↦ find-true h rows key (rw other at e)
]

admit-served :
    (ip : String) (r : Request) (found : ApiKey) (b b' : BruteForceTracker) (k : Option ApiKey)
    → admit ip r found b ≡ (b', served k)
    → (k ≡ some found) × (check_scope found.scope r.method r.path ≡ none)
admit-served ip r found b b' k e = ground arith

judge-served :
    (now : ℕ) (ip : String) (r : Request) (res : Option (Option ApiKey)) (b b' : BruteForceTracker)
    (k : Option ApiKey)
    → judge now ip r res b ≡ (b', served k)
    → (key : ApiKey) × ((res ≡ some (some key))
        × (k ≡ some key)
        × (check_scope key.scope r.method r.path ≡ none))
judge-served now ip r none b b' k e = ground arith
judge-served now ip r (some none) b b' k e = ground arith
judge-served now ip r (some (some found)) b b' k e =
    let (same, scoped) = admit-served ip r found b b' k e in (found, (refl, same, scoped))

get_api_key_by_hash-some :
    (h : String) (keys : ApiKeys) (key : ApiKey)
    → get_api_key_by_hash h keys ≡ some (some key)
    → find (is_valid_key h) keys.rows ≡ some key
unfolding get_api_key_by_hash
get_api_key_by_hash-some h keys key e = ground arith

authenticate-served :
    (hash : String → String) (keys : ApiKeys) (now : ℕ) (ip : String) (r : Request)
    (b b' : BruteForceTracker) (k : Option ApiKey)
    → authenticate hash keys now ip r b ≡ (b', served k)
    → judge now ip r (get_api_key_by_hash (hash (bearer_token r)) keys) b ≡ (b', served k)
authenticate-served hash keys now ip r b b' k e = ground arith

unless_blocked-served :
    (hash : String → String) (keys : ApiKeys) (now : ℕ) (ip : String) (r : Request)
    (p : BruteForceTracker × Bool) (b' : BruteForceTracker) (k : Option ApiKey)
    → unless_blocked hash keys now ip r p ≡ (b', served k)
    → (p.1 ≡ false) × (authenticate hash keys now ip r p.0 ≡ (b', served k))
unless_blocked-served hash keys now ip r (b, true) b' k e = ground arith
unless_blocked-served hash keys now ip r (b, false) b' k e = (refl, e)

valid-parts :
    (h : String) (key : ApiKey)
    → is_valid_key h key ≡ true
    → (key.is_active ≡ true) × (key.revoked_at ≡ none)
valid-parts h key e = ground arith

-- A request for a path that is not public and that reaches its handler comes from a source
-- that is not blocked, with a key that is listed under the hash of its token, active, not
-- revoked, and whose scope admits the method and the path.
pub middleware-served :
    (hash : String → String) (split_host : String → Option String) (keys : ApiKeys) (now : ℕ)
    (r : Request) (b b' : BruteForceTracker) (k : Option ApiKey)
    → middleware hash split_host keys now r b ≡ (b', served k)
    → is_public_path r.path ≡ false
    → (key : ApiKey) × ((k ≡ some key) × IsAuthorized hash split_host keys now r b key)
unfolding middleware
middleware-served hash split_host keys now r b b' k e private =
    let (unblocked, e1) =
      unless_blocked-served hash keys now (get_client_ip split_host r) r
        (is_blocked now (get_client_ip split_host r) b) b' k (rw private at e) in
    let e2 = authenticate-served hash keys now (get_client_ip split_host r) r _ b' k e1 in
    let (key, (found, same, scoped)) =
      judge-served now (get_client_ip split_host r) r _ _ b' k e2 in
    let there = get_api_key_by_hash-some (hash (bearer_token r)) keys key found in
    let (active, unrevoked) =
      valid-parts (hash (bearer_token r)) key (find-true _ keys.rows key there) in
    (
      key,
      (
        same,
        record {
          unblocked = unblocked;
          listed = there;
          active = active;
          unrevoked = unrevoked;
          in_scope = scoped;
        },
      ),
    )

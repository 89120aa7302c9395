-- ===== src/Auth/Blocking/Cause.antt =====
-- Why a source is blocked.
use ia_lab.Prelude.{
  ℕ, ◌+◌, ltb, is_some, ◌≡◌, inl, inr, refl, sym, subst, String, Bool, true, false, Option, none,
  some, List, [], ◌∷◌, arith, Bool-cases, leb, length, if◌then◌else◌, filter, ◌≤◌, suc,
  length-append, length-filter-le, leb→le,
}
use ia_lab.Auth.{
  Request, BruteForceTracker, ApiKeys, is_public_path, is_blocked, bearer_token,
  get_api_key_by_hash, unblock_after, recent, new_brute_force_tracker,
}
use ia_lab.Auth.Blocking.{is_bad, Attempt, comes_from, run_all, bad_attempts, count_bad}
use ia_lab.Auth.Blocking.Step.{View, view, view_step, settle, expire, fail, lets_in}
use ia_lab.Auth.Blocking.Refinement.{view_run, run_all-view_run}

-- The record of a source with at most `n` bad attempts behind it, `m` of which block.
record IsBacked (m n : ℕ) (v : View) : Type 0 where
  few : length v.failures ≤ n
  limit : v.max_attempts ≡ m
  cause : is_some v.blocked ≡ true → m ≤ n

length-recent : (w now : ℕ) (times : List ℕ) → length (recent w now times) ≤ suc (length times)
unfolding recent
length-recent w now times =
    let kept = filter (λ ts. ltb now (ts + w)) times in
    omega (arith, length-append kept (now ∷ []), length-filter-le (λ ts. ltb now (ts + w)) times)

expire-IsBacked :
    (m n now : ℕ) (e : Option ℕ) (v : View)
    → v.blocked ≡ e
    → IsBacked m n v
    → IsBacked m n (expire now e v).0
expire-IsBacked m n now none v same h = h
expire-IsBacked m n now (some expiry) v same h = elim (Bool-cases (ltb expiry now)) [
  | inl past ↦ rw past (record { few = omega arith; limit = h.limit; cause = λ e. cc e })
  | inr still ↦ rw still h
]

fail-IsBacked : (m n now : ℕ) (v : View) → IsBacked m n v → IsBacked m (suc n) (fail now v)
fail-IsBacked m n now v h =
    elim (Bool-cases (leb v.max_attempts (length (recent v.window now v.failures)))) [
      | inl full ↦ rw full (record {
        few = omega (arith, length-recent v.window now v.failures, h.few);
        limit = h.limit;
        cause = λ e.
            omega (arith, leb→le _ _ full, length-recent v.window now v.failures, h.few, h.limit);
      })
      | inr room ↦ rw room (record {
        few = omega (arith, length-recent v.window now v.failures, h.few);
        limit = h.limit;
        cause = λ e. omega (arith, h.cause e);
      })
    ]

suc-IsBacked : (m n : ℕ) (v : View) → IsBacked m n v → IsBacked m (suc n) v
suc-IsBacked m n v h = record {
  few = omega (arith, h.few);
  limit = h.limit;
  cause = λ e. omega (arith, h.cause e);
}

clear-IsBacked : (m n : ℕ) (v : View) → IsBacked m n v → IsBacked m n (record v { failures = [] })
clear-IsBacked m n v h = record { few = omega arith; limit = h.limit; cause = h.cause }

settle-IsBacked :
    (hash : String → String) (keys : ApiKeys) (m n now : ℕ) (r : Request) (p : View × Bool)
    → IsBacked m n p.0
    → IsBacked m (if is_bad hash keys r then suc n else n) (settle hash keys now r p)
settle-IsBacked hash keys m n now r (v, true) h = elim (Bool-cases (is_bad hash keys r)) [
  | inl bad ↦ rw bad (suc-IsBacked m n v h)
  | inr good ↦ rw good h
]
settle-IsBacked hash keys m n now r (v, false) h = elim (Bool-cases (is_bad hash keys r)) [
  | inl bad ↦ rw bad (fail-IsBacked m n now v h)
  | inr good ↦ elim (Bool-cases (lets_in r (get_api_key_by_hash (hash (bearer_token r)) keys))) [
    | inl let_in ↦ rw (good, let_in) (clear-IsBacked m n v h)
    | inr out ↦ rw (good, out) h
  ]
]

view_step-IsBacked :
    (hash : String → String) (keys : ApiKeys) (m n now : ℕ) (r : Request) (v : View)
    → IsBacked m n v
    → IsBacked m (if is_bad hash keys r then suc n else n) (view_step hash keys now r v)
unfolding view_step
view_step-IsBacked hash keys m n now r v h = elim (Bool-cases (is_public_path r.path)) [
  | inr private ↦ rw private (
      settle-IsBacked hash keys m n now r (expire now v.blocked v)
        (expire-IsBacked m n now v.blocked v refl h))
  | inl public ↦ elim (Bool-cases (is_bad hash keys r)) [
    | inl bad ↦ rw (public, bad) (suc-IsBacked m n v h)
    | inr good ↦ rw (public, good) h
  ]
]

view_run-IsBacked :
    (hash : String → String) (keys : ApiKeys) (m n : ℕ) (attempts : List Attempt) (v : View)
    → IsBacked m n v
    → IsBacked m (n + count_bad hash keys attempts) (view_run hash keys attempts v)
view_run-IsBacked hash keys m n [] v h = subst (λ k. IsBacked m k v) (omega arith) h
view_run-IsBacked hash keys m n (a ∷ attempts) v h =
    let once = view_step-IsBacked hash keys m n a.time a.request v h in
    let all =
      view_run-IsBacked hash keys m (if is_bad hash keys a.request then suc n else n) attempts _
        once in
    subst (λ k. IsBacked m k (view_run hash keys attempts (view_step hash keys a.time a.request v)))
      (ground arith) all

-- A source that a new tracker holds blocked after any requests has made at least as many bad
-- attempts as block it, so fewer never lock anybody out.
pub blocked-cause :
    (hash : String → String) (split_host : String → Option String) (keys : ApiKeys)
    (m w block now : ℕ) (source : String) (attempts : List Attempt)
    → (is_blocked now source
        (run_all hash split_host keys attempts (new_brute_force_tracker m w block))).1
      ≡ true
    → m ≤ bad_attempts hash split_host keys source attempts
unfolding is_blocked
blocked-cause hash split_host keys m w block now source attempts e =
    let start : View = view source (new_brute_force_tracker m w block) in
    let backed =
      view_run-IsBacked hash keys m 0 (filter (comes_from split_host source) attempts) start
        (record { few = omega arith; limit = refl; cause = λ e. cc e }) in
    let same =
      run_all-view_run hash split_host keys source attempts (new_brute_force_tracker m w block) in
    let h =
      subst (λ v. IsBacked m (0 + bad_attempts hash split_host keys source attempts) v) (sym same)
        backed in
    omega (arith, h.cause (marked _ _ e))
  where
    marked :
        (o : Option ℕ) (b : BruteForceTracker)
        → (unblock_after now source o b).1 ≡ true
        → is_some o ≡ true
    marked none b e = e
    marked (some x) b e = refl

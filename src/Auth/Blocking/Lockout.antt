-- ===== src/Auth/Blocking/Lockout.antt =====
-- How long a source is locked out after its bad attempts.
use ia_lab.Prelude.{
  ℕ, ◌+◌, ltb, ◌≡◌, ◌⊎◌, inl, inr, refl, sym, subst, ◌∙◌, String, true, false, Option, none, some,
  List, [], ◌∷◌, arith, Bool-cases, some_injective, leb, length, if◌then◌else◌, filter, ◌≤◌, ◌<◌,
  suc, ◌++◌, All, length-filter-le,
}
use ia_lab.Auth.{
  Request, BruteForceTracker, ApiKeys, refused, middleware, is_public_path, is_blocked,
  get_client_ip, recent, source_blocked,
}
use ia_lab.Auth.Blocking.{is_bad, Attempt, comes_from, run_all, bad_attempts, count_bad}
use ia_lab.Auth.Blocking.Step.{View, view, view_step, settle, expire, fail}
use ia_lab.Auth.Blocking.Refinement.{view_run, run_all-view_run}

-- An attempt from `from` on, while neither the window nor a block from then on has passed, and which
-- is for a public path or is bad.
pub record IsIntrusion (hash : String → String) (keys : ApiKeys) (from window block : ℕ)
    (a : Attempt) : Type 0 where
  pub later : from ≤ a.time
  pub soon : a.time < from + window
  pub within_block : a.time ≤ from + block
  pub kind : (is_public_path a.request.path ≡ true) ⊎ (is_bad hash keys a.request ≡ true)

-- The failures from `from` on.
abbrev since : ℕ → List ℕ → List ℕ
since from times = filter (λ ts. leb from ts) times

-- Either the source is blocked, for `block` after `from` at least, or `n` failures, too few to block, are kept.
record IsShut (from m n w block : ℕ) (v : View) : Type 0 where
  limit : v.max_attempts ≡ m
  same_window : v.window ≡ w
  same_block : v.block ≡ block
  record_of :
      ((e : ℕ) × ((v.blocked ≡ some e) × (from + block ≤ e)))
      ⊎ ((v.blocked ≡ none) × (n ≤ length (since from v.failures)) × (n < m))

since-append :
    (from : ℕ) (xs ys : List ℕ)
    → length (since from (xs ++ ys)) ≡ length (since from xs) + length (since from ys)
since-append from [] ys = omega arith
since-append from (x ∷ xs) ys = ground (arith, since-append from xs ys)

since-filter :
    (from w now : ℕ) (times : List ℕ)
    → now < from + w
    → length (since from times) ≤ length (since from (filter (λ ts. ltb now (ts + w)) times))
since-filter from w now [] soon = omega arith
since-filter from w now (t ∷ times) soon = ground (arith, since-filter from w now times soon)

since-recent :
    (from w now : ℕ) (times : List ℕ)
    → from ≤ now
    → now < from + w
    → suc (length (since from times)) ≤ length (since from (recent w now times))
unfolding recent
since-recent from w now times later soon =
    let kept = filter (λ ts. ltb now (ts + w)) times in
    let one : length (since from (now ∷ [])) ≡ 1 = ground arith in
    omega (arith, since-append from kept (now ∷ []), since-filter from w now times soon, one)

-- A bad attempt at a source that is not blocked
fail-IsShut :
    (from m n w block now : ℕ) (v : View)
    → from ≤ now
    → now < from + w
    → v.max_attempts ≡ m
    → v.window ≡ w
    → v.block ≡ block
    → v.blocked ≡ none
    → n ≤ length (since from v.failures)
    → IsShut from m (suc n) w block (fail now v)
fail-IsShut from m n w block now v later soon limit window span free kept =
    elim (Bool-cases (leb v.max_attempts (length (recent v.window now v.failures)))) [
      | inl full ↦ rw full (record {
        limit = limit;
        same_window = window;
        same_block = span;
        record_of = inl (now + v.block, (refl, omega (arith, span)));
      })
      | inr room ↦
          let more = since-recent from v.window now v.failures later (omega (arith, window)) in
          let size = length-filter-le (λ ts. leb from ts) (recent v.window now v.failures) in
          let below : length (recent v.window now v.failures) < v.max_attempts = ground arith in
          rw room (record {
            limit = limit;
            same_window = window;
            same_block = span;
            record_of =
                inr
                  (free, omega (arith, more, kept), omega (arith, more, kept, size, below, limit));
          })
    ]

bad-private :
    (hash : String → String) (keys : ApiKeys) (r : Request)
    → is_public_path r.path ≡ true
    → is_bad hash keys r ≡ false
unfolding is_bad
bad-private hash keys r public = rw public

settle_own :
    (hash : String → String) (keys : ApiKeys) (from m n w block now : ℕ) (r : Request) (v : View)
    (e : Option ℕ)
    → v.blocked ≡ e
    → from ≤ now
    → now < from + w
    → now ≤ from + block
    → is_bad hash keys r ≡ true
    → IsShut from m n w block v
    → IsShut from m (suc n) w block (settle hash keys now r (expire now e v))
settle_own hash keys from m n w block now r v none same later soon within bad h = elim h.record_of [
  | inl (x, (there, _)) ↦ cc (same, there)
  | inr (free, kept, _) ↦
      rw bad
        (fail-IsShut from m n w block now v later soon h.limit h.same_window h.same_block free kept)
]
settle_own hash keys from m n w block now r v (some e) same later soon within bad h =
    elim h.record_of [
      | inr (free, kept, _) ↦ cc (same, free)
      | inl (x, (there, long)) ↦
          let e_is_x : e ≡ x = some_injective (sym same ∙ there) in
          let still : ltb e now ≡ false = ground arith in
          rw still (record {
            limit = h.limit;
            same_window = h.same_window;
            same_block = h.same_block;
            record_of = inl (x, (there, long));
          })
    ]

view_step-IsShut :
    (hash : String → String) (keys : ApiKeys) (from m n w block : ℕ) (a : Attempt) (v : View)
    → IsIntrusion hash keys from w block a
    → IsShut from m n w block v
    → IsShut from m
        (if is_bad hash keys a.request then suc n else n)
        w
        block
        (view_step hash keys a.time a.request v)
unfolding view_step
view_step-IsShut hash keys from m n w block a v i h =
    elim (Bool-cases (is_public_path a.request.path)) [
      | inl public ↦ rw (public, bad-private hash keys a.request public) h
      | inr private ↦ elim i.kind [
        | inl public ↦ cc (private, public)
        | inr bad ↦
            rw (private, bad)
              (settle_own hash keys from m n w block a.time a.request v v.blocked refl i.later
                i.soon i.within_block bad h)
      ]
    ]

view_run-IsShut :
    (hash : String → String) (keys : ApiKeys) (from m n w block : ℕ) (attempts : List Attempt)
    (v : View)
    → All (IsIntrusion hash keys from w block) attempts
    → IsShut from m n w block v
    → IsShut from m (n + count_bad hash keys attempts) w block (view_run hash keys attempts v)
view_run-IsShut hash keys from m n w block [] v is h =
    subst (λ k. IsShut from m k w block v) (omega arith) h
view_run-IsShut hash keys from m n w block (a ∷ attempts) v is h =
    let once = view_step-IsShut hash keys from m n w block a v is.0 h in
    let all =
      view_run-IsShut hash keys from m (if is_bad hash keys a.request then suc n else n) w block
        attempts _ is.1 once in
    subst
      (λ k.
        IsShut from m k w block
          (view_run hash keys attempts (view_step hash keys a.time a.request v)))
      (ground arith) all

-- A source that is shut is refused whatever it presents.
middleware-IsShut :
    (hash : String → String) (split_host : String → Option String) (keys : ApiKeys)
    (from m n w block now : ℕ) (r : Request) (b : BruteForceTracker)
    → IsShut from m n w block (view (get_client_ip split_host r) b)
    → m ≤ n
    → now ≤ from + block
    → is_public_path r.path ≡ false
    → (middleware hash split_host keys now r b).1 ≡ refused 403 source_blocked
unfolding middleware is_blocked
middleware-IsShut hash split_host keys from m n w block now r b h enough soon private =
    elim h.record_of [
      | inr (free, kept, few) ↦ ground arith
      | inl (e, (there, long)) ↦
          let still : ltb e now ≡ false = ground arith in rw (private, there, still)
    ]

-- When a source that is not blocked makes as many bad attempts as block it, with other
-- requests in between that are for public paths or come from other sources, all within the
-- window and the block after a time, then until the block after that time has passed every
-- request of the source for a path that is not public is refused, whatever key it carries.
pub lockout :
    (hash : String → String) (split_host : String → Option String) (keys keys' : ApiKeys)
    (from now : ℕ) (r : Request) (attempts : List Attempt) (b : BruteForceTracker)
    → b.blocked (get_client_ip split_host r) ≡ none
    → 1 ≤ b.max_attempts
    → All
        (IsIntrusion hash keys from b.window b.block)
        (filter (comes_from split_host (get_client_ip split_host r)) attempts)
    → b.max_attempts ≤ bad_attempts hash split_host keys (get_client_ip split_host r) attempts
    → now ≤ from + b.block
    → is_public_path r.path ≡ false
    → (middleware hash split_host keys' now r (run_all hash split_host keys attempts b)).1
      ≡ refused 403 source_blocked
lockout hash split_host keys keys' from now r attempts b free some_attempts intrusions enough soon
      private =
    let source = get_client_ip split_host r in
    let shut =
      view_run-IsShut hash keys from b.max_attempts 0 b.window b.block
        (filter (comes_from split_host source) attempts) (view source b) intrusions
        (record {
          limit = refl;
          same_window = refl;
          same_block = refl;
          record_of = inr (free, omega arith, omega (arith, some_attempts));
        }) in
    let all =
      subst
        (IsShut from b.max_attempts (0 + bad_attempts hash split_host keys source attempts) b.window
          b.block)
        (sym (run_all-view_run hash split_host keys source attempts b)) shut in
    middleware-IsShut hash split_host keys' from b.max_attempts
      (0 + bad_attempts hash split_host keys source attempts) b.window b.block now r
      (run_all hash split_host keys attempts b) all (omega (arith, enough)) soon private

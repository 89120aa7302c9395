-- ===== src/Secretary/Timers/Limit.antt =====
-- The active timers of a user under all operations.
use ia_lab.Prelude.{
  some_injective, ℕ, ◌≤◌, ◌≡◌, refl, subst, ==_iff, String, Bool, true, false, Option, none, some,
  List, [], ◌∷◌, ◌++◌, filter, filter-append, length, length-append, arith, leb, ◌==◌, Bool-cases,
  Option-cases, inl, inr,
}
use native.Mathlib.Nat.{le_trans}
use ia_lab.Secretary.Timers.{
  Timer, TimerFile, missing, unreadable, malformed, stored, is_active, is_cancelable,
  is_deliverable, cancel, deliver, replace_first, new_timer, save_new, create_timer, cancel_timer,
  mark_timer_delivered, write_timers,
}

-- How many timers of a user are neither cancelled nor delivered.
abbrev pub active_count : ℕ → TimerFile → ℕ
active_count user (stored timers) = length (filter (is_active user) timers)
active_count user _ = 0

-- Replacing a timer by one that is not active does not raise a user's count.
replace-active_le :
    (user : ℕ) (p : Timer → Bool) (f : Timer → Timer) (ts us : List Timer)
    → ((t : Timer) → is_active user (f t) ≡ false)
    → replace_first p f ts ≡ some us
    → length (filter (is_active user) us) ≤ length (filter (is_active user) ts)
unfolding replace_first
replace-active_le user p f [] us h e = cc
replace-active_le user p f (t ∷ ts) us h e = elim (Bool-cases (p t)) [
  | inl here ↦ ground (arith, some_injective (rw here at e), h t)
  | inr there ↦ elim (Option-cases (replace_first p f ts)) [
    | inl absent ↦ cc (rw (there, absent) at e)
    | inr (vs, found) ↦
        let rest = replace-active_le user p f ts vs h found in
        ground (arith, some_injective (rw (there, found) at e), rest)
  ]
]

-- What the service does to the file, with what the world gives.
pub data Operation : Type 0 where
  create : Option String → ℕ → ℕ → ℕ → Bool → Operation
  withdraw : ℕ → String → Bool → Operation
  hand_over : String → Bool → Operation

unfoldable pub run : Operation → TimerFile → TimerFile
run (create id user now duration writable) file =
    (create_timer id user now duration writable file).0
run (withdraw user id writable) file = (cancel_timer user id writable file).0
run (hand_over id writable) file = (mark_timer_delivered id writable file).0

unfoldable pub run_all : List Operation → TimerFile → TimerFile
run_all [] file = file
run_all (o ∷ os) file = run_all os (run o file)

canceled_inactive : (user : ℕ) (t : Timer) → is_active user (cancel t) ≡ false
canceled_inactive user t = ground arith

delivered_inactive : (user : ℕ) (t : Timer) → is_active user (deliver t) ≡ false
delivered_inactive user t = ground arith

write_limit {ℓ} :
    {A : Type ℓ} (user : ℕ) (writable : Bool) (us : List Timer) (a : A) (file : TimerFile)
    → active_count user file ≤ 10
    → length (filter (is_active user) us) ≤ 10
    → active_count user (write_timers writable us a file).0 ≤ 10
unfolding write_timers
write_limit user true us a file h k = k
write_limit user false us a file h k = h

cancel_limit :
    (user caller : ℕ) (id : String) (writable : Bool) (file : TimerFile)
    → active_count user file ≤ 10
    → active_count user (cancel_timer caller id writable file).0 ≤ 10
unfolding cancel_timer
cancel_limit user caller id writable (stored ts) h =
    elim (Option-cases (replace_first (is_cancelable caller id) cancel ts)) [
      | inl absent ↦ rw absent h
      | inr (us, found) ↦ rw found (
          write_limit user writable us true (stored ts) h (
            le_trans
              (replace-active_le user (is_cancelable caller id) cancel ts us
                (canceled_inactive user) found)
              h))
    ]
cancel_limit user caller id writable _ h = h

deliver_limit :
    (user : ℕ) (id : String) (writable : Bool) (file : TimerFile)
    → active_count user file ≤ 10
    → active_count user (mark_timer_delivered id writable file).0 ≤ 10
unfolding mark_timer_delivered
deliver_limit user id writable (stored ts) h =
    elim (Option-cases (replace_first (is_deliverable id) deliver ts)) [
      | inl absent ↦ rw absent h
      | inr (us, found) ↦ rw found (
          write_limit user writable us tt (stored ts) h (
            le_trans
              (replace-active_le user (is_deliverable id) deliver ts us (delivered_inactive user)
                found)
              h))
    ]
deliver_limit user id writable _ h = h

added_limit :
    (user owner : ℕ) (ts : List Timer) (id : String) (now duration : ℕ)
    → length (filter (is_active user) ts) ≤ 10
    → leb 10 (length (filter (is_active owner) ts)) ≡ false
    → length (filter (is_active user) (ts ++ new_timer id owner now duration ∷ [])) ≤ 10
unfolding new_timer
added_limit user owner ts id now duration h room =
    rw
      (
        filter-append (is_active user) ts (new_timer id owner now duration ∷ []),
        length-append (filter (is_active user) ts) _,
      )
      (elim (Bool-cases (owner == user)) [
        | inl same ↦
            let room' : leb 10 (length (filter (is_active user) ts)) ≡ false =
              subst (λ u. leb 10 (length (filter (is_active u) ts)) ≡ false)
                ((==_iff owner user).0 same) room in
            ground (arith, room')
        | inr other ↦ ground arith
      ])

save_limit :
    (user owner : ℕ) (id : Option String) (now duration : ℕ) (writable : Bool) (ts : List Timer)
    (file : TimerFile)
    → active_count user file ≤ 10
    → length (filter (is_active user) ts) ≤ 10
    → leb 10 (length (filter (is_active owner) ts)) ≡ false
    → active_count user (save_new id owner now duration writable ts file).0 ≤ 10
unfolding save_new
save_limit user owner none now duration writable ts file h k room = h
save_limit user owner (some id) now duration writable ts file h k room =
    write_limit user writable _ (new_timer id owner now duration) file h
      (added_limit user owner ts id now duration k room)

create_limit :
    (user owner : ℕ) (id : Option String) (now duration : ℕ) (writable : Bool) (file : TimerFile)
    → active_count user file ≤ 10
    → active_count user (create_timer id owner now duration writable file).0 ≤ 10
unfolding create_timer
create_limit user owner id now duration writable (stored ts) h =
    elim (Bool-cases (leb 10 (length (filter (is_active owner) ts)))) [
      | inl full ↦ rw full h
      | inr room ↦ rw room (save_limit user owner id now duration writable ts (stored ts) h h room)
    ]
create_limit user owner id now duration writable missing h =
    save_limit user owner id now duration writable [] missing h h refl
create_limit user owner id now duration writable unreadable h = h
create_limit user owner id now duration writable malformed h = h

-- No operation, by whomever and however reading, writing and naming go, gives a user more than ten
-- active timers.
run_limit :
    (o : Operation) (user : ℕ) (file : TimerFile)
    → active_count user file ≤ 10
    → active_count user (run o file) ≤ 10
unfolding run
run_limit (create id owner now duration writable) user file h =
    create_limit user owner id now duration writable file h
run_limit (withdraw caller id writable) user file h = cancel_limit user caller id writable file h
run_limit (hand_over id writable) user file h = deliver_limit user id writable file h

run_from_limit :
    (os : List Operation) (user : ℕ) (file : TimerFile)
    → active_count user file ≤ 10
    → active_count user (run_all os file) ≤ 10
unfolding run_all
run_from_limit [] user file h = h
run_from_limit (o ∷ os) user file h = run_from_limit os user (run o file) (run_limit o user file h)

-- After any creations, cancellations and deliveries of timers, from a missing file and whether
-- or not it can be written, no user has more than ten timers that are neither cancelled nor
-- delivered.
pub run_all_limit : (os : List Operation) (user : ℕ) → active_count user (run_all os missing) ≤ 10
run_all_limit os user = run_from_limit os user missing (omega arith)

-- ===== src/Secretary/Timers/Spent.antt =====
-- Timers after their cancellation or delivery.
use ia_lab.Prelude.{
  some_injective, ℕ, ◌≡◌, refl, String, Bool, true, false, ◌&&◌, some, List, [], ◌∷◌, All, any,
  arith, eq_iff, str_eq, Bool-cases, Option-cases, inl, inr, ◌∙◌, ap,
}
use ia_lab.Secretary.Timers.{
  Timer, TimerFile, stored, Result, ok, is_due, is_cancelable, is_deliverable, cancel, deliver,
  replace_first, cancel_timer, mark_timer_delivered,
}

-- Identifiers are told apart.
abbrev pub IsUnique : List Timer → Type 0
IsUnique [] = Unit
IsUnique (t ∷ ts) = All (λ u. str_eq u.id t.id ≡ false) ts × IsUnique ts

-- A timer with this identifier is due.
abbrev pub is_due_as : String → ℕ → Timer → Bool
is_due_as id now t = str_eq t.id id && is_due now t

others_not_due :
    (id : String) (now : ℕ) (t : Timer) (ts : List Timer)
    → str_eq t.id id ≡ true
    → All (λ u. str_eq u.id t.id ≡ false) ts
    → any (is_due_as id now) ts ≡ false
others_not_due id now t [] e h = refl
others_not_due id now t (u ∷ us) e h =
    ground (
      arith,
      h.0,
      eq_iff t.id id,
      eq_iff u.id id,
      eq_iff u.id t.id,
      others_not_due id now t us e h.1,
    )

-- If a timer further on passes a test on its identifier, this one has another.
found_elsewhere :
    (id : String) (p : Timer → Bool) (f : Timer → Timer) (t : Timer) (ts us : List Timer)
    → ((u : Timer) → p u ≡ true → str_eq u.id id ≡ true)
    → All (λ u. str_eq u.id t.id ≡ false) ts
    → replace_first p f ts ≡ some us
    → str_eq t.id id ≡ false
unfolding replace_first
found_elsewhere id p f t [] us named h e = cc
found_elsewhere id p f t (u ∷ ts) us named h e = elim (Bool-cases (p u)) [
  | inl here ↦ ground (arith, named u here, h.0, eq_iff t.id id, eq_iff u.id id, eq_iff u.id t.id)
  | inr there ↦ elim (Option-cases (replace_first p f ts)) [
    | inl absent ↦ cc (rw (there, absent) at e)
    | inr (vs, found) ↦ found_elsewhere id p f t ts vs named h.1 found
  ]
]

replaced_not_due :
    (id : String) (now : ℕ) (p : Timer → Bool) (f : Timer → Timer) (ts us : List Timer)
    → ((u : Timer) → p u ≡ true → str_eq u.id id ≡ true)
    → ((u : Timer) → is_due now (f u) ≡ false)
    → IsUnique ts
    → replace_first p f ts ≡ some us
    → any (is_due_as id now) us ≡ false
unfolding replace_first
replaced_not_due id now p f [] us named spent unique e = cc
replaced_not_due id now p f (t ∷ ts) us named spent unique e = elim (Bool-cases (p t)) [
  | inl here ↦ ground (
    arith,
    some_injective (rw here at e),
    spent t,
    others_not_due id now t ts (named t here) unique.0,
  )
  | inr there ↦ elim (Option-cases (replace_first p f ts)) [
    | inl absent ↦ cc (rw (there, absent) at e)
    | inr (vs, found) ↦ ground (
      arith,
      some_injective (rw (there, found) at e),
      found_elsewhere id p f t ts vs named unique.0 found,
      replaced_not_due id now p f ts vs named spent unique.1 found,
    )
  ]
]

same_id_cancel :
    (user : ℕ) (id : String) (t : Timer) → is_cancelable user id t ≡ true → str_eq t.id id ≡ true
same_id_cancel user id t h = ground arith

same_id_deliver : (id : String) (t : Timer) → is_deliverable id t ≡ true → str_eq t.id id ≡ true
same_id_deliver id t h = ground arith

canceled_not_due : (now : ℕ) (t : Timer) → is_due now (cancel t) ≡ false
canceled_not_due now t = ground arith

delivered_not_due : (now : ℕ) (t : Timer) → is_due now (deliver t) ≡ false
delivered_not_due now t = ground arith

stored_injective {ℓ} :
    {A : Type ℓ} {us vs : List Timer} {r s : Result A}
    → ◌≡◌ {A = TimerFile × Result A} (stored us, r) (stored vs, s)
    → us ≡ vs
stored_injective e = cc (ap (λ x. x.0) e)

-- If identifiers are unique and the cancellation of a timer succeeded, the timer is not due at
-- any time.
pub cancel_timer_not_due :
    (user : ℕ) (id : String) (now : ℕ) (ts us : List Timer)
    → IsUnique ts
    → cancel_timer user id true (stored ts) ≡ (stored us, ok true)
    → any (is_due_as id now) us ≡ false
unfolding cancel_timer
cancel_timer_not_due user id now ts us unique e =
    elim (Option-cases (replace_first (is_cancelable user id) cancel ts)) [
      | inl absent ↦ cc (rw absent at e)
      | inr (vs, found) ↦
          replaced_not_due id now (is_cancelable user id) cancel ts us (same_id_cancel user id)
            (canceled_not_due now) unique (found ∙ ap some (stored_injective (rw found at e)))
    ]

-- If identifiers are unique and marking a timer as delivered succeeded, the timer is not due
-- at any time.
pub mark_timer_delivered_once :
    (id : String) (now : ℕ) (ts us : List Timer)
    → IsUnique ts
    → mark_timer_delivered id true (stored ts) ≡ (stored us, ok tt)
    → any (is_due_as id now) us ≡ false
unfolding mark_timer_delivered
mark_timer_delivered_once id now ts us unique e =
    elim (Option-cases (replace_first (is_deliverable id) deliver ts)) [
      | inl absent ↦ cc (rw absent at e)
      | inr (vs, found) ↦
          replaced_not_due id now (is_deliverable id) deliver ts us (same_id_deliver id)
            (delivered_not_due now) unique (found ∙ ap some (stored_injective (rw found at e)))
    ]

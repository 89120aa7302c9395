-- ===== src/Secretary/Timers/Duration.antt =====
-- How long a timer may run.
use ia_lab.Prelude.{
  some_injective, ℕ, ◌*◌, ◌≤◌, ◌≡◌, refl, sym, ◌⊎◌, String, Bool, true, false, Option, none, some,
  [], ◌∷◌, arith, ltb, if◌then◌else◌, Bool-cases, inl, inr,
}
use ia_lab.Secretary.Timers.{parse_timer_request, unit_duration, within_a_day, one_of}

IsUnit : ℕ → Type 0
IsUnit d = (d ≡ 1000000000) ⊎ (d ≡ 60000000000) ⊎ (d ≡ 3600000000000)

unit_duration-IsUnit : (unit : String) (d : ℕ) → unit_duration unit ≡ some d → IsUnit d
unfolding unit_duration IsUnit
unit_duration-IsUnit unit d e =
    pick (one_of unit ("s" ∷ "seg" ∷ "segundo" ∷ "segundos" ∷ []))
      (one_of unit ("m" ∷ "min" ∷ "minuto" ∷ "minutos" ∷ "'" ∷ "’" ∷ "′" ∷ []))
      (one_of unit ("h" ∷ "hora" ∷ "horas" ∷ [])) d e
  where
    pick :
        (s m h : Bool) (n : ℕ)
        → (if s
            then some 1000000000
            else if m
            then some 60000000000
            else if h
            then some 3600000000000
            else none)
          ≡ some n
        → IsUnit n
    pick true m h n q = inl (sym (some_injective q))
    pick false true h n q = inr (inl (sym (some_injective q)))
    pick false false true n q = inr (inr (sym (some_injective q)))
    pick false false false n q = cc

within_a_day_bounds :
    (amount u d : ℕ)
    → IsUnit u
    → 1 ≤ amount
    → within_a_day amount (some u) ≡ some d
    → (1000000000 ≤ d) × (d ≤ 24 * 3600 * 1000000000)
unfolding within_a_day IsUnit
within_a_day_bounds amount u d (inl e) h p = seconds amount d h (rw e at p)
  where
    seconds :
        (n m : ℕ)
        → 1 ≤ n
        → (if ltb 86400 n then none else some (n * 1000000000)) ≡ some m
        → (1000000000 ≤ m) × (m ≤ 86400000000000)
    seconds n m k q = ground arith
within_a_day_bounds amount u d (inr (inl e)) h p = minutes amount d h (rw e at p)
  where
    minutes :
        (n m : ℕ)
        → 1 ≤ n
        → (if ltb 1440 n then none else some (n * 60000000000)) ≡ some m
        → (1000000000 ≤ m) × (m ≤ 86400000000000)
    minutes n m k q = ground arith
within_a_day_bounds amount u d (inr (inr e)) h p = hours amount d h (rw e at p)
  where
    hours :
        (n m : ℕ)
        → 1 ≤ n
        → (if ltb 24 n then none else some (n * 3600000000000)) ≡ some m
        → (1000000000 ≤ m) × (m ≤ 86400000000000)
    hours n m k q = ground arith

-- An accepted duration lies between one second and one day.
pub parse_timer_request_bounds :
    (amount : Option ℕ) (unit : String) (d : ℕ)
    → parse_timer_request amount unit ≡ some d
    → (1000000000 ≤ d) × (d ≤ 24 * 3600 * 1000000000)
unfolding parse_timer_request
parse_timer_request_bounds none unit d e = cc
parse_timer_request_bounds (some amount) unit d e = elim (Bool-cases (ltb amount 1)) [
  | inl small ↦ cc (rw small at e)
  | inr positive ↦ parsed (unit_duration unit) refl (rw positive at e)
]
  where
    parsed :
        (o : Option ℕ)
        → unit_duration unit ≡ o
        → within_a_day amount o ≡ some d
        → (1000000000 ≤ d) × (d ≤ 24 * 3600 * 1000000000)
    parsed none _ p = cc
    parsed (some u) q p =
        within_a_day_bounds amount u d (unit_duration-IsUnit unit u q) (ground arith) p

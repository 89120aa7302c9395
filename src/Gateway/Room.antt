-- ===== src/Gateway/Room.antt =====
-- The room that `set` makes: the search for the oldest entry and the two guards.
use ia_lab.Prelude.{
  ℕ, ◌≤◌, ◌<◌, ◌≡◌, refl, String, Bool, true, not, List, [], ◌∷◌, All, All-map, Bool-cases, inl,
  inr, any, arith, eq_refl, str_eq, ltb, length, length-filter-le,
}
use ia_lab.Gateway.{
  ResponseState, Oldest, delete, older_of, find_oldest, nothing_yet, trim_expired, trim_oldest,
}

module _ {M : Type 0} where
  abbrev has : String → List (ResponseState M) → Bool
  has id items = any (λ i. str_eq i.id id) items

  pub length-delete-le :
      (id : String) (items : List (ResponseState M)) → length (delete id items) ≤ length items
  length-delete-le id items = length-filter-le (λ i. not (str_eq i.id id)) items

  length-delete-lt :
      (id : String) (items : List (ResponseState M))
      → has id items ≡ true
      → length (delete id items) < length items
  length-delete-lt id [] h = cc
  length-delete-lt id (i ∷ items) h = elim (Bool-cases (str_eq i.id id)) [
    | inl same ↦ rw same (omega (arith, length-delete-le id items))
    | inr other ↦ rw other (omega (arith, length-delete-lt id items (rw other at h)))
  ]

  abbrev Present : List (ResponseState M) → ResponseState M → Type 0
  Present all i = has i.id all ≡ true

  Present-later :
      (i : ResponseState M) (all : List (ResponseState M)) (j : ResponseState M)
      → Present all j
      → Present (i ∷ all) j
  Present-later i all j h = ground arith

  All-Present : (items : List (ResponseState M)) → All (Present items) items
  All-Present [] = tt
  All-Present (i ∷ items) = (
    rw (eq_refl i.id) refl,
    All-map (Present items) (Present (i ∷ items)) items (Present-later i items) (All-Present items),
  )

  older_of-Present :
      (all : List (ResponseState M)) (i : ResponseState M) (o : Oldest)
      → Present all i
      → has o.oldest_id all ≡ true
      → has (older_of i o).oldest_id all ≡ true
  unfolding older_of
  older_of-Present all i o h k = ground arith

  find_oldest-Present :
      (all items : List (ResponseState M)) (o : Oldest)
      → All (Present all) items
      → has o.oldest_id all ≡ true
      → has (find_oldest items o).oldest_id all ≡ true
  unfolding find_oldest
  find_oldest-Present all [] o h k = k
  find_oldest-Present all (i ∷ items) o h k =
      find_oldest-Present all items (older_of i o) h.1 (older_of-Present all i o h.0 k)

  -- The search ends at an entry of the store, unless it is empty.
  oldest_present :
      (i : ResponseState M) (items : List (ResponseState M))
      → has (find_oldest (i ∷ items) nothing_yet).oldest_id (i ∷ items) ≡ true
  unfolding find_oldest older_of
  oldest_present i items =
      let there = All-Present (i ∷ items) in
      find_oldest-Present (i ∷ items) items (older_of i nothing_yet) there.1 there.0

  pub trim_expired_le :
      (max_entries now : ℕ) (items : List (ResponseState M))
      → length (trim_expired max_entries now items) ≤ length items
  unfolding trim_expired
  trim_expired_le max_entries now items =
      ground (arith, length-filter-le (λ i. not (ltb i.expires_at now)) items)

  pub trim_oldest_lt :
      (max_entries : ℕ) (items : List (ResponseState M))
      → 1 ≤ max_entries
      → length items ≤ max_entries
      → length (trim_oldest max_entries items) < max_entries
  unfolding trim_oldest
  trim_oldest_lt max_entries [] pos h = ground arith
  trim_oldest_lt max_entries (i ∷ items) pos h = ground (
    arith,
    length-delete-lt (find_oldest (i ∷ items) nothing_yet).oldest_id (i ∷ items)
        (oldest_present i items),
  )

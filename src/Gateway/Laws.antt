-- ===== src/Gateway/Laws.antt =====
-- The size of the store of responses, and what `get` finds in it.
use ia_lab.Prelude.{
  ℕ, ◌+◌, ◌≤◌, ◌<◌, ◌≡◌, refl, ap, ◌∙◌, String, false, Option, none, some, List, [], ◌∷◌,
  Bool-cases, inl, inr, arith, eq_refl, eq_iff, str_eq, ltb, leb, length, if◌then◌else◌, sym, ◌==◌,
}
use ia_lab.Gateway.{
  ResponseState, ResponseStore, new_response_store, lookup, delete, get, trim_expired, trim_oldest,
  set,
}
use ia_lab.Gateway.Room.{length-delete-le, trim_expired_le, trim_oldest_lt}

module _ {M : Type 0} where
  -- The store keeps its capacity and does not exceed it.
  pub record IsBounded (capacity : ℕ) (s : ResponseStore M) : Type 0 where
    pub some_room : 1 ≤ capacity
    pub same_capacity : s.max_entries ≡ capacity
    pub bounded : length s.items ≤ capacity

  new-IsBounded :
      (ttl max_entries : ℕ)
      → IsBounded
          (if max_entries == 0 then 256 else max_entries)
          (new_response_store ttl max_entries)
  unfolding new_response_store
  new-IsBounded ttl max_entries = record {
    some_room = ground arith;
    same_capacity = refl;
    bounded = ground arith;
  }

  set-IsBounded :
      (capacity : ℕ) (id : String) (messages : M) (evicted_at stored_at : ℕ) (s : ResponseStore M)
      → IsBounded capacity s
      → IsBounded capacity (set id messages evicted_at stored_at s)
  unfolding set
  set-IsBounded capacity id messages evicted_at stored_at s h =
      let expired = trim_expired s.max_entries evicted_at s.items in
      let room = trim_oldest s.max_entries expired in
      let fewer = trim_expired_le s.max_entries evicted_at s.items in
      let free =
        trim_oldest_lt s.max_entries expired (omega (arith, h.some_room, h.same_capacity))
          (omega (arith, h.bounded, h.same_capacity, fewer)) in
      record {
        some_room = h.some_room;
        same_capacity = h.same_capacity;
        bounded = omega (arith, h.same_capacity, free, length-delete-le id room);
      }

  get-IsBounded :
      (capacity : ℕ) (id : String) (now : ℕ) (s : ResponseStore M)
      → IsBounded capacity s
      → IsBounded capacity (get id now s).0
  unfolding get
  get-IsBounded capacity id now s h = record {
    some_room = h.some_room;
    same_capacity = ground (arith, h.same_capacity);
    bounded = ground (arith, h.bounded, length-delete-le id s.items);
  }

-- What the server does to the store.
pub data Operation (M : Type 0) : Type 0 where
  look_up : String → ℕ → Operation M
  keep : String → M → ℕ → ℕ → Operation M

module _ {M : Type 0} where
  unfoldable pub run : Operation M → ResponseStore M → ResponseStore M
  run (look_up id now) s = (get id now s).0
  run (keep id messages evicted_at stored_at) s = set id messages evicted_at stored_at s

  unfoldable pub run_all : List (Operation M) → ResponseStore M → ResponseStore M
  unfolding run
  run_all [] s = s
  run_all (o ∷ os) s = run_all os (run o s)

  run-IsBounded :
      (capacity : ℕ) (o : Operation M) (s : ResponseStore M)
      → IsBounded capacity s
      → IsBounded capacity (run o s)
  unfolding run
  run-IsBounded capacity (look_up id now) s h = get-IsBounded capacity id now s h
  run-IsBounded capacity (keep id messages evicted_at stored_at) s h =
      set-IsBounded capacity id messages evicted_at stored_at s h

  run_all-IsBounded :
      (capacity : ℕ) (os : List (Operation M)) (s : ResponseStore M)
      → IsBounded capacity s
      → IsBounded capacity (run_all os s)
  unfolding run_all
  run_all-IsBounded capacity [] s h = h
  run_all-IsBounded capacity (o ∷ os) s h =
      run_all-IsBounded capacity os (run o s) (run-IsBounded capacity o s h)

  -- After any stores and look-ups at any times, a new store of responses holds no more entries
  -- than its capacity, which is the given one or 256.
  pub run_all_capacity :
      (os : List (Operation M)) (ttl max_entries : ℕ)
      → length (run_all os (new_response_store ttl max_entries)).items
        ≤ (if max_entries == 0 then 256 else max_entries)
  run_all_capacity os ttl max_entries =
      (run_all-IsBounded _ os (new_response_store ttl max_entries)
        (new-IsBounded ttl max_entries)).bounded

  -- A response that was stored is found until its time to live has passed, and not after it.
  pub get-set_self :
      (id : String) (messages : M) (evicted_at stored_at now : ℕ) (s : ResponseStore M)
      → (get id now (set id messages evicted_at stored_at s)).1
        ≡ (if ltb (stored_at + s.ttl) now then none else some messages)
  unfolding get set
  get-set_self id messages evicted_at stored_at now s = rw (eq_refl id) (ground arith)

  lookup-delete_ne :
      (id k : String) (items : List (ResponseState M))
      → str_eq id k ≡ false
      → lookup k (delete id items) ≡ lookup k items
  lookup-delete_ne id k [] h = refl
  lookup-delete_ne id k (i ∷ items) h = elim (Bool-cases (str_eq i.id id)) [
    | inl same ↦
        let elsewhere : str_eq i.id k ≡ false =
          ap (λ x. str_eq x k) ((eq_iff i.id id).0 same) ∙ h in
        rw (same, elsewhere) (lookup-delete_ne id k items h)
    | inr other ↦
        rw other (ap (λ o. if str_eq i.id k then some i else o) (lookup-delete_ne id k items h))
  ]

  answer : ℕ → Option (ResponseState M) → Option M
  answer now none = none
  answer now (some i) = if ltb i.expires_at now then none else some i.messages

  get-eq_answer :
      (k : String) (now : ℕ) (s : ResponseStore M) → (get k now s).1 ≡ answer now (lookup k s.items)
  unfolding get answer
  get-eq_answer k now s = ground arith

  roomy_unchanged :
      (max_entries now : ℕ) (items : List (ResponseState M))
      → length items < max_entries
      → trim_oldest max_entries (trim_expired max_entries now items) ≡ items
  unfolding trim_expired trim_oldest
  roomy_unchanged max_entries now items free =
      let roomy : leb max_entries (length items) ≡ false = ground arith in rw roomy (rw roomy refl)

  -- While the store has room, storing a response does not change what is found under another
  -- identifier.
  pub get-set_other :
      (id k : String) (messages : M) (evicted_at stored_at now : ℕ) (s : ResponseStore M)
      → str_eq id k ≡ false
      → length s.items < s.max_entries
      → (get k now (set id messages evicted_at stored_at s)).1 ≡ (get k now s).1
  unfolding set
  get-set_other id k messages evicted_at stored_at now s other free =
      get-eq_answer k now _
      ∙ ap (answer now) (
          rw (other, roomy_unchanged s.max_entries evicted_at s.items free)
            (lookup-delete_ne id k s.items other))
      ∙ sym (get-eq_answer k now s)

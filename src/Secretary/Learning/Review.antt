-- ===== src/Secretary/Learning/Review.antt =====
-- A review and the listings and reviews after it.
use ia_lab.Prelude.{
  ℕ, ◌≡◌, ◌≢◌, refl, sym, ap, ◌∙◌, subst, String, Bool, true, false, Option, none, some, List, [],
  ◌∷◌, All, All-filter, All-filter_of_All, All-zip, All-map, All-stable_sort, any, find, filter,
  arith, eq_iff, str_eq, ◌==◌, Bool-cases, inl, inr, some_injective, ==_iff, stable_sort,
}
use ia_lab.Secretary.Learning.{
  KnowledgeStatus, candidate, approved, rejected, KnowledgeItem, Knowledge, LearningError, day_of,
  append_record, append_knowledge, all_records, gather, has_status, status_eq, earlier,
  list_knowledge, review_knowledge, completed_item,
}
use ia_lab.Secretary.Learning.Laws.{Tracks, gather-Tracks, Ascends, IsDated, newest-append_record}
use ia_lab.Secretary.Learning.Inversion.{
  with_record, appended, saved, gather-All, all_records-Dated, find-All, any-false,
  action_status-decides, listed, reviewed, Dated, IsReviewed,
}

-- The item that was found is one of the records.
found-Dated :
    (date : String → ℕ) (operator : ℕ) (id : String) (readable : Bool) (k : Knowledge)
    (items : List KnowledgeItem) (item : KnowledgeItem)
    → IsDated date (k operator)
    → list_knowledge operator (some candidate) readable k ≡ some items
    → find (λ i. str_eq i.id id) items ≡ some item
    → Dated date item × (str_eq item.id id ≡ true)
found-Dated date operator id readable k items item dated listing found =
    let all_dated = All-stable_sort earlier (Dated date) _ (
      All-filter_of_All (Dated date) (has_status (some candidate)) _ (
        gather-All (Dated date) operator (all_records (k operator)) []
          (all_records-Dated date (k operator) dated) tt)) in
    find-All (Dated date) (λ i. str_eq i.id id) items item
      (subst (All (Dated date)) (sym (listed operator (some candidate) readable k items listing))
        all_dated)
      found

-- The files of the operator after a record was saved under its day.
files-with_record :
    (date : String → ℕ) (full : KnowledgeItem) (k : Knowledge)
    → day_of full.created_at ≡ date full.id
    → with_record full k full.operator_id ≡ append_record (date full.id) full (k full.operator_id)
unfolding with_record
files-with_record date full k h =
    rw ((==_iff full.operator_id full.operator_id).1 refl)
      (ap (λ d. append_record d full (k full.operator_id)) h)

tracked :
    (date : String → ℕ) (full : KnowledgeItem) (writable : Bool) (k k' : Knowledge)
    → day_of full.created_at ≡ date full.id
    → Ascends (k full.operator_id)
    → IsDated date (k full.operator_id)
    → append_knowledge full.operator_id full.created_at full writable k ≡ (k', none)
    → Tracks full.id (some full) (gather full.operator_id (all_records (k' full.operator_id)) [])
tracked date full writable k k' day asc dated e =
    let files : k' full.operator_id ≡ append_record (date full.id) full (k full.operator_id) =
      sym (ap (λ f. f full.operator_id) (appended full writable k k' e))
      ∙ files-with_record date full k day in
    subst (λ fs. Tracks full.id (some full) (gather full.operator_id (all_records fs) []))
      (sym files)
      (subst
        (λ o. Tracks full.id o (
          gather full.operator_id
            (all_records (append_record (date full.id) full (k full.operator_id))) []))
        (newest-append_record date full (k full.operator_id) none asc dated)
        (gather-Tracks full.operator_id full.id
          (all_records (append_record (date full.id) full (k full.operator_id))) none [] tt))

contradiction : {b : Bool} → b ≡ false → b ≡ true → ⊥
contradiction h l = ground arith

created_at_kept :
    (item : KnowledgeItem) (now : ℕ)
    → (item.created_at == 0) ≡ false
    → (completed_item now item).created_at ≡ item.created_at
created_at_kept item now h = rw h refl

decided_item :
    (s : KnowledgeStatus) (item : KnowledgeItem)
    → status_eq s candidate ≡ false
    → has_status (some candidate) (record item { status = some s }) ≡ false
decided_item candidate item h = cc
decided_item approved item h = refl
decided_item rejected item h = refl

-- Where the newest record of an identifier is decided, no candidate has it.
not_candidate :
    (full : KnowledgeItem) (m : List KnowledgeItem)
    → has_status (some candidate) full ≡ false
    → Tracks full.id (some full) m
    → any (λ i. str_eq i.id full.id) (stable_sort earlier (filter (has_status (some candidate)) m))
      ≡ false
not_candidate full m decided tracks =
    any-false (λ i. str_eq i.id full.id) _
      (All-stable_sort earlier (λ i. str_eq i.id full.id ≡ false) _
        (All-map
          (λ i.
            (has_status (some candidate) i ≡ true)
            × (str_eq i.id full.id ≡ true → some full ≡ some i))
          (λ i. str_eq i.id full.id ≡ false) _ (λ i h. differs i h.0 h.1)
          (All-zip _ _ _ (All-filter (has_status (some candidate)) m) (
            All-filter_of_All (λ i. str_eq i.id full.id ≡ true → some full ≡ some i)
              (has_status (some candidate)) m tracks))))
  where
    differs :
        (i : KnowledgeItem)
        → has_status (some candidate) i ≡ true
        → (str_eq i.id full.id ≡ true → some full ≡ some i)
        → str_eq i.id full.id ≡ false
    differs i open_still same = elim (Bool-cases (str_eq i.id full.id)) [
      | inl equal ↦ absurd (
          contradiction
            (subst (λ x. has_status (some candidate) x ≡ false) (some_injective (same equal))
              decided)
            open_still)
      | inr other ↦ other
    ]

-- With the files of the operator in the order of their days and the records of an identifier
-- in the file of one day: after a review that returned no error, the item is no candidate in
-- any listing that can be read.
pub review_knowledge_settles :
    (date : String → ℕ) (operator : ℕ) (action id : String) (now : ℕ)
    (readable writable later_readable : Bool) (k k' : Knowledge) (items : List KnowledgeItem)
    → Ascends (k operator)
    → IsDated date (k operator)
    → review_knowledge operator action id now readable writable k ≡ (k', none)
    → list_knowledge operator (some candidate) later_readable k' ≡ some items
    → any (λ i. str_eq i.id id) items ≡ false
review_knowledge_settles date operator action id now readable writable later_readable k k' items asc
      dated e listing =
    settled (reviewed operator action id now readable writable k k' e)
  where
    settled :
        IsReviewed operator action id now readable writable k k'
        → any (λ i. str_eq i.id id) items ≡ false
    settled r =
        let mine : r.item.operator_id ≡ operator = (==_iff r.item.operator_id operator).0 r.mine in
        let ((known, day), same) =
          found-Dated date operator id readable k r.items r.item dated r.candidates r.found in
        let full =
          completed_item now (record r.item { status = some r.status; updated_at = now }) in
        let tracks =
          tracked date full writable k k'
            (ap day_of (
                created_at_kept (record r.item { status = some r.status; updated_at = now }) now
                  known)
              ∙ day)
            (subst (λ o. Ascends (k o)) (sym mine) asc)
            (subst (λ o. IsDated date (k o)) (sym mine) dated)
            (saved (record r.item { status = some r.status; updated_at = now }) now writable k k'
              r.written) in
        let none_left =
          not_candidate full _
            (decided_item r.status full (action_status-decides action r.status r.decided))
            (subst (λ o. Tracks full.id (some full) (gather o (all_records (k' o)) [])) mine
              tracks) in
        subst (λ xs. any (λ i. str_eq i.id id) xs ≡ false)
          (sym (listed operator (some candidate) later_readable k' items listing))
          (subst
            (λ x.
              any (λ i. str_eq i.id x)
                (stable_sort earlier (
                  filter (has_status (some candidate))
                    (gather operator (all_records (k' operator)) [])))
              ≡ false)
            ((eq_iff r.item.id id).0 same) none_left)

any_found :
    (p : KnowledgeItem → Bool) (xs : List KnowledgeItem) (x : KnowledgeItem)
    → find p xs ≡ some x
    → any p xs ≡ true
any_found p [] x e = cc
any_found p (y ∷ ys) x e = elim (Bool-cases (p y)) [
  | inl here ↦ rw here refl
  | inr there ↦ rw there (any_found p ys x (rw there at e))
]

-- With the files of the operator in the order of their days and the records of an identifier
-- in the file of one day: after a review that returned no error, every other review of the
-- same item by the operator returns one.
pub review_knowledge_once :
    (date : String → ℕ) (operator : ℕ) (action again id : String) (now later : ℕ) (k k' : Knowledge)
    (readable writable later_readable later_writable : Bool)
    → Ascends (k operator)
    → IsDated date (k operator)
    → review_knowledge operator action id now readable writable k ≡ (k', none)
    → (review_knowledge operator again id later later_readable later_writable k').1 ≢ none
review_knowledge_once date operator action again id now later k k' readable writable later_readable
      later_writable asc dated e h =
    refute (
      reviewed operator again id later later_readable later_writable k' _
        (ap (λ x. (second.0, x)) h))
  where
    second : Knowledge × Option LearningError
    second = review_knowledge operator again id later later_readable later_writable k'

    refute :
        {k'' : Knowledge}
        → IsReviewed operator again id later later_readable later_writable k' k''
        → ⊥
    refute r =
        contradiction
          (review_knowledge_settles date operator action id now readable writable later_readable k
            k' r.items asc dated e r.candidates)
          (any_found (λ i. str_eq i.id id) r.items r.item r.found)

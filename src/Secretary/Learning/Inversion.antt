-- ===== src/Secretary/Learning/Inversion.antt =====
-- What an operation of the store that returned no error has found and written, by inversion.
use ia_lab.Prelude.{
  ℕ, ◌≡◌, refl, sym, ap, ◌∙◌, subst, String, Bool, true, false, not, Option, none, some, List, [],
  ◌∷◌, All, All-append, All-filter_of_All, All-map, any, find, filter, arith, str_eq, ◌==◌,
  if◌then◌else◌, Bool-cases, Option-cases, inl, inr, some_injective, stable_sort,
}
use ia_lab.Secretary.Learning.{
  KnowledgeStatus, candidate, KnowledgeItem, DayFile, Knowledge, LearningError, day_of,
  append_record, append_knowledge, save_knowledge, all_records, put_latest, gather, has_status,
  status_eq, earlier, list_knowledge, action_status, review_knowledge, completed_item,
  or_cannot_review,
}
use ia_lab.Secretary.Learning.Laws.{IsOf, IsDated}

-- The directories after a record was appended for its operator.
unfoldable pub with_record : KnowledgeItem → Knowledge → Knowledge
with_record full k =
    λ o. if o == full.operator_id then append_record (day_of full.created_at) full (k o) else k o

pub appended :
    (full : KnowledgeItem) (writable : Bool) (k k' : Knowledge)
    → append_knowledge full.operator_id full.created_at full writable k ≡ (k', none)
    → with_record full k ≡ k'
unfolding append_knowledge with_record
appended full writable k k' e = ground arith

-- What a save without an error has done.
pub saved :
    (item : KnowledgeItem) (now : ℕ) (writable : Bool) (k k' : Knowledge)
    → save_knowledge item none now writable k ≡ (k', none)
    → append_knowledge item.operator_id
        (completed_item now item).created_at
        (completed_item now item)
        writable
        k
      ≡ (k', none)
unfolding save_knowledge
saved item now writable k k' e = ground arith

pub gather-All :
    (P : KnowledgeItem → Type 0) (operator : ℕ) (items m : List KnowledgeItem)
    → All P items
    → All P m
    → All P (gather operator items m)
unfolding gather
gather-All P operator [] m h k = k
gather-All P operator (i ∷ items) m h k =
    gather-All P operator items _ h.1 (step (i.operator_id == operator))
  where
    step : (b : Bool) → All P (if b then put_latest i m else m)
    step true = (h.0, All-filter_of_All P (λ j. not (str_eq j.id i.id)) m k)
    step false = k

-- A record whose day is that of its identifier.
abbrev pub Dated : (String → ℕ) → KnowledgeItem → Type 0
Dated date i = ((i.created_at == 0) ≡ false) × (day_of i.created_at ≡ date i.id)

pub all_records-Dated :
    (date : String → ℕ) (files : List DayFile)
    → IsDated date files
    → All (Dated date) (all_records files)
all_records-Dated date [] h = tt
all_records-Dated date (f ∷ files) h =
    All-append (Dated date) f.records (all_records files)
      (All-map (IsOf date f.day) (Dated date) f.records (λ i d. (d.0, d.1.0 ∙ sym d.1.1)) h.0)
      (all_records-Dated date files h.1)

pub find-All :
    (P : KnowledgeItem → Type 0) (p : KnowledgeItem → Bool) (xs : List KnowledgeItem)
    (x : KnowledgeItem)
    → All P xs
    → find p xs ≡ some x
    → P x × (p x ≡ true)
find-All P p [] x h e = cc
find-All P p (y ∷ ys) x h e = elim (Bool-cases (p y)) [
  | inl here ↦
      let same : y ≡ x = some_injective (rw here at e) in
      (subst P same h.0, subst (λ z. p z ≡ true) same here)
  | inr there ↦ find-All P p ys x h.1 (rw there at e)
]

pub any-false :
    (p : KnowledgeItem → Bool) (xs : List KnowledgeItem)
    → All (λ i. p i ≡ false) xs
    → any p xs ≡ false
any-false p [] h = refl
any-false p (x ∷ xs) h = rw h.0 (any-false p xs h.1)

pub action_status-decides :
    (action : String) (s : KnowledgeStatus)
    → action_status action ≡ some s
    → status_eq s candidate ≡ false
unfolding action_status
action_status-decides action s e = ground arith

pub listed :
    (operator : ℕ) (o : Option KnowledgeStatus) (readable : Bool) (k : Knowledge)
    (items : List KnowledgeItem)
    → list_knowledge operator o readable k ≡ some items
    → items
      ≡ stable_sort earlier (filter (has_status o) (gather operator (all_records (k operator)) []))
unfolding list_knowledge
listed operator o readable k items e = ground arith

-- What a review without an error has found and saved.
pub record IsReviewed (operator : ℕ) (action id : String) (now : ℕ) (readable writable : Bool)
    (k k' : Knowledge) : Type 0 where
  pub status : KnowledgeStatus
  pub items : List KnowledgeItem
  pub item : KnowledgeItem
  pub decided : action_status action ≡ some status
  pub candidates : list_knowledge operator (some candidate) readable k ≡ some items
  pub found : find (λ i. str_eq i.id id) items ≡ some item
  pub mine : (item.operator_id == operator) ≡ true
  pub written :
      save_knowledge (record item { status = some status; updated_at = now }) none now writable k
      ≡ (k', none)

uncovered :
    (r : Knowledge × Option LearningError) (k' : Knowledge)
    → or_cannot_review r ≡ (k', none)
    → r ≡ (k', none)
uncovered (k, none) k' h = h
uncovered (k, some e) k' h = cc (ap (λ x. x.1) h)

pub reviewed :
    (operator : ℕ) (action id : String) (now : ℕ) (readable writable : Bool) (k k' : Knowledge)
    → review_knowledge operator action id now readable writable k ≡ (k', none)
    → IsReviewed operator action id now readable writable k k'
unfolding review_knowledge
reviewed operator action id now readable writable k k' e =
    elim (Option-cases (action_status action)) [
      | inl unknown ↦ absurd (unknown_error unknown)
      | inr (s, decided) ↦
          elim (Option-cases (list_knowledge operator (some candidate) readable k)) [
            | inl unread ↦ absurd (unread_error s decided unread)
            | inr (items, listing) ↦ elim (Option-cases (find (λ i. str_eq i.id id) items)) [
              | inl missing ↦ absurd (missing_error s items decided listing missing)
              | inr (item, found) ↦
                  let (mine, save) = last_guard s items item decided listing found in
                  record {
                    status = s;
                    items = items;
                    item = item;
                    decided = decided;
                    candidates = listing;
                    found = found;
                    mine = mine;
                    written = uncovered _ k' save;
                  }
            ]
          ]
    ]
  where
    unknown_error : action_status action ≡ none → ⊥
    unknown_error h = ground arith

    unread_error :
        (s : KnowledgeStatus)
        → action_status action ≡ some s
        → list_knowledge operator (some candidate) readable k ≡ none
        → ⊥
    unread_error s h l = ground arith

    missing_error :
        (s : KnowledgeStatus) (items : List KnowledgeItem)
        → action_status action ≡ some s
        → list_knowledge operator (some candidate) readable k ≡ some items
        → find (λ i. str_eq i.id id) items ≡ none
        → ⊥
    missing_error s items h l f = ground arith

    last_guard :
        (s : KnowledgeStatus) (items : List KnowledgeItem) (item : KnowledgeItem)
        → action_status action ≡ some s
        → list_knowledge operator (some candidate) readable k ≡ some items
        → find (λ i. str_eq i.id id) items ≡ some item
        → ((item.operator_id == operator) ≡ true)
          × (or_cannot_review (
                save_knowledge
                  (record item { status = some s; updated_at = now })
                  none
                  now
                  writable
                  k)
              ≡ (k', none))
    last_guard s items item h l f = ground arith

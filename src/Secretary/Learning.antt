-- ===== src/Secretary/Learning.antt =====
-- internal/secretary/learning_store.go and learning_feedback.go: the knowledge that an operator
-- reviews. It lies in one file of records for each day, which are only appended to; the newest
-- record of an identifier counts. Times are seconds, 0 is the zero time; an operator that is not
-- positive is 0. Whether a file can be written or read, and what random numbers give, are arguments.
pub mod Laws
pub mod Inversion
pub mod Review
pub mod Filing
use ia_lab.Prelude.{
  ℕ, ◌+◌, ◌*◌, ◌/◌, String, Bool, true, false, not, ◌&&◌, ◌||◌, Option, none, some, List, [], ◌∷◌,
  ◌++◌, is_blank, is_empty, trim_space, str_eq, ltb, leb, ◌==◌, filter, find, any, stable_sort,
  if◌then◌else◌,
}
use ia_lab.Prelude.Json.{Fields}

pub data KnowledgeStatus : Type 0 where
  candidate approved rejected : KnowledgeStatus

-- `details` are the fields that the store only passes on. A status that is none of the three is
-- `none`.
pub record KnowledgeItem : Type 0 where
  pub schema_version : ℕ
  pub id : String
  pub operator_id : ℕ
  pub value : String
  pub details : Fields
  pub valid_until : ℕ
  pub status : Option KnowledgeStatus
  pub created_at : ℕ
  pub updated_at : ℕ

-- A file of records, named after its day.
pub record DayFile : Type 0 where
  pub day : ℕ
  pub records : List KnowledgeItem

pub data LearningError : Type 0 where
  unsupported_version invalid_item cannot_create_id invalid_identity cannot_persist cannot_load
        review_unavailable unknown_action other_operator cannot_review not_found invalid_retention :
      LearningError

-- The directory `knowledge` of each operator, its files in the order of their names.
abbrev pub Knowledge : Type 0
Knowledge = ℕ → List DayFile

abbrev pub day_of : ℕ → ℕ
day_of at = at / 86400

-- O_CREATE|O_APPEND on the file of the day.
unfoldable pub append_record : ℕ → KnowledgeItem → List DayFile → List DayFile
append_record d item [] = record { day = d; records = item ∷ [] } ∷ []
append_record d item (f ∷ files) =
    let rest = append_record d item files in
    if d == f.day
    then record f { records = f.records ++ item ∷ [] } ∷ files
    else if ltb d f.day
    then record { day = d; records = item ∷ [] } ∷ f ∷ files
    else f ∷ rest

-- append; the error, if any, beside the directories.
unfoldable pub append_knowledge :
    ℕ → ℕ → KnowledgeItem → Bool → Knowledge → Knowledge × Option LearningError
append_knowledge operator at item writable k =
    if operator == 0 || at == 0
    then (k, some invalid_identity)
    else if not writable
    then (k, some cannot_persist)
    else ((λ o. if o == operator then append_record (day_of at) item (k o) else k o), none)

abbrev pub is_valid_status : Option KnowledgeStatus → Bool
is_valid_status none = false
is_valid_status (some _) = true

abbrev pub with_id : KnowledgeItem → Option String → Option KnowledgeItem
with_id item fresh =
    if is_empty item.id
    then elim fresh [ none ↦ none | some id ↦ some (record item { id = id }) ]
    else some item

-- The defaults of the version and of the two times.
abbrev pub completed_item : ℕ → KnowledgeItem → KnowledgeItem
completed_item now item =
    let created = if item.created_at == 0 then now else item.created_at in
    record item {
      schema_version = 1;
      created_at = created;
      updated_at = if item.updated_at == 0 then created else item.updated_at;
    }

abbrev pub save_named :
    Option KnowledgeItem → ℕ → Bool → Knowledge → Knowledge × Option LearningError
save_named none now writable k = (k, some cannot_create_id)
save_named (some item) now writable k =
    let full = completed_item now item in
    append_knowledge full.operator_id full.created_at full writable k

-- SaveKnowledge
unfoldable pub save_knowledge :
    KnowledgeItem → Option String → ℕ → Bool → Knowledge → Knowledge × Option LearningError
save_knowledge item fresh now writable k =
    if not (item.schema_version == 0) && not (item.schema_version == 1)
    then (k, some unsupported_version)
    else if item.operator_id == 0 || is_blank item.value || not (is_valid_status item.status)
    then (k, some invalid_item)
    else save_named (with_id item fresh) now writable k

-- All records, in the order in which the files are read.
abbrev pub all_records : List DayFile → List KnowledgeItem
all_records [] = []
all_records (f ∷ files) = f.records ++ all_records files

-- latestByID[item.ID] = item
abbrev pub put_latest : KnowledgeItem → List KnowledgeItem → List KnowledgeItem
put_latest item m = item ∷ filter (λ i. not (str_eq i.id item.id)) m

unfoldable pub gather : ℕ → List KnowledgeItem → List KnowledgeItem → List KnowledgeItem
gather operator [] m = m
gather operator (item ∷ items) m =
    gather operator items (if item.operator_id == operator then put_latest item m else m)

abbrev pub status_eq : KnowledgeStatus → KnowledgeStatus → Bool
status_eq candidate candidate = true
status_eq approved approved = true
status_eq rejected rejected = true
status_eq _ _ = false

abbrev pub has_status : Option KnowledgeStatus → KnowledgeItem → Bool
has_status none item = true
has_status (some s) item = elim item.status [ none ↦ false | some t ↦ status_eq t s ]

abbrev pub earlier : KnowledgeItem → KnowledgeItem → Bool
earlier a b = ltb a.created_at b.created_at

-- ListKnowledge; `none` when a file cannot be read or holds a record of another version. `none` for
-- the status asks for all of them.
unfoldable pub list_knowledge :
    ℕ → Option KnowledgeStatus → Bool → Knowledge → Option (List KnowledgeItem)
list_knowledge operator status readable k =
    let records = all_records (k operator) in
    if readable && not (any (λ i. not (i.schema_version == 1)) records)
    then some (stable_sort earlier (filter (has_status status) (gather operator records [])))
    else none

unfoldable pub action_status : String → Option KnowledgeStatus
action_status action =
    let name = trim_space action in
    if str_eq name "approve" || str_eq name "/aprueba"
    then some approved
    else if str_eq name "reject" || str_eq name "/descarta"
    then some rejected
    else none

abbrev pub or_cannot_review : Knowledge × Option LearningError → Knowledge × Option LearningError
or_cannot_review (k, none) = (k, none)
or_cannot_review (k, some e) = (k, some cannot_review)

abbrev pub review_found :
    ℕ
    → KnowledgeStatus
    → Option KnowledgeItem
    → ℕ
    → Bool
    → Knowledge
    → Knowledge × Option LearningError
review_found operator status none now writable k = (k, some not_found)
review_found operator status (some item) now writable k =
    if not (item.operator_id == operator)
    then (k, some other_operator)
    else or_cannot_review (
        save_knowledge (record item { status = some status; updated_at = now }) none now writable k)

abbrev pub review_listed :
    ℕ
    → KnowledgeStatus
    → String
    → Option (List KnowledgeItem)
    → ℕ
    → Bool
    → Knowledge
    → Knowledge × Option LearningError
review_listed operator status id none now writable k = (k, some cannot_load)
review_listed operator status id (some items) now writable k =
    review_found operator status (find (λ i. str_eq i.id id) items) now writable k

abbrev pub review_as :
    ℕ
    → Option KnowledgeStatus
    → String
    → ℕ
    → Bool
    → Bool
    → Knowledge
    → Knowledge × Option LearningError
review_as operator none id now readable writable k = (k, some unknown_action)
review_as operator (some status) id now readable writable k =
    review_listed operator status id (list_knowledge operator (some candidate) readable k) now
      writable k

-- ReviewKnowledge, of a service with a store.
unfoldable pub review_knowledge :
    ℕ → String → String → ℕ → Bool → Bool → Knowledge → Knowledge × Option LearningError
review_knowledge operator action id now readable writable k =
    if operator == 0 || is_blank id
    then (k, some review_unavailable)
    else review_as operator (action_status action) id now readable writable k

-- The test that Prune applies to a record of knowledge; `cutoff` is `now` less the days that a
-- candidate is kept.
abbrev pub is_kept : ℕ → ℕ → KnowledgeItem → Bool
is_kept now cutoff item = elim item.status [
  | some candidate ↦ leb cutoff item.created_at
  | some approved ↦ item.valid_until == 0 || ltb now item.valid_until
  | _ ↦ true
]

-- pruneLearningFiles and rewriteJSONL: a file without records is removed.
abbrev pub prune_files : ℕ → ℕ → List DayFile → List DayFile
prune_files now cutoff [] = []
prune_files now cutoff (f ∷ files) =
    let rest = prune_files now cutoff files in
    elim (filter (is_kept now cutoff) f.records) [
      | [] ↦ rest
      | item ∷ items ↦ record f { records = item ∷ items } ∷ rest
    ]

-- Forget, of the knowledge of an operator.
abbrev pub forget : ℕ → Knowledge → Knowledge
forget operator k = λ o. if o == operator then [] else k o

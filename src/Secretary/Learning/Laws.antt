-- ===== src/Secretary/Learning/Laws.antt =====
-- The newest record of an identifier, in the files and in what ListKnowledge gathers from them.
use ia_lab.Prelude.{
  ℕ, ◌<◌, ◌≡◌, ◌≢◌, refl, sym, ap, ◌∙◌, subst, String, Bool, true, false, not, ◌&&◌, Option, some,
  List, [], ◌∷◌, ◌++◌, All, All-append, All-filter, All-filter_of_All, All-map, arith, eq_iff,
  eq_refl, str_eq, ltb, ◌==◌, if◌then◌else◌, Bool-cases, inl, inr, ==_iff,
}
use ia_lab.Secretary.Learning.{
  KnowledgeItem, DayFile, day_of, append_record, all_records, put_latest, gather,
}

-- The newest record of an identifier, after those that gave `o`.
abbrev pub newest : ℕ → String → List KnowledgeItem → Option KnowledgeItem → Option KnowledgeItem
newest operator id [] o = o
newest operator id (i ∷ items) o =
    newest operator id items (if i.operator_id == operator && str_eq i.id id then some i else o)

newest-append :
    (operator : ℕ) (id : String) (xs ys : List KnowledgeItem) (o : Option KnowledgeItem)
    → newest operator id (xs ++ ys) o ≡ newest operator id ys (newest operator id xs o)
newest-append operator id [] ys o = refl
newest-append operator id (x ∷ xs) ys o = newest-append operator id xs ys _

newest_absent :
    (operator : ℕ) (id : String) (xs : List KnowledgeItem) (o : Option KnowledgeItem)
    → All (λ i. str_eq i.id id ≡ false) xs
    → newest operator id xs o ≡ o
newest_absent operator id [] o h = refl
newest_absent operator id (x ∷ xs) o h = ground (arith, h.0, newest_absent operator id xs o h.1)

-- What the map holds under an identifier is its newest record.
abbrev pub Tracks : String → Option KnowledgeItem → List KnowledgeItem → Type 0
Tracks id o m = All (λ i. str_eq i.id id ≡ true → o ≡ some i) m

-- A put of this identifier leaves no other record of it.
replaced :
    (id : String) (x i : KnowledgeItem)
    → not (str_eq i.id x.id) ≡ true
    → str_eq x.id id ≡ true
    → str_eq i.id id ≡ true
    → some x ≡ some i
replaced id x i differs same e =
    let equal : i.id ≡ x.id = (eq_iff i.id id).0 e ∙ sym ((eq_iff x.id id).0 same) in
    let yes : str_eq i.id x.id ≡ true = (eq_iff i.id x.id).1 equal in absurd (ground arith)

put-Tracks :
    (id : String) (mine same : Bool) (x : KnowledgeItem) (o : Option KnowledgeItem)
    (m : List KnowledgeItem)
    → str_eq x.id id ≡ same
    → Tracks id o m
    → Tracks id (if mine && same then some x else o) (if mine then put_latest x m else m)
put-Tracks id false same x o m e h = h
put-Tracks id true false x o m e h = (
  (λ yes. cc),
  All-filter_of_All (λ i. str_eq i.id id ≡ true → o ≡ some i) (λ i. not (str_eq i.id x.id)) m h,
)
put-Tracks id true true x o m e h = (
  (λ yes. refl),
  All-map (λ i. not (str_eq i.id x.id) ≡ true) (λ i. str_eq i.id id ≡ true → some x ≡ some i) _
      (λ i differs yes. replaced id x i differs e yes) (All-filter (λ i. not (str_eq i.id x.id)) m),
)

pub gather-Tracks :
    (operator : ℕ) (id : String) (items : List KnowledgeItem) (o : Option KnowledgeItem)
    (m : List KnowledgeItem)
    → Tracks id o m
    → Tracks id (newest operator id items o) (gather operator items m)
unfolding gather
gather-Tracks operator id [] o m h = h
gather-Tracks operator id (i ∷ items) o m h =
    gather-Tracks operator id items _ _
      (put-Tracks id (i.operator_id == operator) (str_eq i.id id) i o m refl h)

-- The files stand in the order of their days.
abbrev pub Ascends : List DayFile → Type 0
Ascends [] = Unit
Ascends (f ∷ files) = All (λ g. f.day < g.day) files × Ascends files

-- The record was created on a known day, that of its identifier.
abbrev pub IsOf : (String → ℕ) → ℕ → KnowledgeItem → Type 0
IsOf date d i = ((i.created_at == 0) ≡ false) × ((day_of i.created_at ≡ d) × (date i.id ≡ d))

-- Each identifier has its day, on which its records were created and whose file they lie in.
abbrev pub IsDated : (String → ℕ) → List DayFile → Type 0
IsDated date files = All (λ f. All (IsOf date f.day) f.records) files

absent_in :
    (date : String → ℕ) (id : String) (d : ℕ) (items : List KnowledgeItem)
    → d ≢ date id
    → All (IsOf date d) items
    → All (λ i. str_eq i.id id ≡ false) items
absent_in date id d [] differs h = tt
absent_in date id d (i ∷ items) differs h = (
  elim (Bool-cases (str_eq i.id id)) [
    | inl same ↦ absurd (differs (sym h.0.1.1 ∙ ap date ((eq_iff i.id id).0 same)))
    | inr other ↦ other
  ],
  absent_in date id d items differs h.1,
)

absent_later :
    (date : String → ℕ) (id : String) (files : List DayFile)
    → All (λ f. date id < f.day) files
    → IsDated date files
    → All (λ i. str_eq i.id id ≡ false) (all_records files)
absent_later date id [] later dated = tt
absent_later date id (f ∷ files) later dated =
    All-append (λ i. str_eq i.id id ≡ false) f.records (all_records files)
      (absent_in date id f.day f.records (λ e. omega (arith, later.0, e)) dated.0)
      (absent_later date id files later.1 dated.1)

later_files :
    (d e : ℕ) (files : List DayFile)
    → d < e
    → All (λ g. e < g.day) files
    → All (λ g. d < g.day) files
later_files d e files h k =
    All-map (λ g. e < g.day) (λ g. d < g.day) files (λ g l. omega (arith, h, l)) k

newest_here :
    (r : KnowledgeItem) (xs : List KnowledgeItem) (o : Option KnowledgeItem)
    → newest r.operator_id r.id (xs ++ r ∷ []) o ≡ some r
newest_here r xs o =
    newest-append r.operator_id r.id xs (r ∷ []) o
    ∙ rw ((==_iff r.operator_id r.operator_id).1 refl, eq_refl r.id) refl

newest_first :
    (r : KnowledgeItem) (items : List KnowledgeItem) (o : Option KnowledgeItem)
    → All (λ i. str_eq i.id r.id ≡ false) items
    → newest r.operator_id r.id (r ∷ items) o ≡ some r
newest_first r items o absent =
    rw ((==_iff r.operator_id r.operator_id).1 refl, eq_refl r.id)
      (newest_absent r.operator_id r.id items (some r) absent)

-- A record that was appended to the file of its day is the newest of its identifier.
pub newest-append_record :
    (date : String → ℕ) (r : KnowledgeItem) (files : List DayFile) (o : Option KnowledgeItem)
    → Ascends files
    → IsDated date files
    → newest r.operator_id r.id (all_records (append_record (date r.id) r files)) o ≡ some r
unfolding append_record
newest-append_record date r [] o asc dated = newest_here r [] o
newest-append_record date r (f ∷ files) o asc dated = elim (Bool-cases (date r.id == f.day)) [
  | inl today ↦
      let later : All (λ g. date r.id < g.day) files =
        subst (λ d. All (λ g. d < g.day) files) (sym ((==_iff (date r.id) f.day).0 today)) asc.0 in
      rw today (
        newest-append r.operator_id r.id (f.records ++ r ∷ []) (all_records files) o
        ∙ newest_absent r.operator_id r.id (all_records files) _
            (absent_later date r.id files later dated.1)
        ∙ newest_here r f.records o)
  | inr another ↦ elim (Bool-cases (ltb (date r.id) f.day)) [
    | inl before ↦
        let first : date r.id < f.day = ground arith in
        rw (another, before)
          (newest_first r (all_records (f ∷ files)) o (
            absent_later date r.id (f ∷ files)
              (first, later_files (date r.id) f.day files first asc.0) dated))
    | inr after ↦
        rw (another, after)
          (newest-append r.operator_id r.id f.records
              (all_records (append_record (date r.id) r files)) o
            ∙ newest-append_record date r files _ asc.1 dated.1)
  ]
]

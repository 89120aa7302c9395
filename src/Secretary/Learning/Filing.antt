-- ===== src/Secretary/Learning/Filing.antt =====
-- internal/secretary/learning_store.go: in which files SaveKnowledge puts its records.
use ia_lab.Prelude.{
  ℕ, ◌<◌, ◌≡◌, refl, sym, ap, subst, ◌∙◌, String, Bool, false, not, ◌&&◌, ◌||◌, Option, some, List,
  [], ◌∷◌, All, All-append, All-map, arith, ltb, ◌==◌, Bool-cases, inl, inr, ==_iff, is_empty,
  is_blank, if◌then◌else◌, some_injective,
}
use ia_lab.Secretary.Learning.{
  KnowledgeItem, DayFile, Knowledge, day_of, append_record, append_knowledge, with_id,
  completed_item, save_named, is_valid_status, save_knowledge,
}
use ia_lab.Secretary.Learning.Laws.{Ascends, IsOf, IsDated}

-- All files are of later days.
abbrev Later : ℕ → List DayFile → Type 0
Later d files = All (λ g. d < g.day) files

append_record-Later :
    (d e : ℕ) (r : KnowledgeItem) (files : List DayFile)
    → d < e
    → Later d files
    → Later d (append_record e r files)
unfolding append_record
append_record-Later d e r [] h k = (h, tt)
append_record-Later d e r (f ∷ files) h k =
    ground (arith, h, k.0, k.1, append_record-Later d e r files h k.1)

sooner : (d e : ℕ) (files : List DayFile) → d < e → Later e files → Later d files
sooner d e files h k =
    All-map (λ g. e < g.day) (λ g. d < g.day) files (λ g l. omega (arith, h, l)) k

append_record-Ascends :
    (d : ℕ) (r : KnowledgeItem) (files : List DayFile)
    → Ascends files
    → Ascends (append_record d r files)
unfolding append_record
append_record-Ascends d r [] h = (tt, tt)
append_record-Ascends d r (f ∷ files) h = elim (Bool-cases (d == f.day)) [
  | inl today ↦ rw today h
  | inr another ↦ elim (Bool-cases (ltb d f.day)) [
    | inl before ↦
        let first : d < f.day = ground arith in
        rw (another, before) ((first, sooner d f.day files first h.0), h)
    | inr after ↦
        let last : f.day < d = ground arith in
        rw (another, after)
          (append_record-Later f.day d r files last h.0, append_record-Ascends d r files h.1)
  ]
]

append_record-IsDated :
    (date : String → ℕ) (r : KnowledgeItem) (files : List DayFile)
    → IsOf date (date r.id) r
    → IsDated date files
    → IsDated date (append_record (date r.id) r files)
unfolding append_record
append_record-IsDated date r [] h k = ((h, tt), tt)
append_record-IsDated date r (f ∷ files) h k = elim (Bool-cases (date r.id == f.day)) [
  | inl today ↦
      let same : date r.id ≡ f.day = (==_iff (date r.id) f.day).0 today in
      rw today
        (All-append (IsOf date f.day) f.records (r ∷ []) k.0 ((h.0, (h.1.0 ∙ same, same)), tt), k.1)
  | inr another ↦ elim (Bool-cases (ltb (date r.id) f.day)) [
    | inl before ↦ rw (another, before) ((h, tt), k)
    | inr after ↦ rw (another, after) (k.0, append_record-IsDated date r files h k.1)
  ]
]

-- A record goes to the file of the day of its identifier.
append_record-IsFiled :
    (date : String → ℕ) (r : KnowledgeItem) (files : List DayFile)
    → IsOf date (date r.id) r
    → Ascends files
    → IsDated date files
    → Ascends (append_record (date r.id) r files) × IsDated date (append_record (date r.id) r files)
append_record-IsFiled date r files h asc dated =
    (append_record-Ascends (date r.id) r files asc, append_record-IsDated date r files h dated)

-- The files of an operator are in the order of their days, and hold each record on its day.
abbrev pub IsFiled : (String → ℕ) → List DayFile → Type 0
IsFiled date files = Ascends files × IsDated date files

append_knowledge-IsFiled :
    (date : String → ℕ) (r : KnowledgeItem) (writable : Bool) (k : Knowledge) (o : ℕ)
    → date r.id ≡ day_of r.created_at
    → IsFiled date (k o)
    → IsFiled date ((append_knowledge r.operator_id r.created_at r writable k).0 o)
unfolding append_knowledge
append_knowledge-IsFiled date r writable k o own h =
    elim (Bool-cases (r.operator_id == 0 || r.created_at == 0)) [
      | inl unknown ↦ rw unknown h
      | inr known ↦ elim (Bool-cases writable) [
        | inr locked ↦ rw (known, locked) h
        | inl open_file ↦ elim (Bool-cases (o == r.operator_id)) [
          | inr another ↦ rw (known, open_file, another) h
          | inl mine ↦
              let timed : (r.created_at == 0) ≡ false = ground arith in
              let stored : IsFiled date (append_record (day_of r.created_at) r (k o)) =
                subst (λ d. IsFiled date (append_record d r (k o))) own
                  (append_record-IsFiled date r (k o) (timed, (sym own, refl)) h.0 h.1) in
              rw (known, open_file, mine) stored
        ]
      ]
    ]

-- The identifier and the time that a saved item has in the end.
abbrev pub saved_id : KnowledgeItem → Option String → Option String
saved_id item fresh = if is_empty item.id then fresh else some item.id

abbrev pub saved_at : ℕ → KnowledgeItem → ℕ
saved_at now item = if item.created_at == 0 then now else item.created_at

save_named-IsFiled :
    (date : String → ℕ) (item : KnowledgeItem) (fresh : Option String) (now : ℕ) (writable : Bool)
    (k : Knowledge) (o : ℕ) (id : String)
    → saved_id item fresh ≡ some id
    → date id ≡ day_of (saved_at now item)
    → IsFiled date (k o)
    → IsFiled date ((save_named (with_id item fresh) now writable k).0 o)
save_named-IsFiled date item fresh now writable k o id known own h =
    elim (Bool-cases (is_empty item.id)) [
      | inl unnamed ↦
          let drawn : fresh ≡ some id = rw unnamed at known in
          rw (unnamed, drawn)
            (append_knowledge-IsFiled date (completed_item now (record item { id = id })) writable k
              o own h)
      | inr named ↦
          let same : item.id ≡ id = some_injective (rw named at known) in
          rw named (
            append_knowledge-IsFiled date (completed_item now item) writable k o
              (ap date same ∙ own) h)
    ]

-- If a saved item has in the end an identifier whose day is that of its creation,
-- SaveKnowledge keeps the files of every operator in the order of their days and each record
-- in the file of the day of its creation and of its identifier, whether or not it returns an
-- error.
pub save_knowledge-IsFiled :
    (date : String → ℕ) (item : KnowledgeItem) (fresh : Option String) (now : ℕ) (writable : Bool)
    (k : Knowledge) (o : ℕ) (id : String)
    → saved_id item fresh ≡ some id
    → date id ≡ day_of (saved_at now item)
    → IsFiled date (k o)
    → IsFiled date ((save_knowledge item fresh now writable k).0 o)
unfolding save_knowledge
save_knowledge-IsFiled date item fresh now writable k o id known own h =
    elim (Bool-cases (not (item.schema_version == 0) && not (item.schema_version == 1))) [
      | inl newer ↦ rw newer h
      | inr readable ↦
          elim (Bool-cases
            (item.operator_id == 0 || is_blank item.value || not (is_valid_status item.status))) [
              | inl broken ↦ rw (readable, broken) h
              | inr sound ↦
                  rw (readable, sound)
                    (save_named-IsFiled date item fresh now writable k o id known own h)
            ]
    ]

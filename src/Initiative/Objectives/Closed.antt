-- ===== src/Initiative/Objectives/Closed.antt =====
-- internal/orchestratorgo/httpapi/objectives.go: cancelSupersededObjectiveDependents as a whole.
use ia_lab.Prelude.{
  ℕ, ◌≡◌, ◌⊎◌, inl, inr, refl, subst, String, Bool, true, false, Option, some, List, [], ◌∷◌, All,
  All-map, any, arith, Bool-cases, eq_iff, eq_refl, str_eq, is_empty, is_empty-eq, trim_space, ◌||◌,
  ◌==◌,
}
use ia_lab.Prelude.Json
use ia_lab.Prelude.Json.{Json, Items, nil, cons}
use ia_lab.Task.Model.{Task, Db, ok}
use ia_lab.Initiative.Contracts.{as_string}
use ia_lab.Initiative.Model.{LinkedTask, Rows, list_initiative_tasks}
use ia_lab.Initiative.Objectives.{
  Sweep, has_text, texts_of, is_left, is_dependent, work_item_id, cancel_superseded_dependents,
  iteration_of,
}
use ia_lab.Initiative.Objectives.Superseded.{cancel_superseded_dependents-none_left}
use ia_lab.Initiative.Objectives.Cancelled.{IsSettled}
use ia_lab.Initiative.Objectives.Backed.{IsKnown, IsBacked, sweep_rounds-IsBacked}

-- None of the texts names a superseded item.
abbrev pub AllFree : List String → Items → Type 0
AllFree superseded nil = Unit
AllFree superseded (cons v vs) =
    ((trim_space (as_string (some v)) ≡ "")
      ⊎ (has_text superseded (trim_space (as_string (some v))) ≡ false))
    × AllFree superseded vs

abbrev pub IsFree : List String → Option Json → Type 0
IsFree superseded (some (Json.arr texts)) = AllFree superseded texts
IsFree superseded _ = Unit

-- A listed item that the search need not touch: the replaced one, one of another iteration, one without
-- an identifier, or one that depends on no superseded item.
abbrev pub IsSpared : Task → List String → LinkedTask → Type 0
IsSpared current superseded i =
    (i.task.id ≡ current.id)
    ⊎ ((iteration_of i.task.metadata == iteration_of current.metadata) ≡ false)
    ⊎ (work_item_id i ≡ "")
    ⊎ IsFree superseded (Json.get "depends_on" i.task.metadata)

-- What the search leaves behind of an item.
abbrev pub IsCovered : List LinkedTask → Task → String → Sweep → LinkedTask → Type 0
IsCovered items current own s i =
    IsSpared current s.superseded i ⊎ (work_item_id i ≡ own) ⊎ IsSettled items s.db (work_item_id i)

any-false :
    (p : LinkedTask → Bool) (xs : List LinkedTask) → any p xs ≡ false → All (λ x. p x ≡ false) xs
any-false p [] h = tt
any-false p (x ∷ xs) h = elim (Bool-cases (p x)) [
  | inl passed ↦ absurd (ground arith)
  | inr missed ↦ (missed, any-false p xs (rw missed at h))
]

look_up :
    (P : String → Type 0) (x : String) (xs : List String) → has_text xs x ≡ true → All P xs → P x
look_up P x [] h a = absurd (ground arith)
look_up P x (y ∷ ys) h a = elim (Bool-cases (str_eq y x)) [
  | inl same ↦ subst P ((eq_iff y x).0 same) a.0
  | inr other ↦ look_up P x ys (rw other at h) a.1
]

or_false : (a b : Bool) → (a || b) ≡ false → (a ≡ false) × (b ≡ false)
or_false a b h = ground arith

texts-AllFree :
    (superseded : List String) (texts : Items)
    → any (has_text superseded) (texts_of texts) ≡ false
    → AllFree superseded texts
texts-AllFree superseded nil h = tt
texts-AllFree superseded (cons v vs) h =
    elim (Bool-cases (is_empty (trim_space (as_string (some v))))) [
      | inl blank ↦ (inl (is_empty-eq _ blank), texts-AllFree superseded vs (rw blank at h))
      | inr text ↦
          let both = or_false _ (any (has_text superseded) (texts_of vs)) (rw text at h) in
          (inr both.0, texts-AllFree superseded vs both.1)
    ]

independent-IsFree :
    (superseded : List String) (i : LinkedTask)
    → is_dependent superseded i ≡ false
    → IsFree superseded (Json.get "depends_on" i.task.metadata)
independent-IsFree superseded i h = by_value (Json.get "depends_on" i.task.metadata) h
  where
    by_value :
        (v : Option Json)
        → any
            (has_text superseded)
            (elim v as (λ x. List String) [ some (Json.arr texts) ↦ texts_of texts | _ ↦ [] ])
          ≡ false
        → IsFree superseded v
    by_value (some (Json.arr texts)) h = texts-AllFree superseded texts h
    by_value _ h = tt

-- An item that is not left is spared, or found.
not_left :
    (current : Task) (superseded : List String) (i : LinkedTask)
    → is_left current (iteration_of current.metadata) superseded i ≡ false
    → IsSpared current superseded i ⊎ (has_text superseded (work_item_id i) ≡ true)
not_left current superseded i h = elim (Bool-cases (str_eq i.task.id current.id)) [
  | inl own ↦ inl (inl ((eq_iff _ _).0 own))
  | inr another ↦
      elim (Bool-cases (iteration_of i.task.metadata == iteration_of current.metadata)) [
        | inr elsewhere ↦ inl (inr (inl elsewhere))
        | inl together ↦ elim (Bool-cases (is_empty (work_item_id i))) [
          | inl unnamed ↦ inl (inr (inr (inl (is_empty-eq _ unnamed))))
          | inr named ↦ elim (Bool-cases (has_text superseded (work_item_id i))) [
            | inl found ↦ inr found
            | inr missed ↦ inl (
                inr (
                  inr (
                    inr (
                      independent-IsFree superseded i
                        (rw (another, together, named, missed) at h)))))
          ]
        ]
      ]
]

-- The identifier of the replaced item.
abbrev pub replaced_id : Task → String
replaced_id current = trim_space (as_string (Json.get "work_item_id" current.metadata))

start-IsBacked :
    (items : List LinkedTask) (own : String) (db : Db)
    → IsBacked items own (record { db = db; superseded = own ∷ []; changed = true })
start-IsBacked items own db = record { known = (inl refl, tt); replaced = rw (eq_refl own) }

cancel_superseded_dependents-IsBacked :
    (current : Task) (reason : String) (now fuel : ℕ) (r : Rows) (s : Sweep)
    → is_empty (replaced_id current) ≡ false
    → cancel_superseded_dependents current reason now fuel r ≡ some (ok s)
    → IsBacked (list_initiative_tasks r) (replaced_id current) s
unfolding cancel_superseded_dependents
cancel_superseded_dependents-IsBacked current reason now fuel r s named h =
    sweep_rounds-IsBacked current (iteration_of current.metadata) reason now
      (list_initiative_tasks r) (replaced_id current) fuel _ s (rw named at h)
      (start-IsBacked (list_initiative_tasks r) (replaced_id current) r.db)

-- If the replaced item has an identifier and the search ends without an error, every listed
-- item is the replaced one, belongs to another iteration, has no identifier, names no
-- superseded item in its depends_on, has the identifier of the replaced item, or is settled: a
-- listed item with its identifier is cancelled in the database and marked as superseded there,
-- or was running or ended when it was listed. The replaced item counts as superseded.
pub cancel_superseded_dependents-closed :
    (current : Task) (reason : String) (now fuel : ℕ) (r : Rows) (s : Sweep)
    → is_empty (replaced_id current) ≡ false
    → cancel_superseded_dependents current reason now fuel r ≡ some (ok s)
    → (has_text s.superseded (replaced_id current) ≡ true)
      × All
          (IsCovered (list_initiative_tasks r) current (replaced_id current) s)
          (list_initiative_tasks r)
cancel_superseded_dependents-closed current reason now fuel r s named h =
    let items = list_initiative_tasks r in
    let backed = cancel_superseded_dependents-IsBacked current reason now fuel r s named h in
    let finished =
      any-false (is_left current (iteration_of current.metadata) s.superseded) items
        (cancel_superseded_dependents-none_left current reason now fuel r s named h) in
    (
      backed.replaced,
      All-map (λ i. is_left current (iteration_of current.metadata) s.superseded i ≡ false)
          (IsCovered items current (replaced_id current) s) items
          (λ i e.
            covered items (replaced_id current) i backed.known (not_left current s.superseded i e))
          finished,
    )
  where
    covered :
        (items : List LinkedTask) (own : String) (i : LinkedTask)
        → All (IsKnown items own s.db) s.superseded
        → IsSpared current s.superseded i ⊎ (has_text s.superseded (work_item_id i) ≡ true)
        → IsCovered items current own s i
    covered items own i known (inl spared) = inl spared
    covered items own i known (inr found) =
        inr (look_up (IsKnown items own s.db) (work_item_id i) s.superseded found known)

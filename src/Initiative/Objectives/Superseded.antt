-- ===== src/Initiative/Objectives/Superseded.antt =====
-- The rounds that find the work items which a repair cycle supersedes.
use ia_lab.Prelude.{
  ℕ, zero, suc, ◌≡◌, ◌⊎◌, ◌≤◌, ◌<◌, refl, sym, ap, subst, ◌∙◌, String, Bool, true, false, ◌&&◌,
  some, List, [], ◌∷◌, any, filter, length, length-filter-le, arith, is_some, some_injective,
  &&_left, Bool-cases, inl, inr, if_true, if_false, eq_refl, is_empty, trim_space,
}
use ia_lab.Prelude.Json
use ia_lab.Task.Model.{Task, Db, Result, ok, err}
use ia_lab.Task.Laws.Results.{ok_injective}
use ia_lab.Initiative.Contracts.{as_string}
use ia_lab.Initiative.Model.{LinkedTask, Rows, list_initiative_tasks}
use ia_lab.Initiative.Objectives.{
  Sweep, has_text, is_open, is_left, is_dependent, work_item_id, supersede, sweep_item, sweep_rest,
  sweep_items, after_round, sweep_rounds, cancel_superseded_dependents, iteration_of,
}

abbrev Within : List String → List String → Type 0
Within a b = (x : String) → has_text a x ≡ true → has_text b x ≡ true

module _ (current : Task) (iteration : ℕ) (reason : String) (now : ℕ) where
  supersede-ok :
      (i : LinkedTask) (s s' : Sweep) (res : Result Db)
      → supersede i s res ≡ ok s'
      → (s'.superseded ≡ work_item_id i ∷ s.superseded) × (s'.changed ≡ true)
  supersede-ok i s s' (err e) h = cc h
  supersede-ok i s s' (ok db) h =
      (ap (λ x. x.superseded) (sym (ok_injective h)), ap (λ x. x.changed) (sym (ok_injective h)))

  -- One item leaves the sweep as it is, and is not left; or it is found.
  sweep_item-cases :
      (i : LinkedTask) (s s' : Sweep)
      → sweep_item current iteration reason now i s ≡ ok s'
      → ((s' ≡ s) × (is_left current iteration s.superseded i ≡ false))
        ⊎ ((is_open current iteration s.superseded i ≡ true)
            × ((s'.superseded ≡ work_item_id i ∷ s.superseded) × (s'.changed ≡ true)))
  unfolding sweep_item
  sweep_item-cases i s s' h = elim (Bool-cases (is_left current iteration s.superseded i)) [
    | inr spared ↦ inl (sym (ok_injective (rw spared at h)), spared)
    | inl found ↦ inr (
      &&_left (is_open current iteration s.superseded i) (is_dependent s.superseded i) found,
      supersede-ok i s s' _ (rw found at h),
    )
  ]

  Within-cons : (a : List String) (x : String) → Within a (x ∷ a)
  Within-cons a x y h = ground (arith, h)

  -- What later items keep of a sweep.
  abbrev Grows : Sweep → Sweep → Type 0
  Grows s s' = Within s.superseded s'.superseded × (s.changed ≡ true → s'.changed ≡ true)

  sweep_rest-Grows :
      (i : LinkedTask) (items : List LinkedTask) (s s' : Sweep) (res : Result Sweep)
      → ((s1 : Sweep) → sweep_items current iteration reason now items s1 ≡ ok s' → Grows s1 s')
      → sweep_item current iteration reason now i s ≡ res
      → sweep_rest (sweep_items current iteration reason now items) res ≡ ok s'
      → Grows s s'
  sweep_rest-Grows i items s s' (err e) later step h = cc h
  sweep_rest-Grows i items s s' (ok s1) later step h =
      let (grows, keeps) = later s1 h in
      elim (sweep_item-cases i s s1 step) [
        | inl (same, _) ↦ (
          subst (λ x. Within x.superseded s'.superseded) same grows,
          λ e. keeps (ap (λ x. x.changed) same ∙ e),
        )
        | inr (_, (added, marked)) ↦ (
          (λ x e. grows x (
              subst (λ l. has_text l x ≡ true) (sym added)
                (Within-cons s.superseded (work_item_id i) x e))),
          λ e. keeps marked,
        )
      ]

  -- Rounds only add identifiers, and remember that they did.
  sweep_items-Grows :
      (items : List LinkedTask) (s s' : Sweep)
      → sweep_items current iteration reason now items s ≡ ok s'
      → Grows s s'
  unfolding sweep_items
  sweep_items-Grows [] s s' h = subst (λ x. Grows s x) (ok_injective h) ((λ x e. e), λ e. e)
  sweep_items-Grows (i ∷ items) s s' h =
      sweep_rest-Grows i items s s' (sweep_item current iteration reason now i s)
        (λ s1 e. sweep_items-Grows items s1 s' e) refl h

  -- An item that was open and has been found since.
  abbrev is_found : List String → List String → LinkedTask → Bool
  is_found a b i = is_open current iteration a i && has_text b (work_item_id i)

  sweep_rest-found :
      (i : LinkedTask) (items : List LinkedTask) (s s' : Sweep) (res : Result Sweep)
      → ((s1 : Sweep)
          → sweep_items current iteration reason now items s1 ≡ ok s'
          → s1.changed ≡ false
          → s'.changed ≡ true
          → any (is_found s1.superseded s'.superseded) items ≡ true)
      → sweep_item current iteration reason now i s ≡ res
      → sweep_rest (sweep_items current iteration reason now items) res ≡ ok s'
      → s.changed ≡ false
      → s'.changed ≡ true
      → any (is_found s.superseded s'.superseded) (i ∷ items) ≡ true
  sweep_rest-found i items s s' (err e) later step h before after = cc h
  sweep_rest-found i items s s' (ok s1) later step h before after =
      elim (sweep_item-cases i s s1 step) [
        | inl (same, _) ↦
            let rest = later s1 h (ap (λ x. x.changed) same ∙ before) after in
            let here : any (is_found s.superseded s'.superseded) items ≡ true =
              subst (λ x. any (is_found x.superseded s'.superseded) items ≡ true) same rest in
            ground (arith, here)
        | inr (opened, (added, _)) ↦
            let (grows, _) = sweep_items-Grows items s1 s' h in
            let own : has_text s1.superseded (work_item_id i) ≡ true =
              rw (added, eq_refl (work_item_id i)) in
            let there : has_text s'.superseded (work_item_id i) ≡ true =
              grows (work_item_id i) own in
            rw (opened, there)
      ]

  -- A round that changed something has found an item.
  sweep_items-found :
      (items : List LinkedTask) (s s' : Sweep)
      → sweep_items current iteration reason now items s ≡ ok s'
      → s.changed ≡ false
      → s'.changed ≡ true
      → any (is_found s.superseded s'.superseded) items ≡ true
  unfolding sweep_items
  sweep_items-found [] s s' h before after =
      cc (ap (λ x. x.changed) (ok_injective h), before, after)
  sweep_items-found (i ∷ items) s s' h before after =
      sweep_rest-found i items s s' (sweep_item current iteration reason now i s)
        (λ s1 e b a. sweep_items-found items s1 s' e b a) refl h before after

  abbrev count_open : List String → List LinkedTask → ℕ
  count_open superseded items = length (filter (is_open current iteration superseded) items)

  open-Within :
      (a b : List String) (i : LinkedTask)
      → Within a b
      → is_open current iteration b i ≡ true
      → is_open current iteration a i ≡ true
  open-Within a b i within opened = ground (arith, within (work_item_id i))

  count_open-le :
      (a b : List String) (items : List LinkedTask)
      → Within a b
      → count_open b items ≤ count_open a items
  count_open-le a b [] within = omega arith
  count_open-le a b (i ∷ items) within =
      ground (arith, count_open-le a b items within, open-Within a b i within)

  count_open-lt :
      (a b : List String) (items : List LinkedTask)
      → Within a b
      → any (is_found a b) items ≡ true
      → count_open b items < count_open a items
  count_open-lt a b [] within found = ground arith
  count_open-lt a b (i ∷ items) within found = elim (Bool-cases (is_found a b i)) [
    | inl here ↦
        let opened = &&_left (is_open current iteration a i) (has_text b (work_item_id i)) here in
        let closed : is_open current iteration b i ≡ false = ground arith in
        rw (opened, closed) (omega (arith, count_open-le a b items within))
    | inr other ↦
        let rest = count_open-lt a b items within (rw other at found) in
        ground (arith, rest, open-Within a b i within)
  ]

  after_round-ends :
      (items : List LinkedTask) (fuel : ℕ) (s : Sweep) (res : Result Sweep)
      → ((s1 : Sweep)
          → count_open s1.superseded items < fuel
          → is_some (sweep_rounds current iteration reason now items fuel s1) ≡ true)
      → sweep_items current iteration reason now items (record s { changed = false }) ≡ res
      → count_open s.superseded items < suc fuel
      → is_some (after_round (sweep_rounds current iteration reason now items fuel) res) ≡ true
  after_round-ends items fuel s (err e) later round enough = refl
  after_round-ends items fuel s (ok s1) later round enough = elim (Bool-cases s1.changed) [
    | inr quiet ↦ ap is_some (if_false s1.changed _ _ quiet)
    | inl again ↦
        let (grows, _) = sweep_items-Grows items (record s { changed = false }) s1 round in
        let found = sweep_items-found items (record s { changed = false }) s1 round refl again in
        ap is_some (if_true s1.changed _ _ again)
        ∙ later s1
            (omega (arith, enough, count_open-lt s.superseded s1.superseded items grows found))
  ]

  sweep_rounds-ends :
      (items : List LinkedTask) (fuel : ℕ) (s : Sweep)
      → count_open s.superseded items < fuel
      → is_some (sweep_rounds current iteration reason now items fuel s) ≡ true
  unfolding sweep_rounds
  sweep_rounds-ends items zero s enough = ground arith
  sweep_rounds-ends items (suc fuel) s enough =
      after_round-ends items fuel s
        (sweep_items current iteration reason now items (record s { changed = false }))
        (λ s1 e. sweep_rounds-ends items fuel s1 e) refl enough

  -- A round that changed nothing leaves nothing to find.
  sweep_rest-quiet :
      (i : LinkedTask) (items : List LinkedTask) (s s' : Sweep) (res : Result Sweep)
      → ((s1 : Sweep)
          → sweep_items current iteration reason now items s1 ≡ ok s'
          → s'.changed ≡ false
          → (s' ≡ s1) × (any (is_left current iteration s1.superseded) items ≡ false))
      → sweep_item current iteration reason now i s ≡ res
      → sweep_rest (sweep_items current iteration reason now items) res ≡ ok s'
      → s'.changed ≡ false
      → (s' ≡ s) × (any (is_left current iteration s.superseded) (i ∷ items) ≡ false)
  sweep_rest-quiet i items s s' (err e) later step h quiet = cc h
  sweep_rest-quiet i items s s' (ok s1) later step h quiet = elim (sweep_item-cases i s s1 step) [
    | inl (same, spared) ↦
        let (still, none_left) = later s1 h quiet in
        (
          still ∙ same,
          rw spared (
              subst (λ x. any (is_left current iteration x.superseded) items ≡ false) same
                none_left),
        )
    | inr (_, (_, marked)) ↦
        let (_, keeps) = sweep_items-Grows items s1 s' h in cc (keeps marked, quiet)
  ]

  sweep_items-quiet :
      (items : List LinkedTask) (s s' : Sweep)
      → sweep_items current iteration reason now items s ≡ ok s'
      → s'.changed ≡ false
      → (s' ≡ s) × (any (is_left current iteration s.superseded) items ≡ false)
  unfolding sweep_items
  sweep_items-quiet [] s s' h quiet = (sym (ok_injective h), refl)
  sweep_items-quiet (i ∷ items) s s' h quiet =
      sweep_rest-quiet i items s s' (sweep_item current iteration reason now i s)
        (λ s1 e q. sweep_items-quiet items s1 s' e q) refl h quiet

  after_round-closed :
      (items : List LinkedTask) (fuel : ℕ) (s s' : Sweep) (res : Result Sweep)
      → ((s1 : Sweep)
          → sweep_rounds current iteration reason now items fuel s1 ≡ some (ok s')
          → any (is_left current iteration s'.superseded) items ≡ false)
      → sweep_items current iteration reason now items (record s { changed = false }) ≡ res
      → after_round (sweep_rounds current iteration reason now items fuel) res ≡ some (ok s')
      → any (is_left current iteration s'.superseded) items ≡ false
  after_round-closed items fuel s s' (err e) later round h = cc h
  after_round-closed items fuel s s' (ok s1) later round h = elim (Bool-cases s1.changed) [
    | inl again ↦ later s1 (sym (if_true s1.changed _ _ again) ∙ h)
    | inr quiet ↦
        let ended : s1 ≡ s' =
          ok_injective (some_injective (sym (if_false s1.changed _ _ quiet) ∙ h)) in
        let (same, none_left) =
          sweep_items-quiet items (record s { changed = false }) s1 round quiet in
        subst (λ x. any (is_left current iteration x.superseded) items ≡ false) (sym same ∙ ended)
          none_left
  ]

  sweep_rounds-closed :
      (items : List LinkedTask) (fuel : ℕ) (s s' : Sweep)
      → sweep_rounds current iteration reason now items fuel s ≡ some (ok s')
      → any (is_left current iteration s'.superseded) items ≡ false
  unfolding sweep_rounds
  sweep_rounds-closed items zero s s' h = cc h
  sweep_rounds-closed items (suc fuel) s s' h =
      after_round-closed items fuel s s'
        (sweep_items current iteration reason now items (record s { changed = false }))
        (λ s1 e. sweep_rounds-closed items fuel s1 s' e) refl h

-- The loop that looks for superseded work items ends within as many rounds as the initiative
-- has tasks, and one more.
pub cancel_superseded_dependents-ends :
    (current : Task) (reason : String) (now fuel : ℕ) (r : Rows)
    → length (list_initiative_tasks r) < fuel
    → is_some (cancel_superseded_dependents current reason now fuel r) ≡ true
unfolding cancel_superseded_dependents
cancel_superseded_dependents-ends current reason now fuel r enough =
    elim (Bool-cases
      (is_empty (trim_space (as_string (Json.get "work_item_id" current.metadata))))) [
        | inl unnamed ↦ rw unnamed
        | inr named ↦ rw named (
            sweep_rounds-ends current (iteration_of current.metadata) reason now
              (list_initiative_tasks r) fuel _
              (omega (
                arith,
                enough,
                length-filter-le (is_open current (iteration_of current.metadata) _)
                    (list_initiative_tasks r),
              )))
      ]

-- A search that ends without an error has nothing left to find.
pub cancel_superseded_dependents-none_left :
    (current : Task) (reason : String) (now fuel : ℕ) (r : Rows) (s : Sweep)
    → is_empty (trim_space (as_string (Json.get "work_item_id" current.metadata))) ≡ false
    → cancel_superseded_dependents current reason now fuel r ≡ some (ok s)
    → any (is_left current (iteration_of current.metadata) s.superseded) (list_initiative_tasks r)
      ≡ false
unfolding cancel_superseded_dependents
cancel_superseded_dependents-none_left current reason now fuel r s named h =
    sweep_rounds-closed current (iteration_of current.metadata) reason now (list_initiative_tasks r)
      fuel _ s (rw named at h)

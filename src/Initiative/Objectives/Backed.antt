-- ===== src/Initiative/Objectives/Backed.antt =====
-- internal/orchestratorgo/httpapi/objectives.go: the loop of cancelSupersededObjectiveDependents, and
-- the work items that it knows.
use ia_lab.Prelude.{
  ℕ, zero, suc, ◌≡◌, ◌⊎◌, inl, inr, refl, sym, subst, ◌∙◌, String, true, false, some, List, [], ◌∷◌,
  All, All-map, Any, arith, Bool-cases, some_injective, if_true, if_false,
}
use ia_lab.Task.Model.{Task, Db, Result, ok, err}
use ia_lab.Task.Laws.Results.{ok_injective}
use ia_lab.Initiative.Model.{LinkedTask}
use ia_lab.Initiative.Objectives.{
  Sweep, has_text, is_left, work_item_id, cancel_superseded, supersede, sweep_item, sweep_rest,
  sweep_items, after_round, sweep_rounds,
}
use ia_lab.Initiative.Objectives.Cancelled.{
  IsSettled, is_under_way, IsTakenBack, cancel_superseded-settles, IsSettled-keeps,
}

-- The identifier is that of the replaced item, or of one that is settled.
abbrev pub IsKnown : List LinkedTask → String → Db → String → Type 0
IsKnown all own db x = (x ≡ own) ⊎ IsSettled all db x

-- The sweep knows the replaced item, and every item that it knows is settled.
pub record IsBacked (all : List LinkedTask) (own : String) (s : Sweep) : Type 0 where
  pub known : All (IsKnown all own s.db) s.superseded
  pub replaced : has_text s.superseded own ≡ true

module _ (current : Task) (iteration : ℕ) (reason : String) (now : ℕ) (all : List LinkedTask)
    (own : String) where
  supersede-IsBacked :
      (i : LinkedTask) (s s' : Sweep) (res : Result Db)
      → ((P : LinkedTask → Type 0) → P i → Any P all)
      → cancel_superseded iteration reason now i s.db ≡ res
      → supersede i s res ≡ ok s'
      → IsBacked all own s
      → IsBacked all own s'
  supersede-IsBacked i s s' (err e) here ran h b = cc h
  supersede-IsBacked i s s' (ok db) here ran h b =
      let (settled, keeps) = cancel_superseded-settles iteration reason now i s.db db ran in
      subst (IsBacked all own) (ok_injective h) (record {
        known = (
          inr (
              here
                (λ j.
                  (work_item_id j ≡ work_item_id i)
                  × ((is_under_way j.task.state ≡ true) ⊎ IsTakenBack j.task.id db))
                (refl, settled)),
          All-map (IsKnown all own s.db) (IsKnown all own db) s.superseded (kept db keeps) b.known,
        );
        replaced = ground (arith, b.replaced);
      })
    where
      kept :
          (db : Db)
          → ((j : String) → IsTakenBack j s.db → IsTakenBack j db)
          → (x : String) → IsKnown all own s.db x
          → IsKnown all own db x
      kept db keeps x (inl same) = inl same
      kept db keeps x (inr settled) = inr (IsSettled-keeps all s.db db x keeps settled)

  sweep_item-IsBacked :
      (i : LinkedTask) (s s' : Sweep)
      → ((P : LinkedTask → Type 0) → P i → Any P all)
      → sweep_item current iteration reason now i s ≡ ok s'
      → IsBacked all own s
      → IsBacked all own s'
  unfolding sweep_item
  sweep_item-IsBacked i s s' here h b =
      elim (Bool-cases (is_left current iteration s.superseded i)) [
        | inr spared ↦ subst (IsBacked all own) (ok_injective (rw spared at h)) b
        | inl found ↦
            supersede-IsBacked i s s' (cancel_superseded iteration reason now i s.db) here refl
              (rw found at h) b
      ]

  sweep_rest-IsBacked :
      (items : List LinkedTask) (s' : Sweep) (res : Result Sweep)
      → ((s1 : Sweep) → res ≡ ok s1 → IsBacked all own s1)
      → ((s1 : Sweep)
          → sweep_items current iteration reason now items s1 ≡ ok s'
          → IsBacked all own s1
          → IsBacked all own s')
      → sweep_rest (sweep_items current iteration reason now items) res ≡ ok s'
      → IsBacked all own s'
  sweep_rest-IsBacked items s' (err e) one later h = cc h
  sweep_rest-IsBacked items s' (ok s1) one later h = later s1 h (one s1 refl)

  sweep_items-IsBacked :
      (items : List LinkedTask) (s s' : Sweep)
      → ((P : LinkedTask → Type 0) → Any P items → Any P all)
      → sweep_items current iteration reason now items s ≡ ok s'
      → IsBacked all own s
      → IsBacked all own s'
  unfolding sweep_items
  sweep_items-IsBacked [] s s' within h b = subst (IsBacked all own) (ok_injective h) b
  sweep_items-IsBacked (i ∷ items) s s' within h b =
      sweep_rest-IsBacked items s' (sweep_item current iteration reason now i s)
        (λ s1 e. sweep_item-IsBacked i s s1 (λ P p. within P (inl p)) e b)
        (λ s1 e c. sweep_items-IsBacked items s1 s' (λ P p. within P (inr p)) e c) h

  after_round-IsBacked :
      (fuel : ℕ) (s' : Sweep) (res : Result Sweep)
      → ((s1 : Sweep) → res ≡ ok s1 → IsBacked all own s1)
      → ((s1 : Sweep)
          → sweep_rounds current iteration reason now all fuel s1 ≡ some (ok s')
          → IsBacked all own s1
          → IsBacked all own s')
      → after_round (sweep_rounds current iteration reason now all fuel) res ≡ some (ok s')
      → IsBacked all own s'
  after_round-IsBacked fuel s' (err e) one later h = cc h
  after_round-IsBacked fuel s' (ok s1) one later h = elim (Bool-cases s1.changed) [
    | inl again ↦ later s1 (sym (if_true s1.changed _ _ again) ∙ h) (one s1 refl)
    | inr quiet ↦
        subst (IsBacked all own)
          (ok_injective (some_injective (sym (if_false s1.changed _ _ quiet) ∙ h))) (one s1 refl)
  ]

  pub sweep_rounds-IsBacked :
      (fuel : ℕ) (s s' : Sweep)
      → sweep_rounds current iteration reason now all fuel s ≡ some (ok s')
      → IsBacked all own s
      → IsBacked all own s'
  unfolding sweep_rounds
  sweep_rounds-IsBacked zero s s' h b = cc h
  sweep_rounds-IsBacked (suc fuel) s s' h b =
      after_round-IsBacked fuel s'
        (sweep_items current iteration reason now all (record s { changed = false }))
        (λ s1 e.
          sweep_items-IsBacked all (record s { changed = false }) s1 (λ P p. p) e
            (record { known = b.known; replaced = b.replaced }))
        (λ s1 e c. sweep_rounds-IsBacked fuel s1 s' e c) h

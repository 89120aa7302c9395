-- ===== src/Initiative/Status/Laws.antt =====
-- The aggregated status, described without the loop.
use ia_lab.Prelude.{
  ◌≡◌, refl, ap, ◌∙◌, Bool, true, false, not, ◌&&◌, ◌||◌, List, [], ◌∷◌, any, arith, if◌then◌else◌,
}
use ia_lab.Task.State.{TaskState, failed, state_eq}
use ia_lab.Initiative.Status.{
  InitiativeStatus, executing, blocked, execution_ready, TaskLink, Flags, is_pending_manual,
  is_superseded, visit, visit_all, no_flags, conclude, derive_initiative_execution_status,
}

-- An item that stops the initiative: its task failed, or was cancelled and not replaced.
abbrev pub is_broken : TaskLink → Bool
is_broken i =
    state_eq i.task.state failed
    || (state_eq i.task.state TaskState.cancelled && not (is_superseded i))

-- An item that needs no more work: completed, or replaced by a repair cycle.
abbrev pub is_done : TaskLink → Bool
is_done i =
    state_eq i.task.state TaskState.completed
    || (state_eq i.task.state TaskState.cancelled && is_superseded i)

-- An item at work or about to be: none of the above, and no operator has to launch it.
abbrev pub is_active : TaskLink → Bool
is_active i = not (is_broken i) && not (is_done i) && not (is_pending_manual i)

-- The flags after the loop, each a question about the items.
summary : List TaskLink → Flags → Flags
summary items f = record {
  has_failed = f.has_failed || any is_broken items;
  has_running = f.has_running || any is_active items;
  has_pending_manual = f.has_pending_manual || any is_pending_manual items;
  all_terminal = f.all_terminal && not (any (λ i. not (is_done i)) items);
}

visit-summary :
    (i : TaskLink) (items : List TaskLink) (f : Flags)
    → summary items (visit i f) ≡ summary (i ∷ items) f
unfolding visit summary
visit-summary i items f = ground arith

visit_all-summary : (items : List TaskLink) (f : Flags) → visit_all items f ≡ summary items f
unfolding visit_all summary
visit_all-summary [] f = ground arith
visit_all-summary (i ∷ items) f = visit_all-summary items (visit i f) ∙ visit-summary i items f

or_left : (a b : Bool) → (a || b) ≡ false → a ≡ false
or_left a b h = ground arith

or_right : (a b : Bool) → (a || b) ≡ false → b ≡ false
or_right a b h = ground arith

or_false : (a b : Bool) → a ≡ false → b ≡ false → (a || b) ≡ false
or_false a b h k = ground arith

not_unfinished :
    (i : TaskLink)
    → is_broken i ≡ false
    → is_active i ≡ false
    → is_pending_manual i ≡ false
    → not (is_done i) ≡ false
not_unfinished i b a m = ground arith

unfinished_items :
    (items : List TaskLink)
    → any is_broken items ≡ false
    → any is_active items ≡ false
    → any is_pending_manual items ≡ false
    → any (λ i. not (is_done i)) items ≡ false
unfinished_items [] b a m = refl
unfinished_items (i ∷ items) b a m =
    or_false _ _ (not_unfinished i (or_left _ _ b) (or_left _ _ a) (or_left _ _ m))
      (unfinished_items items (or_right _ _ b) (or_right _ _ a) (or_right _ _ m))

concluded :
    (current : InitiativeStatus) (b a m n : Bool)
    → (b ≡ false → a ≡ false → m ≡ false → n ≡ false)
    → conclude current
        (record { has_failed = b; has_running = a; has_pending_manual = m; all_terminal = not n })
      ≡ (if b
          then blocked
          else if a
          then executing
          else if m
          then execution_ready
          else InitiativeStatus.completed)
unfolding conclude
concluded current true a m n h = refl
concluded current false true m n h = refl
concluded current false false true n h = refl
concluded current false false false n h = rw (h refl refl refl)

-- For an initiative with tasks, the loop over them gives blocked if an item is broken, else
-- executing if one is active, else execution_ready if one waits for an operator, else
-- completed.
pub derive-eq_description :
    (current : InitiativeStatus) (i : TaskLink) (items : List TaskLink)
    → let all = i ∷ items in
      derive_initiative_execution_status current all ≡ (
        if any is_broken all
        then blocked
        else if any is_active all
        then executing
        else if any is_pending_manual all
        then execution_ready
        else InitiativeStatus.completed)
unfolding derive_initiative_execution_status summary
derive-eq_description current i items =
    let all = i ∷ items in
    ap (conclude current) (visit_all-summary all no_flags)
    ∙ concluded current (any is_broken all) (any is_active all) (any is_pending_manual all)
        (any (λ j. not (is_done j)) all) (unfinished_items all)

-- ===== src/Initiative/StatusHttp.antt =====
-- deriveInitiativeExecutionStatusHTTP (internal/orchestratorgo/httpapi/initiatives.go), beside the
-- function of the store that it copies.
use ia_lab.Prelude.{
  ◌≡◌, refl, ap, Bool, true, false, ◌&&◌, List, [], ◌∷◌, any, arith, Bool-cases, inl, inr,
  if◌then◌else◌, str_eq,
}
use ia_lab.Task.State.{
  TaskState, created, queued, assigned, in_progress, waiting_approval, review, retrying, failed,
  state_eq,
}
use ia_lab.Initiative.Status.{
  InitiativeStatus, blocked, TaskLink, Flags, is_pending_manual, is_superseded, see, visit,
  visit_all, conclude, no_flags, derive_initiative_execution_status,
}

-- The switch of the loop, for an item that does not wait for an operator.
unfoldable see_http : TaskState → Flags → Flags
see_http failed f = record f { has_failed = true; all_terminal = false }
see_http TaskState.cancelled f = record f { has_failed = true; all_terminal = false }
see_http TaskState.completed f = f
see_http _ f = record f { has_running = true; all_terminal = false }

unfoldable visit_http : TaskLink → Flags → Flags
unfolding see_http
visit_http i f =
    if is_pending_manual i
    then record f { has_pending_manual = true; all_terminal = false }
    else see_http i.task.state f

unfoldable visit_all_http : List TaskLink → Flags → Flags
unfolding visit_http
visit_all_http [] f = f
visit_all_http (i ∷ items) f = visit_all_http items (visit_http i f)

unfoldable pub derive_initiative_execution_status_http :
    InitiativeStatus → List TaskLink → InitiativeStatus
unfolding visit_all_http
derive_initiative_execution_status_http current [] = current
derive_initiative_execution_status_http current (i ∷ items) =
    conclude current (visit_all_http (i ∷ items) no_flags)

-- An item that a repair cycle replaced.
abbrev pub was_replaced : TaskLink → Bool
was_replaced i = state_eq i.task.state TaskState.cancelled && is_superseded i

see-see_http :
    (s : TaskState) (superseded : Bool) (f : Flags)
    → (state_eq s TaskState.cancelled && superseded) ≡ false
    → see_http s f ≡ see s superseded f
unfolding see see_http
see-see_http created b f e = refl
see-see_http queued b f e = refl
see-see_http assigned b f e = refl
see-see_http in_progress b f e = refl
see-see_http waiting_approval b f e = refl
see-see_http review b f e = refl
see-see_http retrying b f e = refl
see-see_http failed b f e = refl
see-see_http TaskState.completed b f e = refl
see-see_http TaskState.cancelled b f e = rw e

visit_http-visit : (i : TaskLink) (f : Flags) → was_replaced i ≡ false → visit_http i f ≡ visit i f
unfolding visit_http visit
visit_http-visit i f e = elim (Bool-cases (is_pending_manual i)) [
  | inl manual ↦ rw manual
  | inr other ↦ rw other (see-see_http i.task.state (is_superseded i) f e)
]

visit_all_http-visit_all :
    (items : List TaskLink) (f : Flags)
    → any was_replaced items ≡ false
    → visit_all_http items f ≡ visit_all items f
unfolding visit_all_http visit_all
visit_all_http-visit_all [] f e = refl
visit_all_http-visit_all (i ∷ items) f e =
    rw (visit_http-visit i f (ground arith))
      (visit_all_http-visit_all items (visit i f) (ground arith))

-- Once an item has failed, the whole has.
see_http-failed :
    (s : TaskState) (f : Flags) → f.has_failed ≡ true → (see_http s f).has_failed ≡ true
unfolding see_http
see_http-failed failed f e = refl
see_http-failed TaskState.cancelled f e = refl
see_http-failed created f e = e
see_http-failed queued f e = e
see_http-failed assigned f e = e
see_http-failed in_progress f e = e
see_http-failed waiting_approval f e = e
see_http-failed review f e = e
see_http-failed retrying f e = e
see_http-failed TaskState.completed f e = e

visit_http-failed :
    (i : TaskLink) (f : Flags) → f.has_failed ≡ true → (visit_http i f).has_failed ≡ true
unfolding visit_http
visit_http-failed i f e = elim (Bool-cases (is_pending_manual i)) [
  | inl manual ↦ rw manual e
  | inr other ↦ rw other (see_http-failed i.task.state f e)
]

visit_all_http-failed :
    (items : List TaskLink) (f : Flags)
    → f.has_failed ≡ true
    → (visit_all_http items f).has_failed ≡ true
unfolding visit_all_http
visit_all_http-failed [] f e = e
visit_all_http-failed (i ∷ items) f e =
    visit_all_http-failed items (visit_http i f) (visit_http-failed i f e)

-- A cancelled task does not wait for an operator.
cancelled-parts :
    (manual superseded : Bool) (s : TaskState) (f : Flags)
    → (state_eq s TaskState.cancelled && superseded) ≡ true
    → ((manual && state_eq s created) ≡ false) × ((see_http s f).has_failed ≡ true)
unfolding see_http
cancelled-parts true b TaskState.cancelled f e = (refl, refl)
cancelled-parts false b TaskState.cancelled f e = (refl, refl)
cancelled-parts m b created f e = cc e
cancelled-parts m b queued f e = cc e
cancelled-parts m b assigned f e = cc e
cancelled-parts m b in_progress f e = cc e
cancelled-parts m b waiting_approval f e = cc e
cancelled-parts m b review f e = cc e
cancelled-parts m b retrying f e = cc e
cancelled-parts m b failed f e = cc e
cancelled-parts m b TaskState.completed f e = cc e

visit_http-replaced :
    (i : TaskLink) (f : Flags) → was_replaced i ≡ true → (visit_http i f).has_failed ≡ true
unfolding visit_http
visit_http-replaced i f e =
    let (other, broken) =
      cancelled-parts (str_eq i.execution_mode "manual") (is_superseded i) i.task.state f e in
    rw other broken

visit_all_http-replaced :
    (items : List TaskLink) (f : Flags)
    → any was_replaced items ≡ true
    → (visit_all_http items f).has_failed ≡ true
unfolding visit_all_http
visit_all_http-replaced [] f e = ground arith
visit_all_http-replaced (i ∷ items) f e = elim (Bool-cases (was_replaced i)) [
  | inl here ↦ visit_all_http-failed items (visit_http i f) (visit_http-replaced i f here)
  | inr other ↦ visit_all_http-replaced items (visit_http i f) (ground arith)
]

conclude-failed :
    (current : InitiativeStatus) (f : Flags) → f.has_failed ≡ true → conclude current f ≡ blocked
unfolding conclude
conclude-failed current f e = rw e

-- The status computed for the client is that of the store when no task of the initiative is
-- cancelled and superseded by a repair cycle, and is blocked when one is.
pub status_http-compared :
    (current : InitiativeStatus) (items : List TaskLink)
    → (any was_replaced items ≡ false
        → derive_initiative_execution_status_http current items
          ≡ derive_initiative_execution_status current items)
      × (any was_replaced items ≡ true
          → derive_initiative_execution_status_http current items ≡ blocked)
unfolding derive_initiative_execution_status_http derive_initiative_execution_status
status_http-compared current [] = (λ e. refl, λ e. ground arith)
status_http-compared current (i ∷ items) = (
  (λ e. ap (conclude current) (visit_all_http-visit_all (i ∷ items) no_flags e)),
  λ e.
      conclude-failed current (visit_all_http (i ∷ items) no_flags)
        (visit_all_http-replaced (i ∷ items) no_flags e),
)

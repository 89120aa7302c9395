-- ===== src/Task/Laws/Claims.antt =====
-- ClaimNextLocalBridgeTaskWithTTL and the running tasks of other bridges.
use ia_lab.Prelude.{
  some_injective, ℕ, String, ◌≡◌, refl, ap, subst, ◌∙◌, true, false, Option, none, some, filter,
  arith, str_eq, if◌then◌else◌,
}
use mathlib.Core.Option
use ia_lab.Task.State.{TaskState, queued, state_eq}
use ia_lab.Task.Model.{Task, Db, get_task, first_by}
use ia_lab.Task.Store.Recovery.{is_running}
use ia_lab.Task.Store.Leases.{LocalBridge, Postgres}
use ia_lab.Task.Store.Claims.{
  older, fresher, is_resumable, is_expired, is_claimable, expire_lease,
  LocalBridgeTaskClaimResponse, build_local_bridge_claim, requeue_expired, claim_queued,
  claim_resumable, claim_next_local_bridge_task,
}
use ia_lab.Task.Laws.Rows.{get_task-update_where}
use ia_lab.Task.Laws.Leases.{
  IsKeyed, IsHeld, held_not_expired, get_task-touch_ne, get_task-resume_ne, get_task-start_ne,
  chosen, other_id, IsKeyed-update_where,
}

held_row_requeued :
    (pg : Postgres) (bridge : LocalBridge) (db_now : ℕ) (db : Db) (k : String) (t : Task)
    → get_task k db.tasks ≡ some t
    → IsHeld pg bridge db_now t
    → get_task k (requeue_expired pg bridge db_now db).tasks ≡ some t
unfolding requeue_expired
held_row_requeued pg bridge db_now db k t there held =
    get_task-update_where k (is_expired pg bridge db_now) (expire_lease db_now) db.tasks (λ u. refl)
    ∙ (ap (Option.map (λ u. if is_expired pg bridge db_now u then expire_lease db_now u else u))
          there
        ∙ rw (held_not_expired pg bridge db_now t held))

IsKeyed-requeue_expired :
    (pg : Postgres) (bridge : LocalBridge) (db_now : ℕ) (db : Db)
    → IsKeyed db.tasks
    → IsKeyed (requeue_expired pg bridge db_now db).tasks
unfolding requeue_expired
IsKeyed-requeue_expired pg bridge db_now db =
    IsKeyed-update_where (is_expired pg bridge db_now) (expire_lease db_now) db.tasks (λ u. refl)

held_not_resumable :
    (pg : Postgres) (bridge : LocalBridge) (db_now : ℕ) (t : Task)
    → IsHeld pg bridge db_now t
    → is_resumable pg bridge t ≡ false
unfolding is_resumable
held_not_resumable pg bridge db_now t held = rw held.other (ground arith)

running_not_queued : (s : TaskState) → is_running s ≡ true → state_eq s queued ≡ false
running_not_queued s h = ground arith

held_not_claimable :
    (pg : Postgres) (bridge : LocalBridge) (db_now : ℕ) (t : Task)
    → IsHeld pg bridge db_now t
    → is_claimable pg bridge t ≡ false
unfolding is_claimable
held_not_claimable pg bridge db_now t held =
    rw (running_not_queued t.state held.running) (ground arith)

-- The held row stays, and it is not the one handed out.
IsSpared : String → Task → Db × Option LocalBridgeTaskClaimResponse → Type 0
IsSpared k t r =
    (get_task k r.0.tasks ≡ some t)
    × ((c : LocalBridgeTaskClaimResponse) → r.1 ≡ some c → str_eq c.task_id k ≡ false)

claimed_id :
    (u : Task) (bridge : LocalBridge) (k : String) (c : LocalBridgeTaskClaimResponse)
    → str_eq u.id k ≡ false
    → some (build_local_bridge_claim u bridge) ≡ some c
    → str_eq c.task_id k ≡ false
unfolding build_local_bridge_claim
claimed_id u bridge k c other e = subst (λ d. str_eq d.task_id k ≡ false) (some_injective e) other

claim_queued-IsSpared :
    (pg : Postgres) (bridge : LocalBridge) (ttl now leased_at : ℕ) (db : Db) (k : String) (t : Task)
    (o : Option Task)
    → first_by older (filter (is_claimable pg bridge) db.tasks) ≡ o
    → IsKeyed db.tasks
    → get_task k db.tasks ≡ some t
    → is_claimable pg bridge t ≡ false
    → IsSpared k t (claim_queued pg bridge ttl now leased_at o db)
unfolding claim_queued IsSpared
claim_queued-IsSpared pg bridge ttl now leased_at db k t none e keyed there no_t =
    (there, λ c p. cc)
claim_queued-IsSpared pg bridge ttl now leased_at db k t (some u) e keyed there no_t =
    let (yes_u, (found, trimmed)) = chosen (is_claimable pg bridge) older db.tasks u keyed e in
    let other : str_eq u.id k ≡ false =
      other_id (is_claimable pg bridge) db.tasks u t k found there yes_u no_t in
    (
      get_task-touch_ne u.id k bridge.id ttl "claimed" leased_at _ (rw trimmed other)
          ∙ (get_task-start_ne bridge u k now db other ∙ there),
      λ c p. claimed_id u bridge k c other p,
    )

claim_resumable-IsSpared :
    (pg : Postgres) (bridge : LocalBridge) (ttl db_now now leased_at : ℕ) (db : Db) (k : String)
    (t : Task) (o : Option Task)
    → first_by fresher (filter (is_resumable pg bridge) db.tasks) ≡ o
    → IsKeyed db.tasks
    → get_task k db.tasks ≡ some t
    → IsHeld pg bridge db_now t
    → IsSpared k t (claim_resumable pg bridge ttl db_now now leased_at o db)
unfolding claim_resumable IsSpared
claim_resumable-IsSpared pg bridge ttl db_now now leased_at db k t none e keyed there held =
    claim_queued-IsSpared pg bridge ttl now leased_at (requeue_expired pg bridge db_now db) k t _
      refl (IsKeyed-requeue_expired pg bridge db_now db keyed)
      (held_row_requeued pg bridge db_now db k t there held)
      (held_not_claimable pg bridge db_now t held)
claim_resumable-IsSpared pg bridge ttl db_now now leased_at db k t (some u) e keyed there held =
    let (yes_u, (found, trimmed)) = chosen (is_resumable pg bridge) fresher db.tasks u keyed e in
    let other : str_eq u.id k ≡ false =
      other_id (is_resumable pg bridge) db.tasks u t k found there yes_u
        (held_not_resumable pg bridge db_now t held) in
    (
      get_task-touch_ne u.id k bridge.id ttl "resumed" leased_at _ (rw trimmed other)
          ∙ (get_task-resume_ne bridge u k now db other ∙ there),
      λ c p. claimed_id u bridge k c other p,
    )

-- If the identifiers of the rows are a key, claiming a task for a registered local bridge
-- leaves a running task under another bridge's unexpired lease as it is, and does not hand it
-- out.
pub claim_spares_held :
    (pg : Postgres) (bridge : LocalBridge) (ttl db_now now leased_at : ℕ) (db : Db) (k : String)
    (t : Task)
    → IsKeyed db.tasks
    → get_task k db.tasks ≡ some t
    → IsHeld pg bridge db_now t
    → let r = claim_next_local_bridge_task pg (some bridge) ttl db_now now leased_at db in
      (get_task k r.0.tasks ≡ some t)
      × ((c : LocalBridgeTaskClaimResponse) → r.1 ≡ some c → str_eq c.task_id k ≡ false)
unfolding claim_next_local_bridge_task IsSpared
claim_spares_held pg bridge ttl db_now now leased_at db k t keyed there held =
    claim_resumable-IsSpared pg bridge ttl db_now now leased_at db k t _ refl keyed there held

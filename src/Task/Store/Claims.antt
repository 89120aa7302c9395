-- ===== src/Task/Store/Claims.antt =====
-- ClaimNextLocalBridgeTaskWithTTL and buildLocalBridgeClaim (store/postgres.go). The three clocks
-- are the database's NOW(), the transaction's and that of the lease.
use Prim.Native.String.{compare}
use Prim.Native.Nat.{Ordering}
use ia_lab.Prelude.{
  ℕ, ◌+◌, String, Bool, true, false, not, ◌&&◌, ◌||◌, Option, none, some, is_some, is_blank,
  is_empty, trim_space, str_append, str_eq, ltb, ◌==◌, filter, if◌then◌else◌,
}
use ia_lab.Prelude.Json
use ia_lab.Prelude.Json.{Json, Fields, end, field}
use ia_lab.Task.State.{
  AgentType, assigned, in_progress, retrying, queued, coder, reviewer, researcher, state_eq,
  is_local,
}
use ia_lab.Task.Model.{Task, Db, update_where, first_by}
use ia_lab.Task.Store.{transition_task_state_tx}
use ia_lab.Task.Store.Create.{agent_text}
use ia_lab.Task.Store.Recovery.{is_running}
use ia_lab.Task.Store.Leases.{LocalBridge, Postgres, touch_local_bridge_task_lease}

-- `assigned_agent IN ('coder', 'researcher', 'reviewer')`
abbrev is_bridge_agent : Option AgentType → Bool
is_bridge_agent (some coder) = true
is_bridge_agent (some researcher) = true
is_bridge_agent (some reviewer) = true
is_bridge_agent _ = false

-- `metadata->'local_bridge_lease'`, whose fields are read
abbrev as_fields : Option Json → Fields
as_fields (some (Json.obj m)) = m
as_fields _ = end

abbrev pub lease_of : Task → Fields
lease_of t = as_fields (Json.get "local_bridge_lease" t.metadata)

module _ (pg : Postgres) where
  -- `COALESCE(value->>key, '')` and `COALESCE((value->>key)::timestamptz, to_timestamp(0))`
  abbrev pub text_or_empty : Option Json → String
  text_or_empty none = ""
  text_or_empty (some Json.null) = ""
  text_or_empty (some v) = pg.as_text v

  abbrev pub time_or_zero : Option Json → ℕ
  time_or_zero none = 0
  time_or_zero (some Json.null) = 0
  time_or_zero (some v) = pg.as_timestamp v

  abbrev pub holder : Task → String
  holder t = text_or_empty (Json.get "bridge_id" (lease_of t))

  abbrev pub expires : Task → ℕ
  expires t = time_or_zero (Json.get "lease_expires_at" (lease_of t))

  -- The tests that the three statements share.
  unfoldable pub serves : String → Task → Bool
  serves root t =
      is_local t.execution_target
      && is_bridge_agent t.assigned_agent
      && not (is_some t.archived_at)
      && (let own = text_or_empty (Json.get "workspace_root" t.metadata) in
          is_empty own || str_eq own root)

  unfoldable pub is_resumable : LocalBridge → Task → Bool
  is_resumable bridge t =
      serves bridge.workspace_root t && is_running t.state && str_eq (holder t) bridge.id

  unfoldable pub is_expired : LocalBridge → ℕ → Task → Bool
  is_expired bridge db_now t =
      serves bridge.workspace_root t
      && is_running t.state
      && not (str_eq (holder t) bridge.id)
      && ltb (expires t) db_now

  unfoldable pub is_claimable : LocalBridge → Task → Bool
  is_claimable bridge t = serves bridge.workspace_root t && state_eq t.state queued

abbrev text_lt : String → String → Bool
text_lt a b = elim (compare a b) [ Ordering.lt ↦ true | _ ↦ false ]

-- ORDER BY created_at ASC, id ASC
abbrev pub older : Task → Task → Bool
older a b = ltb a.created_at b.created_at || (a.created_at == b.created_at && text_lt a.id b.id)

-- ORDER BY updated_at DESC, created_at ASC, id ASC
abbrev pub fresher : Task → Task → Bool
fresher a b = ltb b.updated_at a.updated_at || (a.updated_at == b.updated_at && older a b)

unfoldable pub expire_lease : ℕ → Task → Task
expire_lease db_now t = record t {
  state = queued;
  retry_count = t.retry_count + 1;
  queued_at = some db_now;
  updated_at = db_now;
  metadata =
      Json.put "local_bridge_lease"
        (Json.concat (Json.get "local_bridge_lease" t.metadata)
          (field "status" (Json.str "expired") (field "requeued_at" (Json.stamp db_now) end)))
        t.metadata;
}

pub record LocalBridgeTaskClaimResponse : Type 0 where
  pub task_id : String
  pub root_task_id : Option String
  pub parent_task_id : Option String
  pub description : String
  pub assigned_agent : String
  pub execution_target : String
  pub workspace_path : String
  pub workspace_root : String
  pub metadata : Fields
  pub repo_path : String
  pub branch : String

-- strings.TrimSpace(asString(value)), with a default for a blank text
abbrev string_or : Option Json → String → String
string_or (some (Json.str s)) d = if is_blank s then d else trim_space s
string_or _ d = d

abbrev agent_or_empty : Option AgentType → String
agent_or_empty none = ""
agent_or_empty (some a) = agent_text a

abbrev text_or : Option String → String
text_or none = ""
text_or (some s) = s

unfoldable pub build_local_bridge_claim : Task → LocalBridge → LocalBridgeTaskClaimResponse
build_local_bridge_claim t bridge =
    let root = string_or (Json.get "workspace_root" t.metadata) bridge.workspace_root in
    record {
      task_id = t.id;
      root_task_id = t.root_task_id;
      parent_task_id = t.parent_task_id;
      description = t.description;
      assigned_agent = agent_or_empty t.assigned_agent;
      execution_target = if is_local t.execution_target then "local" else "remote";
      workspace_path = text_or t.workspace_path;
      workspace_root = root;
      metadata = t.metadata;
      repo_path = string_or (Json.get "repo_path" t.metadata) root;
      branch = string_or (Json.get "branch" t.metadata) "main";
    }

-- The resumed task goes to `in_progress` if it is not there.
unfoldable pub resume : LocalBridge → Task → ℕ → Db → Db
resume bridge t now db =
    if state_eq t.state assigned
    then transition_task_state_tx t.id assigned in_progress (str_append "bridge:" bridge.id)
        "Execution resumed in local bridge" now db
    else if state_eq t.state retrying
    then transition_task_state_tx t.id retrying in_progress (str_append "bridge:" bridge.id)
        "Retry resumed in local bridge" now db
    else db

unfoldable pub start : LocalBridge → Task → ℕ → Db → Db
start bridge t now db =
    transition_task_state_tx t.id assigned in_progress (str_append "bridge:" bridge.id)
      "Execution started in local bridge" now
      (transition_task_state_tx t.id queued assigned (str_append "bridge:" bridge.id)
        "Dequeued for local bridge" now db)

module _ (pg : Postgres) where
  unfoldable pub requeue_expired : LocalBridge → ℕ → Db → Db
  unfolding expire_lease is_expired serves
  requeue_expired bridge db_now db = record db {
    tasks = update_where (is_expired pg bridge db_now) (expire_lease db_now) db.tasks;
  }

  unfoldable pub claim_queued :
      LocalBridge → ℕ → ℕ → ℕ → Option Task → Db → Db × Option LocalBridgeTaskClaimResponse
  claim_queued bridge ttl now leased_at none db = (db, none)
  claim_queued bridge ttl now leased_at (some t) db = (
    touch_local_bridge_task_lease t.id bridge.id ttl "claimed" none none none leased_at
        (start bridge t now db),
    some (build_local_bridge_claim t bridge),
  )

  unfoldable pub claim_resumable :
      LocalBridge → ℕ → ℕ → ℕ → ℕ → Option Task → Db → Db × Option LocalBridgeTaskClaimResponse
  claim_resumable bridge ttl db_now now leased_at (some t) db = (
    touch_local_bridge_task_lease t.id bridge.id ttl "resumed" none none none leased_at
        (resume bridge t now db),
    some (build_local_bridge_claim t bridge),
  )
  claim_resumable bridge ttl db_now now leased_at none db =
      let requeued = requeue_expired bridge db_now db in
      claim_queued bridge ttl now leased_at
        (first_by older (filter (is_claimable pg bridge) requeued.tasks)) requeued

  -- A bridge that is not registered gets nothing.
  unfoldable pub claim_next_local_bridge_task :
      Option LocalBridge → ℕ → ℕ → ℕ → ℕ → Db → Db × Option LocalBridgeTaskClaimResponse
  claim_next_local_bridge_task none ttl db_now now leased_at db = (db, none)
  claim_next_local_bridge_task (some bridge) ttl db_now now leased_at db =
      claim_resumable bridge ttl db_now now leased_at
        (first_by fresher (filter (is_resumable pg bridge) db.tasks)) db

-- ===== src/Task/Store/Leases.antt =====
-- Leases of local bridges on tasks: TouchLocalBridgeTaskLease and FinalizeLocalBridgeTaskLease
-- (store/postgres.go).
use ia_lab.Prelude.{
  ℕ, ◌+◌, ◌*◌, String, ◌≡◌, ◌||◌, Option, none, some, is_blank, trim_space, ◌==◌, if◌then◌else◌,
}
use ia_lab.Prelude.Json
use ia_lab.Prelude.Json.{Json, Fields, end, field}
use ia_lab.Task.Model.{Db}
use ia_lab.Task.Store.{patch_task_metadata}
use ia_lab.Task.Store.Recovery.{rfc3339}

pub record LocalBridge : Type 0 where
  pub id : String
  pub workspace_root : String

-- What PostgreSQL makes of a JSON value: `->>` and `::timestamptz`. (A cast that fails, which stops
-- the whole statement, is left out.)
pub record Postgres : Type 0 where
  pub as_text : Json → String
  pub as_timestamp : Json → ℕ
  pub as_text-str : (s : String) → as_text (Json.str s) ≡ s
  pub as_timestamp-stamp : (t : ℕ) → as_timestamp (Json.stamp t) ≡ t

-- An optional text that is not blank, trimmed.
abbrev given : Option String → Option String
given none = none
given (some s) = if is_blank s then none else some (trim_space s)

abbrev given_or : Option String → String → String
given_or none d = d
given_or (some s) d = s

-- nonEmptyBridgeLeaseStatus
abbrev pub non_empty_bridge_lease_status : String → String → String
non_empty_bridge_lease_status value fallback = if is_blank value then fallback else trim_space value

abbrev put_given : String → Option String → Fields → Fields
put_given k none m = m
put_given k (some v) m = Json.put k (Json.str v) m

abbrev with_notes : Option String → Option String → Fields → Fields
with_notes tool summary m = put_given "summary" (given summary) (put_given "tool" (given tool) m)

abbrev pub ttl_or_default : ℕ → ℕ
ttl_or_default ttl_seconds = if ttl_seconds == 0 then 45 else ttl_seconds

-- The patch of a heartbeat or of a release; `released` adds `released_at`.
lease_patch : Fields → String → String → String → ℕ → ℕ → Option String → Option String → Fields
lease_patch released bridge_id status stage now expires_at tool summary =
    field "local_bridge_lease"
      (Json.obj (
        with_notes tool summary (
          field "bridge_id" (Json.str bridge_id) (
            field "status" (Json.str status) (
              field "last_heartbeat_at" (rfc3339 now)
                (field "lease_expires_at" (rfc3339 expires_at) released))))))
      (field "recovery_checkpoint"
        (Json.obj (
          with_notes tool summary (
            field "stage" (Json.str stage) (
              field "bridge_id" (Json.str bridge_id) (
                field "updated_at" (rfc3339 now) (
                  field "lease_expires_at" (rfc3339 expires_at)
                    (Json.merge released (field "execution_target" (Json.str "local") end))))))))
        end)

-- A non-positive time to live stands for 45 seconds; here it is 0.
unfoldable pub touch_local_bridge_task_lease :
    String → String → ℕ → String → Option String → Option String → Option String → ℕ → Db → Db
unfolding lease_patch
touch_local_bridge_task_lease task_id bridge_id ttl_seconds status stage tool summary now db =
    if is_blank task_id || is_blank bridge_id
    then db
    else patch_task_metadata (trim_space task_id)
        (lease_patch end (trim_space bridge_id) (non_empty_bridge_lease_status status "active")
          (given_or (given stage) (non_empty_bridge_lease_status status "active")) now
          (now + ttl_or_default ttl_seconds * 1000000) tool summary)
        now db

unfoldable pub finalize_local_bridge_task_lease :
    String → String → String → Option String → Option String → Option String → ℕ → Db → Db
unfolding lease_patch
finalize_local_bridge_task_lease task_id bridge_id status stage tool summary now db =
    if is_blank task_id || is_blank bridge_id
    then db
    else patch_task_metadata (trim_space task_id)
        (lease_patch (field "released_at" (rfc3339 now) end) (trim_space bridge_id)
          (non_empty_bridge_lease_status status "completed")
          (given_or (given stage) (non_empty_bridge_lease_status status "completed")) now now tool
          summary)
        now db

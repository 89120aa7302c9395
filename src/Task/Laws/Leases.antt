-- ===== src/Task/Laws/Leases.antt =====
-- Rows under their identifiers, the leases on them, and the choice of a row by a claim.
use ia_lab.Prelude.{
  some_injective, ℕ, ◌≤◌, String, ◌≡◌, refl, sym, ap, subst, ◌∙◌, Bool, true, false, ◌&&◌, ◌||◌,
  Option, none, some, List, [], ◌∷◌, All, All-filter, All-filter_of_All, All-zip, filter, arith,
  eq_iff, str_eq, is_blank, trim_space, ltb, if◌then◌else◌, Option-cases, Bool-cases, &&_right, inl,
  inr,
}
use ia_lab.Task.State.{TaskState, assigned, retrying, queued, state_eq, state_eq_iff}
use ia_lab.Task.Model.{Task, Db, get_task, update_where, first_by}
use ia_lab.Task.Store.{stamp_transition, transition_task_state_tx, patch_task_metadata}
use ia_lab.Task.Store.Recovery.{is_running}
use ia_lab.Task.Store.Leases.{LocalBridge, Postgres, touch_local_bridge_task_lease}
use ia_lab.Task.Store.Claims.{
  holder, expires, serves, is_resumable, is_expired, is_claimable, resume, start,
}
use ia_lab.Task.Laws.Rows.{get_task-update_task_ne, get_task-update_where}

-- The primary key: a row is found under its identifier, which has no space round it.
abbrev pub IsKeyed : List Task → Type 0
IsKeyed ts = All (λ t. (get_task t.id ts ≡ some t) × (trim_space t.id ≡ t.id)) ts

first_of_two {κ} :
    (P : Task → Type κ) (b : Bool) (u v t : Task)
    → P u
    → P v
    → (if b then some v else some u) ≡ some t
    → P t
first_of_two P true u v t hu hv e = subst P (some_injective e) hv
first_of_two P false u v t hu hv e = subst P (some_injective e) hu

All-first_by {κ} :
    (P : Task → Type κ) (before : Task → Task → Bool) (ts : List Task) (t : Task)
    → All P ts
    → first_by before ts ≡ some t
    → P t
All-first_by P before [] t h e = cc
All-first_by P before (u ∷ ts) t h e = elim (Option-cases (first_by before ts)) [
  | inl last ↦ subst P (some_injective (rw last at e)) h.0
  | inr (v, rest) ↦
      first_of_two P (before v u) u v t h.0 (All-first_by P before ts v h.1 rest) (rw rest at e)
]

not_ltb : (a b : ℕ) → b ≤ a → ltb a b ≡ false
not_ltb a b h = ground arith

if_same :
    (b : Bool) (x y : Db) (f : Db → Option Task) (o : Option Task)
    → f x ≡ o
    → f y ≡ o
    → f (if b then x else y) ≡ o
if_same true x y f o h k = h
if_same false x y f o h k = k

-- Conjuncts of the tests.
holder_of_resumable :
    (pg : Postgres) (bridge : LocalBridge) (t : Task)
    → is_resumable pg bridge t ≡ true
    → str_eq (holder pg t) bridge.id ≡ true
unfolding is_resumable
holder_of_resumable pg bridge t h =
    &&_right (serves pg bridge.workspace_root t && is_running t.state) _ h

queued_of_claimable :
    (pg : Postgres) (bridge : LocalBridge) (t : Task)
    → is_claimable pg bridge t ≡ true
    → t.state ≡ queued
unfolding is_claimable
queued_of_claimable pg bridge t h =
    (state_eq_iff t.state queued).0 (&&_right (serves pg bridge.workspace_root t) _ h)

-- What a claim must not touch: a running task whose lease another bridge still holds.
pub record IsHeld (pg : Postgres) (bridge : LocalBridge) (db_now : ℕ) (t : Task) : Type 0 where
  pub running : is_running t.state ≡ true
  pub other : str_eq (holder pg t) bridge.id ≡ false
  pub unexpired : db_now ≤ expires pg t

pub held_not_expired :
    (pg : Postgres) (bridge : LocalBridge) (db_now : ℕ) (t : Task)
    → IsHeld pg bridge db_now t
    → is_expired pg bridge db_now t ≡ false
unfolding is_expired
held_not_expired pg bridge db_now t h =
    let late : ltb (expires pg t) db_now ≡ false = not_ltb _ _ h.unexpired in rw late (ground arith)

-- A row that the chosen one is not.
pub get_task-touch_ne :
    (k j bridge_id : String) (ttl : ℕ) (status : String) (now : ℕ) (db : Db)
    → str_eq (trim_space k) j ≡ false
    → get_task j (touch_local_bridge_task_lease k bridge_id ttl status none none none now db).tasks
      ≡ get_task j db.tasks
unfolding touch_local_bridge_task_lease patch_task_metadata
get_task-touch_ne k j bridge_id ttl status now db other =
    elim (Bool-cases (is_blank k || is_blank bridge_id)) [
      | inl blank ↦ rw blank
      | inr named ↦ rw named (get_task-update_task_ne (trim_space k) j _ db.tasks (λ t. refl) other)
    ]

get_task-transition_ne :
    (k j : String) (from target : TaskState) (actor reason : String) (now : ℕ) (db : Db)
    → str_eq k j ≡ false
    → get_task j (transition_task_state_tx k from target actor reason now db).tasks
      ≡ get_task j db.tasks
unfolding transition_task_state_tx stamp_transition
get_task-transition_ne k j from target actor reason now db other =
    get_task-update_task_ne k j (stamp_transition target now) db.tasks (λ t. refl) other

pub get_task-resume_ne :
    (bridge : LocalBridge) (t : Task) (j : String) (now : ℕ) (db : Db)
    → str_eq t.id j ≡ false
    → get_task j (resume bridge t now db).tasks ≡ get_task j db.tasks
unfolding resume
get_task-resume_ne bridge t j now db other =
    if_same (state_eq t.state assigned) _ _ (λ d. get_task j d.tasks) (get_task j db.tasks)
      (get_task-transition_ne t.id j _ _ _ _ now db other)
      (if_same (state_eq t.state retrying) _ _ (λ d. get_task j d.tasks) (get_task j db.tasks)
        (get_task-transition_ne t.id j _ _ _ _ now db other) refl)

pub get_task-start_ne :
    (bridge : LocalBridge) (t : Task) (j : String) (now : ℕ) (db : Db)
    → str_eq t.id j ≡ false
    → get_task j (start bridge t now db).tasks ≡ get_task j db.tasks
unfolding start
get_task-start_ne bridge t j now db other =
    get_task-transition_ne t.id j _ _ _ _ now _ other
    ∙ get_task-transition_ne t.id j _ _ _ _ now db other

-- The row that is chosen from keyed rows is the one under its identifier.
pub chosen :
    (p : Task → Bool) (before : Task → Task → Bool) (ts : List Task) (u : Task)
    → IsKeyed ts
    → first_by before (filter p ts) ≡ some u
    → (p u ≡ true) × ((get_task u.id ts ≡ some u) × (trim_space u.id ≡ u.id))
chosen p before ts u keyed e =
    All-first_by (λ t. (p t ≡ true) × ((get_task t.id ts ≡ some t) × (trim_space t.id ≡ t.id)))
      before (filter p ts) u
      (All-zip _ _ (filter p ts) (All-filter p ts) (All-filter_of_All _ p ts keyed)) e

-- Two rows that a test tells apart have different identifiers.
pub other_id :
    (p : Task → Bool) (ts : List Task) (u t : Task) (k : String)
    → get_task u.id ts ≡ some u
    → get_task k ts ≡ some t
    → p u ≡ true
    → p t ≡ false
    → str_eq u.id k ≡ false
other_id p ts u t k hu ht yes_u no_t = elim (Bool-cases (str_eq u.id k)) [
  | inr other ↦ other
  | inl same ↦
      let there : get_task k ts ≡ some u =
        subst (λ i. get_task i ts ≡ some u) ((eq_iff u.id k).0 same) hu in
      let one : u ≡ t = some_injective (sym there ∙ ht) in
      let clash : true ≡ false = sym yes_u ∙ (ap p one ∙ no_t) in cc clash
]

keyed_rest :
    (p : Task → Bool) (f : Task → Task) (ts xs : List Task)
    → ((t : Task) → (f t).id ≡ t.id)
    → All (λ t. (get_task t.id ts ≡ some t) × (trim_space t.id ≡ t.id)) xs
    → All
        (λ t. (get_task t.id (update_where p f ts) ≡ some t) × (trim_space t.id ≡ t.id))
        (update_where p f xs)
keyed_rest p f ts [] same keyed = tt
keyed_rest p f ts (x ∷ xs) same keyed = ground (
  arith,
  keyed.0,
  same x,
  get_task-update_where x.id p f ts same,
  keyed_rest p f ts xs same keyed.1,
)

pub IsKeyed-update_where :
    (p : Task → Bool) (f : Task → Task) (ts : List Task)
    → ((t : Task) → (f t).id ≡ t.id)
    → IsKeyed ts
    → IsKeyed (update_where p f ts)
IsKeyed-update_where p f ts same keyed = keyed_rest p f ts ts same keyed

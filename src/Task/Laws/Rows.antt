-- ===== src/Task/Laws/Rows.antt =====
-- Lookups in the rows after an update, an insertion and a bulk update.
use ia_lab.Prelude.{
  String, ◌≡◌, refl, Bool, false, some, List, [], ◌∷◌, All, arith, ◌∙◌, ap, eq_refl, eq_iff, str_eq,
  if◌then◌else◌,
}
use mathlib.Core.Option
use ia_lab.Task.Model.{
  Task, Approval, get_task, update_task, get_approval, update_approval, update_where,
}

-- An update that keeps identifiers is seen at its own key only.
pub get_task-update_task :
    (k j : String) (f : Task → Task) (ts : List Task)
    → ((t : Task) → (f t).id ≡ t.id)
    → get_task j (update_task k f ts)
      ≡ (if str_eq k j then Option.map f (get_task j ts) else get_task j ts)
get_task-update_task k j f [] h = ground arith
get_task-update_task k j f (t ∷ ts) h =
    ground (arith, h t, eq_iff k j, eq_iff t.id k, eq_iff t.id j, get_task-update_task k j f ts h)

pub get_approval-update_approval :
    (k j : String) (f : Approval → Approval) (l : List Approval)
    → ((a : Approval) → (f a).id ≡ a.id)
    → get_approval j (update_approval k f l)
      ≡ (if str_eq k j then Option.map f (get_approval j l) else get_approval j l)
get_approval-update_approval k j f [] h = ground arith
get_approval-update_approval k j f (a ∷ l) h =
    ground
      (arith, h a, eq_iff k j, eq_iff a.id k, eq_iff a.id j, get_approval-update_approval k j f l h)

pub get_task-update_where :
    (j : String) (p : Task → Bool) (f : Task → Task) (ts : List Task)
    → ((t : Task) → (f t).id ≡ t.id)
    → get_task j (update_where p f ts) ≡ Option.map (λ t. if p t then f t else t) (get_task j ts)
get_task-update_where j p f [] h = refl
get_task-update_where j p f (t ∷ ts) h =
    ground (arith, h t, eq_iff t.id j, get_task-update_where j p f ts h)

-- The row that a lookup finds has the key.
pub id-get_task : (k : String) (ts : List Task) (t : Task) → get_task k ts ≡ some t → t.id ≡ k
id-get_task k [] t h = ground arith
id-get_task k (u ∷ ts) t h = ground (arith, eq_iff u.id k, id-get_task k ts t)

-- What holds of all rows holds after an update that keeps it.
pub All-update_task {κ} :
    (P : Task → Type κ) (k : String) (f : Task → Task) (ts : List Task)
    → ((t : Task) → P t → P (f t))
    → All P ts
    → All P (update_task k f ts)
All-update_task P k f [] h a = a
All-update_task P k f (t ∷ ts) h a = ground (arith, h t a.0, All-update_task P k f ts h a.1)

pub All-update_where {κ} :
    (P : Task → Type κ) (p : Task → Bool) (f : Task → Task) (ts : List Task)
    → ((t : Task) → P t → P (f t))
    → All P ts
    → All P (update_where p f ts)
All-update_where P p f [] h a = a
All-update_where P p f (t ∷ ts) h a = ground (arith, h t a.0, All-update_where P p f ts h a.1)

pub get_task-update_task_self :
    (k : String) (f : Task → Task) (ts : List Task)
    → ((t : Task) → (f t).id ≡ t.id)
    → get_task k (update_task k f ts) ≡ Option.map f (get_task k ts)
get_task-update_task_self k f ts h = get_task-update_task k k f ts h ∙ rw (eq_refl k)

-- A rewrite under another key leaves the row alone.
pub get_task-update_task_ne :
    (k j : String) (f : Task → Task) (ts : List Task)
    → ((t : Task) → (f t).id ≡ t.id)
    → str_eq k j ≡ false
    → get_task j (update_task k f ts) ≡ get_task j ts
get_task-update_task_ne k j f ts h other = get_task-update_task k j f ts h ∙ rw other

-- A rewrite that leaves the state alone, seen at its own key.
pub state-update_task_self :
    (k : String) (f : Task → Task) (ts : List Task) (t : Task)
    → ((u : Task) → (f u).id ≡ u.id)
    → ((u : Task) → (f u).state ≡ u.state)
    → get_task k ts ≡ some t
    → Option.map (λ u. u.state) (get_task k (update_task k f ts)) ≡ some t.state
state-update_task_self k f ts t ids states there =
    rw (get_task-update_task_self k f ts ids, there) (ap some (states t))

-- ===== src/Task/Laws/Results.antt =====
-- Inversion of successful operations: what was loaded, which check passed, what was returned.
use ia_lab.Prelude.{String, ◌≡◌, refl, Bool, true, false, Option, none, some}
use ia_lab.Task.Model.{Task, Approval, Db, get_approval, StoreError, Result, ok, ◌>>=◌, get_task}
use ia_lab.Task.Store.Approvals.{require_approval, load_approval}
use ia_lab.Task.Store.{require_task, load_task, check}

pub ok_injective {ℓ} : {A : Type ℓ} {a b : A} → ok a ≡ ok b → a ≡ b
ok_injective h = cc

pub check-eq-ok {ℓ} :
    {B : Type ℓ} (b : Bool) (e : StoreError) (r : Result B) {c : B}
    → (check b e >>= λ _. r) ≡ ok c
    → (b ≡ true) × (r ≡ ok c)
check-eq-ok true e r h = (refl, h)
check-eq-ok false e r h = cc

pub load_task-eq-ok {ℓ} :
    {B : Type ℓ} (k : String) (db : Db) (f : Task → Result B) {c : B}
    → (load_task k db >>= f) ≡ ok c
    → (t : Task) × (get_task k db.tasks ≡ some t) × (f t ≡ ok c)
load_task-eq-ok k db f {c} h = loaded (get_task k db.tasks) h
  where
    loaded :
        (o : Option Task) → (require_task o >>= f) ≡ ok c → (t : Task) × (o ≡ some t) × (f t ≡ ok c)
    loaded none g = cc
    loaded (some t) g = (t, refl, g)

pub load_approval-eq-ok {ℓ} :
    {B : Type ℓ} (k : String) (db : Db) (f : Approval → Result B) {c : B}
    → (load_approval k db >>= f) ≡ ok c
    → (a : Approval) × (get_approval k db.approvals ≡ some a) × (f a ≡ ok c)
load_approval-eq-ok k db f {c} h = loaded (get_approval k db.approvals) h
  where
    loaded :
        (o : Option Approval)
        → (require_approval o >>= f) ≡ ok c
        → (a : Approval) × (o ≡ some a) × (f a ≡ ok c)
    loaded none g = cc
    loaded (some a) g = (a, refl, g)

-- ===== src/Prelude/Json.antt =====
-- Values of `map[string]any`, as the task rows and the payloads of the planner hold them.
use Prim.Native.Nat.{ℕ}
use Prim.Native.String.{String}
use mathlib.Core.Path.{◌≡◌, refl}
use mathlib.Core.Bool.{Bool}
use mathlib.Core.Option.{Option, none, some}
use native.Mathlib.Omega.{arith}
use text.Mathlib.TextEquality.{eq_iff}
use ia_lab.Prelude.Tests.{if◌then◌else◌}
use ia_lab.Prelude.Text.{str_eq}

-- `stamp t` is the text of a time, kept as the microseconds of the time that it names.
mutual
  pub data Json : Type 0 where
    null : Json
    bool : Bool → Json
    num : ℕ → Json
    str : String → Json
    stamp : ℕ → Json
    arr : Items → Json
    obj : Fields → Json

  pub data Items : Type 0 where
    nil : Items
    cons : Json → Items → Items

  pub data Fields : Type 0 where
    end : Fields
    field : String → Json → Fields → Fields

-- m[key]
unfoldable pub get : String → Fields → Option Json
get k end = none
get k (field j v m) = if str_eq j k then some v else get k m

-- m[key] = value
unfoldable pub put : String → Json → Fields → Fields
put k v end = field k v end
put k v (field j w m) = if str_eq j k then field j v m else field j w (put k v m)

-- delete(m, key)
unfoldable pub delete : String → Fields → Fields
delete k end = end
delete k (field j w m) = let rest = delete k m in if str_eq j k then rest else field j w rest

-- `m || patch` on jsonb, and `for key, value := range patch { m[key] = value }`
unfoldable pub merge : Fields → Fields → Fields
merge m end = m
merge m (field j v patch) = merge (put j v m) patch

pub get-put :
    (k j : String) (v : Json) (m : Fields)
    → get j (put k v m) ≡ (if str_eq k j then some v else get j m)
unfolding get put
get-put k j v end = refl
get-put k j v (field i w m) = ground (arith, eq_iff k j, eq_iff i k, eq_iff i j, get-put k j v m)

pub get-delete :
    (k j : String) (m : Fields) → get j (delete k m) ≡ (if str_eq k j then none else get j m)
unfolding get delete
get-delete k j end = ground arith
get-delete k j (field i w m) = ground (arith, eq_iff k j, eq_iff i k, eq_iff i j, get-delete k j m)

pub ruleset json_laws = (get-put, get-delete)

abbrev pub append_item : Items → Json → Items
append_item nil v = cons v nil
append_item (cons w xs) v = cons w (append_item xs v)

-- `COALESCE(value, '{}') || patch` on jsonb: what is no object is taken for an array.
unfoldable pub concat : Option Json → Fields → Json
concat none patch = obj (merge end patch)
concat (some (obj m)) patch = obj (merge m patch)
concat (some (arr xs)) patch = arr (append_item xs (obj patch))
concat (some v) patch = arr (cons v (cons (obj patch) nil))

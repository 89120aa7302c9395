-- ===== src/Examples/Gateway.antt =====
-- The store of responses at concrete entries.
use ia_lab.Prelude.{◌≤◌, ◌≡◌, refl, String, some, List, [], ◌∷◌, length, arith}
use ia_lab.Gateway.{ResponseStore, new_response_store, get, set}
use ia_lab.Gateway.Laws.{
  Operation, look_up, keep, run_all, run_all_capacity, get-set_self, get-set_other,
}

abbrev traffic : List (Operation String)
traffic = keep "r1" "hello" 1 1 ∷ keep "r2" "again" 2 2 ∷ keep "r3" "more" 3 3 ∷ look_up "r1" 4 ∷ []

run_all_capacity_example : length (run_all traffic (new_response_store 10 2)).items ≤ 2
run_all_capacity_example = run_all_capacity traffic 10 2

abbrev small : ResponseStore String
small = record {
  ttl = 10;
  max_entries = 2;
  items = record { id = "r1"; messages = "hello"; expires_at = 11 } ∷ [];
}

get-set_self_example : (get "r2" 12 (set "r2" "again" 2 2 small)).1 ≡ some "again"
get-set_self_example = get-set_self "r2" "again" 2 2 12 small

get-set_other_example : (get "r1" 9 (set "r2" "again" 2 2 small)).1 ≡ (get "r1" 9 small).1
get-set_other_example = get-set_other "r2" "r1" "again" 2 2 9 small refl (ground arith)

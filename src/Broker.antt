-- ===== src/Broker.antt =====
-- internal/orchestratorgo/capabilitybroker/broker.go: which capabilities an agent may use in a
-- project, and in which order they are offered; rules and scores are in Broker.Policy. Scores are
-- whole numbers in the code's float64; here natural ones, as none is below 2 (10 - 4 - 4).
pub mod Laws
pub mod Policy
use Prim.Native.String.{compare}
use Prim.Native.Nat.{Ordering}
use ia_lab.Prelude.{
  ℕ, ◌+◌, ◌-◌, String, Bool, true, false, not, ◌&&◌, ◌||◌, Option, none, some, List, [], ◌∷◌, any,
  find, str_eq, stable_sort, starts_with, is_blank, is_empty, trim_space, if◌then◌else◌, ltb, ◌==◌,
  is_some,
}
use ia_lab.Broker.Policy.{
  CapabilityDefinition, ProjectCapabilityPolicy, CapabilityCandidate, normalize_capability_alias,
  contains_string, default_policy_allows, policy_override, is_denied_by_project_policy,
  score_candidate,
}

abbrev renamed : CapabilityDefinition → CapabilityDefinition
renamed def = record def { name = normalize_capability_alias def.name }

-- The guards of evaluateCandidate, over the definition with its name resolved.
unfoldable pub is_admitted : CapabilityDefinition → Option ProjectCapabilityPolicy → String → Bool
is_admitted def policy agent_type =
    def.enabled
    && (is_blank agent_type || contains_string def.authorized_agents agent_type)
    && (is_blank agent_type || default_policy_allows def agent_type)
    && not
        (is_denied_by_project_policy policy def.name agent_type (policy_override policy def.name))

unfoldable pub evaluate_candidate :
    CapabilityDefinition
    → Option ProjectCapabilityPolicy
    → String
    → String
    → List String
    → Option CapabilityCandidate
evaluate_candidate given policy agent_type intent preferred_tags =
    let def = renamed given in
    let override = policy_override policy def.name in
    if is_admitted def policy agent_type
    then some (record {
      name = def.name;
      score = score_candidate def agent_type intent preferred_tags override;
      definition = def;
      override = override;
    })
    else none

abbrev pub text_lt : String → String → Bool
text_lt a b = elim (compare a b) [ Ordering.lt ↦ true | _ ↦ false ]

-- The order of `sort.SliceStable`: by score downwards, then by name.
unfoldable pub ranks_before : CapabilityCandidate → CapabilityCandidate → Bool
ranks_before a b = if a.score == b.score then text_lt a.name b.name else ltb b.score a.score

-- The store of definitions and policies, and the backends, are not the broker's: what they answer
-- is an argument.
abbrev pub add_some {ℓ} : {A : Type ℓ} → Option A → List A → List A
add_some none xs = xs
add_some (some x) xs = x ∷ xs

unfoldable pub candidates :
    List CapabilityDefinition
    → Option ProjectCapabilityPolicy
    → String
    → String
    → List String
    → List CapabilityCandidate
candidates [] policy agent_type intent tags = []
candidates (def ∷ defs) policy agent_type intent tags =
    add_some (evaluate_candidate def policy agent_type intent tags)
      (candidates defs policy agent_type intent tags)

-- ListAvailable, after ListDefinitions and projectPolicy have answered.
unfoldable pub list_available :
    List CapabilityDefinition
    → Option ProjectCapabilityPolicy
    → String
    → String
    → List String
    → List CapabilityCandidate
list_available defs policy agent_type intent tags =
    stable_sort ranks_before (candidates defs policy agent_type intent tags)

pub data Resolution : Type 0 where
  resolved : CapabilityCandidate → Resolution
  not_allowed : String → Resolution

abbrev pub or_not_allowed : Option CapabilityCandidate → String → Resolution
or_not_allowed none name = not_allowed name
or_not_allowed (some c) name = resolved c

abbrev pub first_of : List CapabilityCandidate → Resolution
first_of [] = not_allowed "no capability matched"
first_of (c ∷ cs) = resolved c

unfoldable pub resolve :
    List CapabilityDefinition
    → Option ProjectCapabilityPolicy
    → String
    → String
    → List String
    → String
    → Resolution
resolve defs policy agent_type intent tags explicit_capability =
    let items = list_available defs policy agent_type intent tags in
    let name = normalize_capability_alias explicit_capability in
    if is_empty name
    then first_of items
    else or_not_allowed (find (λ c. str_eq c.name name) items) name

-- Execute: the backend is looked up under the name of the candidate and then under its reference.
pub data Execution (R : Type 0) : Type 0 where
  executed : CapabilityCandidate → R → Execution R
  refused : String → Execution R
  no_backend : String → Execution R
  backend_failed : Execution R

module _ {R : Type 0} where
  abbrev backend_for :
      (String → Option (String → Option R)) → CapabilityCandidate → Option (String → Option R)
  backend_for backends c = elim (backends c.name) [
    | some backend ↦ some backend
    | none ↦ backends c.definition.backend_ref
  ]

  abbrev report : CapabilityCandidate → Option R → Execution R
  report c none = backend_failed
  report c (some r) = executed c r

  abbrev call_backend : CapabilityCandidate → Option (String → Option R) → Execution R
  call_backend c none = no_backend c.name
  call_backend c (some backend) = report c (backend c.name)

  unfoldable pub execute_resolved : (String → Option (String → Option R)) → Resolution → Execution R
  execute_resolved backends (not_allowed name) = refused name
  execute_resolved backends (resolved c) = call_backend c (backend_for backends c)

  unfoldable pub execute :
      List CapabilityDefinition
      → (String → Option (String → Option R))
      → Option ProjectCapabilityPolicy
      → String
      → String
      → List String
      → String
      → Execution R
  execute defs backends policy agent_type intent tags capability =
      execute_resolved backends (resolve defs policy agent_type intent tags capability)

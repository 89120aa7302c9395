-- ===== src/Broker/Policy.antt =====
-- Definitions, policies and scores: defaultPolicyAllows, policyOverride, isDeniedByProjectPolicy and
-- scoreCandidate of capabilitybroker/broker.go, with the types of domain/capabilities.go.
use ia_lab.Prelude.{
  ℕ, ◌+◌, ◌-◌, String, Bool, true, false, not, ◌&&◌, ◌||◌, Option, none, some, List, [], ◌∷◌, any,
  str_eq, starts_with, trim_space, if◌then◌else◌,
}

pub record CapabilityDefinition : Type 0 where
  pub name : String
  pub kind : String
  pub backend_ref : String
  pub authorized_agents : List String
  pub capability_tags : List String
  pub risk_class : String
  pub cost_class : String
  pub latency_class : String
  pub workspace_scope_required : Bool
  pub enabled : Bool
  pub version : ℕ

pub record CapabilityPolicyOverride : Type 0 where
  pub enabled : Option Bool
  pub auto_use : Option Bool
  pub preferred_agents : List String
  pub denied_agents : List String

pub record ProjectCapabilityPolicy : Type 0 where
  pub enabled_capabilities : List String
  pub disabled_capabilities : List String
  pub policy_overrides : List (String × CapabilityPolicyOverride)

pub record CapabilityCandidate : Type 0 where
  pub name : String
  pub score : ℕ
  pub definition : CapabilityDefinition
  pub override : Option CapabilityPolicyOverride

unfoldable pub normalize_capability_alias : String → String
normalize_capability_alias value =
    let name = trim_space value in
    if str_eq name "write_file"
    then "filesystem.write"
    else if str_eq name "read_file"
    then "filesystem.read"
    else if str_eq name "list_files"
    then "filesystem.list"
    else name

unfoldable pub contains_string : List String → String → Bool
contains_string items target = any (λ item. str_eq (trim_space item) (trim_space target)) items

unfoldable pub contains_any_tag : List String → List String → Bool
contains_any_tag items targets = any (contains_string items) targets

-- The defaults of an agent, where no project has a say. Other agents have none.
unfoldable pub default_policy_allows : CapabilityDefinition → String → Bool
default_policy_allows def agent_type =
    let agent = trim_space agent_type in
    if str_eq agent "coder"
    then str_eq def.name "filesystem.write"
      || str_eq def.name "shell.exec"
      || starts_with def.name "git."
      || starts_with def.name "docker."
      || str_eq def.name "http.check"
    else if str_eq agent "researcher"
    then str_eq def.risk_class "read_only"
      && (contains_any_tag def.capability_tags (
            "evidence" ∷ "docs" ∷ "search" ∷ "research" ∷ "browser" ∷ "http" ∷ "github" ∷ "jira"
            ∷ "slack" ∷ [])
          || starts_with def.name "web.")
    else if str_eq agent "reviewer"
    then (str_eq def.risk_class "read_only" || str_eq def.name "slack.notify")
      && contains_any_tag def.capability_tags (
          "review" ∷ "validation" ∷ "docs" ∷ "evidence" ∷ "static-analysis" ∷ "code-quality"
          ∷ "github" ∷ "jira" ∷ "slack" ∷ "browser" ∷ "http" ∷ "git" ∷ [])
    else if str_eq agent "planner"
    then str_eq def.risk_class "read_only"
      && contains_any_tag def.capability_tags ("evidence" ∷ "docs" ∷ "research" ∷ "search" ∷ [])
    else true

abbrev pub lookup_override :
    String → List (String × CapabilityPolicyOverride) → Option CapabilityPolicyOverride
lookup_override k [] = none
lookup_override k ((j, o) ∷ m) = if str_eq j k then some o else lookup_override k m

unfoldable pub policy_override :
    Option ProjectCapabilityPolicy → String → Option CapabilityPolicyOverride
policy_override none name = none
policy_override (some policy) name = lookup_override name policy.policy_overrides

abbrev is_empty_list : List String → Bool
is_empty_list [] = true
is_empty_list (x ∷ xs) = false

abbrev is_off : Option Bool → Bool
is_off (some false) = true
is_off _ = false

unfoldable pub denied_by_override : Option CapabilityPolicyOverride → String → Bool
denied_by_override none agent_type = false
denied_by_override (some o) agent_type =
    is_off o.enabled
    || contains_string o.denied_agents agent_type
    || (not (is_empty_list o.preferred_agents)
        && not (contains_string o.preferred_agents agent_type))

unfoldable pub denied_by_policy : Option ProjectCapabilityPolicy → String → Bool
denied_by_policy none name = false
denied_by_policy (some policy) name =
    contains_string policy.disabled_capabilities name
    || (not (is_empty_list policy.enabled_capabilities)
        && not (contains_string policy.enabled_capabilities name))

unfoldable pub is_denied_by_project_policy :
    Option ProjectCapabilityPolicy → String → String → Option CapabilityPolicyOverride → Bool
unfolding denied_by_override denied_by_policy
is_denied_by_project_policy policy name agent_type override =
    denied_by_override override agent_type || denied_by_policy policy name

unfoldable pub class_penalty : String → ℕ
class_penalty value =
    let name = trim_space value in
    if str_eq name "high" then 4 else if str_eq name "medium" then 2 else 0

-- The rows of the switch: an intent, the tags that serve it and what they add.
abbrev intent_bonuses : List (String × List String × ℕ)
intent_bonuses =
    ("needs_external_evidence", "evidence" ∷ "docs" ∷ "search" ∷ "research" ∷ [], 20)
    ∷ (
      "needs_repo_static_analysis",
      "review" ∷ "static-analysis" ∷ "code-quality" ∷ "validation" ∷ [],
      20,
    )
    ∷ ("needs_workspace_write", "filesystem" ∷ "write" ∷ [], 20)
    ∷ ("needs_workspace_execution", "shell" ∷ "execute" ∷ [], 25)
    ∷ ("needs_git_context", "git" ∷ "review" ∷ [], 20)
    ∷ ("needs_service_validation", "http" ∷ "browser" ∷ "service" ∷ [], 24)
    ∷ ("needs_browser_validation", "browser" ∷ "validation" ∷ [], 24)
    ∷ ("needs_repo_hosting_context", "github" ∷ "repo-hosting" ∷ "prs" ∷ "issues" ∷ [], 22)
    ∷ ("needs_issue_tracker_context", "jira" ∷ "issue-tracker" ∷ "tickets" ∷ [], 22)
    ∷ ("needs_chatops_context", "slack" ∷ "chatops" ∷ "notify" ∷ "context" ∷ [], 22)
    ∷ ("needs_docs_lookup", "docs" ∷ "fetch" ∷ "search" ∷ [], 20)
    ∷ ("needs_ci_signal", "evidence" ∷ "review" ∷ [], 10)
    ∷ []

intent_bonus : List (String × List String × ℕ) → String → List String → ℕ
intent_bonus [] intent tags = 0
intent_bonus ((name, wanted, bonus) ∷ rows) intent tags =
    if str_eq intent name
    then (if contains_any_tag tags wanted then bonus else 0)
    else intent_bonus rows intent tags

abbrev is_on : Option Bool → Bool
is_on (some true) = true
is_on _ = false

abbrev auto_use_of : Option CapabilityPolicyOverride → Bool
auto_use_of none = false
auto_use_of (some o) = is_on o.auto_use

unfoldable pub score_candidate :
    CapabilityDefinition → String → String → List String → Option CapabilityPolicyOverride → ℕ
unfolding intent_bonus
score_candidate def agent_type intent preferred_tags override =
    10
    + (if contains_any_tag def.capability_tags preferred_tags then 25 else 0)
    + intent_bonus intent_bonuses (trim_space intent) def.capability_tags
    + (if str_eq def.risk_class "read_only" then 5 else 0)
    - class_penalty def.cost_class
    - class_penalty def.latency_class
    + (if auto_use_of override then 5 else 0)
    + (if str_eq agent_type "reviewer" && str_eq def.name "code.analysis" then 15 else 0)
    + (if str_eq agent_type "coder" && str_eq def.name "filesystem.write" then 15 else 0)

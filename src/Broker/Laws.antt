-- ===== src/Broker/Laws.antt =====
-- What Resolve hands out.
use ia_lab.Prelude.{
  ℕ, ◌≤◌, ◌≡◌, refl, subst, ◌⊎◌, inl, inr, String, Bool, true, false, ◌||◌, Option, none, some,
  List, [], ◌∷◌, All, All-stable_sort, arith, eq_iff, str_eq, is_empty, is_blank, find, Bool-cases,
  stable_sort, insert_sorted,
}
use ia_lab.Broker.{
  resolved, is_admitted, evaluate_candidate, candidates, list_available, resolve, ranks_before,
  add_some, or_not_allowed, first_of,
}
use ia_lab.Broker.Policy.{
  CapabilityDefinition, ProjectCapabilityPolicy, CapabilityCandidate, contains_string,
  default_policy_allows, policy_override, denied_by_override, denied_by_policy,
  normalize_capability_alias, is_denied_by_project_policy,
}

resolved_injective : {c d : CapabilityCandidate} → resolved c ≡ resolved d → c ≡ d
resolved_injective e = cc

-- What it takes for an agent to be offered a capability.
pub record IsAllowed (policy : Option ProjectCapabilityPolicy) (agent_type : String)
    (c : CapabilityCandidate) : Type 0 where
  pub enabled : c.definition.enabled ≡ true
  pub authorized :
      (is_blank agent_type || contains_string c.definition.authorized_agents agent_type) ≡ true
  pub by_default : (is_blank agent_type || default_policy_allows c.definition agent_type) ≡ true
  pub by_override : denied_by_override (policy_override policy c.name) agent_type ≡ false
  pub by_policy : denied_by_policy policy c.name ≡ false

module _ (policy : Option ProjectCapabilityPolicy) (agent_type intent : String)
    (tags : List String) where
  evaluate_candidate-IsAllowed :
      (def : CapabilityDefinition) (c : CapabilityCandidate)
      → evaluate_candidate def policy agent_type intent tags ≡ some c
      → IsAllowed policy agent_type c
  unfolding evaluate_candidate is_admitted is_denied_by_project_policy
  evaluate_candidate-IsAllowed def c e = ground arith

  add_some-IsAllowed :
      (def : CapabilityDefinition) (o : Option CapabilityCandidate) (cs : List CapabilityCandidate)
      → evaluate_candidate def policy agent_type intent tags ≡ o
      → All (IsAllowed policy agent_type) cs
      → All (IsAllowed policy agent_type) (add_some o cs)
  add_some-IsAllowed def none cs e h = h
  add_some-IsAllowed def (some c) cs e h = (evaluate_candidate-IsAllowed def c e, h)

  candidates-IsAllowed :
      (defs : List CapabilityDefinition)
      → All (IsAllowed policy agent_type) (candidates defs policy agent_type intent tags)
  unfolding candidates
  candidates-IsAllowed [] = tt
  candidates-IsAllowed (def ∷ defs) =
      add_some-IsAllowed def (evaluate_candidate def policy agent_type intent tags) _ refl
        (candidates-IsAllowed defs)

  list_available-IsAllowed :
      (defs : List CapabilityDefinition)
      → All (IsAllowed policy agent_type) (list_available defs policy agent_type intent tags)
  unfolding list_available
  list_available-IsAllowed defs =
      All-stable_sort ranks_before (IsAllowed policy agent_type) _ (candidates-IsAllowed defs)

  find-All :
      (P : CapabilityCandidate → Type 0) (p : CapabilityCandidate → Bool)
      (cs : List CapabilityCandidate) (name : String) (c : CapabilityCandidate)
      → All P cs
      → or_not_allowed (find p cs) name ≡ resolved c
      → P c × (p c ≡ true)
  find-All P p [] name c h e = cc
  find-All P p (d ∷ cs) name c h e = elim (Bool-cases (p d)) [
    | inl here ↦
        let same : d ≡ c = resolved_injective (rw here at e) in
        (subst P same h.0, subst (λ x. p x ≡ true) same here)
    | inr there ↦ find-All P p cs name c h.1 (rw there at e)
  ]

  first-All :
      (P : CapabilityCandidate → Type 0) (cs : List CapabilityCandidate) (c : CapabilityCandidate)
      → All P cs
      → first_of cs ≡ resolved c
      → P c
  first-All P [] c h e = cc
  first-All P (d ∷ cs) c h e = subst P (resolved_injective e) h.0

  -- What Resolve returns is enabled, authorized for the agent, within the defaults of the agent
  -- and denied by no rule of the project, and if a capability was asked for by name, it is that
  -- one, its alias resolved.
  pub resolve-IsAllowed :
      (defs : List CapabilityDefinition) (explicit : String) (c : CapabilityCandidate)
      → resolve defs policy agent_type intent tags explicit ≡ resolved c
      → IsAllowed policy agent_type c
        × ((is_empty (normalize_capability_alias explicit) ≡ true)
            ⊎ (c.name ≡ normalize_capability_alias explicit))
  unfolding resolve
  resolve-IsAllowed defs explicit c e =
      elim (Bool-cases (is_empty (normalize_capability_alias explicit))) [
        | inl unnamed ↦ (
          first-All (IsAllowed policy agent_type) _ c (list_available-IsAllowed defs)
              (rw unnamed at e),
          inl unnamed,
        )
        | inr named ↦
            let (allowed, same) =
              find-All (IsAllowed policy agent_type)
                (λ d. str_eq d.name (normalize_capability_alias explicit)) _ _ c
                (list_available-IsAllowed defs) (rw named at e) in
            (allowed, inr ((eq_iff c.name (normalize_capability_alias explicit)).0 same))
      ]

-- Each member has at most the score of those before it.
abbrev Descends : List CapabilityCandidate → Type 0
Descends [] = Unit
Descends (c ∷ cs) = All (λ d. d.score ≤ c.score) cs × Descends cs

insert-bound :
    (c x : CapabilityCandidate) (cs : List CapabilityCandidate)
    → x.score ≤ c.score
    → All (λ d. d.score ≤ c.score) cs
    → All (λ d. d.score ≤ c.score) (insert_sorted ranks_before x cs)
unfolding insert_sorted
insert-bound c x [] le h = (le, tt)
insert-bound c x (y ∷ ys) le h = ground (arith, le, h.0, insert-bound c x ys le h.1)

not_before : (x y : CapabilityCandidate) → ranks_before y x ≡ false → y.score ≤ x.score
unfolding ranks_before
not_before x y h = ground arith

before_le : (x y : CapabilityCandidate) → ranks_before y x ≡ true → x.score ≤ y.score
unfolding ranks_before
before_le x y h = ground arith

All-le :
    (a b : ℕ) (cs : List CapabilityCandidate)
    → a ≤ b
    → All (λ d. d.score ≤ a) cs
    → All (λ d. d.score ≤ b) cs
All-le a b [] h k = tt
All-le a b (c ∷ cs) h k = (omega arith, All-le a b cs h k.1)

insert-Descends :
    (x : CapabilityCandidate) (cs : List CapabilityCandidate)
    → Descends cs
    → Descends (insert_sorted ranks_before x cs)
unfolding insert_sorted
insert-Descends x [] h = (tt, tt)
insert-Descends x (y ∷ ys) h = elim (Bool-cases (ranks_before y x)) [
  | inl before ↦
      rw before (insert-bound y x ys (before_le x y before) h.0, insert-Descends x ys h.1)
  | inr after ↦
      rw after ((not_before x y after, All-le y.score x.score ys (not_before x y after) h.0), h)
]

sort-Descends : (cs : List CapabilityCandidate) → Descends (stable_sort ranks_before cs)
unfolding stable_sort
sort-Descends [] = tt
sort-Descends (c ∷ cs) = insert-Descends c (stable_sort ranks_before cs) (sort-Descends cs)

-- With no capability asked for by name, what is resolved has the highest score of all candidates.
first_best :
    (cs : List CapabilityCandidate) (c : CapabilityCandidate)
    → Descends cs
    → first_of cs ≡ resolved c
    → All (λ d. d.score ≤ c.score) cs
first_best [] c h e = cc
first_best (d ∷ cs) c h e =
    subst (λ x. All (λ y. y.score ≤ x.score) (d ∷ cs)) (resolved_injective e) (omega arith, h.0)

module _ (policy : Option ProjectCapabilityPolicy) (agent_type intent : String)
    (tags : List String) where
  -- With no capability asked for by name, no candidate has a higher score than the one resolved.
  pub resolve_best :
      (defs : List CapabilityDefinition) (explicit : String) (c : CapabilityCandidate)
      → is_empty (normalize_capability_alias explicit) ≡ true
      → resolve defs policy agent_type intent tags explicit ≡ resolved c
      → All (λ d. d.score ≤ c.score) (list_available defs policy agent_type intent tags)
  unfolding resolve list_available
  resolve_best defs explicit c unnamed e =
      first_best _ c (sort-Descends (candidates defs policy agent_type intent tags))
        (rw unnamed at e)

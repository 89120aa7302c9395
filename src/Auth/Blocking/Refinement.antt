-- ===== src/Auth/Blocking/Refinement.antt =====
-- A tracker of all sources against a machine for one source, which sees the requests of that source only.
use ia_lab.Prelude.{
  ℕ, ◌≡◌, inl, inr, refl, sym, ap, subst, ◌∙◌, String, true, Option, List, [], ◌∷◌, Bool-cases,
  str_eq, eq_iff, filter,
}
use ia_lab.Auth.{Request, BruteForceTracker, ApiKeys, middleware, get_client_ip}
use ia_lab.Auth.Blocking.{Attempt, comes_from, run_all}
use ia_lab.Auth.Blocking.Step.{View, view, view_step, middleware-view_own}
use ia_lab.Auth.Blocking.Apart.{middleware-view_other}

-- The record of one source after its own requests.
abbrev pub view_run : (String → String) → ApiKeys → List Attempt → View → View
view_run hash keys [] v = v
view_run hash keys (a ∷ attempts) v =
    view_run hash keys attempts (view_step hash keys a.time a.request v)

middleware-view_step :
    (hash : String → String) (split_host : String → Option String) (keys : ApiKeys) (now : ℕ)
    (t : String) (r : Request) (b : BruteForceTracker)
    → str_eq t (get_client_ip split_host r) ≡ true
    → view t (middleware hash split_host keys now r b).0 ≡ view_step hash keys now r (view t b)
middleware-view_step hash split_host keys now t r b own =
    subst
      (λ u.
        view u (middleware hash split_host keys now r b).0 ≡ view_step hash keys now r (view u b))
      (sym ((eq_iff _ _).0 own)) (middleware-view_own hash split_host keys now r b)

-- What the tracker knows of a source after any requests is what a machine for that source
-- alone holds after the requests of the source.
pub run_all-view_run :
    (hash : String → String) (split_host : String → Option String) (keys : ApiKeys)
    (source : String) (attempts : List Attempt) (b : BruteForceTracker)
    → view source (run_all hash split_host keys attempts b)
      ≡ view_run hash keys (filter (comes_from split_host source) attempts) (view source b)
unfolding run_all
run_all-view_run hash split_host keys source [] b = refl
run_all-view_run hash split_host keys source (a ∷ attempts) b =
    let rest =
      run_all-view_run hash split_host keys source attempts
        (middleware hash split_host keys a.time a.request b).0 in
    elim (Bool-cases (comes_from split_host source a)) [
      | inl own ↦ rw own (
          rest
          ∙ ap (view_run hash keys (filter (comes_from split_host source) attempts))
              (middleware-view_step hash split_host keys a.time source a.request b own))
      | inr other ↦ rw other (
          rest
          ∙ ap (view_run hash keys (filter (comes_from split_host source) attempts))
              (middleware-view_other hash split_host keys a.time source a.request b other))
    ]

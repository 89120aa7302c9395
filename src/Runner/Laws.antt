-- ===== src/Runner/Laws.antt =====
-- What a tool request may change.
use ia_lab.Prelude.{
  ◌≡◌, ◌≢◌, ◌⊎◌, refl, sym, ap, subst, ◌∙◌, String, Bool, true, false, ◌||◌, Option, none, some,
  List, [], ◌∷◌, arith, All, Bool-cases, inl, inr, if◌then◌else◌, eq_iff, str_eq, str_append,
  is_empty, some_injective, trim_space,
}
use ia_lab.Prelude.Json
use ia_lab.Prelude.Json.{Json, Fields}
use mathlib.Core.List.{reverse}
use text.Mathlib.TextLemmas.{cons-append}
use ia_lab.Prelude.FilePath.{clean, join, is_rooted, components, resolve, join_parts, enter}
use ia_lab.Runner.{
  Files, put_file, absolute, candidate, is_within, safe_resolve, as_string, is_tool_allowed,
  write_at, append_at, is_unlimited, contains, execute_tool_request, runner_allowed_capabilities,
}

safe_resolve-within :
    (cwd root raw path : String)
    → safe_resolve cwd root raw ≡ some path
    → is_within (absolute cwd root) path ≡ true
unfolding safe_resolve
safe_resolve-within cwd root raw path e =
    elim (Bool-cases (is_within (absolute cwd root) (candidate cwd (absolute cwd root) raw))) [
      | inl within ↦
          subst (λ p. is_within (absolute cwd root) p ≡ true) (some_injective (rw within at e))
            within
      | inr outside ↦ cc (rw outside at e)
    ]

put_file-outside :
    (path content other : String) (files : Files)
    → put_file path content files other ≢ files other
    → other ≡ path
put_file-outside path content other files differs = elim (Bool-cases (str_eq other path)) [
  | inl same ↦ (eq_iff other path).0 same
  | inr apart ↦ elim (differs (rw apart)) [ ]
]

-- A path from the root, at or below another, and spelled without a step to a parent directory. The
-- stack holds its components, the last one first.
pub record IsConfined (root path : String) : Type 0 where
  pub within : is_within root path ≡ true
  pub stack : List String
  pub spelled : path ≡ str_append "/" (join_parts (reverse stack))
  pub no_parent : All (λ p. str_eq p ".." ≡ false) stack

enter-no_parent :
    (part : String) (stack : List String)
    → All (λ p. str_eq p ".." ≡ false) stack
    → All (λ p. str_eq p ".." ≡ false) (enter true part stack)
enter-no_parent part [] h = ground arith
enter-no_parent part (top ∷ stack) h = ground arith

resolve-no_parent :
    (parts stack : List String)
    → All (λ p. str_eq p ".." ≡ false) stack
    → All (λ p. str_eq p ".." ≡ false) (resolve true parts stack)
unfolding resolve
resolve-no_parent [] stack h = h
resolve-no_parent (part ∷ parts) stack h =
    resolve-no_parent parts (enter true part stack) (enter-no_parent part stack h)

clean_rooted :
    (path : String)
    → is_rooted path ≡ true
    → clean path ≡ str_append "/" (join_parts (reverse (resolve true (components path) [])))
unfolding clean
clean_rooted path rooted = rw rooted

rooted-append : (a b : String) → is_rooted a ≡ true → is_rooted (str_append a b) ≡ true
rooted-append String.[] b e = cc e
rooted-append (String.◌∷◌ c s) b e = rw (cons-append c s b) e

-- An absolute path is cleaned from one that starts at the root.
absolute-clean :
    (cwd path : String)
    → is_rooted cwd ≡ true
    → (q : String) × ((is_rooted q ≡ true) × (absolute cwd path ≡ clean q))
unfolding absolute join
absolute-clean cwd path rooted = elim (Bool-cases (is_rooted path)) [
  | inl own ↦ (path, (own, rw own))
  | inr relative ↦ from_cwd cwd rooted relative
]
  where
    from_cwd :
        (dir : String)
        → is_rooted dir ≡ true
        → is_rooted path ≡ false
        → (q : String) × ((is_rooted q ≡ true) × (absolute dir path ≡ clean q))
    from_cwd String.[] rooted relative = cc rooted
    from_cwd (String.◌∷◌ c s) rooted relative = elim (Bool-cases (is_empty path)) [
      | inl blank ↦ (String.◌∷◌ c s, (rooted, rw (relative, blank)))
      | inr given ↦ (
        str_append (String.◌∷◌ c s) (str_append "/" path),
        (rooted-append (String.◌∷◌ c s) (str_append "/" path) rooted, rw (relative, given)),
      )
    ]

safe_resolve-IsConfined :
    (cwd root raw path : String)
    → is_rooted cwd ≡ true
    → safe_resolve cwd root raw ≡ some path
    → IsConfined (absolute cwd root) path
unfolding safe_resolve
safe_resolve-IsConfined cwd root raw path rooted e =
    let (q, (from_root, same)) =
      absolute-clean cwd (if is_rooted raw then raw else join (absolute cwd root) raw) rooted in
    record {
      within = safe_resolve-within cwd root raw path e;
      stack = resolve true (components q) [];
      spelled = sym (resolved _ e) ∙ same ∙ clean_rooted q from_root;
      no_parent = resolve-no_parent (components q) [] tt;
    }
  where
    resolved :
        (b : Bool)
        → (if b then some (candidate cwd (absolute cwd root) raw) else none) ≡ some path
        → candidate cwd (absolute cwd root) raw ≡ path
    resolved true e = some_injective e
    resolved false e = cc e

write_at-confined :
    (permits : String → Bool) (resolved : Option String) (raw content other : String)
    (files : Files)
    → (write_at permits resolved raw content files).0 other ≢ files other
    → resolved ≡ some other
write_at-confined permits none raw content other files differs = elim (differs refl) [ ]
write_at-confined permits (some path) raw content other files differs =
    elim (Bool-cases (permits path)) [
      | inl writes ↦
          ap some (sym (put_file-outside path content other files (rw writes at differs)))
      | inr blocked ↦ elim (differs (rw blocked)) [ ]
    ]

append_at-confined :
    (permits : String → Bool) (resolved : Option String) (raw content other : String)
    (files : Files)
    → (append_at permits resolved raw content files).0 other ≢ files other
    → resolved ≡ some other
append_at-confined permits none raw content other files differs = elim (differs refl) [ ]
append_at-confined permits (some path) raw content other files differs =
    elim (Bool-cases (permits path)) [
      | inl writes ↦ ap some (sym (put_file-outside path _ other files (rw writes at differs)))
      | inr blocked ↦ elim (differs (rw blocked)) [ ]
    ]

abbrev pub tool_of : (Json → String) → Fields → String
tool_of other request = trim_space (as_string other (Json.get "tool" request))

-- A request that changes a file is one to write or to append, and the path is resolved.
changed-parts :
    (other : Json → String) (permits : String → Bool) (cwd root : String)
    (metadata request : Fields) (files : Files) (path : String)
    → (execute_tool_request other permits cwd root metadata request files).0 path ≢ files path
    → (is_tool_allowed other metadata (tool_of other request) ≡ true)
      × (safe_resolve cwd root (trim_space (as_string other (Json.get "path" request))) ≡ some path)
      × (((str_eq (tool_of other request) "write_file"
              || str_eq (tool_of other request) "filesystem.write")
            ≡ true)
          ⊎ (str_eq (tool_of other request) "append_file" ≡ true))
unfolding execute_tool_request
changed-parts other permits cwd root metadata request files path differs =
    elim (Bool-cases (is_tool_allowed other metadata (tool_of other request))) [
      | inr refused ↦ elim (differs (rw refused)) [ ]
      | inl allowed ↦
          elim (Bool-cases (is_empty (trim_space (as_string other (Json.get "path" request))))) [
            | inl blank ↦ elim (differs (nothing allowed blank)) [ ]
            | inr given ↦
                elim (Bool-cases (
                  str_eq (tool_of other request) "write_file"
                  || str_eq (tool_of other request) "filesystem.write")) [
                    | inl writes ↦ (
                      allowed,
                      write_at-confined permits _ _ _ path files
                          (rw (allowed, writes, given) at differs),
                      inl writes,
                    )
                    | inr not_writes ↦
                        elim (Bool-cases (str_eq (tool_of other request) "append_file")) [
                          | inl appends ↦ (
                            allowed,
                            append_at-confined permits _ _ _ path files
                                (rw (allowed, not_writes, appends, given) at differs),
                            inr appends,
                          )
                          | inr another ↦ elim (differs (rw (allowed, not_writes, another))) [ ]
                        ]
                  ]
          ]
    ]
  where
    nothing :
        is_tool_allowed other metadata (tool_of other request) ≡ true
        → is_empty (trim_space (as_string other (Json.get "path" request))) ≡ true
        → (execute_tool_request other permits cwd root metadata request files).0 path ≡ files path
    nothing allowed blank = ground arith

-- With an absolute directory of the process, a file that a tool request changes lies at or
-- below the workspace of the task, under a path from the root that has no step to a parent
-- directory.
pub execute_tool_request-IsConfined :
    (other : Json → String) (permits : String → Bool) (cwd root : String)
    (metadata request : Fields) (files : Files) (path : String)
    → is_rooted cwd ≡ true
    → (execute_tool_request other permits cwd root metadata request files).0 path ≢ files path
    → IsConfined (absolute cwd root) path
execute_tool_request-IsConfined other permits cwd root metadata request files path rooted differs =
    let (_, resolved, _) =
      changed-parts other permits cwd root metadata request files path differs in
    safe_resolve-IsConfined cwd root _ path rooted resolved

write_refused :
    (other : Json → String) (metadata : Fields) (tool : String)
    → is_unlimited (runner_allowed_capabilities other metadata) ≡ false
    → contains (runner_allowed_capabilities other metadata) "filesystem.write" ≡ false
    → contains (runner_allowed_capabilities other metadata) "filesystem" ≡ false
    → (str_eq tool "write_file" || str_eq tool "filesystem.write") ≡ true
    → is_tool_allowed other metadata tool ≡ false
unfolding is_tool_allowed
write_refused other metadata tool limited no_write no_filesystem writes =
    rw (writes, limited, no_write, no_filesystem)

-- When the capabilities of a task are limited and neither filesystem.write nor filesystem is
-- among them, a tool request of the task that changes a file is one to append to it.
pub restricted_changes :
    (other : Json → String) (permits : String → Bool) (cwd root : String)
    (metadata request : Fields) (files : Files) (path : String)
    → is_unlimited (runner_allowed_capabilities other metadata) ≡ false
    → contains (runner_allowed_capabilities other metadata) "filesystem.write" ≡ false
    → contains (runner_allowed_capabilities other metadata) "filesystem" ≡ false
    → (execute_tool_request other permits cwd root metadata request files).0 path ≢ files path
    → tool_of other request ≡ "append_file"
restricted_changes other permits cwd root metadata request files path limited no_write no_filesystem
      differs =
    let (allowed, _, kind) =
      changed-parts other permits cwd root metadata request files path differs in
    elim kind [
      | inr appends ↦ (eq_iff _ _).0 appends
      | inl writes ↦ cc (
        allowed,
        write_refused other metadata (tool_of other request) limited no_write no_filesystem writes,
      )
    ]

-- ===== src/Runner.antt =====
-- internal/orchestratorgo/runner/runner.go: the tool requests that the runner of the orchestrator
-- executes itself, executeToolRequest with its confinement to a workspace and to the capabilities of
-- the task. The file system is a map of absolute paths; `permits` says whether it lets a path be
-- written, with the directories above it.
pub mod Laws
use ia_lab.Prelude.{
  ℕ, String, Bool, true, false, not, ◌&&◌, ◌||◌, Option, none, some, List, [], ◌∷◌, any, str_eq,
  str_append, starts_with, is_empty, trim_space, if◌then◌else◌,
}
use ia_lab.Prelude.Json
use ia_lab.Prelude.Json.{Json, Items, nil, cons, Fields}
use ia_lab.Prelude.FilePath.{clean, join, is_rooted}

-- os.ReadFile for the file under a path
abbrev pub Files : Type 0
Files = String → Option String

abbrev pub put_file : String → String → Files → Files
put_file path content files other = if str_eq other path then some content else files other

pub data ToolError : Type 0 where
  not_allowed path_required path_escapes not_written : ToolError

-- What comes back; a tool that is none of the runner's is not handled.
pub data ToolResult : Type 0 where
  not_handled : ToolResult
  failed : ToolError → ToolResult
  wrote appended : String → ToolResult

-- filepath.Abs, with the directory of the process
unfoldable pub absolute : String → String → String
absolute cwd path = if is_rooted path then clean path else join cwd path

abbrev pub candidate : String → String → String → String
candidate cwd root raw_path =
    absolute cwd (if is_rooted raw_path then raw_path else join root raw_path)

abbrev pub is_within : String → String → Bool
is_within root path = str_eq path root || starts_with path (str_append root "/")

unfoldable pub safe_resolve : String → String → String → Option String
safe_resolve cwd workspace_root raw_path =
    let root = absolute cwd workspace_root in
    let path = candidate cwd root raw_path in if is_within root path then some path else none

-- asString of a value that is a text; `other` is what json.Marshal makes of another one, without quotes.
abbrev pub as_string : (Json → String) → Option Json → String
as_string other (some (Json.str s)) = s
as_string other (some Json.null) = ""
as_string other (some v) = other v
as_string other none = ""

-- runnerToolCapabilityMap
abbrev pub tool_capability : String → String
tool_capability tool =
    if str_eq tool "write_file" || str_eq tool "filesystem.write" then "filesystem.write" else ""

abbrev allowed_items : (Json → String) → Items → List String
allowed_items other nil = []
allowed_items other (cons v vs) =
    let rest = allowed_items other vs in
    let text = trim_space (as_string other (some v)) in if is_empty text then rest else text ∷ rest

-- runnerAllowedCapabilities
unfoldable pub runner_allowed_capabilities : (Json → String) → Fields → List String
runner_allowed_capabilities other metadata = elim (Json.get "allowed_capabilities" metadata) [
  | some (Json.arr items) ↦ allowed_items other items
  | _ ↦ []
]

abbrev pub contains : List String → String → Bool
contains texts s = any (λ t. str_eq t s) texts

abbrev pub is_unlimited : List String → Bool
is_unlimited [] = true
is_unlimited (t ∷ ts) = false

-- ensureRunnerToolCapabilityAllowed
unfoldable pub is_tool_allowed : (Json → String) → Fields → String → Bool
is_tool_allowed other metadata tool =
    let capability = tool_capability tool in
    let allowed = runner_allowed_capabilities other metadata in
    is_empty capability
    || is_unlimited allowed
    || contains allowed capability
    || (starts_with capability "filesystem." && contains allowed "filesystem")

abbrev pub write_at : (String → Bool) → Option String → String → String → Files → Files × ToolResult
write_at permits none raw_path content files = (files, failed path_escapes)
write_at permits (some path) raw_path content files =
    if permits path
    then (put_file path content files, wrote raw_path)
    else (files, failed not_written)

abbrev old_content : Option String → String
old_content none = ""
old_content (some s) = s

abbrev pub append_at :
    (String → Bool) → Option String → String → String → Files → Files × ToolResult
append_at permits none raw_path content files = (files, failed path_escapes)
append_at permits (some path) raw_path content files =
    if permits path
    then (put_file path (str_append (old_content (files path)) content) files, appended raw_path)
    else (files, failed not_written)

-- executeToolRequest
unfoldable pub execute_tool_request :
    (Json → String)
    → (String → Bool)
    → String
    → String
    → Fields
    → Fields
    → Files
    → Files × ToolResult
execute_tool_request other permits cwd workspace_root metadata request files =
    let tool = trim_space (as_string other (Json.get "tool" request)) in
    let raw_path = trim_space (as_string other (Json.get "path" request)) in
    let content = as_string other (Json.get "content" request) in
    if not (is_tool_allowed other metadata tool)
    then (files, failed not_allowed)
    else if str_eq tool "write_file" || str_eq tool "filesystem.write"
    then (if is_empty raw_path
        then (files, failed path_required)
        else write_at permits (safe_resolve cwd workspace_root raw_path) raw_path content files)
    else if str_eq tool "append_file"
    then (if is_empty raw_path
        then (files, failed path_required)
        else append_at permits (safe_resolve cwd workspace_root raw_path) raw_path content files)
    else (files, not_handled)

-- ===== src/Examples/Runner.antt =====
-- Tool requests in a workspace below the directory of the process.
use ia_lab.Prelude.{◌≡◌, ◌≢◌, refl, true, false, none, String, trim_space, trim_left, trim_right}
use ia_lab.Prelude.Json.{Json, nil, cons, Fields, end, field, get}
use ia_lab.Prelude.FilePath.{clean, join, components, resolve, join_parts}
use ia_lab.Runner.{
  Files, absolute, safe_resolve, runner_allowed_capabilities, is_tool_allowed, execute_tool_request,
  is_unlimited, contains,
}
use ia_lab.Runner.Laws.{IsConfined, tool_of, execute_tool_request-IsConfined, restricted_changes}

abbrev no_files : Files
no_files path = none

abbrev no_text : Json → String
no_text v = ""

abbrev request_of : String → Fields
request_of tool =
    field "tool" (Json.str tool)
      (field "path" (Json.str "../ws/./notes.txt") (field "content" (Json.str "hello") end))

-- A task that may only search the web.
abbrev searcher : Fields
searcher = field "allowed_capabilities" (Json.arr (cons (Json.str "web.search") nil)) end

write_changes :
    (execute_tool_request no_text (λ p. true) "/srv" "ws" end (request_of "write_file") no_files).0
      "/srv/ws/notes.txt"
    ≢ no_files "/srv/ws/notes.txt"
unfolding execute_tool_request safe_resolve absolute is_tool_allowed runner_allowed_capabilities get
    clean join components resolve join_parts trim_space trim_left trim_right
write_changes e = cc e

execute_tool_request-IsConfined_example : IsConfined (absolute "/srv" "ws") "/srv/ws/notes.txt"
execute_tool_request-IsConfined_example =
    execute_tool_request-IsConfined no_text (λ p. true) "/srv" "ws" end (request_of "write_file")
      no_files "/srv/ws/notes.txt" refl write_changes

append_changes :
    (execute_tool_request no_text
        (λ p. true)
        "/srv"
        "ws"
        searcher
        (request_of "append_file")
        no_files).0
      "/srv/ws/notes.txt"
    ≢ no_files "/srv/ws/notes.txt"
unfolding execute_tool_request safe_resolve absolute is_tool_allowed runner_allowed_capabilities get
    clean join components resolve join_parts trim_space trim_left trim_right
append_changes e = cc e

searcher_limited : is_unlimited (runner_allowed_capabilities no_text searcher) ≡ false
unfolding runner_allowed_capabilities get trim_space trim_left trim_right
searcher_limited = refl

searcher_no_write :
    contains (runner_allowed_capabilities no_text searcher) "filesystem.write" ≡ false
unfolding runner_allowed_capabilities get trim_space trim_left trim_right
searcher_no_write = refl

searcher_no_filesystem :
    contains (runner_allowed_capabilities no_text searcher) "filesystem" ≡ false
unfolding runner_allowed_capabilities get trim_space trim_left trim_right
searcher_no_filesystem = refl

restricted_changes_example : tool_of no_text (request_of "append_file") ≡ "append_file"
restricted_changes_example =
    restricted_changes no_text (λ p. true) "/srv" "ws" searcher (request_of "append_file") no_files
      "/srv/ws/notes.txt" searcher_limited searcher_no_write searcher_no_filesystem append_changes

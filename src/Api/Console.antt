-- ===== src/Api/Console.antt =====
-- internal/api/console/serve.go: which file of the web console a request gets.
use providerapi.Prelude.{String, Bool, Option, none, some, if◌then◌else◌}
use providerapi.Text.{is_empty, trim_prefix}

-- Handler, for a GET or HEAD or not: the path that the file server is given, or none for 404. `exists`
-- tells whether the embedded files have a path.
unfoldable pub serve_console : (String → Bool) → Bool → String → Option String
serve_console exists is_read path =
    let name = trim_prefix path "/" in
    let file = if is_empty name then "index.html" else name in
    if is_read then if exists file then some path else some "/index.html" else none

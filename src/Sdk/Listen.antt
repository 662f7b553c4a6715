-- ===== src/Sdk/Listen.antt =====
-- sdk/plugin/server.go and plugins/openai-compat/main.go: how a plugin's process finds its socket and serves
-- on it, and internal/plugin/runtime.go: the arguments that it is started with and the wait for its socket.
use providerapi.Prelude.{
  String, Bool, true, false, ◌≡◌, refl, Option, none, some, List, [], ◌∷◌, ◌++◌, ◌==◌,
  if◌then◌else◌, inl, inr, Bool-cases,
}
use providerapi.Text.{codes, has_prefix, is_empty, trim_prefix, ◌<>◌}
use providerapi.Config.{PluginBinary}

-- the arguments of the process in Start
abbrev pub plugin_args : PluginBinary → String → List String
plugin_args bin sock = bin.args ++ "--socket" ∷ sock ∷ []

-- the first `if` of main's loop: `args[i+1]`, where it is there
abbrev next_or : String → List String → String
next_or socket [] = socket
next_or socket (a ∷ rest) = a

abbrev names_socket : String → Bool
names_socket a = has_prefix (codes a) (codes "--socket=")

-- one round of main's loop
unfoldable pub take_arg : String → List String → String → String
take_arg a rest socket =
    let found = if a == "--socket" then next_or socket rest else socket in
    if names_socket a then trim_prefix a "--socket=" else found

unfoldable pub scan_args : String → List String → String
unfolding take_arg
scan_args socket [] = socket
scan_args socket (a ∷ rest) = scan_args (take_arg a rest socket) rest

-- main of openai-compat: the socket of the arguments, or its error
unfoldable pub socket_of : List String → Option String
unfolding scan_args
socket_of args = let socket = scan_args "" args in if is_empty socket then none else some socket

-- What Accept gives: an error, or a connection with the error of its Serve, where `none` is its end.
pub data Accepted : Type 0 where
  refused : String → Accepted
  served : Option String → Accepted

-- the loop of ListenAndServeWithHook over what Accept gives: the error that ends it, if one does
unfoldable pub accept_loop : List Accepted → Option String
accept_loop [] = none
accept_loop (refused e ∷ rest) = some e
accept_loop (served none ∷ rest) = accept_loop rest
accept_loop (served (some e) ∷ rest) = some e

-- ListenAndServeWithHook, with the errors of the directory and of the listening socket
unfoldable pub listen_and_serve : Option String → Option String → List Accepted → Option String
unfolding accept_loop
listen_and_serve (some e) listen_error accepted = some e
listen_and_serve none (some e) accepted = some e
listen_and_serve none none accepted = accept_loop accepted

-- WaitSocket: whether the file is there at each look before the deadline
unfoldable pub wait_socket : String → List Bool → Option String
wait_socket path [] = some ("plugin socket " <> (path <> " not ready"))
wait_socket path (true ∷ looks) = none
wait_socket path (false ∷ looks) = wait_socket path looks

scan_args-append :
    (args : List String) (socket sock : String)
    → names_socket sock ≡ false
    → scan_args socket (args ++ "--socket" ∷ sock ∷ []) ≡ sock
unfolding scan_args take_arg
scan_args-append [] socket sock plain = elim (Bool-cases (sock == "--socket")) [
  | inl e ↦ rw (plain, e) refl
  | inr e ↦ rw (plain, e) refl
]
scan_args-append (a ∷ args) socket sock plain =
    scan_args-append args (take_arg a (args ++ "--socket" ∷ sock ∷ []) socket) sock plain

-- A plugin that Start runs, with whatever arguments the configuration gives it, finds the socket that Start waits
-- for, where that is not empty and does not begin with "--socket=".
pub socket_of-plugin_args :
    (bin : PluginBinary) (sock : String)
    → is_empty sock ≡ false
    → names_socket sock ≡ false
    → socket_of (bin.command ∷ plugin_args bin sock) ≡ some sock
unfolding socket_of
socket_of-plugin_args bin sock there plain =
    rw (scan_args-append (bin.command ∷ bin.args) "" sock plain, there) refl

-- ===== src/G04/Commands.antt =====
-- The commands of the shell: `parse`, `execute_line`, `runBuiltin` and the `com_` functions.
pub mod Laws
pub mod Dispatch
pub mod Set
pub mod Steps
use p2p_demo.Prelude.{
  ℕ, Bool, true, false, ◌||◌, drop, List, [], ◌∷◌, ◌++◌, map, Option, none, some, ◌==◌,
  if◌then◌else◌,
}
use p2p_demo.Prelude.Maps.{insert, erase}
use p2p_demo.Outcome.{Outcome, ok, undefined, ◌>>=◌}
use p2p_demo.Wire.{Bytes}
use p2p_demo.Wire.CString.{codes, is_empty}
use p2p_demo.Util.Text.{bytes_eq, starts_with}
use p2p_demo.Util.Split.{splitcmdline, split_by_deli}
use p2p_demo.Util.Decimal.{atoi}
use p2p_demo.Util.Files.{Files, host2ip}
use p2p_demo.Listener.State.{World, Net, Status, success, failure, bytes_key}
use p2p_demo.Listener.Commands
use p2p_demo.Listener.Listing
use p2p_demo.G04.State.{G04, Variables}

-- A command with its description.
abbrev pub commands : List (Bytes × Bytes)
commands =
    (codes "help", codes "Display information about built-in commands.")
    ∷ (codes "search", codes "Search files on G04 system.")
    ∷ (codes "get", codes "Download file referred by index in the search result.")
    ∷ (codes "set", codes "Set or display G04 variables")
    ∷ (codes "dump", codes "Dump internal information.")
    ∷ (codes "conn", codes "Connect to a peer.")
    ∷ (codes "ping", codes "Send a ping message to all peers.")
    ∷ (codes "peers", codes "Show peers.")
    ∷ (codes "qrs", codes "Show last query result set.")
    ∷ (codes "!", codes "Execute external shell command.")
    ∷ (codes "exit", codes "Exit G04.")
    ∷ []

abbrev pub command_names : List Bytes
command_names = map (λ (c : Bytes × Bytes). c.0) commands

-- The shell, the listener it talks to, the downloads it has started, the newest first, each with
-- the index and the local path, and what it has printed itself, the newest first.
pub record Shell : Type 0 where
  pub g04 : G04
  pub world : World
  pub downloads : List (ℕ × Bytes)
  pub printed : List Bytes

-- What the commands ask of the system; `system` gives an exit code.
pub record Host : Type 0 where
  pub net : Net
  pub files : Files
  pub system : Bytes → ℕ

-- The exit code of a command is the bit pattern of an `int`.
abbrev pub minus_one : ℕ
minus_one = 0xFFFFFFFF

unfoldable pub exit_code_of : Status → ℕ
exit_code_of success = 0
exit_code_of failure = minus_one

abbrev pub Result : Type 0
Result = Outcome (Shell × ℕ)

abbrev pub usage : Shell → Result
usage sh = ok (sh, minus_one)

abbrev pub print : Shell → Bytes → Shell
print sh text = record sh { printed = text ∷ sh.printed }

-- The entries that `chosen` picks, one after the other.
unfoldable pub print_each :
    (Bytes → Bool) → (Bytes → Bytes → Bytes) → List (Bytes × Bytes) → Shell → Shell
print_each chosen format [] sh = sh
print_each chosen format ((name, text) ∷ entries) sh =
    print_each chosen format entries (if chosen name then print sh (format name text) else sh)

abbrev pub help_format : Bytes → Bytes → Bytes
help_format name text = name ++ (9 ∷ 9 ∷ (text ++ b'\n' ∷ []))

abbrev pub set_format : Bytes → Bytes → Bytes
set_format name text = name ++ b'=' ∷ (text ++ b'\n' ∷ [])

unfoldable pub com_help : List Bytes → Shell → Result
com_help [] sh = undefined
com_help (command ∷ []) sh = ok (print_each (λ name. true) help_format commands sh, 0)
com_help (command ∷ arg ∷ []) sh =
    ok (print_each (λ name. bytes_eq arg name) help_format commands sh, 0)
com_help (command ∷ arg ∷ more ∷ args) sh = usage sh

-- The thread is started with the index and the path.
unfoldable pub start_download : Bytes → Bytes → Shell → Result
start_download index localpath sh =
    ok (record sh { downloads = (atoi index, localpath) ∷ sh.downloads }, 0)

unfoldable pub com_get : List Bytes → Shell → Result
com_get (command ∷ index ∷ []) sh = start_download index [] sh
com_get (command ∷ index ∷ localpath ∷ []) sh = start_download index localpath sh
com_get _ sh = usage sh

-- The words of the argument of `set` around its equals signs.
unfoldable pub set_words : List Bytes → Shell → Result
set_words [] sh = undefined
set_words (varname ∷ []) sh =
    ok (print_each (λ name. starts_with name varname) set_format sh.g04.variables sh, 0)
set_words (varname ∷ sign ∷ []) sh =
    ok (record sh { g04 = record (sh.g04) { variables = erase varname sh.g04.variables } }, 0)
set_words (varname ∷ sign ∷ value ∷ more) sh =
    ok
      (record sh { g04 = record (sh.g04) { variables = insert varname value sh.g04.variables } }, 0)

unfoldable pub com_set : List Bytes → Shell → Result
com_set (command ∷ []) sh = ok (print_each (λ name. true) set_format sh.g04.variables sh, 0)
com_set (command ∷ arg ∷ []) sh = set_words (split_by_deli arg b'=') sh
com_set _ sh = usage sh

unfoldable pub com_quit : List Bytes → Shell → Result
com_quit args sh = ok (record sh { g04 = record (sh.g04) { quits = true } }, 0)

-- The texts that the listener prints, the first one first.
unfoldable pub print_all : List Bytes → Shell → Shell
print_all [] sh = sh
print_all (text ∷ texts) sh = print_all texts (print sh text)

abbrev print_listing : Outcome (List Bytes) → Shell → Result
print_listing listing sh = listing >>= (λ texts. ok (print_all texts sh, 0))

unfoldable pub com_dump : List Bytes → Shell → Result
com_dump (command ∷ []) sh =
    let title = print sh (codes "Internal variables:\n") in
    let shown = print_each (λ name. true) set_format sh.g04.variables title in
    print_listing (Listing.com_dump sh.world.listener) (print shown (b'\n' ∷ []))
com_dump _ sh = usage sh

unfoldable pub com_peers : List Bytes → Shell → Result
com_peers (command ∷ []) sh = print_listing (Listing.com_peers sh.world.listener) sh
com_peers _ sh = usage sh

unfoldable pub com_qrs : List Bytes → Shell → Result
com_qrs (command ∷ []) sh = print_listing (Listing.com_qrs sh.world.listener) sh
com_qrs _ sh = usage sh

abbrev pub with_world : Shell → World → Shell
with_world sh w = record sh { world = w }

-- An exclamation mark takes the rest of the line as one argument.
unfoldable pub parse : Bytes → List Bytes
parse line =
    if starts_with line (codes "!") then codes "!" ∷ drop 1 line ∷ [] else splitcmdline line

abbrev pub Run : Type 0
Run = List Bytes → Shell → Result

-- The function of the first test that the name passes.
unfoldable pub find_run : Bytes → List (Bytes × Run) → Option Run
find_run command [] = none
find_run command ((name, run) ∷ rows) =
    if bytes_eq command name then some run else find_run command rows

module _ (host : Host) where
  unfoldable pub com_search : List Bytes → Shell → Result
  com_search (command ∷ keyword ∷ []) sh =
      ok (with_world sh (Commands.com_search (host.net) keyword sh.world), 0)
  com_search _ sh = usage sh

  unfoldable pub com_external : List Bytes → Shell → Result
  com_external (command ∷ external ∷ args) sh =
      if is_empty external then usage sh else ok (sh, host.system external)
  com_external _ sh = undefined

  unfoldable pub com_conn : List Bytes → Shell → Result
  com_conn (command ∷ name ∷ port ∷ []) sh =
      let (w, status) =
        Commands.com_connect (host.net) (host2ip (host.files) name) (atoi port) sh.world in
      ok (with_world sh w, exit_code_of status)
  com_conn _ sh = usage sh

  unfoldable pub com_ping : List Bytes → Shell → Result
  com_ping (command ∷ []) sh = ok (with_world sh (Commands.com_ping (host.net) sh.world), 0)
  com_ping _ sh = usage sh

  -- The tests of `runBuiltin` in their order, each with the function it calls.
  unfoldable pub builtins : List (Bytes × Run)
  builtins =
      (codes "get", com_get)
      ∷ (codes "search", com_search)
      ∷ (codes "query", com_search)
      ∷ (codes "help", com_help)
      ∷ (codes "?", com_help)
      ∷ (codes "exit", com_quit)
      ∷ (codes "set", com_set)
      ∷ (codes "dump", com_dump)
      ∷ (codes "conn", com_conn)
      ∷ (codes "connect", com_conn)
      ∷ (codes "ping", com_ping)
      ∷ (codes "peers", com_peers)
      ∷ (codes "qrs", com_qrs)
      ∷ (codes "!", com_external)
      ∷ []

  unfoldable pub builtin : Bytes → Option Run
  builtin command = find_run command builtins

  unfoldable pub run_builtin : List Bytes → Shell → Result
  run_builtin [] sh = undefined
  run_builtin (command ∷ args) sh = elim (builtin command) [
    | none ↦ ok (sh, minus_one)
    | some run ↦ run (command ∷ args) sh
  ]

  unfoldable pub execute_words : List Bytes → Shell → Result
  execute_words [] sh = ok (sh, 0)
  execute_words (cmd ∷ args) sh = run_builtin (cmd ∷ args) sh

  unfoldable pub execute_line : Bytes → Shell → Result
  execute_line line sh = execute_words (parse line) sh

unfoldable pub is_among : Bytes → List Bytes → Bool
is_among name [] = false
is_among name (cmd ∷ cmds) = bytes_eq name cmd || is_among name cmds

unfoldable pub is_builtin : Bytes → Bool
is_builtin name = is_among name command_names

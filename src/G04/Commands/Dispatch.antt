-- ===== src/G04/Commands/Dispatch.antt =====
-- What the shell gives the functions of the commands: `runBuiltin`, `execute_line`, `isBuiltin`.
use p2p_demo.Prelude.{
  ◌≡◌, ◌≢◌, inl, inr, true, false, List, [], ◌∷◌, All, none, some, arith, Bool-cases, Option-cases,
  drop,
}
use p2p_demo.Wire.{Bytes}
use p2p_demo.Wire.CString.{codes, is_empty}
use p2p_demo.Util.Text.{bytes_eq, bytes_eq-one, bytes_eq→eq, starts_with, starts_with-one}
use p2p_demo.Util.Split.{is_redirect, words, split, splitcmdline, spaced}
use p2p_demo.Util.Split.Laws.{StartsClean}
use p2p_demo.Util.Split.Spaces.{IsClean, words-IsClean, words-spaced-first}
use p2p_demo.Util.Files.{host2ip}
use p2p_demo.Util.Decimal.{atoi}
use p2p_demo.Listener.Listing.Laws.{IsListable}
use p2p_demo.Listener.Listing.Kept.{
  com_search-IsListable, com_ping-IsListable, com_connect-IsListable,
}
use p2p_demo.G04.Commands.{
  Shell, Host, Run, find_run, builtins, com_search, com_external, com_conn, com_ping, builtin,
  run_builtin, parse, execute_words, execute_line, command_names, is_among, is_builtin,
}
use p2p_demo.G04.Commands.Laws.{
  Ends, IsSafe, com_help-IsSafe, com_get-IsSafe, com_set-IsSafe, com_dump-IsSafe, com_peers-IsSafe,
  com_qrs-IsSafe, com_quit-IsSafe,
}

-- What holds of every function whose test the name passes holds of the one that is called.
pub find_run-All :
    (P : Run → Type 0) (command : Bytes) (rows : List (Bytes × Run)) (run : Run)
    → All (λ (row : Bytes × Run). bytes_eq command row.0 ≡ true → P row.1) rows
    → find_run command rows ≡ some run
    → P run
unfolding find_run
find_run-All P command [] run h e = absurd (cc e)
find_run-All P command ((name, f) ∷ rows) run (hf, h) e =
    elim (Bool-cases (bytes_eq command name)) [
      | inl same ↦ let found : f ≡ run = ground (arith, same, e) in rw found at (hf same)
      | inr other ↦ find_run-All P command rows run h (ground (arith, other, e))
    ]

module _ (host : Host) where
  com_search-IsSafe : IsSafe (com_search host)
  unfolding com_search
  com_search-IsSafe command [] sh h l = l
  com_search-IsSafe command (keyword ∷ []) sh h l =
      com_search-IsListable (host.net) keyword sh.world l
  com_search-IsSafe command (keyword ∷ more ∷ args) sh h l = l

  com_ping-IsSafe : IsSafe (com_ping host)
  unfolding com_ping
  com_ping-IsSafe command [] sh h l = com_ping-IsListable (host.net) sh.world l
  com_ping-IsSafe command (arg ∷ args) sh h l = l

  com_conn-IsSafe : IsSafe (com_conn host)
  unfolding com_conn
  com_conn-IsSafe command [] sh h l = l
  com_conn-IsSafe command (name ∷ []) sh h l = l
  com_conn-IsSafe command (name ∷ port ∷ []) sh h l =
      com_connect-IsListable (host.net) (host2ip (host.files) name) (atoi port) sh.world l
  com_conn-IsSafe command (name ∷ port ∷ more ∷ args) sh h l = l

  com_external-Ends :
      (command external : Bytes) (sh : Shell)
      → IsListable sh.world.listener
      → Ends (com_external host (command ∷ external ∷ []) sh)
  unfolding com_external is_empty
  com_external-Ends command [] sh l = l
  com_external-Ends command (b ∷ s) sh l = l

  builtin-IsSafe :
      (command : Bytes) (run : Run)
      → bytes_eq command (codes "!") ≡ false
      → builtin host command ≡ some run
      → IsSafe run
  unfolding builtin builtins
  builtin-IsSafe command run h e =
      find_run-All IsSafe command (builtins host) run
        (
          (λ _. com_get-IsSafe),
          (
            (λ _. com_search-IsSafe),
            (
              (λ _. com_search-IsSafe),
              (
                (λ _. com_help-IsSafe),
                (
                  (λ _. com_help-IsSafe),
                  (
                    (λ _. com_quit-IsSafe),
                    (
                      (λ _. com_set-IsSafe),
                      (
                        (λ _. com_dump-IsSafe),
                        (
                          (λ _. com_conn-IsSafe),
                          (
                            (λ _. com_conn-IsSafe),
                            (
                              (λ _. com_ping-IsSafe),
                              (
                                (λ _. com_peers-IsSafe),
                                ((λ _. com_qrs-IsSafe), ((λ bang. absurd (cc (bang, h))), tt)),
                              ),
                            ),
                          ),
                        ),
                      ),
                    ),
                  ),
                ),
              ),
            ),
          ),
        )
        e

  run_builtin-Ends :
      (command : Bytes) (args : List Bytes) (sh : Shell)
      → bytes_eq command (codes "!") ≡ false
      → All IsClean args
      → IsListable sh.world.listener
      → Ends (run_builtin host (command ∷ args) sh)
  unfolding run_builtin
  run_builtin-Ends command args sh h k l = elim (Option-cases (builtin host command)) [
    | inl unknown ↦ rw (run_builtin, unknown) l
    | inr (run, e) ↦ rw (run_builtin, e) (builtin-IsSafe command run h e command args sh k l)
  ]

  bang-Ends :
      (external : Bytes) (sh : Shell)
      → IsListable sh.world.listener
      → Ends (run_builtin host (codes "!" ∷ external ∷ []) sh)
  unfolding run_builtin builtin builtins find_run bytes_eq
  bang-Ends external sh l = com_external-Ends (codes "!") external sh l

  splitcmdline-Ends :
      (line : Bytes) (sh : Shell)
      → StartsClean line
      → starts_with line (codes "!") ≡ false
      → IsListable sh.world.listener
      → Ends (execute_words host (splitcmdline line) sh)
  unfolding execute_words splitcmdline split words spaced is_empty
  splitcmdline-Ends [] sh h k l = l
  splitcmdline-Ends (b ∷ s) sh h k l =
      let (t, ws, e) = words-spaced-first is_redirect b s h in
      let clean : All IsClean ((b ∷ t) ∷ ws) =
        rw e at (words-IsClean [] (spaced is_redirect (b ∷ s)) tt) in
      let other : bytes_eq (b ∷ t) (codes "!") ≡ false =
        bytes_eq-one b b'!' t (rw (starts_with-one b b'!' s) at k) in
      rw e (run_builtin-Ends (b ∷ t) ws sh other clean.1 l)

  -- A line that begins with no space, as `trim` leaves it, is executed to the end: no command
  -- reads an argument that is not there.
  pub execute_line-Ends :
      (line : Bytes) (sh : Shell)
      → StartsClean line
      → IsListable sh.world.listener
      → Ends (execute_line host line sh)
  unfolding execute_line execute_words parse
  execute_line-Ends line sh h l = elim (Bool-cases (starts_with line (codes "!"))) [
    | inl bang ↦ rw (parse, bang) (bang-Ends (drop 1 line) sh l)
    | inr other ↦ rw (parse, other) (splitcmdline-Ends line sh h other l)
  ]

is_among-All :
    (P : Bytes → Type 0) (name : Bytes) (cmds : List Bytes)
    → All P cmds
    → is_among name cmds ≡ true
    → P name
unfolding is_among
is_among-All P name [] h e = absurd (cc e)
is_among-All P name (cmd ∷ cmds) (hc, h) e = elim (Bool-cases (bytes_eq name cmd)) [
  | inl same ↦ rw (bytes_eq→eq name cmd same) hc
  | inr other ↦ is_among-All P name cmds h (ground (arith, other, e))
]

-- Every name that `isBuiltin` finds has a function that `runBuiltin` calls.
is_builtin-builtin :
    (host : Host) (name : Bytes) → is_builtin name ≡ true → builtin host name ≢ none
unfolding is_builtin builtin builtins find_run bytes_eq
is_builtin-builtin host name h =
    is_among-All (λ n. builtin host n ≢ none) name command_names
      (
        (λ e. cc),
        (
          (λ e. cc),
          (
            (λ e. cc),
            (
              (λ e. cc),
              (
                (λ e. cc),
                ((λ e. cc), ((λ e. cc), ((λ e. cc), ((λ e. cc), ((λ e. cc), ((λ e. cc), tt)))))),
              ),
            ),
          ),
        ),
      )
      h

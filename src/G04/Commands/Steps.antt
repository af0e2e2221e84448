-- ===== src/G04/Commands/Steps.antt =====
-- What the commands of the shell do to the node: steps of the node.
use p2p_demo.Prelude.{ℕ, ◌≡◌, refl, ◌∙◌, inl, inr, List, [], ◌∷◌, some, Option-cases}
use p2p_demo.Outcome.{Outcome, ok, throw, undefined, ◌>>=◌, OnReturn}
use p2p_demo.Wire.{Bytes}
use p2p_demo.Wire.CString.{is_empty}
use p2p_demo.Util.Split.{split_by_deli}
use p2p_demo.Util.Files.{host2ip}
use p2p_demo.Util.Decimal.{atoi}
use p2p_demo.Listener.State.{World, Trace}
use p2p_demo.Listener.Loop.Reach.{Reach, here, next, search, ping, connect}
use p2p_demo.G04.Commands.{
  Shell, Host, Run, Result, print_all, com_help, com_get, com_set, com_quit, com_dump, com_peers,
  com_qrs, com_search, com_external, com_conn, com_ping, set_words, start_download, builtins,
  builtin, run_builtin, parse, execute_words, execute_line,
}
use p2p_demo.Listener.Listing
use p2p_demo.G04.Commands.Laws.{print_each-world, print_all-world}
use p2p_demo.G04.Commands.Dispatch.{find_run-All}

module _ (host : Host) (dup : Trace → ℕ → ℕ) where
  abbrev pub Goes : World → World → Type 0
  Goes = Reach (Unit {0}) (host.files) (host.net) dup

  -- The command takes the node on by its steps.
  abbrev pub Steps : Shell → Result → Type 0
  Steps sh m = OnReturn (λ r. Goes sh.world r.0.world) m

  abbrev pub IsStepping : Run → Type 0
  IsStepping run = (args : List Bytes) (sh : Shell) → Steps sh (run args sh)

  stays : (u v : World) → v ≡ u → Goes u v
  stays u v e = rw e (here u)

  com_help-IsStepping : IsStepping com_help
  unfolding com_help
  com_help-IsStepping [] sh = tt
  com_help-IsStepping (command ∷ []) sh = stays (sh.world) _ (print_each-world _ _ _ sh)
  com_help-IsStepping (command ∷ arg ∷ []) sh = stays (sh.world) _ (print_each-world _ _ _ sh)
  com_help-IsStepping (command ∷ arg ∷ more ∷ args) sh = here (sh.world)

  com_get-IsStepping : IsStepping com_get
  unfolding com_get start_download
  com_get-IsStepping [] sh = here (sh.world)
  com_get-IsStepping (command ∷ []) sh = here (sh.world)
  com_get-IsStepping (command ∷ index ∷ []) sh = here (sh.world)
  com_get-IsStepping (command ∷ index ∷ localpath ∷ []) sh = here (sh.world)
  com_get-IsStepping (command ∷ index ∷ localpath ∷ more ∷ args) sh = here (sh.world)

  set_words-IsStepping : IsStepping set_words
  unfolding set_words
  set_words-IsStepping [] sh = tt
  set_words-IsStepping (varname ∷ []) sh = stays (sh.world) _ (print_each-world _ _ _ sh)
  set_words-IsStepping (varname ∷ sign ∷ []) sh = here (sh.world)
  set_words-IsStepping (varname ∷ sign ∷ value ∷ more) sh = here (sh.world)

  com_set-IsStepping : IsStepping com_set
  unfolding com_set
  com_set-IsStepping [] sh = here (sh.world)
  com_set-IsStepping (command ∷ []) sh = stays (sh.world) _ (print_each-world _ _ _ sh)
  com_set-IsStepping (command ∷ arg ∷ []) sh = set_words-IsStepping (split_by_deli arg b'=') sh
  com_set-IsStepping (command ∷ arg ∷ more ∷ args) sh = here (sh.world)

  listing-Steps :
      (listing : Outcome (List Bytes)) (sh shown : Shell)
      → shown.world ≡ sh.world
      → Steps sh (listing >>= (λ texts. ok (print_all texts shown, 0)))
  listing-Steps (ok texts) sh shown e = stays (sh.world) _ (print_all-world texts shown ∙ e)
  listing-Steps (throw x) sh shown e = tt
  listing-Steps undefined sh shown e = tt

  com_dump-IsStepping : IsStepping com_dump
  unfolding com_dump
  com_dump-IsStepping [] sh = here (sh.world)
  com_dump-IsStepping (command ∷ []) sh =
      listing-Steps (Listing.com_dump sh.world.listener) sh _
        (print_each-world _ _ sh.g04.variables _)
  com_dump-IsStepping (command ∷ arg ∷ args) sh = here (sh.world)

  com_peers-IsStepping : IsStepping com_peers
  unfolding com_peers
  com_peers-IsStepping [] sh = here (sh.world)
  com_peers-IsStepping (command ∷ []) sh =
      listing-Steps (Listing.com_peers sh.world.listener) sh sh refl
  com_peers-IsStepping (command ∷ arg ∷ args) sh = here (sh.world)

  com_qrs-IsStepping : IsStepping com_qrs
  unfolding com_qrs
  com_qrs-IsStepping [] sh = here (sh.world)
  com_qrs-IsStepping (command ∷ []) sh =
      listing-Steps (Listing.com_qrs sh.world.listener) sh sh refl
  com_qrs-IsStepping (command ∷ arg ∷ args) sh = here (sh.world)

  com_quit-IsStepping : IsStepping com_quit
  unfolding com_quit
  com_quit-IsStepping args sh = here (sh.world)

  com_search-IsStepping : IsStepping (com_search host)
  unfolding com_search
  com_search-IsStepping [] sh = here (sh.world)
  com_search-IsStepping (command ∷ []) sh = here (sh.world)
  com_search-IsStepping (command ∷ keyword ∷ []) sh = next (search (sh.world) keyword) (here _)
  com_search-IsStepping (command ∷ keyword ∷ more ∷ args) sh = here (sh.world)

  com_ping-IsStepping : IsStepping (com_ping host)
  unfolding com_ping
  com_ping-IsStepping [] sh = here (sh.world)
  com_ping-IsStepping (command ∷ []) sh = next (ping (sh.world)) (here _)
  com_ping-IsStepping (command ∷ arg ∷ args) sh = here (sh.world)

  com_conn-IsStepping : IsStepping (com_conn host)
  unfolding com_conn
  com_conn-IsStepping [] sh = here (sh.world)
  com_conn-IsStepping (command ∷ []) sh = here (sh.world)
  com_conn-IsStepping (command ∷ name ∷ []) sh = here (sh.world)
  com_conn-IsStepping (command ∷ name ∷ port ∷ []) sh =
      next (connect tt (sh.world) (host2ip (host.files) name) (atoi port)) (here _)
  com_conn-IsStepping (command ∷ name ∷ port ∷ more ∷ args) sh = here (sh.world)

  com_external-IsStepping : IsStepping (com_external host)
  unfolding com_external is_empty
  com_external-IsStepping [] sh = tt
  com_external-IsStepping (command ∷ []) sh = tt
  com_external-IsStepping (command ∷ [] ∷ args) sh = here (sh.world)
  com_external-IsStepping (command ∷ (b ∷ s) ∷ args) sh = here (sh.world)

  builtin-IsStepping :
      (command : Bytes) (run : Run) → builtin host command ≡ some run → IsStepping run
  unfolding builtin builtins
  builtin-IsStepping command run e =
      find_run-All IsStepping command (builtins host) run
        (
          (λ _. com_get-IsStepping),
          (
            (λ _. com_search-IsStepping),
            (
              (λ _. com_search-IsStepping),
              (
                (λ _. com_help-IsStepping),
                (
                  (λ _. com_help-IsStepping),
                  (
                    (λ _. com_quit-IsStepping),
                    (
                      (λ _. com_set-IsStepping),
                      (
                        (λ _. com_dump-IsStepping),
                        (
                          (λ _. com_conn-IsStepping),
                          (
                            (λ _. com_conn-IsStepping),
                            (
                              (λ _. com_ping-IsStepping),
                              (
                                (λ _. com_peers-IsStepping),
                                ((λ _. com_qrs-IsStepping), ((λ _. com_external-IsStepping), tt)),
                              ),
                            ),
                          ),
                        ),
                      ),
                    ),
                  ),
                ),
              ),
            ),
          ),
        )
        e

  run_builtin-IsStepping : IsStepping (run_builtin host)
  unfolding run_builtin
  run_builtin-IsStepping [] sh = tt
  run_builtin-IsStepping (command ∷ args) sh = elim (Option-cases (builtin host command)) [
    | inl unknown ↦ rw (run_builtin, unknown) (here (sh.world))
    | inr (run, e) ↦ rw (run_builtin, e) (builtin-IsStepping command run e (command ∷ args) sh)
  ]

  execute_words-IsStepping : IsStepping (execute_words host)
  unfolding execute_words
  execute_words-IsStepping [] sh = here (sh.world)
  execute_words-IsStepping (cmd ∷ args) sh = run_builtin-IsStepping (cmd ∷ args) sh

  pub execute_line-Steps : (line : Bytes) (sh : Shell) → Steps sh (execute_line host line sh)
  unfolding execute_line
  execute_line-Steps line sh = execute_words-IsStepping (parse line) sh

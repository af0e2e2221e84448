-- ===== src/G04/Commands/Set.antt =====
-- `set` with a name and a value.
use p2p_demo.Prelude.{
  ℕ, ◌≡◌, ◌≢◌, refl, ap, sym, append-nil, ◌∙◌, inl, inr, false, [], ◌∷◌, ◌++◌, All, All-map,
  All-append, Bool-cases,
}
use p2p_demo.Prelude.Maps.{insert, lookup-insert}
use p2p_demo.Outcome.{ok}
use p2p_demo.Wire.{Bytes}
use p2p_demo.Wire.CString.{codes, is_empty}
use p2p_demo.Util.Text.{bytes_eq, starts_with-one, bytes_eq_refl, bytes_eq→eq}
use p2p_demo.Util.Split.{isspace, is_redirect, split, words, splitcmdline, spaced, split_by_deli}
use p2p_demo.Util.Split.Laws.{IsWord}
use p2p_demo.Util.Split.Spaces.{IsClean, words-alone, spaced-without}
use p2p_demo.Listener.State.{bytes_key}
use p2p_demo.G04.State.{getvar}
use p2p_demo.G04.Conf.Lines.{Assignment, split-assignment}
use p2p_demo.G04.Commands.{
  Shell, Host, builtin, builtins, find_run, run_builtin, execute_words, parse, execute_line,
  com_set, set_words,
}

-- Neither a space, nor an equals sign, nor one of the characters that `splitcmdline` sets apart.
pub record IsPlain (w : Bytes) : Type 0 where
  pub word : IsWord b'=' w
  pub plain : All (λ c. is_redirect c ≡ false) w

eq_false : (a b : Bytes) → a ≢ b → bytes_eq a b ≡ false
eq_false a b h = elim (Bool-cases (bytes_eq a b)) [
  | inl same ↦ absurd (h (bytes_eq→eq a b same))
  | inr other ↦ other
]

module _ (name value : Bytes) (n : IsPlain name) (v : IsPlain value) where
  abbrev argument : Bytes
  argument = name ++ b'=' ∷ value

  no_space : (w : Bytes) → IsWord b'=' w → All (λ c. isspace c ≡ false) w
  no_space w h = All-map _ _ w (λ c k. k.0) h.1

  append-ne : (w : Bytes) (b : ℕ) (s : Bytes) → (w ++ b ∷ s) ≢ []
  append-ne [] b s = λ e. cc
  append-ne (c ∷ w) b s = λ e. cc

  argument-IsClean : IsClean argument
  unfolding isspace
  argument-IsClean = (
    append-ne name b'=' value,
    All-append _ name (b'=' ∷ value) (no_space name n.word) (refl, no_space value v.word),
  )

  split-command : splitcmdline (codes "set " ++ argument) ≡ codes "set" ∷ argument ∷ []
  unfolding splitcmdline split spaced words isspace is_empty
  split-command =
      ap (λ ws. codes "set" ∷ ws)
        (ap (words []) (
            spaced-without is_redirect argument
              (All-append _ name (b'=' ∷ value) n.plain (refl, v.plain)))
          ∙ words-alone argument argument-IsClean)

  split-argument : split_by_deli argument b'=' ≡ name ∷ (b'=' ∷ []) ∷ value ∷ []
  split-argument =
      let a : Assignment name value = record {
        front = [];
        back = [];
        before_sign = [];
        behind_sign = [];
        name_ok = n.word;
        value_ok = v.word;
        spaces = (tt, tt, tt, tt);
      } in
      ap (λ s. split_by_deli (name ++ b'=' ∷ s) b'=') (sym (append-nil value))
      ∙ split-assignment name value a

  execute_set :
      (host : Host) (sh : Shell)
      → execute_line host (codes "set " ++ argument) sh
        ≡ ok (
          record sh { g04 = record (sh.g04) { variables = insert name value sh.g04.variables } },
          0,
        )
  unfolding execute_line execute_words parse run_builtin builtin builtins find_run com_set set_words
      bytes_eq
  execute_set host sh =
      rw (parse, starts_with-one b's' b'!' (codes "et " ++ argument), split-command)
        (ap (λ ws. set_words ws sh) split-argument)

  -- After the line `set NAME=VALUE`, with a name and a value that are not empty and hold no
  -- spaces, no equals signs and none of `|`, `<`, `>` and `&`, the exit code is 0, the variable of
  -- that name has that value, and every other variable has the value it had.
  pub set-getvar :
      (host : Host) (sh : Shell)
      → (sh' : Shell) × (execute_line host (codes "set " ++ (name ++ b'=' ∷ value)) sh
          ≡ ok (sh', 0))
        × (getvar sh'.g04.variables name ≡ value)
        × ((other : Bytes)
            → name ≢ other
            → getvar sh'.g04.variables other ≡ getvar sh.g04.variables other)
  unfolding getvar
  set-getvar host sh = (
    _,
    execute_set host sh,
    rw (getvar, lookup-insert name name value sh.g04.variables, bytes_eq_refl name) refl,
    λ other h.
        rw (getvar, lookup-insert name other value sh.g04.variables, eq_false name other h) refl,
  )

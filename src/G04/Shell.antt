-- ===== src/G04/Shell.antt =====
-- The loop of `G04::run` over the lines that are typed.
pub mod Node
use p2p_demo.Prelude.{
  ◌≡◌, refl, ◌∙◌, inl, inr, Bool, true, false, List, [], ◌∷◌, if◌then◌else◌, Bool-cases,
}
use p2p_demo.Outcome.{Outcome, ok, throw, undefined, ◌>>=◌, Returns}
use p2p_demo.Wire.{Bytes}
use p2p_demo.Wire.CString.{codes, is_empty}
use p2p_demo.Util.Text.{bytes_eq, starts_with}
use p2p_demo.Util.Split.{trim, splitcmdline, split, words, spaced, isspace}
use p2p_demo.Util.Split.Laws.{trim_sound}
use p2p_demo.G04.Commands.{
  Shell, Host, Result, execute_line, execute_words, parse, run_builtin, builtin, builtins, find_run,
  com_quit,
}
use p2p_demo.Listener.Listing.Laws.{IsListable}
use p2p_demo.G04.Commands.Laws.{Ends}
use p2p_demo.G04.Commands.Dispatch.{execute_line-Ends}

-- What the loop does with one line; the exit code is not looked at.
unfoldable pub run_line : Host → Bytes → Shell → Outcome Shell
run_line host line sh =
    let s = trim line in if is_empty s then ok sh else execute_line host s sh >>= (λ r. ok r.0)

-- The end of the list is the end of the input.
unfoldable pub run_lines : Host → List Bytes → Shell → Outcome Shell
run_lines host [] sh = ok sh
run_lines host (line ∷ lines) sh =
    if sh.g04.quits then ok sh else run_line host line sh >>= run_lines host lines

-- The loop returns, and the names that a listing shows are still not too long for it.
abbrev pub EndsAs : Outcome Shell → Type 0
EndsAs (ok sh) = IsListable sh.world.listener
EndsAs (throw e) = ⊥
EndsAs undefined = ⊥

bind-EndsAs :
    (m : Outcome Shell) (f : Shell → Outcome Shell)
    → EndsAs m
    → ((sh : Shell) → IsListable sh.world.listener → EndsAs (f sh))
    → EndsAs (m >>= f)
bind-EndsAs (ok sh) f h k = k sh h
bind-EndsAs (throw e) f h k = absurd h
bind-EndsAs undefined f h k = absurd h

if-EndsAs : (b : Bool) (m n : Outcome Shell) → EndsAs m → EndsAs n → EndsAs (if b then m else n)
if-EndsAs true m n h k = h
if-EndsAs false m n h k = k

Ends-EndsAs : (m : Result) → Ends m → EndsAs (m >>= (λ r. ok r.0))
Ends-EndsAs (ok r) h = h
Ends-EndsAs (throw e) h = absurd h
Ends-EndsAs undefined h = absurd h

run_line-EndsAs :
    (host : Host) (line : Bytes) (sh : Shell)
    → IsListable sh.world.listener
    → EndsAs (run_line host line sh)
unfolding run_line
run_line-EndsAs host line sh l = elim (Bool-cases (is_empty (trim line))) [
  | inl empty ↦ rw empty l
  | inr full ↦
      let (pre, post, spaces_pre, spaces_post, e, starts, ends) = trim_sound line in
      rw full (
        Ends-EndsAs (execute_line host (trim line) sh)
          (execute_line-Ends host (trim line) sh starts l))
]

pub run_lines-EndsAs :
    (host : Host) (lines : List Bytes) (sh : Shell)
    → IsListable sh.world.listener
    → EndsAs (run_lines host lines sh)
unfolding run_lines
run_lines-EndsAs host [] sh l = l
run_lines-EndsAs host (line ∷ lines) sh l =
    if-EndsAs (sh.g04.quits) (ok sh) (run_line host line sh >>= run_lines host lines) l (
      bind-EndsAs (run_line host line sh) (run_lines host lines) (run_line-EndsAs host line sh l)
        (run_lines-EndsAs host lines))

EndsAs-Returns : (m : Outcome Shell) → EndsAs m → Returns m
EndsAs-Returns (ok sh) h = tt
EndsAs-Returns (throw e) h = absurd h
EndsAs-Returns undefined h = absurd h

-- Whatever lines are typed, the loop of the shell comes to its end, and no command of it reads an
-- argument that is not there, where no name that the node can list, of a local file or of a
-- result, is longer than 4000 characters.
pub run_lines-Returns :
    (host : Host) (lines : List Bytes) (sh : Shell)
    → IsListable sh.world.listener
    → Returns (run_lines host lines sh)
run_lines-Returns host lines sh l =
    EndsAs-Returns (run_lines host lines sh) (run_lines-EndsAs host lines sh l)

run_lines-quits :
    (host : Host) (lines : List Bytes) (sh : Shell)
    → sh.g04.quits ≡ true
    → run_lines host lines sh ≡ ok sh
unfolding run_lines
run_lines-quits host [] sh h = refl
run_lines-quits host (line ∷ lines) sh h = rw h refl

run_lines-step :
    (host : Host) (line : Bytes) (lines : List Bytes) (sh sh' : Shell)
    → sh.g04.quits ≡ false
    → run_line host line sh ≡ ok sh'
    → run_lines host (line ∷ lines) sh ≡ run_lines host lines sh'
unfolding run_lines
run_lines-step host line lines sh sh' h e =
    let k : (if sh.g04.quits then ok sh else run_line host line sh >>= run_lines host lines)
        ≡ (if false then ok sh else ok sh' >>= run_lines host lines) =
      cc (h, e) in
    k

run_line-exit :
    (host : Host) (line : Bytes) (sh : Shell)
    → trim line ≡ codes "exit"
    → run_line host line sh ≡ ok (record sh { g04 = record (sh.g04) { quits = true } })
unfolding run_line is_empty execute_line execute_words run_builtin builtin builtins find_run
    com_quit bytes_eq parse starts_with splitcmdline split words spaced isspace
run_line-exit host line sh e = rw (run_line, e) refl

-- A line `exit`, with whatever spaces stand around it, ends a loop that still runs: it sets the
-- flag, changes nothing else, and no line behind it is executed.
run_lines-exit :
    (host : Host) (line : Bytes) (lines : List Bytes) (sh : Shell)
    → sh.g04.quits ≡ false
    → trim line ≡ codes "exit"
    → run_lines host (line ∷ lines) sh ≡ ok (record sh { g04 = record (sh.g04) { quits = true } })
run_lines-exit host line lines sh h e =
    run_lines-step host line lines sh _ h (run_line-exit host line sh e)
    ∙ run_lines-quits host lines (record sh { g04 = record (sh.g04) { quits = true } }) refl

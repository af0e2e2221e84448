-- ===== src/G04/Commands/Laws.antt =====
-- What the commands need of their arguments, and what they keep.
use p2p_demo.Prelude.{ℕ, ◌≡◌, ◌≢◌, refl, inl, inr, Bool, List, [], ◌∷◌, All, ◌==◌, Bool-cases}
use p2p_demo.Outcome.{Outcome, ok, throw, undefined, ◌>>=◌, Returns}
use p2p_demo.Wire.{Bytes}
use p2p_demo.Util.Split.{split, split_by_deli}
use p2p_demo.Util.Split.Spaces.{IsClean, words-spaced-first}
use p2p_demo.Listener.State.{World}
use p2p_demo.Listener.Listing
use p2p_demo.Listener.Listing.Laws.{IsListable, com_peers-rows, com_qrs-rows, com_dump-Returns}
use p2p_demo.G04.Commands.{
  Result, print_each, print_all, commands, Shell, Run, com_help, com_get, com_set, com_quit,
  com_dump, com_peers, com_qrs, set_words, start_download,
}

-- The command returns, and the names that a listing shows are still not too long for it.
abbrev pub Ends : Result → Type 0
Ends (ok r) = IsListable r.0.world.listener
Ends (throw e) = ⊥
Ends undefined = ⊥

-- The function ends on a command with words for its arguments, where a listing can be shown.
abbrev pub IsSafe : Run → Type 0
IsSafe run =
    (command : Bytes) (args : List Bytes) (sh : Shell)
    → All IsClean args
    → IsListable sh.world.listener
    → Ends (run (command ∷ args) sh)

-- What is printed does not change the node.
pub print_each-world :
    (chosen : Bytes → Bool) (format : Bytes → Bytes → Bytes) (entries : List (Bytes × Bytes))
    (sh : Shell)
    → (print_each chosen format entries sh).world ≡ sh.world
unfolding print_each
print_each-world chosen format [] sh = refl
print_each-world chosen format ((name, text) ∷ entries) sh = elim (Bool-cases (chosen name)) [
  | inl is_chosen ↦ rw (print_each, is_chosen) (print_each-world chosen format entries _)
  | inr other ↦ rw (print_each, other) (print_each-world chosen format entries sh)
]

pub print_all-world : (texts : List Bytes) (sh : Shell) → (print_all texts sh).world ≡ sh.world
unfolding print_all
print_all-world [] sh = refl
print_all-world (text ∷ texts) sh = print_all-world texts _

Listable-world : (v w : World) → v ≡ w → IsListable w.listener → IsListable v.listener
Listable-world v w e l = rw e l

listing-Ends :
    (listing : Outcome (List Bytes)) (sh : Shell)
    → Returns listing
    → IsListable sh.world.listener
    → Ends (listing >>= (λ texts. ok (print_all texts sh, 0)))
listing-Ends (ok texts) sh h l = Listable-world _ _ (print_all-world texts sh) l
listing-Ends (throw e) sh h l = absurd h
listing-Ends undefined sh h l = absurd h

pub com_help-IsSafe : IsSafe com_help
unfolding com_help
com_help-IsSafe command [] sh h l = Listable-world _ _ (print_each-world _ _ commands sh) l
com_help-IsSafe command (arg ∷ []) sh h l = Listable-world _ _ (print_each-world _ _ commands sh) l
com_help-IsSafe command (arg ∷ more ∷ args) sh h l = l

pub com_get-IsSafe : IsSafe com_get
unfolding com_get start_download
com_get-IsSafe command [] sh h l = l
com_get-IsSafe command (index ∷ []) sh h l = l
com_get-IsSafe command (index ∷ localpath ∷ []) sh h l = l
com_get-IsSafe command (index ∷ localpath ∷ more ∷ args) sh h l = l

set_words-Ends :
    (ws : List Bytes) (sh : Shell) → ws ≢ [] → IsListable sh.world.listener → Ends (set_words ws sh)
unfolding set_words
set_words-Ends [] sh h l = absurd (h refl)
set_words-Ends (varname ∷ []) sh h l =
    Listable-world _ _ (print_each-world _ _ sh.g04.variables sh) l
set_words-Ends (varname ∷ sign ∷ []) sh h l = l
set_words-Ends (varname ∷ sign ∷ value ∷ more) sh h l = l

split_by_deli-ne : (arg : Bytes) (deli : ℕ) → IsClean arg → split_by_deli arg deli ≢ []
unfolding split_by_deli split
split_by_deli-ne [] deli (h, _) = absurd (h refl)
split_by_deli-ne (b ∷ s) deli (_, (hb, _)) =
    let (t, ws, e) = words-spaced-first (λ c. c == deli) b s hb in λ k. cc (e, k)

pub com_set-IsSafe : IsSafe com_set
unfolding com_set
com_set-IsSafe command [] sh h l = Listable-world _ _ (print_each-world _ _ sh.g04.variables sh) l
com_set-IsSafe command (arg ∷ []) sh h l =
    set_words-Ends (split_by_deli arg b'=') sh (split_by_deli-ne arg b'=' h.0) l
com_set-IsSafe command (arg ∷ more ∷ args) sh h l = l

pub com_dump-IsSafe : IsSafe com_dump
unfolding com_dump
com_dump-IsSafe command [] sh h l =
    listing-Ends (Listing.com_dump sh.world.listener) _ (com_dump-Returns sh.world.listener l)
      (Listable-world _ _ (print_each-world _ _ sh.g04.variables _) l)
com_dump-IsSafe command (arg ∷ args) sh h l = l

pub com_peers-IsSafe : IsSafe com_peers
unfolding com_peers
com_peers-IsSafe command [] sh h l =
    listing-Ends (Listing.com_peers sh.world.listener) sh (rw (com_peers-rows sh.world.listener) tt)
      l
com_peers-IsSafe command (arg ∷ args) sh h l = l

pub com_qrs-IsSafe : IsSafe com_qrs
unfolding com_qrs
com_qrs-IsSafe command [] sh h l =
    listing-Ends (Listing.com_qrs sh.world.listener) sh
      (rw (com_qrs-rows sh.world.listener l.results) tt) l
com_qrs-IsSafe command (arg ∷ args) sh h l = l

pub com_quit-IsSafe : IsSafe com_quit
unfolding com_quit
com_quit-IsSafe command args sh h l = l

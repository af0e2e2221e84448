-- ===== src/G04/Shell/Node.antt =====
-- A session of the shell is a run of the node.
use p2p_demo.Prelude.{ℕ, ◌≡◌, refl, List, [], ◌∷◌}
use p2p_demo.Outcome.{
  Outcome, ok, throw, undefined, Returns, OnReturn, OnReturn-bind, OnReturn-if, OnReturn-map,
}
use p2p_demo.Wire.{Bytes}
use p2p_demo.Wire.CString.{is_empty}
use p2p_demo.Util.Split.{trim}
use p2p_demo.Listener.State.{Trace}
use p2p_demo.Listener.Peers.Invariant.{GivesFresh}
use p2p_demo.Listener.Node.{unlimited, IsNode}
use p2p_demo.Listener.Loop.Reach.{here, Reach-trans, Reach-IsNode}
use p2p_demo.G04.Commands.{Shell, Host, execute_line}
use p2p_demo.Listener.Listing.Laws.{IsListable}
use p2p_demo.G04.Commands.Steps.{Goes, execute_line-Steps}
use p2p_demo.G04.Shell.{run_line, run_lines, run_lines-Returns}

module _ (host : Host) (dup : Trace → ℕ → ℕ) where
  pub run_line-Goes :
      (line : Bytes) (sh : Shell)
      → OnReturn (λ (sh' : Shell). Goes host dup sh.world sh'.world) (run_line host line sh)
  unfolding run_line
  run_line-Goes line sh =
      OnReturn-if (λ (sh' : Shell). Goes host dup sh.world sh'.world) (is_empty (trim line)) _ _
        (here (sh.world))
        (OnReturn-bind (λ (r : Shell × ℕ). Goes host dup sh.world r.0.world)
          (λ (sh' : Shell). Goes host dup sh.world sh'.world) (execute_line host (trim line) sh) _
          (execute_line-Steps host dup (trim line) sh) (λ r e h. h))

  run_lines-Goes :
      (lines : List Bytes) (sh : Shell)
      → OnReturn (λ (sh' : Shell). Goes host dup sh.world sh'.world) (run_lines host lines sh)
  unfolding run_lines
  run_lines-Goes [] sh = here (sh.world)
  run_lines-Goes (line ∷ lines) sh =
      OnReturn-if (λ (sh' : Shell). Goes host dup sh.world sh'.world) (sh.g04.quits) _ _
        (here (sh.world))
        (OnReturn-bind (λ (sh' : Shell). Goes host dup sh.world sh'.world)
          (λ (sh' : Shell). Goes host dup sh.world sh'.world) (run_line host line sh)
          (run_lines host lines) (run_line-Goes line sh)
          (λ sh₁ e h.
            OnReturn-map (run_lines host lines sh₁) (run_lines-Goes lines sh₁)
              (λ sh₂ k. Reach-trans (Unit {0}) (host.files) (host.net) dup h k)))

returned {ℓ} :
    {A : Type ℓ} (P : A → Type 0) (m : Outcome A)
    → Returns m
    → OnReturn P m
    → (a : A) × ((m ≡ ok a) × P a)
returned P (ok a) h k = (a, (refl, k))
returned P (throw e) h k = absurd h
returned P undefined h k = absurd h

-- Whatever lines are typed, the loop of the shell comes to its end, and where the table of peers
-- was sorted and in step with the watched descriptors and `maxfd`, it is so then, on a system that
-- hands out no listening socket again.
run_lines-IsNode :
    (host : Host) (n f : ℕ) (lines : List Bytes) (sh : Shell)
    → GivesFresh n f (host.net)
    → IsListable sh.world.listener
    → IsNode unlimited n f sh.world.listener
    → (sh' : Shell) × ((run_lines host lines sh ≡ ok sh') × IsNode unlimited n f sh'.world.listener)
run_lines-IsNode host n f lines sh g l k =
    returned (λ (sh' : Shell). IsNode unlimited n f sh'.world.listener) (run_lines host lines sh)
      (run_lines-Returns host lines sh l)
      (OnReturn-map (run_lines host lines sh) (run_lines-Goes host (λ t fd. fd) lines sh)
        (λ sh' r. Reach-IsNode (host.files) (host.net) (λ t fd. fd) n f g r k))

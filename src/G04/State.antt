-- ===== src/G04/State.antt =====
-- The state of a `G04`, and the variables that `set` changes.
use p2p_demo.Prelude.{Bool, List, none, some, []}
use p2p_demo.Prelude.Maps.{lookup}
use p2p_demo.Wire.{Bytes}
use p2p_demo.Listener.State.{Conf, bytes_key}

abbrev pub Variables : Type 0
Variables = List (Bytes × Bytes)

-- `quits` is `done != 0`.
pub record G04 : Type 0 where
  pub variables : Variables
  pub conf : Conf
  pub quits : Bool

-- The empty text for a variable that is not set.
unfoldable pub getvar : Variables → Bytes → Bytes
getvar variables varname = elim (lookup varname variables) [ none ↦ [] | some value ↦ value ]

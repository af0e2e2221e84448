-- ===== src/Listener/History/Laws.antt =====
-- What the records remember, and for how long.
use p2p_demo.Prelude.{
  ℕ, ◌+◌, ◌≡◌, refl, true, [], ◌∷◌, Option, none, some, ltb, if◌then◌else◌, arith, length, All,
  Bool-cases, inl, inr, take_exact,
}
use p2p_demo.Prelude.Maps.{IsSorted, lookup_below, lookup, insert, lookup-insert}
use p2p_demo.Wire.{Bytes}
use p2p_demo.Wire.Laws.{IsByte}
use p2p_demo.Util.Text.{bytes_eq, bytes_eq_iff}
use p2p_demo.Util.Hex.{to_hex_injective}
use p2p_demo.Packet.Header.{Packet}
use p2p_demo.Packet.Message.{hexid}
use p2p_demo.Listener.State.{MsgInfo, Hist, bytes_key}
use p2p_demo.Listener.History.{has_key, clean, stale_time}

-- Two packets, each with sixteen bytes of id, that have the same hexadecimal id have the same id.
pub hexid_injective :
    (p q : Packet)
    → length p.id ≡ 16
    → length q.id ≡ 16
    → All IsByte p.id
    → All IsByte q.id
    → hexid p ≡ hexid q
    → p.id ≡ q.id
unfolding hexid
hexid_injective p q hp hq bp bq e =
    to_hex_injective true p.id q.id bp bq (rw (take_exact 16 p.id hp, take_exact 16 q.id hq) at e)

pub has_key-insert :
    (k j : Bytes) (v : MsgInfo) (h : Hist)
    → has_key j (insert k v h) ≡ (if bytes_eq k j then true else has_key j h)
unfolding has_key
has_key-insert k j v h = elim (Bool-cases (bytes_eq k j)) [
  | inl same ↦ rw (has_key, lookup-insert k j v h, same)
  | inr other ↦ rw (has_key, lookup-insert k j v h, other)
]

-- What is still found of a record after a cleaning at `now`.
abbrev pub fresh_only : ℕ → Option MsgInfo → Option MsgInfo
fresh_only now none = none
fresh_only now (some info) = if ltb (info.ts + stale_time) now then none else some info

-- After a pass of `cleanHist` over a sorted map a record is found exactly if it was there and its
-- time is not more than `STALE_TIME` ago.
pub lookup-clean :
    (now : ℕ) (j : Bytes) (h : Hist)
    → IsSorted h
    → lookup j (clean now h) ≡ fresh_only now (lookup j h)
unfolding clean lookup
lookup-clean now j [] u = refl
lookup-clean now j ((k, info) ∷ h) u =
    ground (arith, lookup-clean now j h u.1, bytes_eq_iff k j, lookup_below k h u.0)

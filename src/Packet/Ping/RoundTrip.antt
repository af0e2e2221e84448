-- ===== src/Packet/Ping/RoundTrip.antt =====
-- A Ping written by `Packet::toString` and read by `Packet::parseString`.
use p2p_demo.Prelude.{ℕ, ◌<◌, ◌≡◌, ◌⊎◌, inl, inr, refl, ap, ◌∙◌, [], ◌∷◌, length, arith}
use p2p_demo.Outcome.{ok}
use p2p_demo.Wire.{Bytes}
use p2p_demo.Packet.OptData.{OptData, IsWhole}
use p2p_demo.Packet.OptData
use p2p_demo.Packet.Header.{to_string, parse_string, serialize, new_packet}
use p2p_demo.Packet.Header.Laws.{
  IsHeader, parse_string-serialize_head, parse_string-serialize_payload,
}
use p2p_demo.Packet.Ping.{Ping, new_ping, ping_class}

empty_or_not : (o : OptData) → IsWhole o → (o ≡ OptData.empty) ⊎ (0 < o.optlen)
empty_or_not o w = go o.optdata refl
  where
    go : (s : Bytes) → o.optdata ≡ s → (o ≡ OptData.empty) ⊎ (0 < o.optlen)
    go [] e = inl (ground (arith, w.exact, e, ap (length {A = ℕ}) e))
    go (b ∷ s) e = inr (omega (arith, w.exact, ap (length {A = ℕ}) e))

read :
    (rand : Bytes) (m : Ping)
    → IsHeader m.packet
    → parse_string (new_ping rand) (serialize m.packet) ≡ ok m
read rand m h = elim (empty_or_not m.packet.payload h.whole) [
  | inl e ↦
      parse_string-serialize_head (new_ping rand) m.packet h (ap (λ o. o.optlen) e)
      ∙ (unfold new_ping new_packet in ground (arith, e))
  | inr pos ↦ parse_string-serialize_payload (new_ping rand) m.packet h pos
]

-- A Ping with sixteen bytes of id and a whole payload, empty or not, is read back from its text by
-- a new Ping.
pub parse_string-to_string_ping :
    (rand : Bytes) (m : Ping)
    → IsHeader m.packet
    → parse_string (new_ping rand) (to_string m).1 ≡ ok m
unfolding to_string
parse_string-to_string_ping rand m h = read rand m h

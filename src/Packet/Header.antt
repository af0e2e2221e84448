-- ===== src/Packet/Header.antt =====
-- class Packet: the 23 bytes of the header, and the virtual functions that each message overrides.
pub mod Laws
pub mod Safety
use p2p_demo.Prelude.{
  ℕ, ◌+◌, ◌<◌, ◌≡◌, List, [], ◌∷◌, ◌++◌, length, take, drop, ltb, ◌==◌, if◌then◌else◌, arith,
}
use p2p_demo.Outcome.{Outcome, ok, throw, runtime_error, ◌>>=◌}
use p2p_demo.Wire.{Bytes, u32, byte_at, int2string, string2uint}
use p2p_demo.Packet.OptData.{OptData}
use p2p_demo.Packet.OptData

abbrev pub head_size : ℕ
head_size = 23

abbrev pub id_size : ℕ
id_size = 16

pub record Packet : Type 0 where
  pub id : Bytes
  pub pd : ℕ
  pub ttl : ℕ
  pub hops : ℕ
  pub payload : OptData

-- What a class derived from `Packet` gives: its base object, `updatePayload` and `parsePayload`.
-- The two laws say that the base object is a part that can be replaced.
pub record PacketClass (A : Type 0) : Type 0 where
  pub base : A → Packet
  pub set_base : A → Packet → A
  pub update_payload : A → A
  pub parse_payload : A → Outcome A
  pub base-set_base : (a : A) (p : Packet) → base (set_base a p) ≡ p
  pub set_base-set_base : (a : A) (p q : Packet) → set_base (set_base a p) q ≡ set_base a q

-- The constructor: `rand` holds the sixteen draws of `rand_lim(0xFF)`.
unfoldable pub new_id : Bytes → Bytes
new_id rand = take 8 rand ++ 0xff ∷ take 6 (drop 9 rand) ++ 0 ∷ []

unfoldable pub new_packet : Bytes → Packet
unfolding new_id
new_packet rand = record { id = new_id rand; pd = 0; ttl = 10; hops = 0; payload = OptData.empty }

-- What `toString` writes, once the payload is up to date.
unfoldable pub serialize : Packet → Bytes
serialize p =
    take id_size p.id
    ++ p.pd ∷ p.ttl ∷ p.hops ∷ (int2string p.payload.optlen ++ OptData.to_string p.payload)

module _ {A : Type 0} ⦃c : PacketClass A⦄ where
  -- `toString` returns the text, and leaves the object with its payload updated.
  unfoldable pub to_string : A → A × Bytes
  to_string a = let b = c.update_payload a in (b, serialize (c.base b))

  unfoldable pub set_payload : A → Bytes → ℕ → Outcome A
  set_payload a buf len = c.parse_payload (
      c.set_base a
        (record (c.base a) { payload = OptData.set_opt_data (c.base a).payload buf len }))

  -- `setPayload` parses the payload, and `parseString` does so once more.
  unfoldable pub parse_string : A → Bytes → Outcome A
  parse_string a str = if ltb (length str) id_size then throw runtime_error else do
    pd ← byte_at str 16
    ttl ← byte_at str 17
    hops ← byte_at str 18
    pl ← string2uint str 19
    let head =
        c.set_base a (record (c.base a) { id = take id_size str; pd = pd; ttl = ttl; hops = hops })
    if u32 pl == 0
        then ok head
        else if length str == head_size + u32 pl
        then set_payload head (drop head_size str) (u32 pl) >>= c.parse_payload
        else throw runtime_error

  -- `setid` copies sixteen bytes.
  unfoldable pub set_id : A → Bytes → A
  set_id a new_id = c.set_base a (record (c.base a) { id = take id_size new_id })

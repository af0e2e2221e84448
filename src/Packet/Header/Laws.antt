-- ===== src/Packet/Header/Laws.antt =====
-- The header read back: what `parseString` does with what `toString` wrote.
use p2p_demo.Prelude.{
  ℕ, ◌+◌, ◌<◌, ◌≡◌, refl, ap, ◌∙◌, [], ◌∷◌, ◌++◌, length, drop, arith, length-append, take_exact,
  take-append, drop-append, append_assoc, le→not-ltb, eq→==, pos→ne_zero,
}
use p2p_demo.Outcome.{ok, ◌>>=◌}
use p2p_demo.Wire.{Bytes, u32, byte_at, int2string, string2uint, sign_extend}
use p2p_demo.Wire.Laws.{byte_at-append, string2uint-append, string2uint-int2string, u32-sign_extend}
use p2p_demo.Packet.OptData.{IsWhole, to_string-IsWhole, set_opt_data_whole}
use p2p_demo.Packet.Header.{Packet, PacketClass, serialize, parse_string, set_payload}

-- Sixteen bytes of id, and a payload of the length that the header gives.
pub record IsHeader (p : Packet) : Type 0 where
  pub id_length : length p.id ≡ 16
  pub whole : IsWhole p.payload

abbrev pub behind_id : Packet → Bytes
behind_id p = p.pd ∷ p.ttl ∷ p.hops ∷ (int2string p.payload.optlen ++ p.payload.optdata)

pub length-int2string : (i : ℕ) → length (int2string i) ≡ 4
unfolding int2string
length-int2string i = refl

module _ (p : Packet) (h : IsHeader p) where
  pub serialize-behind_id : serialize p ≡ p.id ++ behind_id p
  unfolding serialize
  serialize-behind_id = rw (take_exact 16 p.id h.id_length, to_string-IsWhole p.payload h.whole)

  pub length-serialize : length (serialize p) ≡ 23 + length p.payload.optdata
  length-serialize = rw serialize-behind_id (
      omega (
        arith,
        h.id_length,
        length-append p.id (behind_id p),
        length-append (int2string p.payload.optlen) p.payload.optdata,
        length-int2string p.payload.optlen,
      ))

  read_pd : byte_at (p.id ++ behind_id p) 16 ≡ ok p.pd
  read_pd = byte_at-append 16 0 p.id (behind_id p) h.id_length ∙ unfold byte_at in refl

  pub byte_at-serialize : byte_at (serialize p) 16 ≡ ok p.pd
  byte_at-serialize = ap (λ t. byte_at t 16) serialize-behind_id ∙ read_pd

  read_ttl : byte_at (p.id ++ behind_id p) 17 ≡ ok p.ttl
  read_ttl = byte_at-append 16 1 p.id (behind_id p) h.id_length ∙ unfold byte_at in refl

  read_hops : byte_at (p.id ++ behind_id p) 18 ≡ ok p.hops
  read_hops = byte_at-append 16 2 p.id (behind_id p) h.id_length ∙ unfold byte_at in refl

  read_length : string2uint (p.id ++ behind_id p) 19 ≡ ok (sign_extend p.payload.optlen)
  read_length =
      string2uint-append 16 3 p.id (behind_id p) h.id_length
      ∙ string2uint-append 3 0 (p.pd ∷ p.ttl ∷ p.hops ∷ [])
          (int2string p.payload.optlen ++ p.payload.optdata) refl
      ∙ string2uint-int2string p.payload.optlen p.payload.optdata
          (omega (arith, h.whole.exact, h.whole.fits))

  drop_head : drop 23 (p.id ++ behind_id p) ≡ p.payload.optdata
  drop_head =
      rw
        (← append_assoc p.id (p.pd ∷ p.ttl ∷ p.hops ∷ int2string p.payload.optlen)
          p.payload.optdata)
        (drop-append 23 (p.id ++ p.pd ∷ p.ttl ∷ p.hops ∷ int2string p.payload.optlen)
          p.payload.optdata
          (omega (
            arith,
            h.id_length,
            length-append p.id (p.pd ∷ p.ttl ∷ p.hops ∷ int2string p.payload.optlen),
            length-int2string p.payload.optlen,
          )))

  length_text : length (p.id ++ behind_id p) ≡ 23 + p.payload.optlen
  length_text = rw (← serialize-behind_id) (omega (arith, length-serialize, h.whole.exact))

  u32_length : u32 (sign_extend p.payload.optlen) ≡ p.payload.optlen
  u32_length = u32-sign_extend _ (omega (arith, h.whole.exact, h.whole.fits))

module _ {A : Type 0} ⦃c : PacketClass A⦄ (a : A) (p : Packet) (h : IsHeader p) where
  -- With an empty payload only the fields of the header are read.
  pub parse_string-serialize_head :
      p.payload.optlen ≡ 0
      → parse_string a (serialize p)
        ≡ ok (c.set_base a (record (c.base a) { id = p.id; pd = p.pd; ttl = p.ttl; hops = p.hops }))
  unfolding parse_string
  parse_string-serialize_head z = rw (
    serialize-behind_id p h,
    le→not-ltb (length (p.id ++ behind_id p)) 16 (omega (arith, length_text p h)),
    read_pd p h,
    read_ttl p h,
    read_hops p h,
    read_length p h,
    u32_length p h,
    take-append 16 p.id (behind_id p) h.id_length,
    z,
  )

  -- With a payload the base object is all read back, and the message's own parser runs on it twice.
  pub parse_string-serialize_payload :
      0 < p.payload.optlen
      → parse_string a (serialize p) ≡ (c.parse_payload (c.set_base a p) >>= c.parse_payload)
  unfolding parse_string set_payload
  parse_string-serialize_payload z = rw (
    serialize-behind_id p h,
    le→not-ltb (length (p.id ++ behind_id p)) 16 (omega (arith, length_text p h)),
    read_pd p h,
    read_ttl p h,
    read_hops p h,
    read_length p h,
    u32_length p h,
    take-append 16 p.id (behind_id p) h.id_length,
    eq→== _ _ (length_text p h),
    pos→ne_zero _ z,
    drop_head p h,
    set_payload,
    c.base-set_base a _,
    c.set_base-set_base a _ _,
    set_opt_data_whole p.payload _ h.whole,
  )

-- ===== src/Packet/Pong/RoundTrip.antt =====
-- A Pong written by `Packet::toString` and read by `Packet::parseString`.
use p2p_demo.Prelude.{◌+◌, ◌<◌, ◌^◌, ◌≡◌, ap, ◌∙◌, ◌++◌, length, arith, le→not-ltb}
use p2p_demo.Outcome.{ok, ◌>>=◌}
use p2p_demo.Wire.{
  substr, sign_extend, short2string, int2string, string2short, string2uint, byte_at, htonl,
}
use p2p_demo.Wire.Laws.{short_bytes, int_bytes, htonl-lt, htonl_invol, u32-sign_extend}
use p2p_demo.Packet.OptData.{
  IsWhole, to_string-IsWhole, parse_string-IsWhole, to_string-parse_string, parse_string_whole,
  optlen-parse_string,
}
use p2p_demo.Packet.Header.{to_string, parse_string}
use p2p_demo.Packet.Header.Laws.{IsHeader, parse_string-serialize_payload}
use p2p_demo.Packet.Pong.{Pong, pong_fields, update_payload, parse_payload, pong_class}

-- The values that the C++ types of the fields hold, and a payload whose length fits.
pub record IsPong (m : Pong) : Type 0 where
  pub id_length : length m.packet.id ≡ 16
  pub port_fits : m.port < 2 ^ 16
  pub ip_fits : m.ip < 2 ^ 32
  pub files_fit : m.num_files < 2 ^ 32
  pub size_fits : m.num_size < 2 ^ 32
  pub whole : IsWhole m.optdata
  pub length_fits : length m.optdata.optdata + 14 < 2 ^ 32

module _ (m : Pong) (v : IsPong m) where
  fields_text :
      pong_fields m
      ≡ short2string m.port
        ++ int2string (htonl m.ip)
        ++ int2string m.num_files
        ++ int2string m.num_size
        ++ m.optdata.optdata
  unfolding pong_fields
  fields_text = rw (to_string-IsWhole m.optdata v.whole)

  length-pong_fields : length (pong_fields m) ≡ 14 + length m.optdata.optdata
  length-pong_fields = ap length fields_text ∙ unfold short2string int2string in omega arith

  read_port : string2short (pong_fields m) 0 ≡ ok m.port
  unfolding string2short byte_at short2string int2string
  read_port = rw fields_text (ap ok (short_bytes m.port v.port_fits))

  read_ip : string2uint (pong_fields m) 2 ≡ ok (sign_extend (htonl m.ip))
  unfolding string2uint byte_at short2string int2string
  read_ip = rw fields_text (ap (λ n. ok (sign_extend n)) (int_bytes _ (htonl-lt m.ip)))

  read_files : string2uint (pong_fields m) 6 ≡ ok (sign_extend m.num_files)
  unfolding string2uint byte_at short2string int2string
  read_files = rw fields_text (ap (λ n. ok (sign_extend n)) (int_bytes _ v.files_fit))

  read_size : string2uint (pong_fields m) 10 ≡ ok (sign_extend m.num_size)
  unfolding string2uint byte_at short2string int2string
  read_size = rw fields_text (ap (λ n. ok (sign_extend n)) (int_bytes _ v.size_fits))

  read_rest : substr (pong_fields m) 14 ≡ ok m.optdata.optdata
  unfolding substr short2string int2string
  read_rest =
      rw (le→not-ltb (length (pong_fields m)) 14 (omega (arith, length-pong_fields)), fields_text)

  parse-fields :
      (a : Pong)
      → parse_payload (record a { packet = (update_payload m).packet }) ≡ ok (update_payload m)
  unfolding parse_payload update_payload
  parse-fields a = rw (
    to_string-parse_string m.packet.payload (pong_fields m)
        (omega (arith, length-pong_fields, v.length_fits)),
    le→not-ltb (length (pong_fields m)) 14 (omega (arith, length-pong_fields)),
    read_port,
    read_ip,
    read_files,
    read_size,
    read_rest,
    u32-sign_extend _ (htonl-lt m.ip),
    u32-sign_extend _ v.files_fit,
    u32-sign_extend _ v.size_fits,
    htonl_invol _ v.ip_fits,
    parse_string_whole m.optdata a.optdata v.whole,
  )

  pub header : IsHeader (update_payload m).packet
  unfolding update_payload
  header = record {
    id_length = v.id_length;
    whole =
        parse_string-IsWhole _ (pong_fields m) (omega (arith, length-pong_fields, v.length_fits));
  }

  has_payload : 0 < (update_payload m).packet.payload.optlen
  unfolding update_payload
  has_payload = omega (
    arith,
    length-pong_fields,
    optlen-parse_string m.packet.payload (pong_fields m)
        (omega (arith, length-pong_fields, v.length_fits)),
  )

  -- A Pong with sixteen bytes of id, fields that fit their C++ types and a payload shorter than 2
  -- ^ 32 is read back from its text by an object of the class, whatever that held.
  pub parse_string-to_string_pong : (a : Pong) → parse_string a (to_string m).1 ≡ ok (to_string m).0
  unfolding to_string
  parse_string-to_string_pong a =
      parse_string-serialize_payload a (update_payload m).packet header has_payload
      ∙ ap (λ o. o >>= parse_payload) (parse-fields a)
      ∙ parse-fields (update_payload m)

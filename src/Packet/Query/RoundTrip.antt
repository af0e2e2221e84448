-- ===== src/Packet/Query/RoundTrip.antt =====
-- A Query written by `Packet::toString` and read by `Packet::parseString`.
use p2p_demo.Prelude.{
  ◌+◌, ◌<◌, ◌^◌, ◌≡◌, ◌≢◌, ap, ◌∙◌, [], ◌∷◌, ◌++◌, length, drop, All, arith, le→not-ltb,
  length-append, drop-append, append_assoc,
}
use p2p_demo.Outcome.{ok, ◌>>=◌}
use p2p_demo.Wire.{Bytes, u32, substr, short2string, string2short, byte_at}
use p2p_demo.Wire.CString.{c_string, IsNonzero, c_string-append, is_empty-ne, length-ne_nil}
use p2p_demo.Wire.Laws.{short_bytes}
use p2p_demo.Packet.OptData.{
  IsWhole, to_string-IsWhole, parse_string-IsWhole, to_string-parse_string, parse_string_whole,
  optlen-parse_string,
}
use p2p_demo.Packet.Header.{to_string, parse_string}
use p2p_demo.Packet.Header.Laws.{IsHeader, parse_string-serialize_payload}
use p2p_demo.Packet.Query.{Query, query_fields, update_payload, parse_payload, query_class}

-- Criteria that are not empty and hold no NUL, and a payload whose length fits.
pub record IsQuery (m : Query) : Type 0 where
  pub id_length : length m.packet.id ≡ 16
  pub speed_fits : m.min_speed < 2 ^ 16
  pub some_criteria : m.criteria ≢ []
  pub no_nul : All IsNonzero m.criteria
  pub whole : IsWhole m.optdata
  pub length_fits : length m.criteria + length m.optdata.optdata + 3 < 2 ^ 32

module _ (m : Query) (v : IsQuery m) where
  fields_text : query_fields m ≡ short2string m.min_speed ++ m.criteria ++ 0 ∷ m.optdata.optdata
  unfolding query_fields
  fields_text = rw (to_string-IsWhole m.optdata v.whole)

  length-query_fields : length (query_fields m) ≡ 3 + length m.criteria + length m.optdata.optdata
  length-query_fields =
      ap length fields_text
      ∙ unfold short2string in omega (arith, length-append m.criteria (0 ∷ m.optdata.optdata))

  length-fits : length (query_fields m) < 2 ^ 32
  length-fits = omega (arith, length-query_fields, v.length_fits)

  has_criteria : 0 < length m.criteria
  has_criteria = length-ne_nil m.criteria v.some_criteria

  read_speed : string2short (query_fields m) 0 ≡ ok m.min_speed
  unfolding string2short byte_at short2string
  read_speed = rw fields_text (ap ok (short_bytes m.min_speed v.speed_fits))

  read_criteria : c_string (drop 2 (query_fields m)) ≡ m.criteria
  unfolding short2string
  read_criteria = rw fields_text (c_string-append m.criteria m.optdata.optdata v.no_nul)

  behind_nul : u32 (2 + length m.criteria + 1) ≡ 3 + length m.criteria
  behind_nul = omega (arith, v.length_fits)

  drop_criteria : drop (3 + length m.criteria) (query_fields m) ≡ m.optdata.optdata
  drop_criteria =
      let front : Bytes = short2string m.min_speed ++ (m.criteria ++ 0 ∷ []) in
      let text : query_fields m ≡ front ++ m.optdata.optdata = fields_text ∙ simp append_assoc in
      rw text (
        drop-append (3 + length m.criteria) front m.optdata.optdata
          (unfold short2string in omega (arith, length-append m.criteria (0 ∷ []))))

  read_rest : substr (query_fields m) (3 + length m.criteria) ≡ ok m.optdata.optdata
  unfolding substr
  read_rest = rw (
    le→not-ltb (length (query_fields m)) (3 + length m.criteria)
        (omega (arith, length-query_fields)),
    drop_criteria,
  )

  parse-fields :
      (a : Query)
      → parse_payload (record a { packet = (update_payload m).packet }) ≡ ok (update_payload m)
  unfolding parse_payload update_payload
  parse-fields a = rw (
    to_string-parse_string m.packet.payload (query_fields m) length-fits,
    le→not-ltb (length (query_fields m)) 4 (omega (arith, length-query_fields, has_criteria)),
    read_speed,
    read_criteria,
    behind_nul,
    le→not-ltb (length (query_fields m)) (3 + length m.criteria)
        (omega (arith, length-query_fields)),
    is_empty-ne m.criteria v.some_criteria,
    read_rest,
    parse_string_whole m.optdata a.optdata v.whole,
  )

  pub header : IsHeader (update_payload m).packet
  unfolding update_payload
  header = record {
    id_length = v.id_length;
    whole = parse_string-IsWhole _ (query_fields m) length-fits;
  }

  has_payload : 0 < (update_payload m).packet.payload.optlen
  unfolding update_payload
  has_payload = omega (
    arith,
    length-query_fields,
    optlen-parse_string m.packet.payload (query_fields m) length-fits,
  )

  -- A Query with sixteen bytes of id, criteria that are not empty and hold no NUL, fields that fit
  -- their C++ types and a payload shorter than 2 ^ 32 is read back from its text by an object of
  -- the class, whatever that held.
  pub parse_string-to_string_query :
      (a : Query) → parse_string a (to_string m).1 ≡ ok (to_string m).0
  unfolding to_string
  parse_string-to_string_query a =
      parse_string-serialize_payload a (update_payload m).packet header has_payload
      ∙ ap (λ o. o >>= parse_payload) (parse-fields a)
      ∙ parse-fields (update_payload m)

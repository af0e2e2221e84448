-- ===== src/Packet/QueryHits/RoundTrip.antt =====
-- A QueryHits written by `Packet::toString` and read by `Packet::parseString`.
use p2p_demo.Prelude.{
  ℕ, zero, suc, ◌+◌, ◌-◌, ◌<◌, ◌≤◌, ◌^◌, ◌≡◌, refl, ap, ◌∙◌, List, [], ◌∷◌, ◌++◌, length, take,
  drop, All, arith, le→not-ltb, length-append, drop-append, take-append, take_exact, append_assoc,
}
use p2p_demo.Outcome.{ok, ◌>>=◌}
use p2p_demo.Wire.{
  Bytes, byte_at, substr, sign_extend, short2string, int2string, string2short, string2uint,
}
use p2p_demo.Wire.Laws.{short_bytes, int_bytes, u32-sign_extend}
use p2p_demo.Packet.OptData.{
  OptData, IsWhole, to_string-IsWhole, parse_string-IsWhole, to_string-parse_string,
  parse_string_whole, optlen-parse_string,
}
use p2p_demo.Packet.OptData
use p2p_demo.Packet.QueryResult.{QueryResult, new_query_result}
use p2p_demo.Packet.QueryResult
use p2p_demo.Packet.QueryResult.RoundTrip.{
  IsResult, size, length-to_string, parse_string-append, length-size,
}
use p2p_demo.Packet.Header.{to_string, parse_string}
use p2p_demo.Packet.Header.Laws.{IsHeader, parse_string-serialize_payload}
use p2p_demo.Packet.QueryHits.{
  QueryHits, results_string, hits_fields, update_payload, parse_results, parse_payload, hits_class,
}

results_length : List QueryResult → ℕ
results_length rs = length (results_string rs)

-- `n` results are read back, and the text of the others is left with what follows.
parse_results-results_string :
    (n : ℕ) (rs : List QueryResult) (last : Bytes)
    → n ≤ length rs
    → All IsResult rs
    → length (results_string rs) + length last < 2 ^ 32
    → parse_results n (results_string rs ++ last)
      ≡ ok (take n rs, results_string (drop n rs) ++ last)
unfolding parse_results results_string substr
parse_results-results_string zero rs last h v fits = refl
parse_results-results_string (suc n) [] last h v fits = absurd (omega arith)
parse_results-results_string (suc n) (r ∷ rs) last h v fits =
    let rest : Bytes = results_string rs ++ last in
    let small : size r + length rest < 2 ^ 32 = omega (
      arith,
      fits,
      length-append (QueryResult.to_string r) (results_string rs),
      length-append (results_string rs) last,
      length-to_string r v.0,
    ) in
    rw (
      append_assoc (QueryResult.to_string r) (results_string rs) last,
      parse_string-append r v.0 rest small new_query_result,
      length-size r v.0 rest small,
      le→not-ltb (length (QueryResult.to_string r ++ rest)) (size r)
          (omega (arith, length-append (QueryResult.to_string r) rest, length-to_string r v.0)),
      drop-append (size r) (QueryResult.to_string r) rest (length-to_string r v.0),
      parse_results-results_string n rs last (omega arith) v.1
          (omega (arith, fits, length-append (QueryResult.to_string r) (results_string rs))),
    )

-- At least `num_hits` results, each one readable, and a payload whose length fits.
pub record IsHits (m : QueryHits) : Type 0 where
  pub id_length : length m.packet.id ≡ 16
  pub enough : m.num_hits ≤ length m.result_set
  pub port_fits : m.port < 2 ^ 16
  pub ip_fits : m.ip < 2 ^ 32
  pub speed_fits : m.speed < 2 ^ 32
  pub results : All IsResult m.result_set
  pub whole : IsWhole m.qhd_data
  pub servent_length : length m.servent_id ≡ 16
  pub length_fits : length (results_string m.result_set) + length m.qhd_data.optdata + 27 < 2 ^ 32

-- What a reader makes of the message: the results beyond `num_hits` count as QHD data.
abbrev pub as_read : QueryHits → OptData → QueryHits
as_read m old = record m {
  result_set = take m.num_hits m.result_set;
  qhd_data =
      OptData.parse_string old
        (results_string (drop m.num_hits m.result_set) ++ m.qhd_data.optdata);
}

module _ (m : QueryHits) (v : IsHits m) where
  open_part : Bytes
  open_part = results_string m.result_set ++ m.qhd_data.optdata

  body : Bytes
  body = m.num_hits ∷ (short2string m.port ++ int2string m.ip ++ int2string m.speed ++ open_part)

  fields_text : hits_fields m ≡ body ++ m.servent_id
  unfolding hits_fields body open_part short2string int2string
  fields_text =
      rw (to_string-IsWhole m.qhd_data v.whole, take_exact 16 m.servent_id v.servent_length)
        (simp append_assoc)

  length-open_part :
      length open_part ≡ length (results_string m.result_set) + length m.qhd_data.optdata
  unfolding open_part
  length-open_part = length-append (results_string m.result_set) m.qhd_data.optdata

  length-body : length body ≡ 11 + length open_part
  unfolding body short2string int2string
  length-body = omega arith

  length-hits_fields : length (hits_fields m) ≡ 27 + length open_part
  length-hits_fields =
      ap length fields_text
      ∙ omega (arith, length-append body m.servent_id, length-body, v.servent_length)

  length-fits : length (hits_fields m) < 2 ^ 32
  length-fits = omega (arith, length-hits_fields, length-open_part, v.length_fits)

  read_hits : byte_at (hits_fields m) 0 ≡ ok m.num_hits
  unfolding byte_at body
  read_hits = rw fields_text

  read_port : string2short (hits_fields m) 1 ≡ ok m.port
  unfolding string2short byte_at short2string int2string body
  read_port = rw fields_text (ap ok (short_bytes m.port v.port_fits))

  read_ip : string2uint (hits_fields m) 3 ≡ ok (sign_extend m.ip)
  unfolding string2uint byte_at short2string int2string body
  read_ip = rw fields_text (ap (λ n. ok (sign_extend n)) (int_bytes _ v.ip_fits))

  read_speed : string2uint (hits_fields m) 7 ≡ ok (sign_extend m.speed)
  unfolding string2uint byte_at short2string int2string body
  read_speed = rw fields_text (ap (λ n. ok (sign_extend n)) (int_bytes _ v.speed_fits))

  split : length (hits_fields m) - 16 ≡ length body
  split = omega (arith, length-hits_fields, length-body)

  read_servent : drop (length (hits_fields m) - 16) (hits_fields m) ≡ m.servent_id
  read_servent = rw (split, fields_text) (drop-append (length body) body m.servent_id refl)

  read_body : take (length (hits_fields m) - 16) (hits_fields m) ≡ body
  read_body = rw (split, fields_text) (take-append (length body) body m.servent_id refl)

  read_open : substr body 11 ≡ ok open_part
  unfolding substr
  read_open =
      rw (le→not-ltb (length body) 11 (omega (arith, length-body)))
        (unfold body short2string int2string in refl)

  read_results :
      parse_results m.num_hits open_part
      ≡ ok (
        take m.num_hits m.result_set,
        results_string (drop m.num_hits m.result_set) ++ m.qhd_data.optdata,
      )
  unfolding open_part
  read_results =
      parse_results-results_string m.num_hits m.result_set m.qhd_data.optdata v.enough v.results
        (omega (arith, v.length_fits))

  parse-fields :
      (a : QueryHits)
      → parse_payload (record a { packet = (update_payload m).packet })
        ≡ ok (as_read (update_payload m) a.qhd_data)
  unfolding parse_payload update_payload
  parse-fields a = rw (
    to_string-parse_string m.packet.payload (hits_fields m) length-fits,
    le→not-ltb (length (hits_fields m)) 27 (omega (arith, length-hits_fields)),
    read_hits,
    read_port,
    read_ip,
    read_speed,
    read_body,
    read_open,
    read_results,
    read_servent,
    u32-sign_extend _ v.ip_fits,
    u32-sign_extend _ v.speed_fits,
  )

  pub header : IsHeader (update_payload m).packet
  unfolding update_payload
  header = record {
    id_length = v.id_length;
    whole = parse_string-IsWhole _ (hits_fields m) length-fits;
  }

  has_payload : 0 < (update_payload m).packet.payload.optlen
  unfolding update_payload
  has_payload =
      omega (
        arith,
        length-hits_fields,
        optlen-parse_string m.packet.payload (hits_fields m) length-fits,
      )

  -- A QueryHits with sixteen bytes of id and of servent id, fields that fit their C++ types, a
  -- payload shorter than 2 ^ 32, and at least `num_hits` results that each have a name that is not
  -- empty and no NUL in their strings is read back from its text by an object of the class,
  -- whatever that held; results beyond `num_hits` are read as QHD data.
  pub parse_string-to_string_hits :
      (a : QueryHits) → parse_string a (to_string m).1 ≡ ok (as_read (to_string m).0 a.qhd_data)
  unfolding to_string OptData.parse_string
  parse_string-to_string_hits a =
      parse_string-serialize_payload a (update_payload m).packet header has_payload
      ∙ ap (λ o. o >>= parse_payload) (parse-fields a)
      ∙ parse-fields (as_read (update_payload m) a.qhd_data)

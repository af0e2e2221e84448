-- ===== src/Listener/Receive/Whole.antt =====
-- What `serve_peer` does with messages that come whole, and with those that come in parts.
use p2p_demo.Prelude.{
  ℕ, ◌<◌, ◌^◌, ◌≡◌, refl, ap, sym, ◌∙◌, some, [], ◌∷◌, ◌++◌, length, leb, false, eq→==, pos→ne_zero,
  ◌==◌, arith, length-append, append_assoc,
}
use p2p_demo.Outcome.{ok}
use p2p_demo.Wire.{Bytes, int2string, string2uint, sign_extend}
use p2p_demo.Wire.Laws.{string2uint-append, string2uint-int2string}
use p2p_demo.Packet.Header.{Packet, serialize, head_size}
use p2p_demo.Packet.Header.Laws.{IsHeader, length-serialize, length-int2string, serialize-behind_id}
use p2p_demo.Listener.State.{World, Net, note, read}
use p2p_demo.Listener.Receive.{
  read_once, received, read_payload, read_one_packet, handle_peer_msg, serve_peer,
}

-- The first 23 bytes of a message.
abbrev pub head_text : Packet → Bytes
head_text p = p.id ++ p.pd ∷ p.ttl ∷ p.hops ∷ int2string p.payload.optlen

string2uint-int : (i : ℕ) → i < 2 ^ 32 → string2uint (int2string i) 0 ≡ ok (sign_extend i)
unfolding int2string
string2uint-int i h = string2uint-int2string i [] h

module _ (p : Packet) (h : IsHeader p) (short : p.payload.optlen < 2 ^ 31) where
  serialize-head_text : serialize p ≡ head_text p ++ p.payload.optdata
  serialize-head_text =
      serialize-behind_id p h
      ∙ sym (
          append_assoc p.id (p.pd ∷ p.ttl ∷ p.hops ∷ int2string p.payload.optlen) p.payload.optdata)

  length-head_text : length (head_text p) ≡ 23
  length-head_text = omega (
    arith,
    h.id_length,
    length-append p.id (p.pd ∷ p.ttl ∷ p.hops ∷ int2string p.payload.optlen),
    length-int2string p.payload.optlen,
  )

  sign_extend-short : sign_extend p.payload.optlen ≡ p.payload.optlen
  sign_extend-short = ground arith

  read_length : string2uint (head_text p) 19 ≡ ok p.payload.optlen
  read_length =
      string2uint-append 16 3 p.id (p.pd ∷ p.ttl ∷ p.hops ∷ int2string p.payload.optlen) h.id_length
      ∙ string2uint-append 3 0 (p.pd ∷ p.ttl ∷ p.hops ∷ []) (int2string p.payload.optlen) refl
      ∙ string2uint-int p.payload.optlen (omega (arith, short))
      ∙ ap ok sign_extend-short

  fits : leb (2 ^ 63) p.payload.optlen ≡ false
  fits = ground (arith, short)

  module _ (net : Net) (fd : ℕ) (w : World)
      (first : net.read_once w.trace fd head_size ≡ some (head_text p))
      (second : net.read_once (read fd ∷ w.trace) fd p.payload.optlen
        ≡ some p.payload.optdata) where
    -- Behind the two reads.
    abbrev pub emptied : World
    emptied = note (read fd) (note (read fd) w)

    read_one_packet-whole :
        read_one_packet net fd w ≡ ok ((length (serialize p), serialize p), emptied)
    unfolding read_one_packet read_once received read_payload
    read_one_packet-whole =
        rw
          (
            first,
            received,
            eq→== _ _ length-head_text,
            read_payload,
            read_length,
            read_once,
            fits,
            second,
            received,
            eq→== _ _ (sym h.whole.exact),
            serialize-head_text,
          )
          refl

    some_bytes : (length (serialize p) == 0) ≡ false
    some_bytes = pos→ne_zero _ (omega (arith, length-serialize p h))

    -- A message with sixteen bytes of id and a payload shorter than 2 ^ 31 that the system gives
    -- in two reads, its head of 23 bytes and then its payload, is handled by `serve_peer` exactly
    -- as `handle_peer_msg` handles its text, behind the two reads.
    pub serve_peer-whole : serve_peer net fd w ≡ handle_peer_msg net fd (serialize p) emptied
    unfolding serve_peer
    serve_peer-whole = rw (serve_peer, read_one_packet-whole, some_bytes) refl

-- Where one read gives a part of a head, of 1 to 22 bytes, the part is lost: `serve_peer` does
-- nothing but that read, so the next one starts in the middle of a message.
pub serve_peer-short :
    (net : Net) (fd : ℕ) (buf : Bytes) (w : World)
    → net.read_once w.trace fd head_size ≡ some buf
    → 0 < length buf
    → length buf < head_size
    → serve_peer net fd w ≡ ok (note (read fd) w)
unfolding serve_peer read_one_packet read_once received handle_peer_msg
serve_peer-short net fd buf w e some_read part = rw (serve_peer, read_one_packet, e) (ground arith)

-- ===== src/Listener/Search/Laws.antt =====
-- What a search finds, and what the asking node reads of the answer.
use p2p_demo.Prelude.{
  ℕ, ◌+◌, ◌<◌, ◌≤◌, ◌^◌, ◌≡◌, ◌≢◌, refl, ◌⊎◌, ◌↔◌, take_exact, length-take, inl, inr, true, List,
  [], ◌∷◌, ◌++◌, length, take, All, arith, Bool-cases,
}
use p2p_demo.Outcome.{ok}
use p2p_demo.Wire.{Bytes, u8}
use p2p_demo.Wire.CString.{IsNonzero}
use p2p_demo.Util.Text.{to_upper, contains, contains_sound, contains_complete}
use p2p_demo.Packet.Header.{to_string, parse_string, set_id}
use p2p_demo.Packet.QueryResult.RoundTrip.{IsResult}
use p2p_demo.Packet.QueryHits.{
  QueryHits, hits_class, new_query_hits, results_string, update_payload,
}
use p2p_demo.Packet.QueryHits.RoundTrip.{IsHits, as_read}
use p2p_demo.Packet.QueryHits.RoundTrip
use p2p_demo.Listener.State.{Listener, FileInfo}
use p2p_demo.Listener.Search.{any_contains, matches, results_for, query}

-- One of the keywords has the text inside, in upper case.
abbrev pub Inside : Bytes → List Bytes → Type 0
Inside s [] = ⊥
Inside s (k ∷ ks) =
    ((pre : Bytes) × (post : Bytes) × (to_upper k ≡ pre ++ (s ++ post))) ⊎ Inside s ks

any_contains_sound : (s : Bytes) (ks : List Bytes) → any_contains s ks ≡ true → Inside s ks
unfolding any_contains
any_contains_sound s [] h = cc
any_contains_sound s (k ∷ ks) h = elim (Bool-cases (contains s (to_upper k))) [
  | inl here ↦ inl (contains_sound s (to_upper k) here)
  | inr later ↦ inr (any_contains_sound s ks (ground (arith, later, h)))
]

any_contains_complete : (s : Bytes) (ks : List Bytes) → Inside s ks → any_contains s ks ≡ true
unfolding any_contains
any_contains_complete s [] h = elim h [ ]
any_contains_complete s (k ∷ ks) (inl (pre, post, e)) = rw (e, contains_complete s pre post)
any_contains_complete s (k ∷ ks) (inr later) = ground (arith, any_contains_complete s ks later)

-- A file matches exactly if one of its keywords has the searched text inside, both in upper case.
pub matches_iff :
    (fi : FileInfo) (kw : Bytes) → (matches fi kw ≡ true) ↔ Inside (to_upper kw) fi.keywords
unfolding matches
matches_iff fi kw =
    (any_contains_sound (to_upper kw) fi.keywords, any_contains_complete (to_upper kw) fi.keywords)

-- Every file with a keyword matches the empty text, whichever keywords it has.
pub matches_empty :
    (fi : FileInfo) (k : Bytes) (ks : List Bytes) → fi.keywords ≡ k ∷ ks → matches fi [] ≡ true
unfolding matches to_upper
matches_empty fi k ks e = any_contains_complete [] fi.keywords (rw e (inl ([], to_upper k, refl)))

-- A file that can be named in an answer.
abbrev pub IsShared : FileInfo → Type 0
IsShared fi = (fi.file_name ≢ []) × All IsNonzero fi.file_name

u8-le : (n : ℕ) → u8 n ≤ n
u8-le n = omega arith

results_for-IsResult :
    (kw : Bytes) (fs : List FileInfo) → All IsShared fs → All IsResult (results_for kw fs)
unfolding results_for
results_for-IsResult kw [] h = tt
results_for-IsResult kw (fi ∷ fs) (h, hs) = elim (Bool-cases (matches fi kw)) [
  | inl hit ↦ rw hit (
    record {
      index_fits = omega arith;
      size_fits = omega arith;
      some_name = h.0;
      no_nul = h.1;
      whole = omega arith;
      opt_no_nul = tt;
    },
    results_for-IsResult kw fs hs,
  )
  | inr miss ↦ rw miss (results_for-IsResult kw fs hs)
]

module _ (l : Listener) (kw rand id : Bytes) where
  -- The answer to a query with the given id.
  abbrev pub answer : QueryHits
  answer = set_id (query l kw (new_query_hits rand)) id

  module _ (shared : All IsShared l.local_files) (id_length : length id ≡ 16)
      (ip_fits : l.hostip < 2 ^ 32)
      (length_fits : length (results_string (results_for kw l.local_files)) + 27 < 2 ^ 32) where
    pub answer-IsHits : IsHits answer
    unfolding query set_id new_query_hits
    answer-IsHits = record {
      id_length = omega (arith, length-take 16 id, id_length);
      enough = u8-le (length (results_for kw l.local_files));
      port_fits = omega arith;
      ip_fits = ip_fits;
      speed_fits = omega arith;
      results = results_for-IsResult kw l.local_files shared;
      whole = omega arith;
      servent_length = refl;
      length_fits = omega (arith, length_fits);
    }

    -- Where every local file can be named in an answer, the id has sixteen bytes and the address
    -- and the text fit 32 bits, the asking node reads from the answer to its query that id, the
    -- address of the answering node, and the matching files in their order, as many as their
    -- number modulo 256.
    pub query_answered :
        (a : QueryHits)
        → (m : QueryHits) × (parse_string a (to_string answer).1 ≡ ok m)
          × (m.packet.id ≡ id)
          × (m.ip ≡ l.hostip)
          × (m.result_set
              ≡ take (u8 (length (results_for kw l.local_files))) (results_for kw l.local_files))
    unfolding query set_id to_string update_payload
    query_answered a = (
      as_read (to_string answer).0 a.qhd_data,
      RoundTrip.parse_string-to_string_hits answer answer-IsHits a,
      take_exact 16 id id_length,
      refl,
      refl,
    )

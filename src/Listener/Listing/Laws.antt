-- ===== src/Listener/Listing/Laws.antt =====
-- When the lines of a listing fit into their arrays.
use p2p_demo.Prelude.{
  ℕ, ◌+◌, ◌≤◌, ◌<◌, ◌≡◌, refl, inl, inr, List, [], ◌∷◌, ◌++◌, All, All-map, ◌⊎◌, length,
  length-append, ltb, ltb→lt, not-ltb→le, arith, Bool-cases,
}
use p2p_demo.Outcome.{Outcome, ok, undefined, Returns}
use p2p_demo.Wire.{Bytes}
use p2p_demo.Wire.CString.{codes, c_string, length-c_string}
use p2p_demo.Util.Read.{maxline}
use p2p_demo.Util.Printf.{print_long}
use p2p_demo.Util.Printf.Laws.{
  length-print_hex, length-print_int, length-print_long, length-itoaddress, sprintf-short,
  sprintf-long,
}
use p2p_demo.Listener.State.{Listener, SeedInfo, PeerInfo, FileInfo, QueryResultInfo}
use p2p_demo.Listener.Listing.{
  seed_text, seed_to_string, peer_text, peer_to_string, file_text, file_to_string, result_text,
  result_to_string, with_bars, print_lines, print_numbered, peer_line, peers_title, qrs_title,
  com_peers, com_qrs, com_dump,
}

-- The lines that a listing shows.
abbrev row : Bytes → Bytes
row text = c_string text ++ b'\n' ∷ []

abbrev numbered_row : ℕ → Bytes → Bytes
numbered_row i text = print_long i ++ (codes ": " ++ row text)

abbrev pub rows {ℓ} : {A : Type ℓ} → (A → Bytes) → List A → List Bytes
rows text [] = []
rows text (x ∷ xs) = row (text x) ∷ rows text xs

abbrev pub numbered_rows : ℕ → List QueryResultInfo → List Bytes
numbered_rows i [] = []
numbered_rows i (r ∷ rs) = numbered_row i (result_text r) ∷ numbered_rows (i + 1) rs

print_lines-rows {ℓ} :
    {A : Type ℓ} (to_string : A → Outcome Bytes) (text : A → Bytes) (xs : List A)
    → All (λ x. to_string x ≡ ok (text x)) xs
    → print_lines to_string xs ≡ ok (rows text xs)
unfolding print_lines
print_lines-rows to_string text [] h = refl
print_lines-rows to_string text (x ∷ xs) (hx, h) =
    rw (print_lines, hx, print_lines-rows to_string text xs h) refl

-- What `sprintf` writes fits where the name is not long.
abbrev pub IsShort : Bytes → Type 0
IsShort name = length name ≤ 4000

length-result_text : (r : QueryResultInfo) → length (result_text r) ≤ length r.qr.file_name + 61
length-result_text r = omega (
  arith,
  length-append {0},
  length-print_hex,
  length-print_int,
  length-itoaddress,
  length-c_string,
)

name-result_text : (r : QueryResultInfo) → length (c_string r.qr.file_name) ≤ length (result_text r)
name-result_text r = omega (arith, length-append {0})

seed-short : (si : SeedInfo) → seed_to_string si ≡ ok (seed_text si)
unfolding seed_to_string
seed-short si =
    sprintf-short (seed_text si)
      (omega (arith, length-append {0}, length-print_hex, length-print_int, length-itoaddress))

peer-short : (p : PeerInfo) → peer_to_string p ≡ ok (peer_text p)
unfolding peer_to_string
peer-short p =
    sprintf-short (peer_text p)
      (omega (arith, length-append {0}, length-print_hex, length-print_int, length-itoaddress))

abbrev pub whole_file_text : FileInfo → Bytes
whole_file_text fi = file_text fi ++ with_bars fi.keywords

file-short : (fi : FileInfo) → IsShort fi.file_name → file_to_string fi ≡ ok (whole_file_text fi)
unfolding file_to_string
file-short fi h =
    let fits : length (file_text fi) < maxline =
      omega (arith, h, length-append {0}, length-print_int, length-print_long, length-c_string) in
    rw (file_to_string, sprintf-short (file_text fi) fits) refl

result-short :
    (r : QueryResultInfo) → IsShort r.qr.file_name → result_to_string r ≡ ok (result_text r)
unfolding result_to_string
result-short r h = sprintf-short (result_text r) (omega (arith, h, length-result_text r))

print_numbered-rows :
    (i : ℕ) (rs : List QueryResultInfo)
    → All (λ r. IsShort r.qr.file_name) rs
    → print_numbered i rs ≡ ok (numbered_rows i rs)
unfolding print_numbered
print_numbered-rows i [] h = refl
print_numbered-rows i (r ∷ rs) (hr, h) =
    rw (print_numbered, result-short r hr, print_numbered-rows (i + 1) rs h) refl

All-every {ℓ κ} : {A : Type ℓ} (P : A → Type κ) → ((x : A) → P x) → (xs : List A) → All P xs
All-every P h [] = tt
All-every P h (x ∷ xs) = (h x, All-every P h xs)

abbrev pub peer_row : ℕ × PeerInfo → Bytes
peer_row e = peer_text e.1

print_lines-peers : (ps : List (ℕ × PeerInfo)) → print_lines peer_line ps ≡ ok (rows peer_row ps)
print_lines-peers ps =
    print_lines-rows peer_line peer_row ps
      (All-every (λ (e : ℕ × PeerInfo). peer_line e ≡ ok (peer_row e)) (λ e. peer-short e.1) ps)

-- `com_peers` always comes to its end: no line is longer than its array, and there is one for each
-- peer, in the order of the table.
pub com_peers-rows :
    (l : Listener) → com_peers l ≡ ok (peers_title l ∷ (rows peer_row l.peers ++ (b'\n' ∷ []) ∷ []))
unfolding com_peers
com_peers-rows l = rw (com_peers, print_lines-peers l.peers) refl

-- The names that a listing shows are not too long for it.
pub record IsListable (l : Listener) : Type 0 where
  pub files : All (λ fi. IsShort fi.file_name) l.local_files
  pub results : All (λ r. IsShort r.qr.file_name) l.query_result_set

-- Where the names of the results have at most 4000 characters, `com_qrs` comes to its end and
-- shows the title, then a line for each result with its index, in the order of the result set,
-- then an empty line.
pub com_qrs-rows :
    (l : Listener)
    → All (λ r. IsShort r.qr.file_name) l.query_result_set
    → com_qrs l ≡ ok (qrs_title l ∷ (numbered_rows 0 l.query_result_set ++ (b'\n' ∷ []) ∷ []))
unfolding com_qrs
com_qrs-rows l h = rw (com_qrs, print_numbered-rows 0 l.query_result_set h) refl

pub com_dump-Returns : (l : Listener) → IsListable l → Returns (com_dump l)
unfolding com_dump
com_dump-Returns l h =
    rw
      (
        com_dump,
        print_lines-rows seed_to_string seed_text l.seed_nodes
            (All-every (λ si. seed_to_string si ≡ ok (seed_text si)) seed-short l.seed_nodes),
        print_lines-rows file_to_string whole_file_text l.local_files (
            All-map (λ fi. IsShort fi.file_name) (λ fi. file_to_string fi ≡ ok (whole_file_text fi))
              l.local_files file-short h.files),
        print_lines-peers l.peers,
        print_numbered-rows 0 l.query_result_set h.results,
      )
      tt

-- A result whose line does not fit.
abbrev IsLong : QueryResultInfo → Type 0
IsLong r = maxline ≤ length (c_string r.qr.file_name)

result-long : (r : QueryResultInfo) → IsLong r → result_to_string r ≡ undefined
unfolding result_to_string
result-long r h = sprintf-long (result_text r) (omega (arith, h, name-result_text r))

result-cases :
    (r : QueryResultInfo)
    → (result_to_string r ≡ undefined) ⊎ (result_to_string r ≡ ok (result_text r))
unfolding result_to_string
result-cases r = elim (Bool-cases (ltb (length (result_text r)) maxline)) [
  | inl fits ↦ inr (sprintf-short (result_text r) (ltb→lt (length (result_text r)) maxline fits))
  | inr long ↦ inl (sprintf-long (result_text r) (not-ltb→le (length (result_text r)) maxline long))
]

pub print_numbered-undefined :
    (i : ℕ) (front : List QueryResultInfo) (r : QueryResultInfo) (back : List QueryResultInfo)
    → IsLong r
    → print_numbered i (front ++ r ∷ back) ≡ undefined
unfolding print_numbered
print_numbered-undefined i [] r back h = rw (print_numbered, result-long r h) refl
print_numbered-undefined i (q ∷ front) r back h = elim (result-cases q) [
  | inl long ↦ rw (print_numbered, long) refl
  | inr fits ↦ rw (print_numbered, fits, print_numbered-undefined (i + 1) front r back h) refl
]

-- One result whose name has 4096 characters or more before a NUL makes `com_qrs` undefined,
-- wherever it stands.
pub com_qrs-undefined :
    (l : Listener) (front : List QueryResultInfo) (r : QueryResultInfo)
    (back : List QueryResultInfo)
    → l.query_result_set ≡ front ++ r ∷ back
    → IsLong r
    → com_qrs l ≡ undefined
unfolding com_qrs
com_qrs-undefined l front r back e h =
    rw (com_qrs, e, print_numbered-undefined 0 front r back h) refl

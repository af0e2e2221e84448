-- ===== src/Listener/Download/Fetch/Delivery.antt =====
-- A download from both ends: what the peer sends, and what the node saves of it.
use p2p_demo.Prelude.{
  ℕ, ◌^◌, ◌<◌, ◌≤◌, ◌≡◌, ◌≢◌, refl, ap, ◌∙◌, inl, inr, true, false, List, [], ◌∷◌, ◌++◌, some,
  arith, length, ◌==◌, All, Option-cases, Bool-cases, eq→==, get_elem?,
}
use p2p_demo.Outcome.{ok}
use p2p_demo.Wire.{Bytes}
use p2p_demo.Wire.CString.{codes}
use p2p_demo.Util.Files.{Files, file_exists}
use p2p_demo.Util.Split.{isspace}
use p2p_demo.Util.Lines.Laws.{all-All}
use p2p_demo.Util.Scan.Laws.{constant}
use p2p_demo.Listener.State.{World, Listener, FileInfo, Trace, success, note, closed}
use p2p_demo.Listener.Config.{read_local_file_conf}
use p2p_demo.Listener.Config.Laws.{IsFileAt, read_local_file_conf-IsFileAt}
use p2p_demo.Listener.Download.Response.{DownloadResponse, new_download_response, maxline, in_set}
use p2p_demo.Listener.Download.Response
use p2p_demo.Listener.Download.Response.RoundTrip.{IsAnswer, parse_from_string-to_string_response}
use p2p_demo.Listener.Download.Serve.{found}
use p2p_demo.Listener.Download.Serve.Laws.{IsOffered, join}
use p2p_demo.Util.Read.{ReadAnswer, bytes}
use p2p_demo.Listener.Download.Fetch.{receive, receive_into, save, fetch_rest}
use p2p_demo.Listener.Download.Fetch.Laws.{request_for}

read_local_file_conf-conf :
    (files : Files) (l : Listener) → (read_local_file_conf files l).0.conf ≡ l.conf
unfolding read_local_file_conf
read_local_file_conf-conf files l = elim (Bool-cases (file_exists files l.conf.local_files_file)) [
  | inl there ↦ rw there refl
  | inr missing ↦ rw missing refl
]

-- Every file that `readLocalFileConf` lists, from an empty list, is offered under its index and
-- its name: the list has it at its index, and it opens under its name in the directory.
pub read_local_file_conf-IsOffered :
    (files : Files) (l : Listener) (t : Trace) (i : ℕ) (fi : FileInfo)
    → l.local_files ≡ []
    → get_elem? (read_local_file_conf files l).0.local_files i ≡ some fi
    → (content : Bytes) × IsOffered files
        (record { listener = (read_local_file_conf files l).0; trace = t })
        (request_for fi.file_index fi.file_name)
        content
unfolding file_exists
read_local_file_conf-IsOffered files l t i fi h e =
    let at : IsFileAt files l.conf.local_files_directory i fi =
      read_local_file_conf-IsFileAt files l i fi h e in
    elim (Option-cases (files.content (l.conf.local_files_directory ++ b'/' ∷ fi.file_name))) [
      | inl missing ↦ absurd (cc (rw (file_exists, missing) at at.exists))
      | inr (content, opened) ↦ (
        content,
        record {
          info = fi;
          listed = ap (λ k. get_elem? (read_local_file_conf files l).0.local_files k) at.at ∙ e;
          named = refl;
          opened = rw (read_local_file_conf-conf files l) opened;
        },
      )
    ]

-- The reads that bring the parts one by one, and then the end of the stream.
abbrev pub reads_of : List Bytes → List ReadAnswer
reads_of [] = bytes [] ∷ []
reads_of (part ∷ parts) = bytes part ∷ reads_of parts

receive-reads_of :
    (parts : List Bytes)
    → All (λ p. p ≢ []) parts
    → receive (reads_of parts) ≡ some (join parts, false)
unfolding receive
receive-reads_of [] h = refl
receive-reads_of ([] ∷ parts) (h, hs) = absurd (h refl)
receive-reads_of ((b ∷ s) ∷ parts) (h, hs) = rw (receive-reads_of parts hs) refl

-- The answer to a file that was found, with the first part of the file behind its head.
abbrev pub answer : ℕ → Bytes → DownloadResponse
answer size part = record (found size) { part_binary = part }

pub answer-IsAnswer :
    (size : ℕ) (part : Bytes) → length part ≤ maxline → size < 2 ^ 64 → IsAnswer (answer size part)
unfolding new_download_response isspace
answer-IsAnswer size part h k = record {
  version = constant (codes "1.0") 32 (λ e. cc) (omega arith) refl;
  code = constant (codes "200") 32 (λ e. cc) (omega arith) refl;
  described = λ e. cc;
  in_words = all-All in_set (codes "OK") refl;
  begins = refl;
  short = omega arith;
  server = constant (codes "Gnutella/0.4") 256 (λ e. cc) (omega arith) refl;
  kind = constant (codes "application/binary") 256 (λ e. cc) (omega arith) refl;
  size = k;
  part = h;
}

-- However the file is cut into a first part, which comes with the head, and further parts that are
-- not empty, the node saves the whole file and reports success, where the local file opens, the
-- size in the head is that of the file and below 2 ^ 64, and the first part is no longer than its
-- array.
pub fetch_rest-delivers :
    (part : Bytes) (parts : List Bytes) (localpath : Bytes) (sockfd : ℕ) (w : World)
    → length part ≤ maxline
    → length (part ++ join parts) < 2 ^ 64
    → All (λ p. p ≢ []) parts
    → fetch_rest true
        (reads_of parts)
        localpath
        sockfd
        (Response.to_string (answer (length (part ++ join parts)) part))
        w
      ≡ ok (
        note (closed sockfd) w,
        some (record { file = some (localpath, part ++ join parts); status = success }),
      )
unfolding fetch_rest receive_into save
fetch_rest-delivers part parts localpath sockfd w short size h =
    let total = length (part ++ join parts) in
    let exact : (total == total) ≡ true = eq→== total total refl in
    rw
      (
        fetch_rest,
        parse_from_string-to_string_response (answer total part)
            (answer-IsAnswer total part short size),
        receive-reads_of parts h,
        exact,
      )
      refl

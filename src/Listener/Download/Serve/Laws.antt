-- ===== src/Listener/Download/Serve/Laws.antt =====
-- What a peer gets that asks for a file.
use p2p_demo.Prelude.{
  ℕ, zero, suc, ◌+◌, ◌^◌, ◌<◌, ◌≡◌, refl, ap, sym, ◌∙◌, inl, inr, true, ◌&&◌, List, [], ◌∷◌, ◌++◌,
  some, ltb, arith, length, take, drop, length-drop, take-append-drop, get_elem?, if◌then◌else◌,
  Bool-cases, append_assoc, append-nil, eq→==, not-ltb→le, ◌==◌,
}
use p2p_demo.Outcome.{ok}
use p2p_demo.Wire.{Bytes}
use p2p_demo.Wire.CString.{codes}
use p2p_demo.Util.Text.{bytes_eq, bytes_eq_refl}
use p2p_demo.Util.Files.{Files}
use p2p_demo.Util.Decimal.{decimal}
use p2p_demo.Util.Scan.{got}
use p2p_demo.Listener.State.{World, Net, Trace, FileInfo, success, note, wrote, closed}
use p2p_demo.Listener.Download.Request.{DownloadRequest}
use p2p_demo.Listener.Download.Request
use p2p_demo.Listener.Download.Response.{maxline}
use p2p_demo.Listener.Download.Response
use p2p_demo.Util.Lines.Laws.{IsGraphic}
use p2p_demo.Util.Scan.Laws.{constant, without}
use p2p_demo.Listener.Download.Request.{new_download_request}
use p2p_demo.Listener.Download.Request.RoundTrip.{IsSendable, parse_from_string-to_string_request}
use p2p_demo.Listener.Download.Fetch.{get_text}
use p2p_demo.Listener.Download.Fetch.Laws.{request_for, get_text-to_string}
use p2p_demo.Listener.Download.Serve.{
  chunks, write_chunks, found, send_file, handle_file_download, serve_scanned, serve_text,
}

abbrev pub join : List Bytes → Bytes
join [] = []
join (chunk ∷ rest) = chunk ++ join rest

-- The parts of the file in their order are the file.
pub join-chunks :
    (fuel : ℕ) (content : Bytes) → length content < fuel → join (chunks fuel content) ≡ content
unfolding chunks
join-chunks zero content h = absurd (omega arith)
join-chunks (suc fuel) content h = elim (Bool-cases (ltb (length content) maxline)) [
  | inl last ↦ rw last (append-nil content)
  | inr more ↦
      let shorter : length (drop maxline content) < fuel =
        omega (arith, h, not-ltb→le (length content) maxline more, length-drop maxline content) in
      rw more (
        ap (λ t. take maxline content ++ t) (join-chunks fuel (drop maxline content) shorter)
        ∙ take-append-drop maxline content)
]

-- What `writen` brought to a descriptor, the oldest first: the texts of the writes that succeeded.
abbrev pub taken : Net → ℕ → Trace → Bytes
taken net fd [] = []
taken net fd (wrote j text ∷ t) =
    if j == fd && net.writes t j text then taken net fd t ++ text else taken net fd t
taken net fd (e ∷ t) = taken net fd t

-- The connection of the descriptor takes whatever is written to it.
abbrev pub TakesAll : Net → ℕ → Type 0
TakesAll net fd = (t : Trace) (text : Bytes) → net.writes t fd text ≡ true

module _ (net : Net) (fd : ℕ) (open_line : TakesAll net fd) where
  taken-wrote :
      (text : Bytes) (w : World)
      → taken net fd (note (wrote fd text) w).trace ≡ taken net fd w.trace ++ text
  taken-wrote text w = rw (eq→== fd fd refl, open_line w.trace text) refl

  taken-write_chunks :
      (cs : List Bytes) (w : World)
      → taken net fd (write_chunks fd cs w).trace ≡ taken net fd w.trace ++ join cs
  unfolding write_chunks
  taken-write_chunks [] w = sym (append-nil (taken net fd w.trace))
  taken-write_chunks (c ∷ cs) w =
      taken-write_chunks cs (note (wrote fd c) w)
      ∙ ap (λ t. t ++ join cs) (taken-wrote c w)
      ∙ append_assoc (taken net fd w.trace) c (join cs)

pub request_for-IsSendable :
    (index : ℕ) (name : Bytes)
    → index < 2 ^ 32
    → IsGraphic name
    → length name + 1 < 256
    → IsSendable (request_for index name)
unfolding new_download_request
request_for-IsSendable index name b g l = record {
  index = b;
  filename = g;
  short = l;
  version = constant (codes "1.0") 32 (λ e. cc) (omega arith) refl;
  agent = constant (codes "Gnutella") 256 (λ e. cc) (omega arith) refl;
  agent_version = constant (codes "0.4") 32 (λ e. cc) (omega arith) refl;
  no_slash = without b'/' (codes "Gnutella") refl;
  no_slash_either = without b'/' (codes "0.4") refl;
  range = tt;
  connection = tt;
}

-- The file that a request names, under its index and its name.
pub record IsOffered (files : Files) (w : World) (dr : DownloadRequest) (content : Bytes)
    : Type 0 where
  pub info : FileInfo
  pub listed : get_elem? w.local_files dr.fileindex ≡ some info
  pub named : info.file_name ≡ dr.filename
  pub opened : files.content (w.conf.local_files_directory ++ b'/' ∷ dr.filename) ≡ some content

-- The head of an answer with a file of so many bytes.
abbrev pub file_head : ℕ → Bytes
file_head n =
    codes
      "HTTP/1.0 200 OK\r\nServer: Gnutella/0.4\r\nContent-Type: application/binary\r\nContent-Length: "
    ++ (decimal n ++ codes "\r\n\r\n")

to_string-found : (n : ℕ) → Response.to_string (found n) ≡ file_head n
unfolding Response.to_string Response.status_line Response.new_download_response
to_string-found n = refl

module _ (files : Files) (net : Net) where
  send_file-taken :
      (fd size : ℕ) (content : Bytes) (w : World)
      → TakesAll net fd
      → ((send_file files net fd size content w).1 ≡ success)
        × (taken net fd (send_file files net fd size content w).0.trace
            ≡ taken net fd w.trace ++ (file_head size ++ content))
  unfolding send_file
  send_file-taken fd size content w open_line =
      let head = Response.to_string (found size) in
      let parts = chunks (length content + 1) content in
      let w' : World = note (wrote fd head) w in
      rw (open_line w.trace head) (
        refl,
        taken-write_chunks net fd open_line parts w'
            ∙ ap (λ t. t ++ join parts) (taken-wrote net fd open_line head w)
            ∙ append_assoc (taken net fd w.trace) head (join parts)
            ∙ ap (λ t. taken net fd w.trace ++ (head ++ t))
                (join-chunks (length content + 1) content (omega arith))
            ∙ ap (λ t. taken net fd w.trace ++ (t ++ content)) (to_string-found size),
      )

  handle_file_download-offered :
      (fd : ℕ) (dr : DownloadRequest) (w : World) (content : Bytes)
      (o : IsOffered files w dr content)
      → handle_file_download files net fd dr w ≡ ok (send_file files net fd o.info.size content w)
  unfolding handle_file_download
  handle_file_download-offered fd dr w content o =
      let same : bytes_eq o.info.file_name dr.filename ≡ true =
        rw o.named (bytes_eq_refl dr.filename) in
      rw (handle_file_download, o.listed, same, o.opened) refl

  -- A peer that asks for an offered file by its index and its name, as `com_get` asks, with an
  -- index that is an `int` and a name of less than 255 characters that holds no spaces and no
  -- control characters, is brought the head of an answer with the size of the file, and then the
  -- whole file, and nothing else, where the size in the list is that of the file and every write
  -- to the connection succeeds.
  pub serve_text-taken :
      (connfd copy index : ℕ) (name : Bytes) (w : World) (content : Bytes)
      → index < 2 ^ 32
      → IsGraphic name
      → length name + 1 < 256
      → (o : IsOffered files w (request_for index name) content) → o.info.size ≡ length content
      → TakesAll net copy
      → (w' : World) × (serve_text files net connfd copy (get_text index name) w ≡ ok (w', success))
        × (taken net copy w'.trace
            ≡ taken net copy w.trace ++ (file_head (length content) ++ content))
  unfolding serve_text serve_scanned new_download_request
  serve_text-taken connfd copy index name w content b g l o sized open_line =
      let hung : World = note (closed connfd) w in
      let o' : IsOffered files hung (request_for index name) content = record {
        info = o.info;
        listed = o.listed;
        named = o.named;
        opened = o.opened;
      } in
      let parsed : Request.parse_from_string (get_text index name) ≡ got (request_for index name) =
        ap Request.parse_from_string (get_text-to_string index name)
        ∙ parse_from_string-to_string_request (request_for index name)
            (request_for-IsSendable index name b g l) in
      let (done, gone_out) = send_file-taken copy o.info.size content hung open_line in
      (
        (send_file files net copy o.info.size content hung).0,
        rw
            (
              serve_text,
              parsed,
              handle_file_download-offered copy (request_for index name) hung content o',
            )
            refl,
        gone_out ∙ ap (λ n. taken net copy w.trace ++ (file_head n ++ content)) sized,
      )

-- ===== src/Listener/Download/Serve.antt =====
-- `handle_file_download_request` and `handle_file_download`: a peer asks for a file.
pub mod Laws
pub mod Kept
use p2p_demo.Prelude.{
  ℕ, zero, suc, ◌+◌, Bool, true, false, not, List, [], ◌∷◌, ◌++◌, none, some, ltb, if◌then◌else◌,
  length, take, drop, get_elem?,
}
use p2p_demo.Outcome.{Outcome, ok, undefined, ◌>>=◌}
use p2p_demo.Wire.{Bytes}
use p2p_demo.Wire.CString.{codes}
use p2p_demo.Util.Text.{bytes_eq}
use p2p_demo.Util.Files.{Files}
use p2p_demo.Util.Scan.{Scan, got, mismatch, overflow}
use p2p_demo.Listener.State.{
  World, Net, FileInfo, Status, success, failure, Trace, note, wrote, closed, accepted, read,
}
use p2p_demo.Listener.Download.Request.{DownloadRequest}
use p2p_demo.Listener.Download.Request
use p2p_demo.Listener.Download.Response.{DownloadResponse, new_download_response, maxline}
use p2p_demo.Listener.Download.Response

-- The `fread`s of the loop, up to the one that meets the end of the file.
unfoldable pub chunks : ℕ → Bytes → List Bytes
chunks zero content = []
chunks (suc fuel) content =
    let rest = chunks fuel (drop maxline content) in
    if ltb (length content) maxline then content ∷ [] else take maxline content ∷ rest

-- The result of `writen` is kept in a `size_t`, so a failed write does not end the loop.
unfoldable pub write_chunks : ℕ → List Bytes → World → World
write_chunks sockfd [] w = w
write_chunks sockfd (chunk ∷ rest) w = write_chunks sockfd rest (note (wrote sockfd chunk) w)

abbrev pub gone : DownloadResponse
gone = record new_download_response { retcode = codes "410"; retdesc = codes "Gone" }

abbrev pub not_found : DownloadResponse
not_found = record new_download_response { retcode = codes "404"; retdesc = codes "Not Found" }

abbrev pub found : ℕ → DownloadResponse
found size = record new_download_response {
  retcode = codes "200";
  retdesc = codes "OK";
  contentlength = size;
}

abbrev pub reply : ℕ → DownloadResponse → World → World
reply sockfd resp w = note (closed sockfd) (note (wrote sockfd (Response.to_string resp)) w)

module _ (files : Files) (net : Net) where
  -- With the file open. The loop has fuel for one `fread` more than the file has characters.
  unfoldable pub send_file : ℕ → ℕ → Bytes → World → World × Status
  send_file sockfd size content w =
      let head = Response.to_string (found size) in
      let w' = note (wrote sockfd head) w in
      if net.writes w.trace sockfd head
      then (
        note (closed sockfd) (write_chunks sockfd (chunks (length content + 1) content) w'),
        success,
      )
      else (note (closed sockfd) w', failure)

  -- An index that is not in the list, and `fclose` of a file that did not open, are undefined.
  unfoldable pub handle_file_download : ℕ → DownloadRequest → World → Outcome (World × Status)
  handle_file_download sockfd dr w = elim (get_elem? w.local_files dr.fileindex) [
    | none ↦ undefined
    | some fi ↦
        if not (bytes_eq fi.file_name dr.filename)
        then ok (reply sockfd gone w, failure)
        else elim (files.content (w.conf.local_files_directory ++ b'/' ∷ dr.filename)) [
          | none ↦ undefined
          | some content ↦ ok (send_file sockfd fi.size content w)
        ]
  ]

  -- Behind the parsing of what was read from `connfd`; the thread works on the copy that `dup` gives.
  unfoldable pub serve_scanned : ℕ → ℕ → Scan DownloadRequest → World → Outcome (World × Status)
  serve_scanned connfd copy (got dr) w =
      handle_file_download copy dr (note (closed connfd) w) >>= (λ r. ok (r.0, success))
  serve_scanned connfd copy mismatch w = ok (note (closed connfd) w, failure)
  serve_scanned connfd copy overflow w = undefined

  unfoldable pub serve_text : ℕ → ℕ → Bytes → World → Outcome (World × Status)
  serve_text connfd copy buf w = serve_scanned connfd copy (Request.parse_from_string buf) w

  -- A read that fails counts as one that gives no text: the result -1 is kept in a `size_t` and not
  -- seen. With no descriptor from `accept` nothing is read, and the request is ignored.
  unfoldable pub handle_file_download_request : (Trace → ℕ → ℕ) → World → Outcome (World × Status)
  handle_file_download_request dup w =
      let w' = note accepted w in
      elim (net.accept w.trace) [
        | none ↦ ok (w', failure)
        | some c ↦
            let w'' = note (read c.fd) w' in
            let buf : Bytes = elim (net.readed w'.trace c.fd) [ none ↦ [] | some s ↦ s ] in
            serve_text c.fd (dup w''.trace c.fd) buf w''
      ]

-- ===== src/Listener/Download/Serve/Kept.antt =====
-- Serving a file changes nothing in the listener.
use p2p_demo.Prelude.{
  ℕ, ◌+◌, ◌≡◌, refl, inl, inr, List, [], ◌∷◌, ◌++◌, Bool-cases, Option-cases, get_elem?, length,
}
use p2p_demo.Outcome.{Outcome, OnReturn, OnReturn-bind}
use p2p_demo.Wire.{Bytes}
use p2p_demo.Util.Text.{bytes_eq}
use p2p_demo.Util.Files.{Files}
use p2p_demo.Util.Scan.{Scan, got, mismatch, overflow}
use p2p_demo.Listener.State.{
  World, Net, Trace, Listener, Status, note, closed, wrote, accepted, read,
}
use p2p_demo.Listener.Download.Request.{DownloadRequest}
use p2p_demo.Listener.Download.Request
use p2p_demo.Listener.Download.Response
use p2p_demo.Listener.Download.Serve.{
  chunks, write_chunks, found, send_file, handle_file_download, serve_scanned, serve_text,
  handle_file_download_request,
}

write_chunks-listener :
    (fd : ℕ) (cs : List Bytes) (w : World) → (write_chunks fd cs w).listener ≡ w.listener
unfolding write_chunks
write_chunks-listener fd [] w = refl
write_chunks-listener fd (c ∷ cs) w = write_chunks-listener fd cs (note (wrote fd c) w)

abbrev Keeps : Listener → Outcome (World × Status) → Type 0
Keeps l m = OnReturn (λ r. r.0.listener ≡ l) m

module _ (files : Files) (net : Net) where
  send_file-listener :
      (fd size : ℕ) (content : Bytes) (w : World)
      → (send_file files net fd size content w).0.listener ≡ w.listener
  unfolding send_file
  send_file-listener fd size content w =
      let head = Response.to_string (found size) in
      elim (Bool-cases (net.writes w.trace fd head)) [
        | inl sent ↦ rw sent (
            write_chunks-listener fd (chunks (length content + 1) content) (note (wrote fd head) w))
        | inr lost ↦ rw lost refl
      ]

  handle_file_download-Keeps :
      (fd : ℕ) (dr : DownloadRequest) (w : World)
      → Keeps w.listener (handle_file_download files net fd dr w)
  unfolding handle_file_download
  handle_file_download-Keeps fd dr w = elim (Option-cases (get_elem? w.local_files dr.fileindex)) [
    | inl e ↦ rw (handle_file_download, e) tt
    | inr (fi, e) ↦ elim (Bool-cases (bytes_eq fi.file_name dr.filename)) [
      | inr other ↦ rw (handle_file_download, e, other) refl
      | inl same ↦
          elim (Option-cases (files.content (w.conf.local_files_directory ++ b'/' ∷ dr.filename))) [
            | inl missing ↦ rw (handle_file_download, e, same, missing) tt
            | inr (content, there) ↦
                rw (handle_file_download, e, same, there) (send_file-listener fd fi.size content w)
          ]
    ]
  ]

  serve_scanned-Keeps :
      (connfd copy : ℕ) (s : Scan DownloadRequest) (w : World)
      → Keeps w.listener (serve_scanned files net connfd copy s w)
  unfolding serve_scanned
  serve_scanned-Keeps connfd copy (got dr) w =
      OnReturn-bind (λ r. r.0.listener ≡ w.listener) (λ r. r.0.listener ≡ w.listener)
        (handle_file_download files net copy dr (note (closed connfd) w)) _
        (handle_file_download-Keeps copy dr (note (closed connfd) w)) (λ r e h. h)
  serve_scanned-Keeps connfd copy mismatch w = refl
  serve_scanned-Keeps connfd copy overflow w = tt

  -- A request for a file leaves the listener as it is.
  pub request-Keeps :
      (dup : Trace → ℕ → ℕ) (w : World)
      → OnReturn
          (λ (r : World × Status). r.0.listener ≡ w.listener)
          (handle_file_download_request files net dup w)
  unfolding handle_file_download_request serve_text
  request-Keeps dup w = elim (Option-cases (net.accept w.trace)) [
    | inl e ↦ rw (handle_file_download_request, e) refl
    | inr (c, e) ↦
        rw (handle_file_download_request, e)
          (serve_scanned-Keeps c.fd _ (Request.parse_from_string _)
            (note (read c.fd) (note accepted w)))
  ]

-- ===== src/Listener/Download/Response/RoundTrip.antt =====
-- An answer that is written is read again.
use p2p_demo.Prelude.{
  ℕ, ◌<◌, ◌≤◌, ◌^◌, ◌≡◌, ◌≢◌, refl, ap, sym, ◌∙◌, Bool, true, false, [], ◌∷◌, ◌++◌, All, All-append,
  All-map, ◌==◌, arith, append-nil, length, some, le→not-ltb,
}
use p2p_demo.Wire.{Bytes}
use p2p_demo.Wire.CString.{codes, c_string_all}
use p2p_demo.Util.Split.{isspace, ltrim}
use p2p_demo.Util.Split.Laws.{StartsClean}
use p2p_demo.Util.Decimal.{decimal}
use p2p_demo.Util.Decimal.Laws.{decimal-All}
use p2p_demo.Util.Lines.{crlf_lines, cut_blank, blank_line, in_front}
use p2p_demo.Util.Lines.Laws.{
  crlf_lines-line, InLine, in_line, all-All, InLine-NoReturn, InLine-nonzero, IsGraphic-InLine,
  cut_blank-line, cut_blank-last, cut_blank-other, other_start,
}
use p2p_demo.Util.Scan.{got, literal, scan_set, span, fitting}
use p2p_demo.Util.Scan.Laws.{
  IsName, name-Fits, word-append, word-alone, word-space, long_integer-space, long_integer-alone,
  span-append, fitting-fits,
}
use p2p_demo.Listener.Download.Request.{crlf}
use p2p_demo.Listener.Download.Response.{
  DownloadResponse, status_line, server_line, type_line, length_line, to_string, parse_from_string,
  parse_lines, scan_status, scan_named, scan_length, in_set, maxline,
}

pub record IsAnswer (r : DownloadResponse) : Type 0 where
  pub version : IsName 32 r.httpversion
  pub code : IsName 32 r.retcode
  pub described : r.retdesc ≢ []
  pub in_words : All (λ c. in_set c ≡ true) r.retdesc
  pub begins : StartsClean r.retdesc
  pub short : length r.retdesc < 256
  pub server : IsName 256 r.servername
  pub kind : IsName 256 r.contenttype
  pub size : r.contentlength < 2 ^ 64
  pub part : length r.part_binary ≤ maxline

ltrim-StartsClean : (s : Bytes) → StartsClean s → ltrim (b' ' ∷ s) ≡ s
unfolding ltrim isspace
ltrim-StartsClean [] h = refl
ltrim-StartsClean (b ∷ s) h = rw (ltrim, h) refl

scan_set-alone :
    (test : ℕ → Bool) (size : ℕ) (s : Bytes)
    → s ≢ []
    → All (λ c. test c ≡ true) s
    → length s < size
    → scan_set test size s ≡ got (s, [])
unfolding scan_set
scan_set-alone test size s h k l =
    ap (λ t. fitting size (span test t)) (sym (append-nil s))
    ∙ ap (fitting size) (span-append test s [] k tt)
    ∙ fitting-fits size s [] h l

parse_from_string-cut :
    (b : ℕ) (s front part : Bytes)
    → (b == 13) ≡ false
    → cut_blank (b ∷ s) ≡ some (front, part)
    → length part ≤ maxline
    → parse_from_string (b ∷ s) ≡ parse_lines part (crlf_lines false [] front)
unfolding parse_from_string
parse_from_string-cut b s front part h e k =
    let inside : in_front b (cut_blank s) ≡ some (front, part) =
      sym (cut_blank-other b s (other_start b s (b'\n' ∷ 13 ∷ b'\n' ∷ []) h)) ∙ e in
    rw (parse_from_string, inside, le→not-ltb _ _ k) refl

in_set-in_line : (c : ℕ) → in_set c ≡ true → in_line c ≡ true
in_set-in_line c h = ground (arith, h)

module _ (r : DownloadResponse) (v : IsAnswer r) where
  scan_status-line : scan_status (status_line r) ≡ got (r.httpversion, r.retcode, r.retdesc)
  unfolding scan_status status_line literal isspace
  scan_status-line =
      rw
        (
          word-append 32 r.httpversion (b' ' ∷ (r.retcode ++ b' ' ∷ r.retdesc))
              (name-Fits 32 r.httpversion v.version) refl,
          word-space 32 (r.retcode ++ b' ' ∷ r.retdesc),
          word-append 32 r.retcode (b' ' ∷ r.retdesc) (name-Fits 32 r.retcode v.code) refl,
          ltrim-StartsClean r.retdesc v.begins,
          scan_set-alone in_set 256 r.retdesc v.described v.in_words v.short,
        )
        refl

  scan_server : scan_named (codes "Server:") (server_line r) ≡ got r.servername
  unfolding scan_named literal
  scan_server =
      rw
        (
          word-space 256 r.servername,
          word-alone 256 r.servername (name-Fits 256 r.servername v.server),
        )
        refl

  scan_kind : scan_named (codes "Content-Type:") (type_line r) ≡ got r.contenttype
  unfolding scan_named literal
  scan_kind =
      rw
        (
          word-space 256 r.contenttype,
          word-alone 256 r.contenttype (name-Fits 256 r.contenttype v.kind),
        )
        refl

  scan_size : scan_length (length_line r) ≡ got r.contentlength
  unfolding scan_length literal
  scan_size =
      rw (long_integer-space (decimal r.contentlength), long_integer-alone r.contentlength v.size)
        refl

  status_line-InLine : InLine (status_line r)
  unfolding status_line
  status_line-InLine = All-append _ (codes "HTTP/") _ (all-All in_line (codes "HTTP/") refl) (
      All-append _ r.httpversion _ (IsGraphic-InLine _ v.version.graphic) (
        refl,
        All-append _ r.retcode _ (IsGraphic-InLine _ v.code.graphic)
            (refl, All-map _ _ r.retdesc (λ c k. in_set-in_line c k) v.in_words),
      ))

  server-InLine : InLine (server_line r)
  server-InLine =
      All-append _ (codes "Server: ") _ (all-All in_line (codes "Server: ") refl)
        (IsGraphic-InLine _ v.server.graphic)

  kind-InLine : InLine (type_line r)
  kind-InLine =
      All-append _ (codes "Content-Type: ") _ (all-All in_line (codes "Content-Type: ") refl)
        (IsGraphic-InLine _ v.kind.graphic)

  size-InLine : InLine (length_line r)
  size-InLine =
      All-append _ (codes "Content-Length: ") _ (all-All in_line (codes "Content-Length: ") refl)
        (decimal-All (λ c. in_line c ≡ true) r.contentlength (λ d h. ground arith))

  -- The head of the answer, with its blank line.
  head : Bytes
  head =
      status_line r
      ++ (crlf
          ++ (server_line r
              ++ (crlf ++ ((type_line r) ++ (crlf ++ ((length_line r) ++ blank_line))))))

  cut_blank-to_string : cut_blank (to_string r) ≡ some (head, r.part_binary)
  unfolding to_string head
  cut_blank-to_string =
      cut_blank-line (status_line r) b'S' _ _ r.part_binary (InLine-NoReturn _ status_line-InLine)
        refl
        (cut_blank-line (server_line r) b'C' _ _ r.part_binary
          (InLine-NoReturn (server_line r) server-InLine) refl
          (cut_blank-line (type_line r) b'C' _ _ r.part_binary
            (InLine-NoReturn (type_line r) kind-InLine) refl
            (cut_blank-last (length_line r) r.part_binary
              (InLine-NoReturn (length_line r) size-InLine))))

  crlf_lines-head :
      crlf_lines false [] head
      ≡ status_line r ∷ (server_line r) ∷ (type_line r) ∷ (length_line r) ∷ [] ∷ []
  unfolding head crlf_lines
  crlf_lines-head =
      crlf_lines-line [] (status_line r) _ (InLine-NoReturn _ status_line-InLine)
      ∙ ap (λ ls. status_line r ∷ ls)
          (crlf_lines-line [] (server_line r) _ (InLine-NoReturn (server_line r) server-InLine)
            ∙ ap (λ ls. (server_line r) ∷ ls)
                (crlf_lines-line [] (type_line r) _ (InLine-NoReturn (type_line r) kind-InLine)
                  ∙ ap (λ ls. (type_line r) ∷ ls)
                      (crlf_lines-line [] (length_line r) _
                        (InLine-NoReturn (length_line r) size-InLine))))

  parse_lines-sent :
      parse_lines r.part_binary
        (status_line r ∷ server_line r ∷ type_line r ∷ length_line r ∷ [] ∷ [])
      ≡ got r
  unfolding parse_lines
  parse_lines-sent =
      rw
        (
          c_string_all (status_line r) (InLine-nonzero _ status_line-InLine),
          scan_status-line,
          c_string_all (server_line r) (InLine-nonzero (server_line r) server-InLine),
          scan_server,
          c_string_all (type_line r) (InLine-nonzero (type_line r) kind-InLine),
          scan_kind,
          c_string_all (length_line r) (InLine-nonzero (length_line r) size-InLine),
          scan_size,
        )
        refl

  -- An answer whose texts are not empty and fit into their arrays - the description with the
  -- characters that are looked for and no space at its front, the others with no spaces and no
  -- control characters -, whose length is below 2 ^ 64 and whose part of the file is no longer
  -- than its array is read again by `parseFromString` from what `toString` writes.
  pub parse_from_string-to_string_response : parse_from_string (to_string r) ≡ got r
  unfolding to_string status_line
  parse_from_string-to_string_response =
      parse_from_string-cut b'H' _ head r.part_binary refl cut_blank-to_string v.part
      ∙ ap (parse_lines r.part_binary) crlf_lines-head
      ∙ parse_lines-sent

-- ===== src/Listener/Download/Response.antt =====
-- `DownloadResponse`: the head of the answer, and the part of the file that came with it.
pub mod RoundTrip
use p2p_demo.Prelude.{
  ℕ, Bool, true, false, ◌&&◌, ◌||◌, List, [], ◌∷◌, ◌++◌, none, some, ◌==◌, if◌then◌else◌, ltb, leb,
  length,
}
use p2p_demo.Wire.{Bytes}
use p2p_demo.Wire.CString.{codes, c_string, is_empty}
use p2p_demo.Util.Split.{ltrim}
use p2p_demo.Util.Decimal.{decimal}
use p2p_demo.Util.Lines.{crlf_lines, cut_blank, in_front}
use p2p_demo.Util.Scan.{Scan, got, mismatch, overflow, ◌>>=◌, literal, long_integer, word, scan_set}
use p2p_demo.Listener.Download.Request.{crlf}

-- The texts are those of the arrays up to their NUL; `part_binary_len` is the length of the part.
pub record DownloadResponse : Type 0 where
  pub httpversion : Bytes
  pub retcode : Bytes
  pub retdesc : Bytes
  pub servername : Bytes
  pub contenttype : Bytes
  pub contentlength : ℕ
  pub part_binary : Bytes

unfoldable pub new_download_response : DownloadResponse
new_download_response = record {
  httpversion = codes "1.0";
  retcode = codes "200";
  retdesc = codes "OK";
  servername = codes "Gnutella/0.4";
  contenttype = codes "application/binary";
  contentlength = 0;
  part_binary = [];
}

unfoldable pub status_line : DownloadResponse → Bytes
status_line r = codes "HTTP/" ++ (r.httpversion ++ b' ' ∷ (r.retcode ++ b' ' ∷ r.retdesc))

abbrev pub server_line : DownloadResponse → Bytes
server_line r = codes "Server: " ++ r.servername

abbrev pub type_line : DownloadResponse → Bytes
type_line r = codes "Content-Type: " ++ r.contenttype

abbrev pub length_line : DownloadResponse → Bytes
length_line r = codes "Content-Length: " ++ decimal r.contentlength

unfoldable pub to_string : DownloadResponse → Bytes
to_string r =
    status_line r
    ++ (crlf
        ++ (server_line r
            ++ (crlf
                ++ (type_line r
                    ++ (crlf ++ (length_line r ++ (crlf ++ (crlf ++ r.part_binary))))))))

-- `[0-9a-zA-Z ]`
abbrev pub in_set : ℕ → Bool
in_set c =
    leb b'0' c && leb c b'9' || leb b'a' c && leb c b'z' || leb b'A' c && leb c b'Z' || c == b' '

-- `sscanf` of `HTTP/%s %s %[0-9a-zA-Z ]`.
unfoldable pub scan_status : Bytes → Scan (Bytes × Bytes × Bytes)
scan_status s = do
  s₁ ← literal (codes "HTTP/") s
  (httpversion, s₂) ← word 32 s₁
  (retcode, s₃) ← word 32 s₂
  (retdesc, s₄) ← scan_set in_set 256 (ltrim s₃)
  got (httpversion, retcode, retdesc)

-- `sscanf` of a name, a space and `%s`.
unfoldable pub scan_named : Bytes → Bytes → Scan Bytes
scan_named name s = do s₁ ← literal name s; (value, s₂) ← word 256 s₁; got value

-- `sscanf` of `Content-Length: %lu`.
unfoldable pub scan_length : Bytes → Scan ℕ
scan_length s = do
  s₁ ← literal (codes "Content-Length:") s
  (contentlength, s₂) ← long_integer s₁
  got contentlength

-- The head has four lines and an empty one.
unfoldable pub parse_lines : Bytes → List Bytes → Scan DownloadResponse
parse_lines part (line1 ∷ line2 ∷ line3 ∷ line4 ∷ [] ∷ []) = do
  (httpversion, retcode, retdesc) ← scan_status (c_string line1)
  servername ← scan_named (codes "Server:") (c_string line2)
  contenttype ← scan_named (codes "Content-Type:") (c_string line3)
  contentlength ← scan_length (c_string line4)
  got (record {
    httpversion = httpversion;
    retcode = retcode;
    retdesc = retdesc;
    servername = servername;
    contenttype = contenttype;
    contentlength = contentlength;
    part_binary = part;
  })
parse_lines part _ = mismatch

abbrev pub maxline : ℕ
maxline = 4096

-- The blank line is looked for behind the first character. Where there is none, the position is
-- the largest `size_t`: all of the text goes to `part_binary`, and the head is empty.
unfoldable pub parse_from_string : Bytes → Scan DownloadResponse
parse_from_string [] = mismatch
parse_from_string (b ∷ s) = elim (in_front b (cut_blank s)) [
  | none ↦ if ltb maxline (length (b ∷ s)) then overflow else mismatch
  | some (head, part) ↦
      if ltb maxline (length part) then overflow else parse_lines part (crlf_lines false [] head)
]

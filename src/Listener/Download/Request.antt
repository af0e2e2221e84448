-- ===== src/Listener/Download/Request.antt =====
-- `DownloadRequest`: what a peer sends to get a file.
pub mod RoundTrip
use p2p_demo.Prelude.{ℕ, Bool, true, false, List, [], ◌∷◌, ◌++◌, ◌==◌, if◌then◌else◌, ltb, length}
use p2p_demo.Wire.{Bytes}
use p2p_demo.Wire.CString.{codes, c_string, is_empty}
use p2p_demo.Util.Split.{ltrim, blanked}
use p2p_demo.Util.Decimal.{int_decimal}
use p2p_demo.Util.Lines.{crlf_lines}
use p2p_demo.Util.Scan.{Scan, got, mismatch, overflow, ◌>>=◌, literal, integer, word}

-- The texts are those of the arrays up to their NUL.
pub record DownloadRequest : Type 0 where
  pub fileindex : ℕ
  pub filename : Bytes
  pub httpversion : Bytes
  pub agentname : Bytes
  pub agentversion : Bytes
  pub range : Bytes
  pub connection : Bytes

unfoldable pub new_download_request : DownloadRequest
new_download_request = record {
  fileindex = 0;
  filename = [];
  httpversion = codes "1.0";
  agentname = codes "Gnutella";
  agentversion = codes "0.4";
  range = [];
  connection = [];
}

abbrev pub crlf : Bytes
crlf = 13 ∷ b'\n' ∷ []

-- A field with its name, where it is not empty.
unfoldable pub field : Bytes → Bytes → Bytes
field name value = if is_empty value then [] else name ++ (value ++ crlf)

unfoldable pub get_line : DownloadRequest → Bytes
get_line dr =
    codes "GET /get/"
    ++ (int_decimal dr.fileindex ++ b'/' ∷ (dr.filename ++ (codes "/ HTTP/" ++ dr.httpversion)))

unfoldable pub agent_line : DownloadRequest → Bytes
agent_line dr = codes "User-Agent: " ++ (dr.agentname ++ b'/' ∷ dr.agentversion)

unfoldable pub to_string : DownloadRequest → Bytes
to_string dr =
    let range = field (codes "Range: ") dr.range in
    let connection = field (codes "Connection: ") dr.connection in
    get_line dr ++ (crlf ++ (agent_line dr ++ (crlf ++ (range ++ (connection ++ crlf)))))

-- The text without the slash at its end.
unfoldable pub without_slash : Bytes → Scan Bytes
without_slash [] = mismatch
without_slash (b ∷ []) = if b == b'/' then got [] else mismatch
without_slash (b ∷ c ∷ s) = without_slash (c ∷ s) >>= (λ t. got (b ∷ t))

-- `sscanf` of `GET /get/%d/%s HTTP/%s`, and the slash behind the name.
unfoldable pub scan_get : Bytes → Scan (ℕ × Bytes × Bytes)
scan_get s = do
  s₁ ← literal (codes "GET") s
  s₂ ← literal (codes "/get/") (ltrim s₁)
  (fileindex, s₃) ← integer s₂
  s₄ ← literal (codes "/") s₃
  (filename, s₅) ← word 256 s₄
  s₆ ← literal (codes "HTTP/") (ltrim s₅)
  (httpversion, s₇) ← word 32 s₆
  name ← without_slash filename
  got (fileindex, name, httpversion)

-- `sscanf` of `User-Agent: %s %s`.
unfoldable pub scan_agent : Bytes → Scan (Bytes × Bytes)
scan_agent s = do
  s₁ ← literal (codes "User-Agent:") s
  (agentname, s₂) ← word 256 s₁
  (agentversion, s₃) ← word 32 s₂
  got (agentname, agentversion)

-- The last of the lines is there, and is empty.
unfoldable pub ends_blank : List Bytes → Bool
ends_blank [] = false
ends_blank (line ∷ []) = is_empty line
ends_blank (line ∷ next ∷ lines) = ends_blank (next ∷ lines)

-- The two lines that are read; what follows them is not.
unfoldable pub parse_lines : List Bytes → Scan DownloadRequest
parse_lines (line1 ∷ line2 ∷ line3 ∷ lines) =
    if ends_blank (line3 ∷ lines)
    then (do
      (fileindex, filename, httpversion) ← scan_get (c_string line1)
      (agentname, agentversion) ← scan_agent (c_string (blanked b'/' line2))
      got (record {
        fileindex = fileindex;
        filename = filename;
        httpversion = httpversion;
        agentname = agentname;
        agentversion = agentversion;
        range = [];
        connection = [];
      }))
    else mismatch
parse_lines _ = mismatch

-- `mismatch` is the result -1.
unfoldable pub parse_from_string : Bytes → Scan DownloadRequest
parse_from_string s = parse_lines (crlf_lines false [] s)

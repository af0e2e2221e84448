-- ===== src/Util/Read.antt =====
-- `readed` and `read_once` of Util.cpp: what they make of the answers of `read`.
pub mod Laws
use p2p_demo.Prelude.{ℕ, List, [], ◌∷◌, ◌++◌, ltb, if◌then◌else◌, length}
use p2p_demo.Wire.{Bytes}

-- `MAXLINE` of Util.cpp.
abbrev pub maxline : ℕ
maxline = 4096

-- What one `read` answers; no bytes are the end of the stream.
pub data ReadAnswer : Type 0 where
  bytes : Bytes → ReadAnswer
  interrupted : ReadAnswer
  failed : ReadAnswer

-- The result: a count, -1, or none yet where it still waits for an answer.
pub data ReadResult : Type 0 where
  count : ℕ → ReadResult
  error : ReadResult
  waiting : ReadResult

-- The loop of `readed`, over the answers still to come, with what the buffer holds.
unfoldable pub readed_on : Bytes → List ReadAnswer → Bytes × ReadResult
readed_on buf [] = (buf, waiting)
readed_on buf (interrupted ∷ more) = readed_on buf more
readed_on buf (failed ∷ more) = (buf, error)
readed_on buf (bytes [] ∷ more) = (buf, count 0)
readed_on buf (bytes (b ∷ s) ∷ more) =
    let filled = buf ++ b ∷ s in
    let longer = readed_on filled more in
    if ltb (length (b ∷ s)) maxline then (filled, count (length filled)) else longer

unfoldable pub readed : List ReadAnswer → Bytes × ReadResult
readed answers = readed_on [] answers

-- One `read`: a signal counts as no bytes.
unfoldable pub read_once : ReadAnswer → Bytes × ReadResult
read_once (bytes s) = (s, count (length s))
read_once interrupted = ([], count 0)
read_once failed = ([], error)

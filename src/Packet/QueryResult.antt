-- ===== src/Packet/QueryResult.antt =====
-- class QueryResult: one file of a QueryHits message, with no header of its own.
pub mod RoundTrip
use p2p_demo.Prelude.{ℕ, ◌+◌, Bool, not, ◌||◌, List, [], ◌∷◌, ◌++◌, drop, ltb, ◌==◌, if◌then◌else◌}
use p2p_demo.Prelude
use p2p_demo.Outcome.{Outcome, ok, throw, runtime_error, ◌>>=◌}
use p2p_demo.Wire.{Bytes, u32, byte_at, int2string, string2uint}
use p2p_demo.Wire.CString.{c_string, is_empty}
use p2p_demo.Packet.OptData.{OptData}
use p2p_demo.Packet.OptData

pub record QueryResult : Type 0 where
  pub file_index : ℕ
  pub file_size : ℕ
  pub file_name : Bytes
  pub optdata : OptData

abbrev pub new_query_result : QueryResult
new_query_result = record { file_index = 0; file_size = 0; file_name = []; optdata = OptData.empty }

unfoldable pub to_string : QueryResult → Bytes
to_string r =
    int2string r.file_index
    ++ int2string r.file_size
    ++ r.file_name
    ++ 0 ∷ (OptData.to_string r.optdata ++ 0 ∷ [])

-- The optional data from `idx` on. `str[idx] != (char) 0x00` is read only inside the string.
unfoldable pub parse_optstr : Bytes → ℕ → Outcome Bytes
parse_optstr str idx =
    let optstr = c_string (drop idx str) in
    let end = u32 (idx + Prelude.length optstr) in
    if ltb (Prelude.length str) (u32 (end + 1))
    then throw runtime_error
    else do last ← byte_at str end; if not (last == 0) then throw runtime_error else ok optstr

unfoldable pub parse_string : QueryResult → Bytes → Outcome QueryResult
parse_string r str = if ltb (Prelude.length str) 11 then throw runtime_error else do
  file_index ← string2uint str 0
  file_size ← string2uint str 4
  let file_name = c_string (drop 8 str)
  let idx = u32 (8 + Prelude.length file_name + 1)
  if is_empty file_name || ltb (Prelude.length str) (u32 (idx + 1)) then throw runtime_error else do
    optstr ← parse_optstr str idx
    ok (record {
      file_index = u32 file_index;
      file_size = u32 file_size;
      file_name = file_name;
      optdata = OptData.parse_string r.optdata optstr;
    })

-- The number of bytes that `toString` writes.
unfoldable pub length : QueryResult → ℕ
length r = u32 (4 + 4 + Prelude.length r.file_name + r.optdata.optlen + 2)

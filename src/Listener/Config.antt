-- ===== src/Listener/Config.antt =====
-- `readLocalFileConf` and `readLocalSeedConf`: the shared files and the seed nodes.
pub mod Laws
use p2p_demo.Prelude.{
  ℕ, zero, suc, ◌+◌, Bool, true, false, not, ◌||◌, List, [], ◌∷◌, ◌++◌, Option, none, some, ◌==◌,
  if◌then◌else◌,
}
use p2p_demo.Wire.{Bytes}
use p2p_demo.Wire.CString.{is_empty}
use p2p_demo.Util.Split.{trim, split, split_by_deli2}
use p2p_demo.Util.Lines.{in_front}
use p2p_demo.Util.Decimal.{atoi}
use p2p_demo.Util.Files.{Files, file_exists, readlines, get_file_size, host2ip}
use p2p_demo.Listener.State.{Listener, FileInfo, SeedInfo, Status, success, failure}

-- The text before the first `deli` and the text behind it; nothing where there is none.
unfoldable pub cut_at : ℕ → Bytes → Option (Bytes × Bytes)
cut_at deli [] = none
cut_at deli (b ∷ s) =
    let rest = in_front b (cut_at deli s) in if b == deli then some ([], s) else rest

-- Behind the two parts of a line: the name and the keywords.
unfoldable pub file_entry : Files → Bytes → ℕ → Bytes → List Bytes → Option FileInfo
file_entry files directory index name [] = none
file_entry files directory index name (kw ∷ kws) =
    let path = directory ++ b'/' ∷ name in
    if is_empty name || not (file_exists files path)
    then none
    else some (record {
      file_name = name;
      keywords = kw ∷ kws;
      size = get_file_size files path;
      file_index = index;
    })

-- One line of the loop, with the index that the next file gets.
unfoldable pub file_line : Files → Bytes → ℕ → Bytes → Option FileInfo
file_line files directory index line = elim (cut_at b':' (trim line)) [
  | none ↦ none
  | some (front, back) ↦
      if is_empty back
      then none
      else file_entry files directory index (trim front) (split_by_deli2 back b'|')
]

unfoldable pub read_files : Files → Bytes → ℕ → List Bytes → List FileInfo
read_files files directory index [] = []
read_files files directory index (line ∷ lines) = elim (file_line files directory index line) [
  | none ↦ read_files files directory index lines
  | some fi ↦ fi ∷ read_files files directory (index + 1) lines
]

unfoldable pub read_local_file_conf : Files → Listener → Listener × Status
read_local_file_conf files l =
    let filename = l.conf.local_files_file in
    if file_exists files filename
    then (
      record l {
        local_files =
            l.local_files
            ++ read_files files l.conf.local_files_directory 0 (readlines files filename);
      },
      success,
    )
    else (l, failure)

-- A line of two words: a host and a port.
unfoldable pub seed_entry : Files → List Bytes → Option SeedInfo
seed_entry files (host ∷ port ∷ []) = some (record { ip = host2ip files host; port = atoi port })
seed_entry files _ = none

unfoldable pub read_seeds : Files → List Bytes → List SeedInfo
read_seeds files [] = []
read_seeds files (line ∷ lines) = elim (seed_entry files (split (trim line))) [
  | none ↦ read_seeds files lines
  | some si ↦ si ∷ read_seeds files lines
]

unfoldable pub read_local_seed_conf : Files → Listener → Listener × Status
read_local_seed_conf files l =
    let filename = l.conf.seed_nodes_file in
    if file_exists files filename
    then (
      record l { seed_nodes = l.seed_nodes ++ read_seeds files (readlines files filename) },
      success,
    )
    else (l, failure)

-- ===== src/Util/Files.antt =====
-- Files as Util.cpp reads them: `file_exists`, `readlines`, `getFileSize`.
use p2p_demo.Prelude.{
  ℕ, Bool, true, false, List, [], ◌∷◌, ◌++◌, Option, none, some, ◌==◌, if◌then◌else◌,
}
use p2p_demo.Wire.{Bytes}
use p2p_demo.Wire.CString.{is_empty}

-- What the file system and the resolver of host names answer.
pub record Files : Type 0 where
  -- the bytes of a file that can be opened for reading, by its name up to a NUL
  pub content : Bytes → Option Bytes
  -- `st_size` of `stat`
  pub st_size : Bytes → ℕ
  -- `gethostbyname`: the address in host order
  pub hosts : Bytes → Option ℕ

unfoldable pub file_exists : Files → Bytes → Bool
file_exists files filename = elim (files.content filename) [ none ↦ false | some text ↦ true ]

-- `std::getline` until it fails: a last line needs no newline, if it is not empty.
unfoldable pub getlines : Bytes → Bytes → List Bytes
getlines line [] = if is_empty line then [] else line ∷ []
getlines line (b ∷ s) =
    let next = line ∷ getlines [] s in
    let longer = getlines (line ++ b ∷ []) s in if b == b'\n' then next else longer

-- A file that cannot be opened has no lines.
unfoldable pub readlines : Files → Bytes → List Bytes
unfolding getlines
readlines files filename = elim (files.content filename) [
  | none ↦ []
  | some text ↦ getlines [] text
]

unfoldable pub get_file_size : Files → Bytes → ℕ
get_file_size files fname = files.st_size fname

-- -1 for a name that is not known.
unfoldable pub host2ip : Files → Bytes → ℕ
host2ip files hostname = elim (files.hosts hostname) [ none ↦ 0xFFFFFFFF | some ip ↦ ip ]

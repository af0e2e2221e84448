-- ===== src/G04/Conf.antt =====
-- `G04::readConf`: the variables of g04.conf, and the fields of `Conf` that they set.
pub mod Laws
pub mod Lines
use p2p_demo.Prelude.{Bool, true, false, List, [], ◌∷◌, Option, none, some, if◌then◌else◌}
use p2p_demo.Prelude.Maps.{insert}
use p2p_demo.Wire.{Bytes}
use p2p_demo.Wire.CString.{codes, is_empty}
use p2p_demo.Util.Split.{trim, split_by_deli}
use p2p_demo.Util.Decimal.{atoi}
use p2p_demo.Util.Files.{Files, file_exists, readlines}
use p2p_demo.Listener.State.{Conf, Status, success, failure, bytes_key}
use p2p_demo.G04.State.{G04, Variables, getvar}

-- The words of a line: a name, what stands between, a value, and anything behind it.
unfoldable pub set_from : List Bytes → Variables → Variables
set_from (name ∷ between ∷ value ∷ behind) variables = insert name value variables
set_from _ variables = variables

unfoldable pub read_line : Variables → Bytes → Variables
read_line variables line =
    let str = trim line in
    if is_empty str then variables else set_from (split_by_deli str b'=') variables

unfoldable pub read_lines : Variables → List Bytes → Variables
read_lines variables [] = variables
read_lines variables (line ∷ lines) = read_lines (read_line variables line) lines

-- One of the eight blocks of `readConf`: the variable, and the field that takes its value.
pub record Setting : Type 0 where
  pub name : Bytes
  pub store : Bytes → Conf → Conf

-- In the order of the code.
abbrev pub settings : List Setting
settings =
    record { name = codes "neighborPort"; store = λ v c. record c { neighbor_port = atoi v } }
    ∷ record { name = codes "filePort"; store = λ v c. record c { file_port = atoi v } }
    ∷ record { name = codes "NumberOfPeers"; store = λ v c. record c { number_of_peers = atoi v } }
    ∷ record { name = codes "TTL"; store = λ v c. record c { ttl = atoi v } }
    ∷ record { name = codes "seedNodes"; store = λ v c. record c { seed_nodes_file = v } }
    ∷ record { name = codes "isSeedNode"; store = λ v c. record c { is_seed_node = atoi v } }
    ∷ record { name = codes "localFiles"; store = λ v c. record c { local_files_file = v } }
    ∷ record {
      name = codes "localFilesDirectory";
      store = λ v c. record c { local_files_directory = v };
    }
    ∷ []

-- The blocks one after the other: the first variable that is not set ends it.
unfoldable pub apply_settings : List Setting → Variables → Conf → Conf × Status
apply_settings [] variables conf = (conf, success)
apply_settings (s ∷ ss) variables conf =
    let tmpstr = getvar variables s.name in
    let rest = apply_settings ss variables (s.store tmpstr conf) in
    if is_empty tmpstr then (conf, failure) else rest

unfoldable pub read_conf : Files → G04 → G04 × Status
read_conf files g =
    let filename = codes "g04.conf" in
    let variables = read_lines g.variables (readlines files filename) in
    let (conf, status) = apply_settings settings variables g.conf in
    if file_exists files filename
    then (record g { variables = variables; conf = conf }, status)
    else (g, failure)

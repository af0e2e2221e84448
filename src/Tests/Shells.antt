-- ===== src/Tests/Shells.antt =====
-- G04.cpp on a small configuration.
use p2p_demo.Prelude.{arith, ◌≡◌, ◌≢◌, ◌↔◌, refl, true, false, [], ◌∷◌, ◌++◌, some, none}
use p2p_demo.Prelude.Maps.{lookup, insert}
use p2p_demo.Outcome.{ok, Returns}
use p2p_demo.Wire.{Bytes}
use p2p_demo.Wire.CString.{codes, is_empty}
use p2p_demo.Util.Text.{bytes_eq, bytes_before}
use p2p_demo.Util.Split.{isspace, trim, ltrim, rtrim, split, split_by_deli, spaced, words}
use p2p_demo.Util.Files.{Files, file_exists, readlines, getlines}
use p2p_demo.Listener.State.{success, bytes_key}
use p2p_demo.G04.State.{G04, getvar}
use p2p_demo.G04.Conf.{read_conf, read_line, read_lines, set_from, apply_settings}
use p2p_demo.G04.Conf.Laws.{IsComplete, read_conf-IsComplete, described_conf, read_conf-described}
use p2p_demo.G04.Conf.Lines.{Assignment, assignment_line, read_line-assignment}
use p2p_demo.G04.Commands.{Shell, Host, execute_line}
use p2p_demo.Listener.Listing.Laws.{IsListable}
use p2p_demo.G04.Commands.Set.{IsPlain, set-getvar}
use p2p_demo.G04.Shell.{run_lines, run_lines-Returns}
use p2p_demo.Tests.Data.{conf, world, net}

-- Every file holds one line.
abbrev pub files : Files
files = record {
  content = λ name. some (codes "TTL = 9\n");
  st_size = λ name. 8;
  hosts = λ name. none;
}

abbrev pub host : Host
host = record { net = net; files = files; system = λ command. 0 }

-- All variables but TTL are set.
abbrev pub g04 : G04
g04 = record {
  variables =
      (codes "NumberOfPeers", codes "5")
      ∷ (codes "filePort", codes "6347")
      ∷ (codes "isSeedNode", codes "0")
      ∷ (codes "localFiles", codes "l")
      ∷ (codes "localFilesDirectory", codes "d")
      ∷ (codes "neighborPort", codes "6346")
      ∷ (codes "seedNodes", codes "s")
      ∷ [];
  conf = conf;
  quits = false;
}

abbrev shell : Shell
shell = record { g04 = g04; world = world; downloads = []; printed = [] }

world-IsListable : IsListable world.listener
world-IsListable = record { files = omega arith; results = omega arith }

typed_lines : Returns (run_lines host (codes " set a=b " ∷ codes "!ls" ∷ codes "dump" ∷ []) shell)
typed_lines =
    run_lines-Returns host (codes " set a=b " ∷ codes "!ls" ∷ codes "dump" ∷ []) shell
      world-IsListable

name-IsPlain : IsPlain (codes "a")
unfolding isspace
name-IsPlain = record { word = (λ e. cc, ((refl, refl), tt)); plain = (refl, tt) }

value-IsPlain : IsPlain (codes "b")
unfolding isspace
value-IsPlain = record { word = (λ e. cc, ((refl, refl), tt)); plain = (refl, tt) }

set_variable :
    (sh' : Shell) × (execute_line host (codes "set " ++ (codes "a" ++ b'=' ∷ codes "b")) shell
      ≡ ok (sh', 0))
    × (getvar sh'.g04.variables (codes "a") ≡ codes "b")
    × ((other : Bytes)
        → codes "a" ≢ other
        → getvar sh'.g04.variables other ≡ getvar shell.g04.variables other)
set_variable = set-getvar (codes "a") (codes "b") name-IsPlain value-IsPlain host shell

IsComplete-conf : ((read_conf files g04).1 ≡ success) ↔ (
    (file_exists files (codes "g04.conf") ≡ true)
    × IsComplete (read_lines g04.variables (readlines files (codes "g04.conf"))))
IsComplete-conf = read_conf-IsComplete files g04

read_success : (read_conf files g04).1 ≡ success
unfolding read_conf apply_settings file_exists readlines getlines is_empty read_lines read_line
    set_from trim ltrim rtrim isspace split_by_deli split words spaced getvar lookup insert bytes_eq
    bytes_before
read_success = refl

described : (read_conf files g04).0.conf ≡ described_conf ((read_conf files g04).0.variables)
described = read_conf-described files g04 read_success

a_line : Assignment (codes "TTL") (codes "9")
unfolding isspace
a_line = record {
  front = codes " ";
  back = codes "\r";
  before_sign = codes "  ";
  behind_sign = [];
  name_ok = (λ e. cc, ((refl, refl), ((refl, refl), ((refl, refl), tt))));
  value_ok = (λ e. cc, ((refl, refl), tt));
  spaces = ((refl, tt), (refl, (refl, tt)), tt, (refl, tt));
}

read_assignment :
    read_line g04.variables (assignment_line a_line)
    ≡ insert (codes "TTL") (codes "9") g04.variables
read_assignment = read_line-assignment (codes "TTL") (codes "9") a_line g04.variables

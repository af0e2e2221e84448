-- ===== src/Tests/Downloads.antt =====
-- A download of the file `a.mp3`, from both ends.
use p2p_demo.Prelude.{ℕ, ◌≡◌, ◌↔◌, refl, true, [], ◌∷◌, ◌++◌, some, none, arith, get_elem?}
use p2p_demo.Outcome.{ok, undefined}
use p2p_demo.Wire.{Bytes}
use p2p_demo.Wire.CString.{codes, is_empty}
use p2p_demo.Util.Files.{Files, file_exists, readlines, getlines, get_file_size}
use p2p_demo.Util.Split.{isspace, trim, ltrim, rtrim, split, split_by_deli2, blanked, words}
use p2p_demo.Util.Lines.Laws.{IsGraphic}
use p2p_demo.Util.Scan.{got}
use p2p_demo.Listener.State.{Listener, FileInfo, World, success, note, closed}
use p2p_demo.Listener.Config.{read_local_file_conf, read_files, file_line, file_entry, cut_at}
use p2p_demo.Listener.Download.Request
use p2p_demo.Listener.Download.Request.RoundTrip.{parse_from_string-to_string_request}
use p2p_demo.Listener.Download.Response
use p2p_demo.Listener.Download.Response.RoundTrip.{parse_from_string-to_string_response}
use p2p_demo.Listener.Download.Serve.{serve_text}
use p2p_demo.Listener.Download.Serve.Laws.{
  IsOffered, request_for-IsSendable, serve_text-taken, taken, file_head,
}
use p2p_demo.Listener.Download.Fetch.{pick_result, get_text, fetch_rest}
use p2p_demo.Listener.Download.Fetch.Laws.{request_for, pick_result-undefined}
use p2p_demo.Listener.Download.Fetch.Delivery.{
  answer, answer-IsAnswer, fetch_rest-delivers, reads_of, read_local_file_conf-IsOffered,
}
use p2p_demo.Tests.Data.{listener, world, net}

-- Every file holds this line.
abbrev files : Files
files = record {
  content = λ name. some (codes "a.mp3 : Song\n");
  st_size = λ name. 13;
  hosts = λ name. none;
}

a_name : IsGraphic (codes "a.mp3")
a_name = (omega arith, (omega arith, (omega arith, (omega arith, (omega arith, tt)))))

request_example :
    Request.parse_from_string (Request.to_string (request_for 1 (codes "a.mp3")))
    ≡ got (request_for 1 (codes "a.mp3"))
unfolding Request.new_download_request
request_example =
    parse_from_string-to_string_request (request_for 1 (codes "a.mp3"))
      (request_for-IsSendable 1 (codes "a.mp3") (omega arith) a_name (omega arith))

response_example :
    Response.parse_from_string (Response.to_string (answer 5 (codes "ab")))
    ≡ got (answer 5 (codes "ab"))
response_example =
    parse_from_string-to_string_response (answer 5 (codes "ab"))
      (answer-IsAnswer 5 (codes "ab") (omega arith) (omega arith))

abbrev read_file : FileInfo
read_file = record {
  file_name = codes "a.mp3";
  keywords = codes "Song" ∷ [];
  size = 13;
  file_index = 0;
}

-- The node with the file as it is listed.
abbrev serving : World
serving = record world { listener = record listener { local_files = read_file ∷ [] } }

abbrev file_offered :
    IsOffered files serving (request_for 0 (codes "a.mp3")) (codes "a.mp3 : Song\n")
file_offered = record { info = read_file; listed = refl; named = refl; opened = refl }

served_example :
    (w' : World) × (serve_text files net 9 10 (get_text 0 (codes "a.mp3")) serving
      ≡ ok (w', success))
    × (taken net 10 w'.trace
        ≡ taken net 10 serving.trace ++ (file_head 13 ++ codes "a.mp3 : Song\n"))
served_example =
    serve_text-taken files net 9 10 0 (codes "a.mp3") serving (codes "a.mp3 : Song\n") (omega arith)
      a_name (omega arith) file_offered refl (λ t text. refl)

delivered_example :
    fetch_rest true
      (reads_of (codes "cde" ∷ []))
      (codes "copy")
      9
      (Response.to_string (answer 5 (codes "ab")))
      world
    ≡ ok (
      note (closed 9) world,
      some (record { file = some (codes "copy", codes "abcde"); status = success }),
    )
delivered_example =
    fetch_rest-delivers (codes "ab") (codes "cde" ∷ []) (codes "copy") 9 world (omega arith)
      (omega arith) (λ e. cc, tt)

abbrev unread : Listener
unread = record listener { local_files = [] }

listed_file : get_elem? (read_local_file_conf files unread).0.local_files 0 ≡ some read_file
unfolding read_local_file_conf read_files file_line file_entry cut_at file_exists readlines getlines
    is_empty trim ltrim rtrim isspace split split_by_deli2 blanked words get_file_size
listed_file = refl

offered_example :
    (content : Bytes) × IsOffered files
      (record { listener = (read_local_file_conf files unread).0; trace = [] })
      (request_for 0 (codes "a.mp3"))
      content
offered_example = read_local_file_conf-IsOffered files unread [] 0 read_file refl listed_file

abbrev minus_one : ℕ
minus_one = 0xFFFFFFFF

minus_one_example : (pick_result [] minus_one ≡ undefined) ↔ (minus_one ≡ 0xFFFFFFFF)
minus_one_example = pick_result-undefined [] minus_one (omega arith) (omega arith)

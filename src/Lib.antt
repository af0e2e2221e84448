-- ===== src/Lib.antt =====
-- A verification library for the peer-to-peer file sharing demo, a node of a Gnutella 0.4 network.
--
-- The program has three parts. Packet.cpp turns the messages Ping, Pong, Query and QueryHits into
-- bytes and back. Listener.cpp is the node: it keeps the table of its peers and the records of the
-- messages it has seen, answers and forwards what peers send, and starts pings, searches and
-- connections by itself, by timers and on commands; it serves its shared files to who asks, and
-- fetches those that a search found. G04.cpp is the command line around it, which reads the
-- configuration and runs the node in a second thread. Util.cpp has helpers for all three.
--
-- Which file models which part:
--   Prelude         lists, Boolean tests, and sorted association lists for `std::map`
--   Outcome         what code that may throw or be undefined gives: `ok`, `throw`, `undefined`
--   Wire            the integers of Packet.cpp (`short2string`, `string2short`, `int2string`,
--                   `string2uint`) and reads of a `std::string`
--   Packet          a module per class of Packet.cpp; `to_string` and `parse_string` are `toString`
--                   and `parseString`, `update_payload` and `parse_payload` the virtual functions,
--                   which the record PacketClass holds
--   Util            `toHex`, `rand_lim`, `toUpper`, `startsWith`, trimming and splitting, `writen`,
--                   `readed`, `readlines`, `file_exists`, `host2ip` and `itoaddress` of Util.cpp, and
--                   what `atoi`, `sprintf` and `sscanf` do for the code
--   Listener/State  the structs of Listener.h and conf.h, the state of a node, and the system
--   Listener/Peers      `connect_peer`, `handle_new_peer`, `erasePeer` and the limit of peers
--   Listener/History    `isStaleMessage`, `saveMsgHist`, `isMyPing`, `isMyQuery`, `cleanHist`
--   Listener/Search     `FileInfo::match`, `query`, `save_and_display_query_result`
--   Listener/Routing    `handle_ping`, `handle_pong`, `handle_Query`, `handle_QueryHits`
--   Listener/Receive    `read_one_packet`, `handle_peer_msg`, `handle_peer_select`
--   Listener/Node       the invariant of a node, and what keeps it
--   Listener/Network    nodes that are joined: the texts that one writes are those that the next one
--                   handles
--   Listener/Commands   `ping_peers`, `query_peers`, `com_search`, `com_connect`, the timer tasks
--   Listener/Config     `readLocalFileConf`, `readLocalSeedConf`
--   Listener/Download   Request and Response for `DownloadRequest` and `DownloadResponse`, Serve for
--                       `handle_file_download_request`, Fetch for `com_get`
--   Listener/Listing    the `toString` functions of Listener.cpp, `com_peers`, `com_qrs`, `com_dump`
--   Listener/Loop       `startlisten`; Start for `initialize`, Reach for the states that a node can
--                       come to
--   G04             `readConf`, the commands, completion, and the loop of `run`; Session for the whole
--                   program, from `startListner` to the end of both threads
--   Tests           runs on small inputs
--
-- A function of the source that changes the node is a function from World to World, or to World
-- and its result. A World is the state of the Listener and the trace of the calls made to the
-- system, newest first. The answers of the system (sockets, time, random numbers) are the record
-- Net, whose fields may depend on the whole trace; nothing is assumed of them but where a theorem
-- says so. Where the source has a handler that calls another, so has the model.
--
-- Bounds: bytes are numbers, and a theorem asks for numbers below 256 where that matters. Fields of
-- `unsigned char`, `unsigned short` and `unsigned int` wrap where the source assigns a wider value.
-- An `int` is its bit pattern below 2 ^ 32. The machine is little-endian and has 64 bits. Loops are
-- recursions on the list or the text that they walk along, with four exceptions that run on fuel:
-- the digits of a number (`decimal`, one more than the number, which every division by ten lowers,
-- and `print_hex`, eight, as many as 32 bits have),
-- the parts of a file (`chunks`, one more than its length, of which every part takes 4096), and the
-- calls of `command_generator` (one more than there are names). What a loop waits for - the lines
-- that are typed, the answers of `select`, `read` and `write` - is a list of answers.
--
-- A text that `sscanf` writes past its array is `overflow`; one that `sprintf` writes past its array
-- of a line, an access outside a list and an argument that is not there are `undefined`; theorems
-- say where these can and cannot happen.
--
-- A run of the program is a list of turns: a line that is typed, or a round of the loop of
-- `startlisten`, in any order. A turn is taken as a whole; what two threads do to the node in the
-- same moment, which no lock of the source keeps apart, is left out.
--
-- Not modelled: the calls that create, join and signal threads, the body of the thread of a
-- download, which reads memory that it has freed, the memory that `read_once` takes for a length,
-- errors of `fread` and `fwrite`, all logs, and the showing of results as they come in. A set of
-- descriptors is a list of any numbers, so what `FD_SET` does with a descriptor of 1024 or more, which
-- is outside its array, is left out.
pub mod Prelude
pub mod Outcome
pub mod Wire
pub mod Packet
pub mod Util
pub mod Listener
pub mod G04
mod Tests

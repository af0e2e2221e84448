-- ===== src/Packet/Safety.antt =====
-- The payload parsers of the four messages never leave their string, and throw only what the
-- handlers catch.
use p2p_demo.Prelude.{
  ℕ, zero, suc, ◌+◌, ◌-◌, ◌<◌, ◌≤◌, ◌^◌, ◌≡◌, refl, false, ◌||◌, length, take, drop, ltb, arith,
  not-ltb→le, or→not_first, or→not_second, ◌==◌, length-drop, length-take,
}
use mathlib.Core.Bool.{not}
use p2p_demo.Outcome.{
  ok, throw, runtime_error, IsHandled, IsHandled-bind, Ensures, Ensures-if, Ensures-bind,
}
use p2p_demo.Wire.{Bytes, u32}
use p2p_demo.Wire.CString.{c_string, is_empty, length-c_string}
use p2p_demo.Wire.Laws.{byte_at_inside, string2short_inside, string2uint_inside, substr_inside}
use p2p_demo.Packet.OptData.{OptData, IsWhole, to_string-IsWhole}
use p2p_demo.Packet.OptData
use p2p_demo.Packet.Header.Safety.{IsSafe}
use p2p_demo.Packet.Ping.{Ping, ping_class}
use p2p_demo.Packet.Pong.{Pong, pong_class}
use p2p_demo.Packet.Pong
use p2p_demo.Packet.Query.{Query, query_class}
use p2p_demo.Packet.Query
use p2p_demo.Packet.QueryResult.{QueryResult}
use p2p_demo.Packet.QueryResult
use p2p_demo.Packet.QueryHits.{QueryHits, hits_class}
use p2p_demo.Packet.QueryHits

pub Ping-IsSafe : IsSafe Ping ping_class
Ping-IsSafe a w = refl

pub Pong-IsSafe : IsSafe Pong pong_class
unfolding Pong.parse_payload
Pong-IsSafe a w =
    let str = OptData.to_string a.packet.payload in
    Ensures-if (λ (b : Pong). b.packet.payload ≡ a.packet.payload) (ltb (length str) 14) _ _
      (λ _. tt)
      λ long.
        let h : 14 ≤ length str = not-ltb→le _ _ long in
        let (port, e1) = string2short_inside 0 str (omega arith) in
        let (ip, e2) = string2uint_inside 2 str (omega arith) in
        let (files, e3) = string2uint_inside 6 str (omega arith) in
        let (size, e4) = string2uint_inside 10 str (omega arith) in
        rw (e1, e2, e3, e4, substr_inside 14 str h) refl

pub Query-IsSafe : IsSafe Query query_class
unfolding Query.parse_payload
Query-IsSafe a w =
    let str = OptData.to_string a.packet.payload in
    let criteria = c_string (drop 2 str) in
    let idx = u32 (2 + length criteria + 1) in
    Ensures-if (λ (b : Query). b.packet.payload ≡ a.packet.payload) (ltb (length str) 4) _ _
      (λ _. tt)
      λ long.
        let h : 4 ≤ length str = not-ltb→le _ _ long in
        let (speed, e1) = string2short_inside 0 str (omega arith) in
        rw e1 (
          Ensures-if (λ (b : Query). b.packet.payload ≡ a.packet.payload)
            (ltb (length str) idx || is_empty criteria) _ _ (λ _. tt)
            λ inside. rw (substr_inside idx str (not-ltb→le _ _ (or→not_first _ _ inside))) refl)

-- The optional data with their NUL end inside the string.
parse_optstr-Ensures :
    (str : Bytes) (idx : ℕ)
    → length str + 16 < 2 ^ 32
    → idx ≤ length str
    → Ensures (λ s. idx + length s + 1 ≤ length str) (QueryResult.parse_optstr str idx)
unfolding QueryResult.parse_optstr
parse_optstr-Ensures str idx fits h =
    let optstr = c_string (drop idx str) in
    let end = u32 (idx + length optstr) in
    let ends : (length optstr ≤ length str - idx) × (end ≡ idx + length optstr) =
      omega (arith, length-c_string (drop idx str), length-drop idx str) in
    Ensures-if _ (ltb (length str) (u32 (end + 1))) _ _ (λ _. tt)
      λ inside.
        let (last, e) = byte_at_inside end str (omega (arith, ends)) in
        let within : idx + length optstr + 1 ≤ length str =
          omega (arith, ends, not-ltb→le _ _ inside) in
        rw e (
          Ensures-if (λ (s : Bytes). idx + length s + 1 ≤ length str) (not (last == 0))
            (throw runtime_error) (ok optstr) (λ _. tt) (λ _. within))

-- One result is parsed or refused, and a parsed one ends inside the string.
pub parse_string-Ensures :
    (r : QueryResult) (str : Bytes)
    → length str + 16 < 2 ^ 32
    → Ensures (λ q. QueryResult.length q ≤ length str) (QueryResult.parse_string r str)
unfolding QueryResult.parse_string QueryResult.length OptData.parse_string
parse_string-Ensures r str fits =
    let name = c_string (drop 8 str) in
    let idx = u32 (8 + length name + 1) in
    Ensures-if _ (ltb (length str) 11) _ _ (λ _. tt)
      λ long.
        let h : 11 ≤ length str = not-ltb→le _ _ long in
        let (index, e1) = string2uint_inside 0 str (omega arith) in
        let (size, e2) = string2uint_inside 4 str (omega arith) in
        let ends : idx ≡ 9 + length name =
          omega (arith, length-c_string (drop 8 str), length-drop 8 str) in
        let before : ((is_empty name || ltb (length str) (u32 (idx + 1))) ≡ false
            → idx ≤ length str) =
          λ inside. omega (
            arith,
            ends,
            length-c_string (drop 8 str),
            length-drop 8 str,
            not-ltb→le (length str) (u32 (idx + 1)) (or→not_second (is_empty name) _ inside),
          ) in
        rw (e1, e2)
          (Ensures-if _ (is_empty name || ltb (length str) (u32 (idx + 1))) _ _ (λ _. tt)
            λ inside.
              Ensures-bind (λ s. idx + length s + 1 ≤ length str) _
                (QueryResult.parse_optstr str idx) _
                (parse_optstr-Ensures str idx fits (before inside))
                λ s _ within. omega (arith, ends, within))

parse_results-IsHandled :
    (n : ℕ) (str : Bytes) → length str + 16 < 2 ^ 32 → IsHandled (QueryHits.parse_results n str)
unfolding QueryHits.parse_results
parse_results-IsHandled zero str fits = tt
parse_results-IsHandled (suc n) str fits =
    Ensures-bind (λ q. QueryResult.length q ≤ length str) (λ _. Unit {0}) _ _
      (parse_string-Ensures _ str fits)
      λ q _ within. rw (substr_inside _ str within) (
        IsHandled-bind (QueryHits.parse_results n (drop (QueryResult.length q) str)) _
          (parse_results-IsHandled n _
            (omega (arith, fits, length-drop (QueryResult.length q) str)))
          (λ _ _. tt))

pub QueryHits-IsSafe : IsSafe QueryHits hits_class
unfolding QueryHits.parse_payload
QueryHits-IsSafe a w =
    let str = OptData.to_string a.packet.payload in
    let fits : length str < 2 ^ 32 =
      rw (to_string-IsWhole a.packet.payload w) (omega (arith, w.fits)) in
    Ensures-if (λ (b : QueryHits). b.packet.payload ≡ a.packet.payload) (ltb (length str) 27) _ _
      (λ _. tt)
      λ long.
        let h : 27 ≤ length str = not-ltb→le _ _ long in
        let inner : length (take (length str - 16) str) ≡ length str - 16 =
          omega (arith, length-take (length str - 16) str) in
        let (hits, e1) = byte_at_inside 0 str (omega arith) in
        let (port, e2) = string2short_inside 1 str (omega arith) in
        let (ip, e3) = string2uint_inside 3 str (omega arith) in
        let (speed, e4) = string2uint_inside 7 str (omega arith) in
        rw (e1, e2, e3, e4, substr_inside 11 (take (length str - 16) str) (omega (arith, inner)))
          (Ensures-bind (λ _. Unit {0}) (λ (b : QueryHits). b.packet.payload ≡ a.packet.payload)
            (QueryHits.parse_results hits (drop 11 (take (length str - 16) str))) _
            (parse_results-IsHandled hits _
              (omega (arith, fits, inner, length-drop 11 (take (length str - 16) str))))
            (λ _ _ _. refl))

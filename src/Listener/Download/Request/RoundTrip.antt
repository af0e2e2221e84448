-- ===== src/Listener/Download/Request/RoundTrip.antt =====
-- A request that is written is read again.
use p2p_demo.Prelude.{
  ℕ, ◌+◌, ◌<◌, ◌^◌, ◌≡◌, ◌≢◌, refl, ap, sym, ◌∙◌, true, false, List, [], ◌∷◌, ◌++◌, All, All-append,
  All-zip, ◌==◌, arith, append_assoc, append-nil, length, length-append, inl, inr, Bool-cases,
  if◌then◌else◌,
}
use p2p_demo.Wire.{Bytes}
use p2p_demo.Wire.CString.{codes, c_string, c_string_all, is_empty}
use p2p_demo.Util.Split.{isspace, ltrim, blanked}
use p2p_demo.Util.Split.Laws.{blanked-append}
use p2p_demo.Util.Decimal.{int_decimal}
use p2p_demo.Util.Decimal.Laws.{int_decimal-All, not_digit}
use p2p_demo.Util.Lines.{crlf_lines}
use p2p_demo.Util.Lines.Laws.{
  crlf_lines-line, NoReturn, InLine, IsGraphic, in_line, all-All, InLine-NoReturn, InLine-nonzero,
  IsGraphic-InLine, IsGraphic-no_space,
}
use p2p_demo.Util.Scan.{got, literal, word}
use p2p_demo.Util.Scan.Laws.{
  Fits, IsName, name-Fits, word-append, word-alone, word-space, integer-append,
}
use p2p_demo.Listener.Download.Request.{
  DownloadRequest, get_line, agent_line, to_string, parse_from_string, parse_lines, scan_get,
  scan_agent, without_slash, field, crlf, ends_blank,
}

pub record IsSendable (dr : DownloadRequest) : Type 0 where
  pub index : dr.fileindex < 2 ^ 32
  pub filename : IsGraphic dr.filename
  pub short : length dr.filename + 1 < 256
  pub version : IsName 32 dr.httpversion
  pub agent : IsName 256 dr.agentname
  pub agent_version : IsName 32 dr.agentversion
  pub no_slash : All (λ c. (c == b'/') ≡ false) dr.agentname
  pub no_slash_either : All (λ c. (c == b'/') ≡ false) dr.agentversion
  pub range : NoReturn dr.range
  pub connection : NoReturn dr.connection

without_slash-append : (s : Bytes) → without_slash (s ++ b'/' ∷ []) ≡ got s
unfolding without_slash
without_slash-append [] = refl
without_slash-append (b ∷ []) = refl
without_slash-append (b ∷ c ∷ s) = rw (without_slash-append (c ∷ s)) refl

append-ne : (s : Bytes) → (s ++ b'/' ∷ []) ≢ []
append-ne [] = λ e. cc
append-ne (b ∷ s) = λ e. cc

module _ (dr : DownloadRequest) (v : IsSendable dr) where
  scan_filename :
      (rest : Bytes)
      → word 256 (dr.filename ++ b'/' ∷ b' ' ∷ rest) ≡ got (dr.filename ++ b'/' ∷ [], b' ' ∷ rest)
  unfolding isspace
  scan_filename rest =
      let clean : IsGraphic (dr.filename ++ b'/' ∷ []) =
        All-append _ dr.filename (b'/' ∷ []) v.filename (omega arith, tt) in
      let fits : Fits 256 (dr.filename ++ b'/' ∷ []) = record {
        clean = (append-ne dr.filename, IsGraphic-no_space _ clean);
        short = omega (arith, v.short, length-append dr.filename (b'/' ∷ []));
      } in
      ap (word 256) (sym (append_assoc dr.filename (b'/' ∷ []) (b' ' ∷ rest)))
      ∙ word-append 256 (dr.filename ++ b'/' ∷ []) (b' ' ∷ rest) fits refl

  scan_get-get_line : scan_get (get_line dr) ≡ got (dr.fileindex, dr.filename, dr.httpversion)
  unfolding scan_get get_line literal ltrim isspace
  scan_get-get_line =
      rw
        (
          integer-append dr.fileindex (b'/' ∷ (dr.filename ++ (codes "/ HTTP/" ++ dr.httpversion)))
              v.index (not_digit b'/' (omega arith)),
          scan_filename (codes "HTTP/" ++ dr.httpversion),
          word-alone 32 dr.httpversion (name-Fits 32 dr.httpversion v.version),
          without_slash-append dr.filename,
        )
        refl

  blanked-agent :
      blanked b'/' (dr.agentname ++ b'/' ∷ dr.agentversion) ≡ dr.agentname ++ b' ' ∷ dr.agentversion
  unfolding blanked
  blanked-agent =
      blanked-append b'/' dr.agentname (b'/' ∷ dr.agentversion)
        (All-zip _ _ dr.agentname (IsGraphic-no_space dr.agentname v.agent.graphic) v.no_slash)
      ∙ ap (λ t. dr.agentname ++ b' ' ∷ t)
          (ap (blanked b'/') (sym (append-nil dr.agentversion))
            ∙ blanked-append b'/' dr.agentversion [] (
                All-zip _ _ dr.agentversion
                  (IsGraphic-no_space dr.agentversion v.agent_version.graphic) v.no_slash_either)
            ∙ append-nil dr.agentversion)

  scan_agent-agent_line :
      scan_agent (blanked b'/' (agent_line dr)) ≡ got (dr.agentname, dr.agentversion)
  unfolding scan_agent agent_line blanked literal isspace
  scan_agent-agent_line =
      rw
        (
          blanked-agent,
          word-space 256 (dr.agentname ++ b' ' ∷ dr.agentversion),
          word-append 256 dr.agentname (b' ' ∷ dr.agentversion) (name-Fits 256 dr.agentname v.agent)
              refl,
          word-space 32 dr.agentversion,
          word-alone 32 dr.agentversion (name-Fits 32 dr.agentversion v.agent_version),
        )
        refl

  get_line-InLine : InLine (get_line dr)
  unfolding get_line
  get_line-InLine = All-append _ (codes "GET /get/") _ (all-All in_line (codes "GET /get/") refl) (
      All-append _ (int_decimal dr.fileindex) _
        (int_decimal-All (λ c. in_line c ≡ true) dr.fileindex (λ d h. ground arith) refl)
        (
          refl,
          All-append _ dr.filename _ (IsGraphic-InLine _ v.filename) (
              All-append _ (codes "/ HTTP/") _ (all-All in_line (codes "/ HTTP/") refl)
                (IsGraphic-InLine _ v.version.graphic)),
        ))

  agent_line-InLine : InLine (agent_line dr)
  unfolding agent_line
  agent_line-InLine =
      All-append _ (codes "User-Agent: ") _ (all-All in_line (codes "User-Agent: ") refl) (
        All-append _ dr.agentname _ (IsGraphic-InLine _ v.agent.graphic)
          (refl, IsGraphic-InLine _ v.agent_version.graphic))

blanked-InLine : (deli : ℕ) (s : Bytes) → InLine s → InLine (blanked deli s)
unfolding blanked
blanked-InLine deli [] h = tt
blanked-InLine deli (b ∷ s) (hb, h) = elim (Bool-cases (b == deli)) [
  | inl same ↦ rw (blanked, same) (refl, blanked-InLine deli s h)
  | inr other ↦ rw (blanked, other) (hb, blanked-InLine deli s h)
]

-- The line that `field` makes, if any.
field_lines : Bytes → Bytes → List Bytes
field_lines name value = if is_empty value then [] else (name ++ value) ∷ []

crlf_lines-field :
    (name value rest : Bytes)
    → NoReturn name
    → NoReturn value
    → crlf_lines false [] (field name value ++ rest)
      ≡ field_lines name value ++ crlf_lines false [] rest
unfolding field field_lines
crlf_lines-field name value rest h k = elim (Bool-cases (is_empty value)) [
  | inl empty ↦ rw (field, field_lines, empty) refl
  | inr full ↦
      rw (field, field_lines, full)
        (ap (crlf_lines false []) (
            append_assoc name (value ++ crlf) rest
            ∙ ap (λ t. name ++ t) (append_assoc value crlf rest)
            ∙ sym (append_assoc name value (crlf ++ rest)))
          ∙ crlf_lines-line [] (name ++ value) rest (All-append _ name value h k))
]

ends_blank-append :
    (name value : Bytes) (ls : List Bytes)
    → ends_blank ls ≡ true
    → ends_blank (field_lines name value ++ ls) ≡ true
unfolding field_lines ends_blank
ends_blank-append name value [] h = absurd (cc h)
ends_blank-append name value (l ∷ ls) h = elim (Bool-cases (is_empty value)) [
  | inl empty ↦ rw (field_lines, empty) h
  | inr full ↦ rw (field_lines, full) h
]

module _ (dr : DownloadRequest) (v : IsSendable dr) where
  parse_lines-sent :
      (ls : List Bytes)
      → ends_blank ls ≡ true
      → parse_lines (get_line dr ∷ agent_line dr ∷ ls)
        ≡ got (record dr { range = []; connection = [] })
  unfolding parse_lines ends_blank
  parse_lines-sent [] h = absurd (cc h)
  parse_lines-sent (l ∷ ls) h =
      let get_whole : c_string (get_line dr) ≡ get_line dr =
        c_string_all _ (InLine-nonzero _ (get_line-InLine dr v)) in
      let agent_whole : c_string (blanked b'/' (agent_line dr)) ≡ blanked b'/' (agent_line dr) =
        c_string_all _ (InLine-nonzero _ (blanked-InLine b'/' _ (agent_line-InLine dr v))) in
      rw
        (parse_lines, h, get_whole, scan_get-get_line dr v, agent_whole, scan_agent-agent_line dr v)
        refl

  -- A request whose index is an `int`, whose HTTP version, agent name and agent version are not
  -- empty, and whose texts fit into their arrays - that of the file with the slash behind it - and
  -- hold no spaces, no control characters and, in the name and the version of the agent, no slash,
  -- with no carriage return in the range and the connection, is read again by `parseFromString`
  -- from what `toString` writes, but for the range and the connection, which come out empty.
  pub parse_from_string-to_string_request :
      parse_from_string (to_string dr) ≡ got (record dr { range = []; connection = [] })
  unfolding parse_from_string to_string crlf_lines is_empty ends_blank
  parse_from_string-to_string_request =
      let range = codes "Range: " in
      let connection = codes "Connection: " in
      let behind = field range dr.range ++ (field connection dr.connection ++ crlf) in
      let last_lines : crlf_lines false [] (field connection dr.connection ++ crlf)
          ≡ field_lines connection dr.connection ++ ([] ∷ []) =
        crlf_lines-field connection dr.connection crlf
          (InLine-NoReturn connection (all-All in_line connection refl)) v.connection in
      ap parse_lines (
        crlf_lines-line [] (get_line dr) (agent_line dr ++ (crlf ++ behind))
          (InLine-NoReturn _ (get_line-InLine dr v))
        ∙ ap (λ ls. get_line dr ∷ ls)
            (crlf_lines-line [] (agent_line dr) behind (InLine-NoReturn _ (agent_line-InLine dr v))
              ∙ ap (λ ls. agent_line dr ∷ ls)
                  (crlf_lines-field range dr.range (field connection dr.connection ++ crlf)
                      (InLine-NoReturn range (all-All in_line range refl)) v.range
                    ∙ ap (λ ls. field_lines range dr.range ++ ls) last_lines)))
      ∙ parse_lines-sent
          (field_lines range dr.range ++ (field_lines connection dr.connection ++ ([] ∷ [])))
          (ends_blank-append range dr.range _
            (ends_blank-append connection dr.connection ([] ∷ []) refl))

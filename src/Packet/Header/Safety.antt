-- ===== src/Packet/Header/Safety.antt =====
-- On which texts `Packet::parseString` stays inside them.
use p2p_demo.Prelude.{
  ℕ, ◌+◌, ◌<◌, ◌≤◌, ◌^◌, ◌≡◌, refl, length, take, ◌==◌, arith, le→not-ltb, ==→eq, length-drop,
  take_exact,
}
use p2p_demo.Outcome.{undefined, IsHandled, IsHandled-if, Ensures, Ensures-bind, Ensures-map}
use p2p_demo.Wire.{Bytes, u32}
use p2p_demo.Wire.Laws.{
  byte_at_inside, string2uint_inside, string2uint_outside, byte_at-bind_undefined,
}
use p2p_demo.Packet.OptData.{OptData, IsWhole}
use p2p_demo.Packet.OptData
use p2p_demo.Packet.Header.{PacketClass, parse_string, set_payload}

-- The message's own parser is safe on every whole payload, and leaves it as it is.
abbrev pub IsSafe : (A : Type 0) → PacketClass A → Type 0
IsSafe A c =
    (a : A)
    → IsWhole (c.base a).payload
    → Ensures (λ b. (c.base b).payload ≡ (c.base a).payload) (c.parse_payload a)

module _ {A : Type 0} ⦃c : PacketClass A⦄ (safe : IsSafe A c) where
  set_payload-Ensures :
      (a : A) (buf : Bytes) (len : ℕ)
      → length buf ≡ len
      → len < 2 ^ 32
      → Ensures (λ b. IsWhole (c.base b).payload) (set_payload a buf len)
  unfolding set_payload OptData.set_opt_data
  set_payload-Ensures a buf len h fits =
      let whole : IsWhole (record { optlen = len; optdata = take len buf }) =
        rw (take_exact len buf h) (omega arith) in
      let a' =
        c.set_base a
          (record (c.base a) { payload = OptData.set_opt_data (c.base a).payload buf len }) in
      let whole' : IsWhole (c.base a').payload = rw (c.base-set_base a _) whole in
      Ensures-map (c.parse_payload a') (safe a' whole') (λ b e. rw e whole')

  -- A text of 22 bytes or more is parsed or refused by a `runtime_error`, for every class whose
  -- `parsePayload` does the same on whole payloads.
  pub parse_string-IsHandled :
      (a : A) (str : Bytes) → 22 ≤ length str → IsHandled (parse_string a str)
  unfolding parse_string
  parse_string-IsHandled a str h =
      let (pd, e1) = byte_at_inside 16 str (omega arith) in
      let (ttl, e2) = byte_at_inside 17 str (omega arith) in
      let (hops, e3) = byte_at_inside 18 str (omega arith) in
      let (pl, e4) = string2uint_inside 19 str h in
      rw (le→not-ltb (length str) 16 (omega arith), e1, e2, e3, e4)
        (IsHandled-if (u32 pl == 0) _ _ (λ _. tt)
          λ _.
            IsHandled-if (length str == 23 + u32 pl) _ _
              (λ e.
                Ensures-bind (λ b. IsWhole (c.base b).payload) (λ _. Unit {0}) _ c.parse_payload
                  (set_payload-Ensures _ _ _ (omega (arith, length-drop 23 str, ==→eq _ _ e))
                    (omega arith))
                  (λ b _ w. Ensures-map (c.parse_payload b) (safe b w) (λ _ _. tt)))
              (λ _. tt))

-- On a text of 16 to 21 bytes the behaviour of `parseString` is undefined, for every class: the
-- guard compares with the size of an id, and the length field is read past the end of the text.
pub parse_string_short :
    {A : Type 0} ⦃c : PacketClass A⦄ (a : A) (str : Bytes)
    → 16 ≤ length str
    → length str < 22
    → parse_string a str ≡ undefined
unfolding parse_string
parse_string_short a str lo hi =
    rw (le→not-ltb (length str) 16 lo, string2uint_outside 19 str hi)
      (byte_at-bind_undefined str 16 _
        λ pd. byte_at-bind_undefined str 17 _ λ ttl. byte_at-bind_undefined str 18 _ λ hops. refl)

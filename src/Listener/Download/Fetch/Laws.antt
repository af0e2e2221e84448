-- ===== src/Listener/Download/Fetch/Laws.antt =====
-- Where `com_get` reads the result set, and the text that it sends.
use p2p_demo.Prelude.{
  ℕ, ◌+◌, ◌^◌, ◌<◌, ◌≤◌, ◌≡◌, ◌≢◌, ◌↔◌, refl, ap, sym, ◌∙◌, inl, inr, false, List, [], ◌∷◌, ◌++◌,
  none, some, ltb, arith, length, get_elem?, Bool-cases, append_assoc, zero, suc, lt→ltb,
  le→not-ltb, ltb→lt, not-ltb→le,
}
use p2p_demo.Outcome.{ok, undefined}
use p2p_demo.Wire.{Bytes}
use p2p_demo.Wire.CString.{codes, is_empty}
use p2p_demo.Util.Decimal.{int_decimal}
use p2p_demo.Listener.State.{QueryResultInfo}
use p2p_demo.Listener.Download.Request.{
  DownloadRequest, new_download_request, get_line, agent_line, field, crlf,
}
use p2p_demo.Listener.Download.Request
use p2p_demo.Listener.Download.Fetch.{index_after, pick_result, get_text}

abbrev pub request_for : ℕ → Bytes → DownloadRequest
request_for index name = record new_download_request { fileindex = index; filename = name }

-- The text that `com_get` puts together itself is the one that `DownloadRequest` would write.
pub get_text-to_string :
    (index : ℕ) (name : Bytes) → get_text index name ≡ Request.to_string (request_for index name)
unfolding get_text Request.to_string get_line agent_line field is_empty new_download_request
get_text-to_string index name =
    let version = codes "/ HTTP/1.0" in
    let behind = crlf ++ (codes "User-Agent: Gnutella/0.4" ++ (crlf ++ crlf)) in
    ap (λ t. codes "GET /get/" ++ t)
      (sym (
        append_assoc (int_decimal index) (b'/' ∷ (name ++ version)) behind
        ∙ ap (λ t. int_decimal index ++ b'/' ∷ t) (append_assoc name version behind)))

module _ {ℓ} {A : Type ℓ} where
  pub get_elem-inside : (xs : List A) (i : ℕ) → i < length xs → (x : A) × (get_elem? xs i ≡ some x)
  get_elem-inside [] i h = absurd (omega arith)
  get_elem-inside (x ∷ xs) zero h = (x, refl)
  get_elem-inside (x ∷ xs) (suc i) h = get_elem-inside xs i (omega arith)

  pub get_elem-outside : (xs : List A) (i : ℕ) → length xs ≤ i → get_elem? xs i ≡ none
  get_elem-outside [] i h = refl
  get_elem-outside (x ∷ xs) zero h = absurd (omega arith)
  get_elem-outside (x ∷ xs) (suc i) h = get_elem-outside xs i (omega arith)

index_after_pos : (idx : ℕ) → idx < 2 ^ 31 → index_after idx ≡ idx + 1
unfolding index_after
index_after_pos idx h = ground arith

index_after_neg : (idx : ℕ) → 2 ^ 31 ≤ idx → idx < 0xFFFFFFFF → 2 ^ 31 ≤ index_after idx
unfolding index_after
index_after_neg idx h k = ground arith

module _ (results : List QueryResultInfo) where
  pick_result-refused :
      (idx : ℕ) → length results < index_after idx → pick_result results idx ≡ ok none
  unfolding pick_result
  pick_result-refused idx h = rw (pick_result, lt→ltb _ _ h) refl

  pick_result-inside :
      (idx : ℕ)
      → index_after idx ≤ length results
      → idx < length results
      → (fi : QueryResultInfo) × (pick_result results idx ≡ ok (some fi))
  unfolding pick_result
  pick_result-inside idx h k =
      let (fi, e) = get_elem-inside results idx k in
      (fi, rw (pick_result, le→not-ltb _ _ h, e) refl)

  pick_result-pos : (idx : ℕ) → idx < 2 ^ 31 → pick_result results idx ≢ undefined
  pick_result-pos idx h = λ e. elim (Bool-cases (ltb (length results) (idx + 1))) [
    | inl beyond ↦
        let refused : length results < index_after idx =
          rw (index_after_pos idx h) (ltb→lt (length results) (idx + 1) beyond) in
        cc (pick_result-refused idx refused, e)
    | inr within ↦
        let inside : idx + 1 ≤ length results = not-ltb→le (length results) (idx + 1) within in
        let (fi, k) =
          pick_result-inside idx (rw (index_after_pos idx h) inside) (omega (arith, inside)) in
        cc (k, e)
  ]

  module _ (idx : ℕ) (b : idx < 2 ^ 32) (l : length results < 2 ^ 31) where
    pick_result-wrong : pick_result results idx ≡ undefined → idx ≡ 0xFFFFFFFF
    pick_result-wrong e = elim (Bool-cases (ltb idx (2 ^ 31))) [
      | inl pos ↦ absurd (pick_result-pos idx (ltb→lt idx (2 ^ 31) pos) e)
      | inr neg ↦ elim (Bool-cases (ltb idx 0xFFFFFFFF)) [
        | inl other ↦
            let high : 2 ^ 31 ≤ index_after idx =
              index_after_neg idx (not-ltb→le _ _ neg) (ltb→lt idx 0xFFFFFFFF other) in
            let refused : length results < index_after idx = omega (arith, l, high) in
            absurd (cc (pick_result-refused idx refused, e))
        | inr last ↦ ground (arith, last, b)
      ]
    ]

    wrong-pick_result : idx ≡ 0xFFFFFFFF → pick_result results idx ≡ undefined
    unfolding pick_result index_after
    wrong-pick_result e =
        let none_there : get_elem? results 0xFFFFFFFF ≡ none =
          get_elem-outside results 0xFFFFFFFF (omega (arith, l)) in
        let not_refused : ltb (length results) 0 ≡ false = le→not-ltb _ _ (omega arith) in
        rw (e, not_refused, none_there) refl

    -- The test of the index lets exactly one wrong index through: -1, for which `(size_t) idx + 1`
    -- is 0. For an `int` and a result set of less than 2 ^ 31 entries the set is read outside
    -- exactly for -1.
    pub pick_result-undefined : (pick_result results idx ≡ undefined) ↔ (idx ≡ 0xFFFFFFFF)
    pick_result-undefined = (pick_result-wrong, wrong-pick_result)

-- ===== src/Packet/QueryResult/RoundTrip.antt =====
-- A QueryResult written by `toString` and read by `parseString`, with anything behind it.
use p2p_demo.Prelude.{
  ℕ, ◌+◌, ◌<◌, ◌≤◌, ◌^◌, ◌≡◌, ◌≢◌, refl, sym, ap, ◌∙◌, false, List, [], ◌∷◌, ◌++◌, drop, All, ltb,
  arith, le→not-ltb, length-append, drop-append, append_assoc,
}
use p2p_demo.Prelude
use p2p_demo.Outcome.{ok}
use p2p_demo.Wire.{Bytes, u32, sign_extend, int2string, string2uint, byte_at}
use p2p_demo.Wire.CString.{c_string, IsNonzero, c_string-append, is_empty-ne, length-ne_nil}
use p2p_demo.Wire.Laws.{int_bytes, byte_at_behind, u32-sign_extend}
use p2p_demo.Packet.OptData.{IsWhole, to_string-IsWhole, parse_string_whole}
use p2p_demo.Packet.QueryResult.{QueryResult, to_string, parse_string, parse_optstr, length}

-- A name that is not empty, no NUL in it nor in the optional data, and lengths that fit.
pub record IsResult (r : QueryResult) : Type 0 where
  pub index_fits : r.file_index < 2 ^ 32
  pub size_fits : r.file_size < 2 ^ 32
  pub some_name : r.file_name ≢ []
  pub no_nul : All IsNonzero r.file_name
  pub whole : IsWhole r.optdata
  pub opt_no_nul : All IsNonzero r.optdata.optdata

abbrev pub size : QueryResult → ℕ
size r = 10 + Prelude.length r.file_name + Prelude.length r.optdata.optdata

u32_small : (n : ℕ) → n < 2 ^ 32 → u32 n ≡ n
u32_small n h = omega arith

module _ (r : QueryResult) (v : IsResult r) where
  text :
      (rest : Bytes)
      → to_string r ++ rest
        ≡ int2string r.file_index
          ++ int2string r.file_size
          ++ r.file_name
          ++ 0 ∷ (r.optdata.optdata ++ 0 ∷ rest)
  unfolding to_string int2string
  text rest = rw (to_string-IsWhole r.optdata v.whole) (simp append_assoc)

  pub length-to_string : Prelude.length (to_string r) ≡ size r
  unfolding to_string int2string
  length-to_string = rw (to_string-IsWhole r.optdata v.whole) (
      omega (
        arith,
        length-append r.file_name (0 ∷ (r.optdata.optdata ++ 0 ∷ [])),
        length-append r.optdata.optdata (0 ∷ []),
      ))

  module _ (rest : Bytes) (fits : size r + Prelude.length rest < 2 ^ 32) where
    length_text : Prelude.length (to_string r ++ rest) ≡ size r + Prelude.length rest
    length_text = omega (arith, length-append (to_string r) rest, length-to_string)

    read_index : string2uint (to_string r ++ rest) 0 ≡ ok (sign_extend r.file_index)
    unfolding string2uint byte_at int2string
    read_index = rw (text rest) (ap (λ n. ok (sign_extend n)) (int_bytes _ v.index_fits))

    read_size : string2uint (to_string r ++ rest) 4 ≡ ok (sign_extend r.file_size)
    unfolding string2uint byte_at int2string
    read_size = rw (text rest) (ap (λ n. ok (sign_extend n)) (int_bytes _ v.size_fits))

    read_name : c_string (drop 8 (to_string r ++ rest)) ≡ r.file_name
    unfolding int2string
    read_name =
        rw (text rest) (c_string-append r.file_name (r.optdata.optdata ++ 0 ∷ rest) v.no_nul)

    behind_name : u32 (8 + Prelude.length r.file_name + 1) ≡ 9 + Prelude.length r.file_name
    behind_name = omega (arith, fits)

    front : Bytes
    front = int2string r.file_index ++ int2string r.file_size ++ (r.file_name ++ 0 ∷ [])

    front_text : to_string r ++ rest ≡ front ++ (r.optdata.optdata ++ 0 ∷ rest)
    unfolding front
    front_text = text rest ∙ simp append_assoc

    length-front : Prelude.length front ≡ 9 + Prelude.length r.file_name
    unfolding front int2string
    length-front = omega (arith, length-append r.file_name (0 ∷ []))

    read_opt :
        c_string (drop (9 + Prelude.length r.file_name) (to_string r ++ rest)) ≡ r.optdata.optdata
    read_opt =
        rw
          (
            front_text,
            drop-append (9 + Prelude.length r.file_name) front (r.optdata.optdata ++ 0 ∷ rest)
                length-front,
          )
          (c_string-append r.optdata.optdata rest v.opt_no_nul)

    end :
        u32 (9 + Prelude.length r.file_name + Prelude.length r.optdata.optdata)
        ≡ 9 + Prelude.length r.file_name + Prelude.length r.optdata.optdata
    end = omega (arith, fits)

    read_last :
        byte_at
          (to_string r ++ rest)
          (9 + Prelude.length r.file_name + Prelude.length r.optdata.optdata)
        ≡ ok 0
    unfolding byte_at
    read_last =
        let whole : to_string r ++ rest ≡ (front ++ r.optdata.optdata) ++ 0 ∷ rest =
          front_text ∙ sym (append_assoc front r.optdata.optdata (0 ∷ rest)) in
        rw whole (
          byte_at_behind (9 + Prelude.length r.file_name + Prelude.length r.optdata.optdata)
            (front ++ r.optdata.optdata) (0 ∷ rest)
            (omega (arith, length-append front r.optdata.optdata, length-front)))

    read_optstr :
        parse_optstr (to_string r ++ rest) (9 + Prelude.length r.file_name) ≡ ok r.optdata.optdata
    unfolding parse_optstr
    read_optstr = rw (
      read_opt,
      end,
      u32_small (9 + Prelude.length r.file_name + Prelude.length r.optdata.optdata + 1)
          (omega (arith, fits)),
      le→not-ltb (Prelude.length (to_string r ++ rest))
          (9 + Prelude.length r.file_name + Prelude.length r.optdata.optdata + 1)
          (omega (arith, length_text)),
      read_last,
    )

    -- A result with a name that is not empty, no NUL in the name or the optional data, and lengths
    -- that fit is read back from its text, with any bytes behind it that keep the whole below 2 ^
    -- 32.
    pub parse_string-append : (a : QueryResult) → parse_string a (to_string r ++ rest) ≡ ok r
    unfolding parse_string
    parse_string-append a = rw (
      le→not-ltb (Prelude.length (to_string r ++ rest)) 11
          (omega (arith, length_text, length-ne_nil r.file_name v.some_name)),
      read_index,
      read_size,
      read_name,
      behind_name,
      is_empty-ne r.file_name v.some_name,
      u32_small (9 + Prelude.length r.file_name + 1) (omega (arith, fits)),
      le→not-ltb (Prelude.length (to_string r ++ rest)) (9 + Prelude.length r.file_name + 1)
          (omega (arith, length_text)),
      read_optstr,
      u32-sign_extend _ v.index_fits,
      u32-sign_extend _ v.size_fits,
      parse_string_whole r.optdata a.optdata v.whole,
    )

    -- `length` says where it ends.
    pub length-size : length r ≡ size r
    unfolding length
    length-size = omega (arith, v.whole.exact, fits)

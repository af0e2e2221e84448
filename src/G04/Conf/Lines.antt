-- ===== src/G04/Conf/Lines.antt =====
-- The lines of g04.conf that set a variable.
use p2p_demo.Prelude.{
  ◌≡◌, refl, ap, ◌∙◌, false, inl, inr, [], ◌∷◌, ◌++◌, All, ◌==◌, Bool-cases, Bool, ℕ, All-map,
}
use p2p_demo.Prelude.Maps.{insert}
use p2p_demo.Wire.{Bytes}
use p2p_demo.Wire.CString.{is_empty, is_empty-ne}
use p2p_demo.Util.Split.{isspace, trim, words, split, spaced, split_by_deli}
use p2p_demo.Util.Split.Laws.{IsSpace, IsWord, words-append, is_empty-nil}
use p2p_demo.Util.Split.Spaces.{
  words-spaces, words-break, words-trailing, spaced-skip, spaced-without, spaces-other,
  split_by_deli-trim,
}
use p2p_demo.Listener.State.{bytes_key}
use p2p_demo.G04.State.{Variables}
use p2p_demo.G04.Conf.{set_from, read_line}

-- A name and a value, with spaces before, between and behind.
pub record Assignment (name value : Bytes) : Type 0 where
  pub front : Bytes
  pub back : Bytes
  pub before_sign : Bytes
  pub behind_sign : Bytes
  pub name_ok : IsWord b'=' name
  pub value_ok : IsWord b'=' value
  pub spaces :
      All IsSpace front × All IsSpace before_sign × All IsSpace behind_sign × All IsSpace back

abbrev pub assignment_line : {name value : Bytes} → Assignment name value → Bytes
assignment_line {name} {value} a =
    a.front ++ (name ++ (a.before_sign ++ b'=' ∷ (a.behind_sign ++ (value ++ a.back))))

module _ (name value : Bytes) (a : Assignment name value) where
  no_sign : (w : Bytes) → IsWord b'=' w → All (λ c. (c == b'=') ≡ false) w
  no_sign w h = All-map _ _ w (λ c k. k.1) h.1

  spaced-assignment :
      spaced (λ c. c == b'=') (assignment_line a)
      ≡ a.front
        ++ (name ++ (a.before_sign ++ b' ' ∷ b'=' ∷ b' ' ∷ (a.behind_sign ++ (value ++ a.back))))
  unfolding spaced isspace
  spaced-assignment =
      let is_deli : ℕ → Bool = λ c. c == b'=' in
      let (fs, bs, hs, ks) = a.spaces in
      rw (
        spaced-skip is_deli a.front
            (name ++ (a.before_sign ++ b'=' ∷ (a.behind_sign ++ (value ++ a.back))))
            (spaces-other b'=' a.front refl fs),
        spaced-skip is_deli name (a.before_sign ++ b'=' ∷ (a.behind_sign ++ (value ++ a.back)))
            (no_sign name a.name_ok),
        spaced-skip is_deli a.before_sign (b'=' ∷ (a.behind_sign ++ (value ++ a.back)))
            (spaces-other b'=' a.before_sign refl bs),
        spaced-skip is_deli a.behind_sign (value ++ a.back)
            (spaces-other b'=' a.behind_sign refl hs),
        spaced-skip is_deli value a.back (no_sign value a.value_ok),
        spaced-without is_deli a.back (spaces-other b'=' a.back refl ks),
      )

  pub split-assignment : split_by_deli (assignment_line a) b'=' ≡ name ∷ (b'=' ∷ []) ∷ value ∷ []
  unfolding split_by_deli split words isspace is_empty
  split-assignment =
      let (fs, bs, hs, ks) = a.spaces in
      ap (words []) spaced-assignment
      ∙ words-spaces a.front _ fs
      ∙ words-append b'=' [] name _ a.name_ok.1
      ∙ words-break name a.before_sign _ (a.name_ok.0) bs
      ∙ ap (λ ws. name ∷ (b'=' ∷ []) ∷ ws)
          (words-spaces a.behind_sign _ hs
            ∙ words-append b'=' [] value a.back a.value_ok.1
            ∙ words-trailing value [] a.back ks
            ∙ rw (is_empty-ne value a.value_ok.0))

  words_of_trimmed : split_by_deli (trim (assignment_line a)) b'=' ≡ name ∷ (b'=' ∷ []) ∷ value ∷ []
  unfolding isspace
  words_of_trimmed = split_by_deli-trim b'=' (assignment_line a) refl ∙ split-assignment

  -- A line of a name, an equals sign and a value, where neither holds a space or an equals sign,
  -- sets the variable of that name to that value, whatever spaces stand around the three.
  pub read_line-assignment :
      (variables : Variables)
      → read_line variables (assignment_line a) ≡ insert name value variables
  unfolding read_line set_from split_by_deli split words spaced is_empty
  read_line-assignment variables = elim (Bool-cases (is_empty (trim (assignment_line a)))) [
    | inl empty ↦
        let nothing : split_by_deli (trim (assignment_line a)) b'=' ≡ [] =
          ap (λ s. split_by_deli s b'=') (is_empty-nil _ empty) in
        absurd (cc (nothing, words_of_trimmed))
    | inr full ↦ rw (full, words_of_trimmed)
  ]

-- ===== src/Util/Split/Spaces.antt =====
-- Spaces around and between the words of a text.
use p2p_demo.Prelude.{
  ℕ, ◌≡◌, ◌≢◌, refl, sym, ap, ◌∙◌, Bool, false, List, [], ◌∷◌, ◌++◌, All, ◌==◌, arith, inl, inr,
  Bool-cases, append_assoc, append-nil, All-append,
}
use p2p_demo.Wire.{Bytes}
use p2p_demo.Wire.CString.{is_empty, is_empty-ne, ne_empty}
use p2p_demo.Util.Split.{isspace, trim, words, split, spaced, split_by_deli}
use p2p_demo.Util.Split.Laws.{IsSpace, trim_sound}

pub words-spaces : (sp rest : Bytes) → All IsSpace sp → words [] (sp ++ rest) ≡ words [] rest
unfolding words is_empty
words-spaces [] rest h = refl
words-spaces (b ∷ sp) rest (hb, h) = rw (words, hb) (words-spaces sp rest h)

-- The word ends at the first space.
pub words-break :
    (word sp rest : Bytes)
    → word ≢ []
    → All IsSpace sp
    → words word (sp ++ b' ' ∷ rest) ≡ word ∷ words [] rest
unfolding words isspace is_empty
words-break word [] rest k h = rw (is_empty-ne word k)
words-break word (b ∷ sp) rest k (hb, h) =
    rw (words, hb, is_empty-ne word k) (ap (◌∷◌ word) (words-spaces sp (b' ' ∷ rest) h))

words-only_spaces : (word sp : Bytes) → All IsSpace sp → words word sp ≡ words word []
unfolding words is_empty
words-only_spaces word [] h = refl
words-only_spaces word (b ∷ sp) (hb, h) =
    let nothing : words [] sp ≡ [] = ap (words []) (sym (append-nil sp)) ∙ words-spaces sp [] h in
    rw (words, hb, nothing)

pub words-trailing : (word s sp : Bytes) → All IsSpace sp → words word (s ++ sp) ≡ words word s
unfolding words
words-trailing word [] sp h = words-only_spaces word sp h
words-trailing word (b ∷ s) sp h =
    rw (words-trailing [] s sp h, words-trailing (word ++ b ∷ []) s sp h)

module _ (is_deli : ℕ → Bool) where
  pub spaced-append : (s t : Bytes) → spaced is_deli (s ++ t) ≡ spaced is_deli s ++ spaced is_deli t
  unfolding spaced
  spaced-append [] t = refl
  spaced-append (b ∷ s) t = ground (arith, spaced-append s t)

  pub spaced-without : (s : Bytes) → All (λ c. is_deli c ≡ false) s → spaced is_deli s ≡ s
  unfolding spaced
  spaced-without [] h = refl
  spaced-without (b ∷ s) (hb, h) = rw (spaced, hb) (ap (◌∷◌ b) (spaced-without s h))

  pub spaced-skip :
      (s t : Bytes)
      → All (λ c. is_deli c ≡ false) s
      → spaced is_deli (s ++ t) ≡ s ++ spaced is_deli t
  spaced-skip s t h = spaced-append s t ∙ ap (λ u. u ++ spaced is_deli t) (spaced-without s h)

space-other : (deli : ℕ) → isspace deli ≡ false → (c : ℕ) → IsSpace c → (c == deli) ≡ false
space-other deli h c k = elim (Bool-cases (c == deli)) [
  | inl same ↦ absurd (ground (arith, same, h, k))
  | inr other ↦ other
]

pub spaces-other :
    (deli : ℕ) (sp : Bytes)
    → isspace deli ≡ false
    → All IsSpace sp
    → All (λ c. (c == deli) ≡ false) sp
spaces-other deli [] h k = tt
spaces-other deli (c ∷ sp) h (kc, k) = (space-other deli h c kc, spaces-other deli sp h k)

-- Trimming a text before `splitByDeli` changes nothing, where the delimiter is no space.
pub split_by_deli-trim :
    (deli : ℕ) (s : Bytes)
    → isspace deli ≡ false
    → split_by_deli (trim s) deli ≡ split_by_deli s deli
unfolding split_by_deli split
split_by_deli-trim deli s h =
    let is_deli : ℕ → Bool = λ c. c == deli in
    let (pre, post, spaces_pre, spaces_post, e, starts, ends) = trim_sound s in
    let end_without : spaced is_deli post ≡ post =
      spaced-without is_deli post (spaces-other deli post h spaces_post) in
    sym (
      ap (λ t. words [] (spaced is_deli t)) e
      ∙ ap (words []) (
          spaced-skip is_deli pre (trim s ++ post) (spaces-other deli pre h spaces_pre)
          ∙ rw (spaced-append is_deli (trim s) post, end_without))
      ∙ words-spaces pre _ spaces_pre
      ∙ words-trailing [] (spaced is_deli (trim s)) post spaces_post)

-- A word that has begun is the beginning of the first word.
pub words-first :
    (b : ℕ) (w s : Bytes) → (t : Bytes) × (ws : List Bytes) × (words (b ∷ w) s ≡ (b ∷ t) ∷ ws)
unfolding words is_empty
words-first b w [] = (w, [], refl)
words-first b w (c ∷ s) = elim (Bool-cases (isspace c)) [
  | inl space ↦ (w, words [] s, rw (words, space))
  | inr other ↦ let (t, ws, e) = words-first b (w ++ c ∷ []) s in (t, ws, rw (words, other, e))
]

-- So it is for a text that does not begin with a space.
pub words-spaced-first :
    (is_deli : ℕ → Bool) (b : ℕ) (s : Bytes)
    → isspace b ≡ false
    → (t : Bytes) × (ws : List Bytes) × (words [] (spaced is_deli (b ∷ s)) ≡ (b ∷ t) ∷ ws)
unfolding words spaced isspace is_empty
words-spaced-first is_deli b s h = elim (Bool-cases (is_deli b)) [
  | inl deli ↦
      let (t, ws, e) = words-first b [] (b' ' ∷ spaced is_deli s) in (t, ws, rw (deli, words, h) e)
  | inr other ↦
      let (t, ws, e) = words-first b [] (spaced is_deli s) in (t, ws, rw (other, words, h) e)
]

-- A word that `split` gives back.
abbrev pub IsClean : Bytes → Type 0
IsClean w = (w ≢ []) × All (λ c. isspace c ≡ false) w

pub words-IsClean :
    (word s : Bytes) → All (λ c. isspace c ≡ false) word → All IsClean (words word s)
unfolding words
words-IsClean word [] h = elim (Bool-cases (is_empty word)) [
  | inl empty ↦ rw (words, empty) tt
  | inr full ↦ rw (words, full) ((ne_empty word full, h), tt)
]
words-IsClean word (b ∷ s) h = elim (Bool-cases (isspace b)) [
  | inl space ↦ elim (Bool-cases (is_empty word)) [
    | inl empty ↦ rw (words, space, empty) (words-IsClean [] s tt)
    | inr full ↦ rw (words, space, full) ((ne_empty word full, h), words-IsClean [] s tt)
  ]
  | inr other ↦
      rw (words, other)
        (words-IsClean (word ++ b ∷ []) s (All-append _ word (b ∷ []) h (other, tt)))
]

words-longer :
    (word w : Bytes) → All (λ c. isspace c ≡ false) w → words word w ≡ words (word ++ w) []
unfolding words
words-longer word [] h = rw (append-nil word)
words-longer word (b ∷ w) (hb, h) =
    rw (words, hb)
      (words-longer (word ++ b ∷ []) w h ∙ ap (λ v. words v []) (append_assoc word (b ∷ []) w))

-- A word is the only word of itself.
pub words-alone : (w : Bytes) → IsClean w → words [] w ≡ w ∷ []
unfolding words
words-alone w (h, k) = words-longer [] w k ∙ rw (is_empty-ne w h)

-- ===== src/Util/Split/Laws.antt =====
-- What trimming and splitting leave of a text.
use p2p_demo.Prelude.{
  ℕ, ◌≡◌, ◌≢◌, refl, sym, ap, ◌∙◌, true, false, ◌&&◌, List, [], ◌∷◌, ◌++◌, All, ◌==◌, arith, inl,
  inr, Bool-cases, append_assoc,
}
use p2p_demo.Wire.{Bytes}
use p2p_demo.Wire.CString.{is_empty, is_empty-ne}
use p2p_demo.Util.Split.{isspace, ltrim, rtrim, trim, words, split, blanked, split_by_deli2}

abbrev pub IsSpace : ℕ → Type 0
IsSpace c = isspace c ≡ true

-- A word that `split` gives back, of which no character is the delimiter.
abbrev pub IsWord : ℕ → Bytes → Type 0
IsWord deli w = (w ≢ []) × All (λ c. (isspace c ≡ false) × ((c == deli) ≡ false)) w

-- The words with the delimiter between them.
abbrev pub join : ℕ → List Bytes → Bytes
join deli [] = []
join deli (w ∷ []) = w
join deli (w ∷ v ∷ ws) = w ++ deli ∷ join deli (v ∷ ws)

append_nil : (s : Bytes) → s ++ [] ≡ s
append_nil [] = refl
append_nil (b ∷ s) = ap (◌∷◌ b) (append_nil s)

is_empty-append : (w : Bytes) (b : ℕ) (s : Bytes) → is_empty (w ++ b ∷ s) ≡ false
unfolding is_empty
is_empty-append [] b s = refl
is_empty-append (c ∷ w) b s = refl

module _ (deli : ℕ) where
  pub words-append :
      (word w rest : Bytes)
      → All (λ c. (isspace c ≡ false) × ((c == deli) ≡ false)) w
      → words word (w ++ rest) ≡ words (word ++ w) rest
  unfolding words
  words-append word [] rest h = rw (append_nil word)
  words-append word (b ∷ w) rest ((hb, _), h) =
      rw (words, hb)
        (words-append (word ++ b ∷ []) w rest h
          ∙ ap (λ v. words v rest) (append_assoc word (b ∷ []) w))

  words-join : (ws : List Bytes) → All (IsWord deli) ws → words [] (join b' ' ws) ≡ ws
  unfolding words isspace is_empty
  words-join [] h = refl
  words-join (w ∷ []) (h, _) =
      ap (words []) (sym (append_nil w)) ∙ words-append [] w [] h.1 ∙ rw (is_empty-ne w h.0)
  words-join (w ∷ v ∷ ws) (h, hs) =
      words-append [] w (b' ' ∷ join b' ' (v ∷ ws)) h.1
      ∙ rw (is_empty-ne w h.0, words-join (v ∷ ws) hs)

  pub blanked-append :
      (w rest : Bytes)
      → All (λ c. (isspace c ≡ false) × ((c == deli) ≡ false)) w
      → blanked deli (w ++ rest) ≡ w ++ blanked deli rest
  unfolding blanked
  blanked-append [] rest h = refl
  blanked-append (b ∷ w) rest ((_, hb), h) = rw (blanked, hb) (ap (◌∷◌ b) (blanked-append w rest h))

  blanked-join :
      (ws : List Bytes) → All (IsWord deli) ws → blanked deli (join deli ws) ≡ join b' ' ws
  unfolding blanked
  blanked-join [] h = refl
  blanked-join (w ∷ []) (h, _) =
      ap (blanked deli) (sym (append_nil w)) ∙ blanked-append w [] h.1 ∙ append_nil w
  blanked-join (w ∷ v ∷ ws) (h, hs) =
      blanked-append w (deli ∷ join deli (v ∷ ws)) h.1
      ∙ ap (λ t. w ++ t) (ground (arith, blanked-join (v ∷ ws) hs))

  -- Words that are not empty and hold neither a space nor the delimiter, joined by the delimiter,
  -- are what `splitByDeli2` gives back.
  pub split_by_deli2-join :
      (ws : List Bytes) → All (IsWord deli) ws → split_by_deli2 (join deli ws) deli ≡ ws
  unfolding split_by_deli2 split
  split_by_deli2-join ws h = rw (blanked-join ws h) (words-join ws h)

ltrim_sound : (s : Bytes) → (pre : Bytes) × All IsSpace pre × (s ≡ pre ++ ltrim s)
unfolding ltrim
ltrim_sound [] = ([], tt, refl)
ltrim_sound (b ∷ s) = elim (Bool-cases (isspace b)) [
  | inl space ↦
      let (pre, h, e) = ltrim_sound s in (b ∷ pre, (space, h), rw (ltrim, space) (ap (◌∷◌ b) e))
  | inr other ↦ ([], tt, rw (ltrim, other))
]

pub is_empty-nil : (s : Bytes) → is_empty s ≡ true → s ≡ []
unfolding is_empty
is_empty-nil [] h = refl
is_empty-nil (b ∷ s) h = cc

rtrim_sound : (s : Bytes) → (post : Bytes) × All IsSpace post × (s ≡ rtrim s ++ post)
unfolding rtrim
rtrim_sound [] = ([], tt, refl)
rtrim_sound (b ∷ s) =
    let (post, h, e) = rtrim_sound s in
    elim (Bool-cases (isspace b && is_empty (rtrim s))) [
      | inl gone ↦
          let nil : rtrim s ≡ [] = is_empty-nil (rtrim s) (ground (arith, gone)) in
          (b ∷ post, (ground (arith, gone), h), rw (rtrim, gone) (ap (◌∷◌ b) (e ∙ rw nil)))
      | inr stays ↦ (post, h, rw (rtrim, stays) (ap (◌∷◌ b) e))
    ]

-- No space stands at the front.
abbrev pub StartsClean : Bytes → Type 0
StartsClean [] = Unit {0}
StartsClean (b ∷ s) = isspace b ≡ false

-- No space stands at the end.
abbrev pub EndsClean : Bytes → Type 0
EndsClean [] = Unit {0}
EndsClean (b ∷ []) = isspace b ≡ false
EndsClean (b ∷ c ∷ s) = EndsClean (c ∷ s)

ltrim-StartsClean : (s : Bytes) → StartsClean (ltrim s)
unfolding ltrim
ltrim-StartsClean [] = tt
ltrim-StartsClean (b ∷ s) = elim (Bool-cases (isspace b)) [
  | inl space ↦ rw (ltrim, space) (ltrim-StartsClean s)
  | inr other ↦ rw (ltrim, other) other
]

ltrim-EndsClean : (s : Bytes) → EndsClean s → EndsClean (ltrim s)
unfolding ltrim
ltrim-EndsClean [] h = tt
ltrim-EndsClean (b ∷ []) h = rw (ltrim, h) h
ltrim-EndsClean (b ∷ c ∷ s) h = elim (Bool-cases (isspace b)) [
  | inl space ↦ rw (ltrim, space) (ltrim-EndsClean (c ∷ s) h)
  | inr other ↦ rw (ltrim, other) h
]

cons-EndsClean :
    (b : ℕ) (t : Bytes) → EndsClean t → (isspace b && is_empty t) ≡ false → EndsClean (b ∷ t)
unfolding is_empty
cons-EndsClean b [] h e = ground (arith, e)
cons-EndsClean b (c ∷ t) h e = h

rtrim-EndsClean : (s : Bytes) → EndsClean (rtrim s)
unfolding rtrim
rtrim-EndsClean [] = tt
rtrim-EndsClean (b ∷ s) = elim (Bool-cases (isspace b && is_empty (rtrim s))) [
  | inl gone ↦ rw (rtrim, gone) tt
  | inr stays ↦ rw (rtrim, stays) (cons-EndsClean b (rtrim s) (rtrim-EndsClean s) stays)
]

-- `trim` removes only spaces, at the front and at the end, and leaves none at either end.
pub trim_sound :
    (s : Bytes)
    → (pre : Bytes) × (post : Bytes) × All IsSpace pre
      × All IsSpace post
      × (s ≡ pre ++ (trim s ++ post))
      × StartsClean (trim s)
      × EndsClean (trim s)
unfolding trim
trim_sound s =
    let (post, h, e) = rtrim_sound s in
    let (pre, k, d) = ltrim_sound (rtrim s) in
    (
      pre,
      post,
      k,
      h,
      e ∙ ap (λ t. t ++ post) d ∙ append_assoc pre (ltrim (rtrim s)) post,
      ltrim-StartsClean (rtrim s),
      ltrim-EndsClean (rtrim s) (rtrim-EndsClean s),
    )

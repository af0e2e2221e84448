-- ===== src/G04/Completion.antt =====
-- `command_generator`: the completion of a command's name, one match for each call.
use p2p_demo.Prelude.{
  ℕ, zero, suc, ◌+◌, ◌≡◌, ◌<◌, ◌⊎◌, refl, ap, ◌∙◌, inl, inr, List, [], ◌∷◌, Option, none, some,
  ◌==◌, if◌then◌else◌, arith, Bool-cases, length, drop,
}
use p2p_demo.Wire.{Bytes}
use p2p_demo.Util.Text.{starts_with}
use p2p_demo.G04.Commands.{command_names}

-- The loop over the names from `list_index` on: the match, and the index it leaves.
unfoldable pub next_match : Bytes → List Bytes → ℕ → Option Bytes × ℕ
next_match text [] list_index = (none, list_index + 1)
next_match text (name ∷ names) list_index =
    let more = next_match text names (list_index + 1) in
    if starts_with name text then (some name, list_index + 1) else more

-- The last argument is the static `list_index` that the last call left.
unfoldable pub command_generator : Bytes → ℕ → ℕ → Option Bytes × ℕ
command_generator text state list_index =
    let start = if state == 0 then 0 else list_index in
    next_match text (drop start command_names) start

-- The calls that complete a text: with 0, and then with 1 until there is no match.
unfoldable pub completions_from : ℕ → Bytes → ℕ → ℕ → List Bytes
completions_from zero text state list_index = []
completions_from (suc fuel) text state list_index =
    let (match, next) = command_generator text state list_index in
    let rest = completions_from fuel text 1 next in
    elim match [ none ↦ [] | some name ↦ name ∷ rest ]

-- One call for each name, and one that finds no match.
unfoldable pub completions : Bytes → List Bytes
completions text = completions_from (length command_names + 1) text 0 0

-- The names that begin with the text.
unfoldable pub matching : Bytes → List Bytes → List Bytes
matching text [] = []
matching text (name ∷ names) =
    let rest = matching text names in if starts_with name text then name ∷ rest else rest

drop_next :
    (i : ℕ) (all : List Bytes) (x : Bytes) (xs : List Bytes)
    → drop i all ≡ x ∷ xs
    → drop (i + 1) all ≡ xs
drop_next zero [] x xs e = absurd (cc e)
drop_next zero (y ∷ ys) x xs e = cc
drop_next (suc i) [] x xs e = absurd (cc e)
drop_next (suc i) (y ∷ ys) x xs e =
    let one_more : suc i + 1 ≡ suc (i + 1) = omega arith in rw one_more (drop_next i ys x xs e)

-- What a call gives of the names that stand from `i` on in `all`.
record Found (text : Bytes) (all names : List Bytes) (i : ℕ) : Type 0 where
  name : Bytes
  next : ℕ
  call : next_match text names i ≡ (some name, next)
  first : matching text names ≡ name ∷ matching text (drop next all)
  shorter : length (drop next all) < length names

next_match-matching :
    (text : Bytes) (all names : List Bytes) (i : ℕ)
    → drop i all ≡ names
    → (((next_match text names i).0 ≡ none) × (matching text names ≡ [])) ⊎ Found text all names i
unfolding next_match matching
next_match-matching text all [] i h = inl (refl, refl)
next_match-matching text all (name ∷ names) i h = elim (Bool-cases (starts_with name text)) [
  | inl match ↦ inr (record {
    name = name;
    next = i + 1;
    call = rw match refl;
    first = rw (match, drop_next i all name names h) refl;
    shorter = rw (drop_next i all name names h) (omega arith);
  })
  | inr other ↦ elim (next_match-matching text all names (i + 1) (drop_next i all name names h)) [
    | inl (nothing, none_left) ↦ inl (rw other nothing, rw other none_left)
    | inr found ↦ inr (record {
      name = found.name;
      next = found.next;
      call = rw other found.call;
      first = rw other found.first;
      shorter = omega (arith, found.shorter);
    })
  ]
]

generator-next :
    (text : Bytes) (state i : ℕ)
    → (if state == 0 then 0 else i) ≡ i
    → command_generator text state i ≡ next_match text (drop i command_names) i
unfolding command_generator
generator-next text state i h = ap (λ start. next_match text (drop start command_names) start) h

completions_from-matching :
    (fuel : ℕ) (text : Bytes) (state i : ℕ)
    → (if state == 0 then 0 else i) ≡ i
    → length (drop i command_names) < fuel
    → completions_from fuel text state i ≡ matching text (drop i command_names)
unfolding completions_from
completions_from-matching zero text state i s h = absurd (omega arith)
completions_from-matching (suc fuel) text state i s h =
    elim (next_match-matching text command_names (drop i command_names) i refl) [
      | inl (nothing, none_left) ↦
          rw (completions_from, generator-next text state i s, nothing, none_left) refl
      | inr found ↦
          let c : command_generator text state i ≡ (some found.name, found.next) =
            generator-next text state i s ∙ found.call in
          rw (completions_from, c, c, found.first)
            (ap (λ rest. found.name ∷ rest)
              (completions_from-matching fuel text 1 found.next refl
                (omega (arith, found.shorter))))
    ]

-- The calls of `command_generator` that complete a text, as many as there are names and one more,
-- end with no match and have given the names that begin with the text, all of them and in their
-- order.
completions-matching : (text : Bytes) → completions text ≡ matching text command_names
unfolding completions
completions-matching text =
    completions_from-matching (length command_names + 1) text 0 0 refl (omega arith)

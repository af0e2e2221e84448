-- ===== src/Util/Read/Laws.antt =====
-- `readed`: where it stops, and what it has then.
use p2p_demo.Prelude.{
  ℕ, ◌≡◌, refl, sym, ap, ◌∙◌, ◌<◌, ◌≤◌, List, [], ◌∷◌, ◌++◌, All, ltb, length, inl, inr, Bool-cases,
  append_assoc, append-nil, ltb→lt, not-ltb→le,
}
use p2p_demo.Wire.{Bytes}
use p2p_demo.Util.Read.{
  maxline, ReadAnswer, bytes, interrupted, failed, ReadResult, count, error, waiting, readed_on,
  readed,
}

-- The bytes that some answers hold, in their order.
abbrev pub texts : List ReadAnswer → Bytes
texts [] = []
texts (bytes s ∷ more) = s ++ texts more
texts (interrupted ∷ more) = texts more
texts (failed ∷ more) = texts more

-- An answer that `readed` reads on behind: a signal, or as much as was asked for.
abbrev pub IsPassed : ReadAnswer → Type 0
IsPassed (bytes s) = maxline ≤ length s
IsPassed interrupted = Unit {0}
IsPassed failed = ⊥

-- What the buffer and the result are, by the first answer that is not passed: a short part is the
-- last one, the end of the stream counts as 0 whatever was read, and an error as -1.
pub data IsReadOf (buf : Bytes) (answers : List ReadAnswer) : Bytes × ReadResult → Type 0 where
  short :
      {r : Bytes × ReadResult} (front back : List ReadAnswer) (b : ℕ) (s : Bytes)
      → answers ≡ front ++ bytes (b ∷ s) ∷ back
      → All IsPassed front
      → length (b ∷ s) < maxline
      → r.0 ≡ buf ++ (texts front ++ b ∷ s)
      → r.1 ≡ count (length r.0)
      → IsReadOf buf answers r
  ended :
      {r : Bytes × ReadResult} (front back : List ReadAnswer)
      → answers ≡ front ++ bytes [] ∷ back
      → All IsPassed front
      → r ≡ (buf ++ texts front, count 0)
      → IsReadOf buf answers r
  broken :
      {r : Bytes × ReadResult} (front back : List ReadAnswer)
      → answers ≡ front ++ failed ∷ back
      → All IsPassed front
      → r ≡ (buf ++ texts front, error)
      → IsReadOf buf answers r
  waits :
      {r : Bytes × ReadResult}
      → All IsPassed answers
      → r ≡ (buf ++ texts answers, waiting)
      → IsReadOf buf answers r

-- An answer that is passed takes what it holds from the answers to the buffer.
behind :
    (buf filled : Bytes) (a : ReadAnswer) (answers : List ReadAnswer) {r : Bytes × ReadResult}
    → ((more : List ReadAnswer) → buf ++ texts (a ∷ more) ≡ filled ++ texts more)
    → IsPassed a
    → IsReadOf filled answers r
    → IsReadOf buf (a ∷ answers) r
behind buf filled a answers e p (short front back b s at ps h e₀ e₁) =
    short (a ∷ front) back b s (ap (◌∷◌ a) at) (p, ps) h
      (e₀
        ∙ sym (append_assoc filled (texts front) (b ∷ s))
        ∙ ap (λ t. t ++ b ∷ s) (sym (e front))
        ∙ append_assoc buf (texts (a ∷ front)) (b ∷ s))
      e₁
behind buf filled a answers e p (ended front back at ps er) =
    ended (a ∷ front) back (ap (◌∷◌ a) at) (p, ps) (er ∙ ap (λ t. (t, count 0)) (sym (e front)))
behind buf filled a answers e p (broken front back at ps er) =
    broken (a ∷ front) back (ap (◌∷◌ a) at) (p, ps) (er ∙ ap (λ t. (t, error)) (sym (e front)))
behind buf filled a answers e p (waits ps er) =
    waits (p, ps) (er ∙ ap (λ t. (t, waiting)) (sym (e answers)))

readed_on-IsReadOf :
    (buf : Bytes) (answers : List ReadAnswer) → IsReadOf buf answers (readed_on buf answers)
unfolding readed_on
readed_on-IsReadOf buf [] = waits tt (rw (append-nil buf) refl)
readed_on-IsReadOf buf (interrupted ∷ more) =
    behind buf buf interrupted more (λ t. refl) tt (readed_on-IsReadOf buf more)
readed_on-IsReadOf buf (failed ∷ more) = broken [] more refl tt (rw (append-nil buf) refl)
readed_on-IsReadOf buf (bytes [] ∷ more) = ended [] more refl tt (rw (append-nil buf) refl)
readed_on-IsReadOf buf (bytes (b ∷ s) ∷ more) = elim (Bool-cases (ltb (length (b ∷ s)) maxline)) [
  | inl h ↦ short [] more b s refl tt (ltb→lt (length (b ∷ s)) maxline h) (rw h refl) (rw h refl)
  | inr h ↦ rw h (
      behind buf (buf ++ b ∷ s) (bytes (b ∷ s)) more (λ t. sym (append_assoc buf (b ∷ s) (texts t)))
        (not-ltb→le (length (b ∷ s)) maxline h) (readed_on-IsReadOf (buf ++ b ∷ s) more))
]

-- Whatever `read` answers, `readed` passes signals and reads of at least `MAXLINE` bytes, and the
-- first other answer ends it, with the bytes of the answers up to there in its buffer: a shorter
-- part with the length of the buffer, the end of the stream with 0 and an error with -1.
readed-IsReadOf : (answers : List ReadAnswer) → IsReadOf [] answers (readed answers)
unfolding readed
readed-IsReadOf answers = readed_on-IsReadOf [] answers

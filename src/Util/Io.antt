-- ===== src/Util/Io.antt =====
-- `writen`: the loop around `write`.
use p2p_demo.Prelude.{
  ℕ, zero, suc, ◌≡◌, refl, sym, ap, ◌⊎◌, inl, inr, List, [], ◌∷◌, ◌++◌, take, drop, arith,
  take-append-drop, append_assoc,
}
use p2p_demo.Wire.{Bytes}

-- What one `write` answers: a count of bytes, a signal (`EINTR`), or another error.
pub data Answer : Type 0 where
  wrote : ℕ → Answer
  interrupted : Answer
  failed : Answer

-- What `writen` answers: all was written, an error, or it still waits for an answer of `write`.
pub data Written : Type 0 where
  all : Written
  error : Written
  waiting : Written

-- The loop, over the answers still to come. It gives the bytes that went out and the result. A
-- count of 0 is an error here, and a count above what was asked cannot come.
unfoldable pub writen : List Answer → Bytes → Bytes × Written
writen answers [] = ([], all)
writen [] (b ∷ bs) = ([], waiting)
writen (failed ∷ more) (b ∷ bs) = ([], error)
writen (interrupted ∷ more) (b ∷ bs) = writen more (b ∷ bs)
writen (wrote zero ∷ more) (b ∷ bs) = ([], error)
writen (wrote (suc k) ∷ more) (b ∷ bs) =
    let (out, result) = writen more (drop k bs) in (b ∷ (take k bs ++ out), result)

-- `writen` answers `all` exactly when every byte went out, and otherwise a part of the front did:
-- nothing is written twice, skipped or reordered, whatever `write` answers.
pub data IsWriteOf (buf : Bytes) : Bytes × Written → Type 0 where
  whole : {r : Bytes × Written} → r ≡ (buf, all) → IsWriteOf buf r
  part :
      {r : Bytes × Written} (b : ℕ) (rest : Bytes)
      → buf ≡ r.0 ++ b ∷ rest
      → (r.1 ≡ error) ⊎ (r.1 ≡ waiting)
      → IsWriteOf buf r

after_write :
    (k b : ℕ) (bs : Bytes) {r : Bytes × Written}
    → IsWriteOf (drop k bs) r
    → IsWriteOf (b ∷ bs) (b ∷ (take k bs ++ r.0), r.1)
after_write k b bs (whole e) = whole (ground (arith, e, take-append-drop k bs))
after_write k b bs (part {r = r} c rest e why) =
    part c rest (ap (◌∷◌ b) (rw append_assoc (rw (← e) (sym (take-append-drop k bs))))) why

-- Whatever `write` answers, `writen` reports success exactly where every byte of the buffer went
-- out, and otherwise a front part that lacks at least one byte went out: nothing is written twice,
-- skipped or reordered.
pub writen-IsWriteOf : (answers : List Answer) (buf : Bytes) → IsWriteOf buf (writen answers buf)
unfolding writen
writen-IsWriteOf answers [] = whole refl
writen-IsWriteOf [] (b ∷ bs) = part b bs refl (inr refl)
writen-IsWriteOf (failed ∷ more) (b ∷ bs) = part b bs refl (inl refl)
writen-IsWriteOf (interrupted ∷ more) (b ∷ bs) = writen-IsWriteOf more (b ∷ bs)
writen-IsWriteOf (wrote zero ∷ more) (b ∷ bs) = part b bs refl (inl refl)
writen-IsWriteOf (wrote (suc k) ∷ more) (b ∷ bs) =
    after_write k b bs (writen-IsWriteOf more (drop k bs))

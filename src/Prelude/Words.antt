-- ===== src/Prelude/Words.antt =====
-- Go strings as lists of their code points: equality, and lists of them.
use sumpnet.Prelude.{ℕ, ◌≡◌, refl, Bool, true, false, ◌&&◌, List, [], ◌∷◌, ◌==◌, arith}

unfoldable pub word_eq : List ℕ → List ℕ → Bool
word_eq [] [] = true
word_eq [] (d ∷ ds) = false
word_eq (c ∷ cs) [] = false
word_eq (c ∷ cs) (d ∷ ds) = let rest = word_eq cs ds in c == d && rest

pub word_eq_refl : (w : List ℕ) → word_eq w w ≡ true
unfolding word_eq
word_eq_refl [] = refl
word_eq_refl (c ∷ cs) = ground (arith, word_eq_refl cs)

pub eq_of_word_eq : (v w : List ℕ) → word_eq v w ≡ true → v ≡ w
unfolding word_eq
eq_of_word_eq [] [] h = refl
eq_of_word_eq [] (d ∷ ds) h = cc
eq_of_word_eq (c ∷ cs) [] h = cc
eq_of_word_eq (c ∷ cs) (d ∷ ds) h = ground (arith, eq_of_word_eq cs ds)

-- ===== src/Text/Split.antt =====
-- A text that is split at the characters of a class.
use aocr.Prelude.{ℕ, ◌≡◌, refl, Bool, true, false, [], ◌∷◌, ◌++◌, arith, ◌==◌, All, All-imp}
use aocr.Text.{Str, split_on}
use aocr.Text.Laws.{Lacks}

split_on-part :
    (p : ℕ → Bool) (s t : Str) (c : ℕ)
    → All (λ d. p d ≡ false) s
    → p c ≡ true
    → split_on p (s ++ (c ∷ t)) ≡ s ∷ split_on p t
unfolding split_on
split_on-part p [] t c h e = rw e refl
split_on-part p (d ∷ s) t c (n, h) e = rw (n, split_on-part p s t c h e) refl

-- The first part is what stands before the first separator.
pub split_on-append :
    (c : ℕ) (s t : Str)
    → Lacks c s
    → split_on (λ d. d == c) (s ++ (c ∷ t)) ≡ s ∷ split_on (λ d. d == c) t
split_on-append c s t h =
    split_on-part (λ d. d == c) s t c (All-imp (λ d n. ground (arith, n)) s h) (ground arith)

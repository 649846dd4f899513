-- ===== src/Hooks/Reaper/Like.antt =====
-- SQL's LIKE, with the backslash for escapes.
use aocr.Prelude.{ℕ, Bool, true, false, ◌||◌, ◌&&◌, [], ◌∷◌, ◌==◌, if◌then◌else◌}
use aocr.Text.{Str, is_empty}

pub data Token : Type 0 where
  many single escape plain : Token

unfoldable pub token : ℕ → Token
token c =
    if c == b'%' then many else if c == b'_' then single else if c == b'\\' then escape else plain

abbrev pub any_tail : (Str → Bool) → Str → Bool
any_tail f [] = f []
any_tail f (c ∷ s) = f (c ∷ s) || any_tail f s

abbrev pub on_tail : (Str → Bool) → Str → Bool
on_tail f [] = false
on_tail f (c ∷ s) = f s

abbrev pub on_char : ℕ → (Str → Bool) → Str → Bool
on_char q f [] = false
on_char q f (c ∷ s) = (c == q) && f s

-- `text LIKE pattern`, the pattern first; no pattern of the program ends with an open escape.
unfoldable pub like : Str → Str → Bool
unfolding token
like [] s = is_empty s
like (q ∷ []) s = elim (token q) [
  | many ↦ true
  | single ↦ on_tail is_empty s
  | escape ↦ false
  | plain ↦ on_char q is_empty s
]
like (q ∷ r ∷ p) s = elim (token q) [
  | many ↦ any_tail (like (r ∷ p)) s
  | single ↦ on_tail (like (r ∷ p)) s
  | escape ↦ on_char r (like p) s
  | plain ↦ on_char q (like (r ∷ p)) s
]

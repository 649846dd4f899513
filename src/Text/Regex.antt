-- ===== src/Text/Regex.antt =====
-- Regular expressions, matched on the whole text by derivatives: `^...$` of the source.
use aocr.Prelude.{
  ℕ, zero, suc, Bool, true, false, ◌&&◌, ◌||◌, [], ◌∷◌, ◌++◌, ◌≡◌, refl, ◌⊎◌, inl, inr, arith,
  if◌then◌else◌, All, All-append, ap, sym, subst, Bool-cases,
}
use aocr.Text.{Str, is_empty}

pub data Regex : Type 0 where
  nothing empty : Regex
  char : (ℕ → Bool) → Regex
  seq alt : Regex → Regex → Regex
  star : Regex → Regex

-- r+, r{0,n}, r{1,n+1}
abbrev pub plus : Regex → Regex
plus r = seq r (star r)

abbrev pub opt : Regex → Regex
opt r = alt empty r

unfoldable pub up_to : ℕ → Regex → Regex
up_to zero r = empty
up_to (suc n) r = alt empty (seq r (up_to n r))

-- The texts that an expression describes.
pub data Matches : Regex → Str → Type 0 where
  m_empty : Matches empty []
  m_char : {p : ℕ → Bool} (c : ℕ) → p c ≡ true → Matches (char p) (c ∷ [])
  m_seq :
      {r s : Regex} (x y : Str) {z : Str}
      → x ++ y ≡ z
      → Matches r x
      → Matches s y
      → Matches (seq r s) z
  m_left : {r s : Regex} {x : Str} → Matches r x → Matches (alt r s) x
  m_right : {r s : Regex} {x : Str} → Matches s x → Matches (alt r s) x
  m_stop : {r : Regex} → Matches (star r) []
  m_more :
      {r : Regex} (x y : Str) {z : Str}
      → x ++ y ≡ z
      → Matches r x
      → Matches (star r) y
      → Matches (star r) z

nullable : Regex → Bool
nullable nothing = false
nullable empty = true
nullable (char p) = false
nullable (seq r s) = nullable r && nullable s
nullable (alt r s) = nullable r || nullable s
nullable (star r) = true

deriv : ℕ → Regex → Regex
unfolding nullable
deriv c nothing = nothing
deriv c empty = nothing
deriv c (char p) = if p c then empty else nothing
deriv c (seq r s) =
    let first = seq (deriv c r) s in
    let second = deriv c s in if nullable r then alt first second else first
deriv c (alt r s) = alt (deriv c r) (deriv c s)
deriv c (star r) = seq (deriv c r) (star r)

unfoldable pub test : Regex → Str → Bool
unfolding nullable deriv
test r [] = nullable r
test r (c ∷ s) = test (deriv c r) s

nullable_sound : (r : Regex) → nullable r ≡ true → Matches r []
unfolding nullable
nullable_sound nothing h = cc
nullable_sound empty h = m_empty
nullable_sound (char p) h = cc
nullable_sound (seq r s) h =
    m_seq [] [] refl (nullable_sound r (ground arith)) (nullable_sound s (ground arith))
nullable_sound (alt r s) h = elim (Bool-cases (nullable r)) [
  | inl e ↦ m_left (nullable_sound r e)
  | inr e ↦ m_right (nullable_sound s (ground arith))
]
nullable_sound (star r) h = m_stop

seq_parts :
    {r s : Regex} {z : Str}
    → Matches (seq r s) z
    → (x : Str) × (y : Str) × (x ++ y ≡ z) × Matches r x × Matches s y
seq_parts (m_seq x y e m n) = (x, y, e, m, n)

alt_parts : {r s : Regex} {z : Str} → Matches (alt r s) z → Matches r z ⊎ Matches s z
alt_parts (m_left m) = inl m
alt_parts (m_right m) = inr m

nothing_absurd : {z : Str} → Matches nothing z → ⊥
nothing_absurd m = elim m [ ]

empty_parts : {z : Str} → Matches empty z → z ≡ []
empty_parts m_empty = refl

seq_first :
    (c : ℕ) (r s : Regex) (z : Str)
    → ((x : Str) → Matches (deriv c r) x → Matches r (c ∷ x))
    → Matches (seq (deriv c r) s) z
    → Matches (seq r s) (c ∷ z)
seq_first c r s z lift m =
    let (x, y, e, k, n) = seq_parts m in m_seq (c ∷ x) y (ap (λ t. c ∷ t) e) (lift x k) n

deriv_sound : (c : ℕ) (r : Regex) (s : Str) → Matches (deriv c r) s → Matches r (c ∷ s)
unfolding deriv
deriv_sound c nothing z h = absurd (nothing_absurd h)
deriv_sound c empty z h = absurd (nothing_absurd h)
deriv_sound c (char p) z h = elim (Bool-cases (p c)) [
  | inl e ↦ let m : Matches empty z = rw e at h in rw (empty_parts m) (m_char c e)
  | inr e ↦ absurd (nothing_absurd (rw e at h))
]
deriv_sound c (seq r s) z h = elim (Bool-cases (nullable r)) [
  | inl e ↦ elim (alt_parts (rw e at h)) [
    | inl m ↦ seq_first c r s z (deriv_sound c r) m
    | inr n ↦ m_seq [] (c ∷ z) refl (nullable_sound r e) (deriv_sound c s z n)
  ]
  | inr e ↦ seq_first c r s z (deriv_sound c r) (rw e at h)
]
deriv_sound c (alt r s) z h = elim (alt_parts h) [
  | inl m ↦ m_left (deriv_sound c r z m)
  | inr m ↦ m_right (deriv_sound c s z m)
]
deriv_sound c (star r) z h =
    let (x, y, e, m, n) = seq_parts h in
    m_more (c ∷ x) y (ap (λ t. c ∷ t) e) (deriv_sound c r x m) n

pub test_sound : (r : Regex) (s : Str) → test r s ≡ true → Matches r s
unfolding test
test_sound r [] h = nullable_sound r h
test_sound r (c ∷ s) h = deriv_sound c r s (test_sound (deriv c r) s h)

-- Every character of a class of the expression has the property.
abbrev Chars : (ℕ → Type 0) → Regex → Type 0
Chars P nothing = Unit
Chars P empty = Unit
Chars P (char p) = (c : ℕ) → p c ≡ true → P c
Chars P (seq r s) = Chars P r × Chars P s
Chars P (alt r s) = Chars P r × Chars P s
Chars P (star r) = Chars P r

module _ (P : ℕ → Type 0) where
  pub Matches-All : {r : Regex} {s : Str} → Matches r s → Chars P r → All P s
  Matches-All m_empty h = tt
  Matches-All (m_char c e) h = (h c e, tt)
  Matches-All (m_seq x y e m n) h =
      subst (All P) e (All-append P x y (Matches-All m h.0) (Matches-All n h.1))
  Matches-All (m_left m) h = Matches-All m h.0
  Matches-All (m_right m) h = Matches-All m h.1
  Matches-All m_stop h = tt
  Matches-All (m_more x y e m n) h =
      subst (All P) e (All-append P x y (Matches-All m h) (Matches-All n h))

pub Chars-up_to : (P : ℕ → Type 0) (n : ℕ) (r : Regex) → Chars P r → Chars P (up_to n r)
unfolding up_to
Chars-up_to P zero r h = tt
Chars-up_to P (suc n) r h = (tt, (h, Chars-up_to P n r h))

-- What an expression that begins with a character describes is not empty.
pub Matches-head :
    {p : ℕ → Bool} {r : Regex} {s : Str} → Matches (seq (char p) r) s → is_empty s ≡ false
Matches-head m = let (x, y, e, k, n) = seq_parts m in ends x y e k
  where
    ends :
        {p : ℕ → Bool} {s : Str} (x y : Str) → x ++ y ≡ s → Matches (char p) x → is_empty s ≡ false
    ends x y e (m_char c h) = ap is_empty (sym e)

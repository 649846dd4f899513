-- ===== src/Text/Laws.antt =====
-- Laws of the string methods.
use aocr.Prelude.{
  ℕ, zero, suc, ◌<◌, ◌≡◌, refl, ap, subst, ◌≢◌, ◌↔◌, inl, inr, true, false, ◌||◌, List, [], ◌∷◌,
  ◌++◌, none, some, arith, Bool-cases, All, length, take, drop,
}
use aocr.Text.{Str, str_eq, contains, index_of, last_index_of, unique_from, unique}

pub str_eq_iff : (s t : Str) → (str_eq s t ≡ true) ↔ (s ≡ t)
unfolding str_eq
str_eq_iff [] [] = ground arith
str_eq_iff [] (b ∷ t) = ground arith
str_eq_iff (a ∷ s) [] = ground arith
str_eq_iff (a ∷ s) (b ∷ t) = ground (arith, str_eq_iff s t)

pub str_eq_refl : (s : Str) → str_eq s s ≡ true
str_eq_refl s = (str_eq_iff s s).1 refl

pub str_eq_comm : (s t : Str) → str_eq s t ≡ str_eq t s
unfolding str_eq
str_eq_comm [] [] = refl
str_eq_comm [] (b ∷ t) = refl
str_eq_comm (a ∷ s) [] = refl
str_eq_comm (a ∷ s) (b ∷ t) = ground (arith, str_eq_comm s t)

str_eq_ne : (s t : Str) → s ≢ t → str_eq s t ≡ false
str_eq_ne s t h = elim (Bool-cases (str_eq s t)) [
  | inl e ↦ absurd (h ((str_eq_iff s t).0 e))
  | inr e ↦ e
]

-- No character of `s` is `c`.
abbrev pub Lacks : ℕ → Str → Type 0
Lacks c s = All (λ d. d ≢ c) s

index_of-Lacks : (c : ℕ) (s : Str) → Lacks c s → index_of c s ≡ none
unfolding index_of
index_of-Lacks c [] h = refl
index_of-Lacks c (d ∷ s) h = ground (arith, index_of-Lacks c s)

last_index_of-Lacks : (c : ℕ) (s : Str) → Lacks c s → last_index_of c s ≡ none
unfolding last_index_of
last_index_of-Lacks c [] h = refl
last_index_of-Lacks c (d ∷ s) h = ground (arith, last_index_of-Lacks c s)

-- The first place of `c` is behind a part that lacks it.
pub index_of-append : (c : ℕ) (s t : Str) → Lacks c s → index_of c (s ++ c ∷ t) ≡ some (length s)
unfolding index_of
index_of-append c [] t h = ground arith
index_of-append c (d ∷ s) t h = ground (arith, index_of-append c s t)

pub last_index_of-append :
    (c : ℕ) (s t : Str) → Lacks c t → last_index_of c (s ++ c ∷ t) ≡ some (length s)
unfolding last_index_of
last_index_of-append c [] t h = ground (arith, last_index_of-Lacks c t)
last_index_of-append c (d ∷ s) t h = ground (arith, last_index_of-append c s t)

last_index_of-none : (c : ℕ) (s : Str) → last_index_of c s ≡ none → Lacks c s
unfolding last_index_of
last_index_of-none c [] h = tt
last_index_of-none c (d ∷ s) h =
    let rest : last_index_of c s ≡ none = ground arith in
    let here : d ≢ c = ground arith in (here, last_index_of-none c s rest)

pub index_of-none : (c : ℕ) (s : Str) → index_of c s ≡ none → Lacks c s
unfolding index_of
index_of-none c [] h = tt
index_of-none c (d ∷ s) h =
    let rest : index_of c s ≡ none = ground arith in
    let here : d ≢ c = ground arith in (here, index_of-none c s rest)

-- What an answer of `indexOf` says of its text.
pub index_of-some :
    (c : ℕ) (s : Str) (i : ℕ)
    → index_of c s ≡ some i
    → (s ≡ take i s ++ c ∷ drop (suc i) s) × Lacks c (take i s) × (i < length s)
unfolding index_of
index_of-some c [] i h = absurd (cc)
index_of-some c (d ∷ s) zero h = (ap (λ k. k ∷ s) (ground arith), tt, omega arith)
index_of-some c (d ∷ s) (suc i) h =
    let rest : index_of c s ≡ some i = ground arith in
    let here : d ≢ c = ground arith in
    let (parts, lacks, below) = index_of-some c s i rest in
    (ap (λ t. d ∷ t) parts, (here, lacks), omega arith)

pub last_index_of-some :
    (c : ℕ) (s : Str) (i : ℕ)
    → last_index_of c s ≡ some i
    → (s ≡ take i s ++ c ∷ drop (suc i) s) × Lacks c (drop (suc i) s) × (i < length s)
unfolding last_index_of
last_index_of-some c [] i h = absurd (cc)
last_index_of-some c (d ∷ s) zero h =
    (ap (λ k. k ∷ s) (ground arith), last_index_of-none c s (ground arith), omega arith)
last_index_of-some c (d ∷ s) (suc i) h =
    let rest : last_index_of c s ≡ some i = ground arith in
    let (parts, lacks, below) = last_index_of-some c s i rest in
    (ap (λ t. d ∷ t) parts, lacks, omega arith)

-- A first separator splits a text in one way.
pub separator_injective :
    (c : ℕ) (s t s' t' : Str)
    → Lacks c s
    → Lacks c s'
    → s ++ c ∷ t ≡ s' ++ c ∷ t'
    → (s ≡ s') × (t ≡ t')
separator_injective c [] t [] t' h h' e = (refl, ap (drop 1) e)
separator_injective c [] t (d ∷ s') t' h h' e = absurd (grind (arith, ap (take 1) e, h'.0))
separator_injective c (d ∷ s) t [] t' h h' e = absurd (grind (arith, ap (take 1) e, h.0))
separator_injective c (d ∷ s) t (d' ∷ s') t' (p, h) (p', h') e =
    let rest = separator_injective c s t s' t' h h' (ap (drop 1) e) in (cc (e, rest.0), rest.1)

-- Membership, as the source tests it.
pub contains-append :
    (xs ys : List Str) (s : Str) → contains (xs ++ ys) s ≡ (contains xs s || contains ys s)
unfolding contains
contains-append [] ys s = refl
contains-append (x ∷ xs) ys s = ground (arith, contains-append xs ys s)

pub contains_All :
    (P : Str → Type 0) (xs : List Str) (s : Str) → contains xs s ≡ true → All P xs → P s
unfolding contains
contains_All P [] s h k = absurd (cc)
contains_All P (x ∷ xs) s h (p, k) = elim (Bool-cases (str_eq x s)) [
  | inl e ↦ subst P ((str_eq_iff x s).0 e) p
  | inr e ↦ contains_All P xs s (ground arith) k
]

pub All-contains :
    (P : Str → Type 0) (xs : List Str) → ((s : Str) → contains xs s ≡ true → P s) → All P xs
unfolding contains
All-contains P [] f = tt
All-contains P (x ∷ xs) f =
    (f x (ground (arith, str_eq_refl x)), All-contains P xs (λ s h. f s (ground arith)))

-- Every text stands before no equal one.
abbrev pub IsUnique : List Str → Type 0
IsUnique [] = Unit
IsUnique (x ∷ xs) = (contains xs x ≡ false) × IsUnique xs

contains-unique_from :
    (seen xs : List Str) (s : Str)
    → (contains seen s || contains (unique_from seen xs) s) ≡ (contains seen s || contains xs s)
unfolding unique_from contains
contains-unique_from seen [] s = refl
contains-unique_from seen (x ∷ xs) s = elim (Bool-cases (contains seen x)) [
  | inl e ↦
      rw (e, unique_from) (ground (arith, contains-unique_from seen xs s, str_eq_iff x s, same e))
  | inr e ↦ rw (e, unique_from) (ground (arith, contains-unique_from (x ∷ seen) xs s))
]
  where
    same : contains seen x ≡ true → str_eq x s ≡ true → contains seen s ≡ true
    same e q = subst (λ t. contains seen t ≡ true) ((str_eq_iff x s).0 q) e

pub unique_from-old :
    (seen xs : List Str) (x : Str)
    → contains seen x ≡ true
    → unique_from seen (x ∷ xs) ≡ unique_from seen xs
unfolding unique_from
unique_from-old seen xs x e = rw (e, unique_from)

pub unique_from-new :
    (seen xs : List Str) (x : Str)
    → contains seen x ≡ false
    → unique_from seen (x ∷ xs) ≡ x ∷ unique_from (x ∷ seen) xs
unfolding unique_from
unique_from-new seen xs x e = rw (e, unique_from)

seen-ne :
    (seen : List Str) (x s : Str)
    → contains seen x ≡ false
    → contains seen s ≡ true
    → str_eq x s ≡ false
seen-ne seen x s e h = str_eq_ne x s (λ q. absurd (cc (e, h, ap (contains seen) q)))

unique_from-IsUnique :
    (seen xs : List Str)
    → IsUnique (unique_from seen xs)
      × ((s : Str) → contains seen s ≡ true → contains (unique_from seen xs) s ≡ false)
unfolding contains
unique_from-IsUnique seen [] = unfold unique_from in (tt, λ s h. refl)
unique_from-IsUnique seen (x ∷ xs) = elim (Bool-cases (contains seen x)) [
  | inl e ↦ rw (unique_from-old seen xs x e) (unique_from-IsUnique seen xs)
  | inr e ↦
      let (u, fresh) = unique_from-IsUnique (x ∷ seen) xs in
      rw (unique_from-new seen xs x e) (
        (fresh x (ground (arith, str_eq_refl x)), u),
        λ s h. ground (arith, fresh s (ground arith), seen-ne seen x s e h),
      )
]

-- Deduplication keeps the members, each once.
pub contains-unique : (xs : List Str) (s : Str) → contains (unique xs) s ≡ contains xs s
unfolding unique contains
contains-unique xs s = contains-unique_from [] xs s

unique-IsUnique : (xs : List Str) → IsUnique (unique xs)
unfolding unique
unique-IsUnique xs = (unique_from-IsUnique [] xs).0

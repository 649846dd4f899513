-- ===== src/Text/Prefix.antt =====
-- Prefixes, and paths under a namespace.
use aocr.Prelude.{
  ◌≡◌, refl, ◌∙◌, sym, ap, subst, ◌↔◌, ◌⊎◌, inl, inr, Bool, true, ◌||◌, [], ◌∷◌, ◌++◌, arith, ◌==◌,
  append_assoc, length, drop, Bool-cases, &&-split, ==_iff,
}
use aocr.Text.{Str, str_eq, starts_with}
use aocr.Text.Laws.{str_eq_iff, Lacks, separator_injective}

pub starts_with_some : (s p : Str) → starts_with s p ≡ true → s ≡ p ++ drop (length p) s
unfolding starts_with
starts_with_some s [] h = refl
starts_with_some [] (q ∷ p) h = absurd (cc)
starts_with_some (c ∷ s) (q ∷ p) h =
    let (e, r) = &&-split (c == q) (starts_with s p) h in
    cc ((==_iff c q).0 e, starts_with_some s p r)

pub starts_with-append : (p s : Str) → starts_with (p ++ s) p ≡ true
unfolding starts_with
starts_with-append [] [] = refl
starts_with-append [] (c ∷ s) = refl
starts_with-append (q ∷ p) s = ground (arith, starts_with-append p s)

-- The namespace itself, or a path below it.
abbrev pub InNamespace : Str → Str → Type 0
InNamespace ns name = (name ≡ ns) ⊎ ((rest : Str) × (name ≡ ns ++ (b'/' ∷ rest)))

-- `name === ns || name.startsWith(ns + '/')`
unfoldable pub in_namespace : Str → Str → Bool
unfolding str_eq starts_with
in_namespace ns name = str_eq name ns || starts_with name (ns ++ (b'/' ∷ []))

in_namespace_sound : (ns name : Str) → in_namespace ns name ≡ true → InNamespace ns name
unfolding in_namespace
in_namespace_sound ns name h = elim (Bool-cases (str_eq name ns)) [
  | inl e ↦ inl ((str_eq_iff name ns).0 e)
  | inr e ↦
      let p : starts_with name (ns ++ (b'/' ∷ [])) ≡ true = ground arith in
      inr (
        drop (length (ns ++ (b'/' ∷ []))) name,
        starts_with_some name (ns ++ (b'/' ∷ [])) p ∙ append_assoc ns (b'/' ∷ []) _,
      )
]

in_namespace_complete : (ns name : Str) → InNamespace ns name → in_namespace ns name ≡ true
unfolding in_namespace
in_namespace_complete ns name (inl e) = ground (arith, str_eq_iff name ns)
in_namespace_complete ns name (inr (rest, e)) =
    let whole : name ≡ (ns ++ (b'/' ∷ [])) ++ rest = e ∙ sym (append_assoc ns (b'/' ∷ []) rest) in
    let p : starts_with name (ns ++ (b'/' ∷ [])) ≡ true =
      subst (λ z. starts_with z (ns ++ (b'/' ∷ [])) ≡ true) (sym whole)
        (starts_with-append (ns ++ (b'/' ∷ [])) rest) in
    ground arith

pub in_namespace_iff : (ns name : Str) → (in_namespace ns name ≡ true) ↔ InNamespace ns name
in_namespace_iff ns name = (in_namespace_sound ns name, in_namespace_complete ns name)

append_cancel : (s t u : Str) → s ++ t ≡ s ++ u → t ≡ u
append_cancel [] t u e = e
append_cancel (c ∷ s) t u e = append_cancel s t u (ap (drop 1) e)

-- With a slash behind it, a name of the namespace starts with the namespace and a slash.
closed :
    (ns name : Str) → InNamespace ns name → (r : Str) × (name ++ (b'/' ∷ []) ≡ ns ++ (b'/' ∷ r))
closed ns name (inl e) = ([], ap (λ z. z ++ (b'/' ∷ [])) e)
closed ns name (inr (rest, e)) =
    (rest ++ (b'/' ∷ []), ap (λ z. z ++ (b'/' ∷ [])) e ∙ append_assoc ns (b'/' ∷ rest) (b'/' ∷ []))

-- A name stands in one namespace only, of those that end in labels without a slash.
pub InNamespace-apart :
    (base a b name : Str)
    → Lacks b'/' a
    → Lacks b'/' b
    → InNamespace (base ++ a) name
    → InNamespace (base ++ b) name
    → a ≡ b
InNamespace-apart base a b name ha hb p q =
    let (r, e) = closed (base ++ a) name p in
    let (r', e') = closed (base ++ b) name q in
    let same : base ++ (a ++ (b'/' ∷ r)) ≡ base ++ (b ++ (b'/' ∷ r')) =
      sym (append_assoc base a (b'/' ∷ r)) ∙ sym e ∙ e' ∙ append_assoc base b (b'/' ∷ r') in
    (separator_injective b'/' a r b r' ha hb (append_cancel base _ _ same)).0

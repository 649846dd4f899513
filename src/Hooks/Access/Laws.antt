-- ===== src/Hooks/Access/Laws.antt =====
-- Which callers the hooks service lets in.
use Prim.Native.Nat.{bit_or, bit_xor}
use aocr.Prelude.{
  ℕ, zero, suc, ◌≡◌, refl, sym, ap, ◌∙◌, subst, ◌↔◌, ◌⊎◌, inl, inr, true, false, ◌||◌, [], ◌∷◌,
  ◌++◌, Option, none, some, ◌==◌, ==_iff, arith, length, take, drop, Bool-cases, &&-split, or-split,
}
use aocr.Text.{Str, codes, str_eq, is_empty, index_of}
use aocr.Text.Bits.{bit_or_zero, bit_xor_zero}
use aocr.Text.Laws.{str_eq_iff, index_of-append, index_of-some}
use aocr.Hooks.Access.{diff_loop, constant_time_equals, is_scheme, presented_at, import_authorized}

diff_loop_zero :
    (diff : ℕ) (a b : Str) → length a ≡ length b → (diff_loop diff a b ≡ 0) ↔ ((diff ≡ 0) × (a ≡ b))
unfolding diff_loop
diff_loop_zero diff [] [] e = (λ h. (h, refl), λ h. h.0)
diff_loop_zero diff [] (y ∷ b) e = absurd (omega arith)
diff_loop_zero diff (x ∷ a) [] e = absurd (omega arith)
diff_loop_zero diff (x ∷ a) (y ∷ b) e =
    let rest = diff_loop_zero (bit_or diff (bit_xor x y)) a b (omega arith) in
    (
      λ h.
          let (z, same) = rest.0 h in
          let (d, x_zero) = (bit_or_zero diff (bit_xor x y)).0 z in
          (d, cc ((bit_xor_zero x y).0 x_zero, same)),
      λ (d, same). rest.1 (
        (bit_or_zero diff (bit_xor x y)).1 (d, (bit_xor_zero x y).1 (head_eq x y a b same)),
        ap (drop 1) same,
      ),
    )
  where
    head_eq : (x y : ℕ) (a b : Str) → x ∷ a ≡ y ∷ b → x ≡ y
    head_eq x y a b same = cc same

-- The comparison that takes every character into account is equality.
constant_time_equals_iff : (a b : Str) → (constant_time_equals a b ≡ true) ↔ (a ≡ b)
unfolding constant_time_equals
constant_time_equals_iff a b = elim (Bool-cases (length a == length b)) [
  | inl e ↦
      let same : length a ≡ length b = (==_iff (length a) (length b)).0 e in
      let loop = diff_loop_zero 0 a b same in
      rw e (
        λ h. (loop.0 ((==_iff (diff_loop 0 a b) 0).0 h)).1,
        λ h. (==_iff (diff_loop 0 a b) 0).1 (loop.1 (refl, h)),
      )
  | inr e ↦ rw e (λ h. absurd (cc h), λ h. absurd (ground (arith, ap length h, e)))
]

-- The header that names the token under one of the two schemes.
abbrev pub Presents : Str → Str → Type 0
Presents token authorization =
    (authorization ≡ codes "Bearer " ++ token) ⊎ (authorization ≡ codes "Token " ++ token)

presented_at_sound :
    (token authorization : Str) (o : Option ℕ)
    → index_of b' ' authorization ≡ o
    → presented_at token authorization o ≡ true
    → Presents token authorization
unfolding presented_at
presented_at_sound token authorization none e h = absurd (cc h)
presented_at_sound token authorization (some zero) e h = absurd (cc h)
presented_at_sound token authorization (some (suc i)) e h =
    let (scheme, same) =
      &&-split (is_scheme (take (suc i) authorization))
        (constant_time_equals (drop (suc (suc i)) authorization) token) h in
    let rest = (constant_time_equals_iff (drop (suc (suc i)) authorization) token).0 same in
    let (cut, lacks, below) = index_of-some b' ' authorization (suc i) e in
    elim (or-split (str_eq (take (suc i) authorization) (codes "Bearer"))
      (str_eq (take (suc i) authorization) (codes "Token")) scheme) [
        | inl f ↦ inl (made (codes "Bearer") ((str_eq_iff _ (codes "Bearer")).0 f) rest cut)
        | inr f ↦ inr (made (codes "Token") ((str_eq_iff _ (codes "Token")).0 f) rest cut)
      ]
  where
    made :
        (word : Str)
        → take (suc i) authorization ≡ word
        → drop (suc (suc i)) authorization ≡ token
        → authorization ≡ take (suc i) authorization ++ (b' ' ∷ drop (suc (suc i)) authorization)
        → authorization ≡ word ++ (b' ' ∷ token)
    made word f rest cut =
        cut
        ∙ ap (λ w. w ++ (b' ' ∷ drop (suc (suc i)) authorization)) f
        ∙ ap (λ r. word ++ (b' ' ∷ r)) rest

presented_at_complete :
    (token authorization : Str)
    → Presents token authorization
    → presented_at token authorization (index_of b' ' authorization) ≡ true
unfolding presented_at
presented_at_complete token authorization (inl e) =
    subst (λ a. presented_at token a (index_of b' ' a) ≡ true) (sym e)
      (rw (index_of-append b' ' (codes "Bearer") token (omega arith))
        ((constant_time_equals_iff token token).1 refl))
presented_at_complete token authorization (inr e) =
    subst (λ a. presented_at token a (index_of b' ' a) ≡ true) (sym e)
      (rw (index_of-append b' ' (codes "Token") token (omega arith))
        ((constant_time_equals_iff token token).1 refl))

present_not_empty : (token a : Str) → Presents token a → is_empty a ≡ false
present_not_empty token a (inl e) = ap is_empty e
present_not_empty token a (inr e) = ap is_empty e

-- An import is authorized exactly when a token that is not empty is configured and the header is
-- that token behind `Bearer ` or `Token `.
pub import_authorized_iff :
    (expected authorization : Option Str)
    → (import_authorized expected authorization ≡ true) ↔ (
        (token : Str) × (header : Str) × (expected ≡ some token)
        × (authorization ≡ some header)
        × (is_empty token ≡ false)
        × Presents token header)
import_authorized_iff none authorization =
    unfold import_authorized in (λ h. absurd (cc h), λ (t, a, e, _, _, _). absurd (cc e))
import_authorized_iff (some token) none =
    unfold import_authorized in (λ h. absurd (cc h), λ (t, a, _, e, _, _). absurd (cc e))
import_authorized_iff (some token) (some header) =
    unfold import_authorized in
    elim (Bool-cases (is_empty token || is_empty header)) [
      | inl e ↦ rw e (
        λ h. absurd (cc h),
        λ (t, a, p, q, full, presents).
            absurd (blank e (same_presents t a p q presents) (same_token t p full)),
      )
      | inr e ↦ rw e (
        λ h. (
          token,
          header,
          refl,
          refl,
          ground (arith, e),
          presented_at_sound token header _ refl h,
        ),
        λ (t, a, p, q, full, presents).
            presented_at_complete token header (same_presents t a p q presents),
      )
    ]
  where
    same_token : (t : Str) → some token ≡ some t → is_empty t ≡ false → is_empty token ≡ false
    same_token t p full = let e : token ≡ t = cc p in ap is_empty e ∙ full

    same_presents :
        (t a : Str)
        → some token ≡ some t
        → some header ≡ some a
        → Presents t a
        → Presents token header
    same_presents t a p q presents =
        let e : t ≡ token = cc p in
        let f : a ≡ header = cc q in
        subst (λ x. Presents x header) e (subst (Presents t) f presents)

    blank :
        (is_empty token || is_empty header) ≡ true
        → Presents token header
        → is_empty token ≡ false
        → ⊥
    blank e presents full = ground (arith, e, full, present_not_empty token header presents)

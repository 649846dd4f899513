-- ===== src/Hooks/Reaper/Guard.antt =====
-- The protected namespaces: what the guard's LIKE accepts, and that the guard keeps them.
use aocr.Prelude.{
  ℕ, ◌≡◌, refl, sym, ap, ◌∙◌, subst, ◌≢◌, ◌⊎◌, inl, inr, Bool, true, not, ◌||◌, ◌&&◌, List, [], ◌∷◌,
  ◌++◌, arith, ◌==◌, append_assoc, filter, any, take, All, All-imp, All-filter_test, Bool-cases,
  zero, suc, or-left, or-right,
}
use aocr.Text.{Str, codes, str_eq, contains, starts_with}
use aocr.Text.Laws.{str_eq_iff, Lacks}
use aocr.Text.Prefix.{in_namespace, InNamespace}
use aocr.Hooks.Database.{Database}
use aocr.Hooks.Reaper.Like.{many, single, plain, token, any_tail, on_tail, on_char, like}
use aocr.Hooks.Reaper.Selection.{
  Joined, Query, joined, reap_candidates, path_of, is_protected, insert_row, order_rows,
  stale_images,
}

any_tail_here : (f : Str → Bool) (s : Str) → f s ≡ true → any_tail f s ≡ true
any_tail_here f [] h = h
any_tail_here f (c ∷ s) h = or-left (f (c ∷ s)) (any_tail f s) h

like_plain : (q : ℕ) (p s : Str) → token q ≡ plain → like (q ∷ p) s ≡ on_char q (like p) s
unfolding like
like_plain q [] [] e = rw (e, like) refl
like_plain q [] (c ∷ s) e = rw (e, like) refl
like_plain q (r ∷ p) s e = rw (e, like) refl

like_single : (q : ℕ) (p s : Str) → token q ≡ single → like (q ∷ p) s ≡ on_tail (like p) s
unfolding like
like_single q [] [] e = rw (e, like) refl
like_single q [] (c ∷ s) e = rw (e, like) refl
like_single q (r ∷ p) s e = rw (e, like) refl

like_many :
    (q : ℕ) (p s : Str) → token q ≡ many → any_tail (like p) s ≡ true → like (q ∷ p) s ≡ true
unfolding like
like_many q [] s e h = rw (e, like) refl
like_many q (r ∷ p) s e h = rw (e, like) h

like_percent : (s : Str) → like (codes "%") s ≡ true
unfolding like
like_percent s = refl

Token-cases : (q : ℕ) → q ≢ b'\\' → ((token q ≡ plain) ⊎ (token q ≡ single)) ⊎ (token q ≡ many)
unfolding token
Token-cases q h = elim (Bool-cases (q == b'%')) [
  | inl e ↦ inr (rw e refl)
  | inr e ↦ elim (Bool-cases (q == b'_')) [
    | inl f ↦ inl (inr (rw (e, f) refl))
    | inr f ↦ inl (inl (ground (arith, e, f, h)))
  ]
]

-- A pattern with no backslash accepts itself, and with `%` behind it all that it begins.
like_self : (p rest : Str) → Lacks b'\\' p → like (p ++ codes "%") (p ++ rest) ≡ true
like_self [] rest h = like_percent rest
like_self (q ∷ p) rest (n, h) = elim (Token-cases q n) [
  | inr e ↦
      like_many q (p ++ codes "%") (q ∷ (p ++ rest)) e
        (or-right _ _ (any_tail_here (like (p ++ codes "%")) (p ++ rest) (like_self p rest h)))
  | inl (inr e) ↦ like_single q (p ++ codes "%") (q ∷ (p ++ rest)) e ∙ like_self p rest h
  | inl (inl e) ↦
      like_plain q (p ++ codes "%") (q ∷ (p ++ rest)) e ∙ ground (arith, like_self p rest h)
]

-- With no character of its own for LIKE it is a test of the beginning.
abbrev pub IsPlain : Str → Type 0
IsPlain s = All (λ c. token c ≡ plain) s

like-starts_with : (p s : Str) → IsPlain p → like (p ++ codes "%") s ≡ starts_with s p
unfolding starts_with
like-starts_with [] s h = like_percent s
like-starts_with (q ∷ p) [] (e, h) = like_plain q (p ++ codes "%") [] e
like-starts_with (q ∷ p) (c ∷ s) (e, h) =
    like_plain q (p ++ codes "%") (c ∷ s) e ∙ ap (λ b. (c == q) && b) (like-starts_with p s h)

IsPlain-slash : (ns : Str) → IsPlain ns → IsPlain (ns ++ (b'/' ∷ []))
unfolding token
IsPlain-slash [] h = (refl, tt)
IsPlain-slash (c ∷ ns) (e, h) = (e, IsPlain-slash ns h)

guard_plain :
    (ns path : Str)
    → IsPlain ns
    → (str_eq path ns || like (ns ++ codes "/%") path) ≡ in_namespace ns path
unfolding in_namespace
guard_plain ns path h =
    ap (λ b. str_eq path ns || b)
      (ap (λ p. like p path) (sym (append_assoc ns (b'/' ∷ []) (codes "%")))
        ∙ like-starts_with (ns ++ (b'/' ∷ [])) path (IsPlain-slash ns h))

guard_all :
    (namespaces : List Str) (path : Str)
    → All IsPlain namespaces
    → any (λ prefix. str_eq path prefix || like (prefix ++ codes "/%") path) namespaces
      ≡ any (λ ns. in_namespace ns path) namespaces
unfolding any
guard_all [] path h = refl
guard_all (ns ∷ rest) path (e, h) = cc (guard_plain ns path e, guard_all rest path h)

-- For namespaces without `%`, `_` or a backslash the guard holds back exactly the repositories that
-- stand in one of them, by the test that the auth service uses for cluster PATs.
pub is_protected-in_namespace :
    (q : Query) (path : Str)
    → All IsPlain q.protected_namespaces
    → is_protected q path ≡ any (λ ns. in_namespace ns path) q.protected_namespaces
unfolding is_protected
is_protected-in_namespace q path h = guard_all q.protected_namespaces path h

Lacks-slash : (ns : Str) → Lacks b'\\' ns → Lacks b'\\' (ns ++ (b'/' ∷ []))
Lacks-slash [] h = (omega arith, tt)
Lacks-slash (c ∷ ns) (e, h) = (e, Lacks-slash ns h)

guard_self :
    (ns path : Str)
    → Lacks b'\\' ns
    → InNamespace ns path
    → (str_eq path ns || like (ns ++ codes "/%") path) ≡ true
guard_self ns path h (inl e) = or-left _ _ ((str_eq_iff path ns).1 e)
guard_self ns path h (inr (rest, e)) = or-right _ _ (
    ap (like (ns ++ codes "/%")) (e ∙ sym (append_assoc ns (b'/' ∷ []) rest))
    ∙ ap (λ p. like p ((ns ++ (b'/' ∷ [])) ++ rest)) (sym (append_assoc ns (b'/' ∷ []) (codes "%")))
    ∙ like_self (ns ++ (b'/' ∷ [])) rest (Lacks-slash ns h))

guard_any :
    (namespaces : List Str) (ns path : Str)
    → contains namespaces ns ≡ true
    → Lacks b'\\' ns
    → InNamespace ns path
    → any (λ prefix. str_eq path prefix || like (prefix ++ codes "/%") path) namespaces ≡ true
unfolding any contains
guard_any [] ns path c h p = absurd (cc c)
guard_any (n ∷ rest) ns path c h p = elim (Bool-cases (str_eq n ns)) [
  | inl e ↦ or-left _ _ (
      subst (λ m. (str_eq path m || like (m ++ codes "/%") path) ≡ true)
        (sym ((str_eq_iff n ns).0 e)) (guard_self ns path h p))
  | inr e ↦ or-right _ _ (guard_any rest ns path (ground (arith, c, e)) h p)
]

is_protected_member :
    (q : Query) (ns path : Str)
    → contains q.protected_namespaces ns ≡ true
    → Lacks b'\\' ns
    → InNamespace ns path
    → is_protected q path ≡ true
unfolding is_protected
is_protected_member q ns path c h p = guard_any q.protected_namespaces ns path c h p

module _ (q : Query) (P : Joined → Type 0) where
  insert_row-All : (x : Joined) (ys : List Joined) → P x → All P ys → All P (insert_row q x ys)
  unfolding insert_row
  insert_row-All x [] p h = (p, tt)
  insert_row-All x (y ∷ ys) p (r, h) = elim (Bool-cases (q.row_before x y)) [
    | inl e ↦ rw e (p, (r, h))
    | inr e ↦ rw e (r, insert_row-All x ys p h)
  ]

  order_rows-All : (xs : List Joined) → All P xs → All P (order_rows q xs)
  unfolding order_rows
  order_rows-All [] h = tt
  order_rows-All (x ∷ xs) (p, h) = insert_row-All x (order_rows q xs) p (order_rows-All xs h)

  take-All : (n : ℕ) (xs : List Joined) → All P xs → All P (take n xs)
  take-All zero xs h = tt
  take-All (suc n) [] h = tt
  take-All (suc n) (x ∷ xs) (p, h) = (p, take-All n xs h)

  -- What holds of the candidates that the guard lets through holds of the rows of the query.
  pub stale_images-All :
      (db : Database)
      → All P (filter (λ x. not (is_protected q (path_of x))) (reap_candidates q (joined db)))
      → All P (stale_images q db)
  unfolding stale_images
  stale_images-All db h = take-All 500 _ (order_rows-All _ h)

-- No row of the query is of a repository in a protected namespace that has no backslash.
pub stale_images_unprotected :
    (q : Query) (db : Database)
    → All
        (λ x.
          (ns : Str)
          → contains q.protected_namespaces ns ≡ true
          → Lacks b'\\' ns
          → InNamespace ns (path_of x)
          → ⊥)
        (stale_images q db)
stale_images_unprotected q db = stale_images-All q _ db (
    All-imp (λ x e ns c h p. absurd (ground (arith, e, is_protected_member q ns (path_of x) c h p)))
      _ (All-filter_test (λ x. not (is_protected q (path_of x))) (reap_candidates q (joined db))))

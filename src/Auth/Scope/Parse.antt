-- ===== src/Auth/Scope/Parse.antt =====
-- What one resource scope parses to.
use aocr.Prelude.{
  ℕ, suc, ◌≡◌, refl, ◌≢◌, ◌↔◌, [], ◌∷◌, ◌++◌, none, some, arith, length, take, drop, ap, sym,
  append_assoc, ◌∙◌, subst, length-take, if◌then◌else◌, length-append, take-length-append,
  past_prefix, Option-cases, inl, inr,
}
use aocr.Text.{Str, is_empty, index_of, last_index_of}
use aocr.Text.Laws.{
  Lacks, index_of-append, last_index_of-append, index_of-some, index_of-none, last_index_of-some,
}
use aocr.Auth.Scope.{RequestedScope, parse_scope, actions_of, parse_at}

-- The parts of a well-formed scope.
pub record IsScope (value : Str) (r : RequestedScope) : Type 0 where
  pub rest : Str
  pub text : value ≡ r.type ++ (b':' ∷ (r.name ++ (b':' ∷ rest)))
  pub type_lacks : Lacks b':' r.type
  pub rest_lacks : Lacks b':' rest
  pub type_ne : r.type ≢ []
  pub name_ne : r.name ≢ []
  pub actions : r.actions ≡ actions_of rest

shape : Str → Str → Str → Str
shape t n rest = t ++ (b':' ∷ (n ++ (b':' ∷ rest)))

shape_assoc : (t n rest : Str) → shape t n rest ≡ (t ++ (b':' ∷ n)) ++ (b':' ∷ rest)
unfolding shape
shape_assoc t n rest = sym (append_assoc t (b':' ∷ n) (b':' ∷ rest))

first_colon : (t n rest : Str) → Lacks b':' t → index_of b':' (shape t n rest) ≡ some (length t)
unfolding shape
first_colon t n rest h = index_of-append b':' t (n ++ (b':' ∷ rest)) h

last_colon :
    (t n rest : Str)
    → Lacks b':' rest
    → last_index_of b':' (shape t n rest) ≡ some (length (t ++ (b':' ∷ n)))
last_colon t n rest h =
    rw (shape_assoc t n rest) (last_index_of-append b':' (t ++ (b':' ∷ n)) rest h)

-- Cutting the text at its first and last colon gives its parts.
cut_type : (t n rest : Str) → take (length t) (shape t n rest) ≡ t
unfolding shape
cut_type t n rest = take-length-append t _

cut_name :
    (t n rest : Str) → drop (suc (length t)) (take (length (t ++ (b':' ∷ n))) (shape t n rest)) ≡ n
cut_name t n rest =
    rw (shape_assoc t n rest, take-length-append (t ++ (b':' ∷ n)) (b':' ∷ rest))
      (past_prefix t b':' n)

cut_rest : (t n rest : Str) → drop (suc (length (t ++ (b':' ∷ n)))) (shape t n rest) ≡ rest
cut_rest t n rest = rw (shape_assoc t n rest) (past_prefix (t ++ (b':' ∷ n)) b':' rest)

abbrev parsed : Str → Str → Str → RequestedScope
parsed t n rest = record { type = t; name = n; actions = actions_of rest }

parse_at-shape :
    (t n rest : Str)
    → t ≢ []
    → parse_at (shape t n rest) (length t) (length (t ++ (b':' ∷ n)))
      ≡ (if is_empty n then none else some (parsed t n rest))
unfolding parse_at
parse_at-shape [] n rest h = absurd (h refl)
parse_at-shape (c ∷ t) n rest h =
    rw (cut_name (c ∷ t) n rest, cut_rest (c ∷ t) n rest, cut_type (c ∷ t) n rest)
      (ground (arith, length-append t (b':' ∷ n)))

parse_scope-shape :
    (t n rest : Str)
    → t ≢ []
    → Lacks b':' t
    → Lacks b':' rest
    → parse_scope (shape t n rest) ≡ (if is_empty n then none else some (parsed t n rest))
unfolding parse_scope
parse_scope-shape t n rest ne h k =
    rw (first_colon t n rest h, last_colon t n rest k, parse_scope) (parse_at-shape t n rest ne)

-- A text with two different colons has the shape.
record TwoColons (v : Str) : Type 0 where
  t : Str
  n : Str
  rest : Str
  text : v ≡ shape t n rest
  first : Lacks b':' t
  last : Lacks b':' rest

two_colons :
    (v : Str) (f l : ℕ)
    → index_of b':' v ≡ some f
    → last_index_of b':' v ≡ some l
    → f ≢ l
    → TwoColons v
two_colons v f l hf hl ne =
    let (parts, lacks, below) = last_index_of-some b':' v l hl in
    elim (Option-cases (index_of b':' (take l v))) [
      | inl e ↦
          let none_before = index_of-none b':' (take l v) e in
          let q : index_of b':' v ≡ some (length (take l v)) =
            subst (λ z. index_of b':' z ≡ some (length (take l v))) (sym parts)
              (index_of-append b':' (take l v) (drop (suc l) v) none_before) in
          absurd (ne (ground (arith, q, hf, length-take l v, below)))
      | inr (i, e) ↦
          let (parts', lacks', below') = index_of-some b':' (take l v) i e in
          let whole : v ≡ shape (take i (take l v)) (drop (suc i) (take l v)) (drop (suc l) v) =
            parts ∙ ap (λ z. z ++ (b':' ∷ drop (suc l) v)) parts' ∙ sym (shape_assoc _ _ _) in
          record {
            t = take i (take l v);
            n = drop (suc i) (take l v);
            rest = drop (suc l) v;
            text = whole;
            first = lacks';
            last = lacks;
          }
    ]

parse_scope_complete :
    (value : Str) (r : RequestedScope) → IsScope value r → parse_scope value ≡ some r
unfolding shape
parse_scope_complete value r p =
    subst (λ z. parse_scope z ≡ some r) (sym p.text)
      (parse_scope-shape r.type r.name p.rest p.type_ne p.type_lacks p.rest_lacks ∙ whole)
  where
    whole : (if is_empty r.name then none else some (parsed r.type r.name p.rest)) ≡ some r
    whole = ground (arith, p.name_ne, p.actions)

parse_scope-at :
    (v : Str) (f l : ℕ)
    → index_of b':' v ≡ some f
    → last_index_of b':' v ≡ some l
    → parse_scope v ≡ parse_at v f l
unfolding parse_scope
parse_scope-at v f l hf hl = rw (hf, hl, parse_scope)

parse_at_tests :
    (v : Str) (f l : ℕ) (r : RequestedScope) → parse_at v f l ≡ some r → (f ≢ 0) × (f ≢ l)
unfolding parse_at
parse_at_tests v f l r e = (ground arith, ground arith)

-- A text that parses has two different colons, and something before the first.
parse_scope_colons :
    (value : Str) (r : RequestedScope)
    → parse_scope value ≡ some r
    → (s : TwoColons value) × (s.t ≢ [])
unfolding parse_scope
parse_scope_colons value r e = elim (Option-cases (index_of b':' value)) [
  | inl no_first ↦ absurd (cc (no_first, e))
  | inr (f, hf) ↦ elim (Option-cases (last_index_of b':' value)) [
    | inl no_last ↦ absurd (cc (hf, no_last, e))
    | inr (l, hl) ↦
        let tests = parse_at_tests value f l r (rw (parse_scope-at value f l hf hl) at e) in
        let s = two_colons value f l hf hl tests.1 in
        let place : index_of b':' value ≡ some (length s.t) =
          subst (λ z. index_of b':' z ≡ some (length s.t)) (sym s.text)
            (first_colon s.t s.n s.rest s.first) in
        (s, λ q. tests.0 (ground (arith, place, hf, ap (λ (z : Str). length z) q)))
  ]
]

IsScope-parsed :
    (v : Str) (s : TwoColons v) → s.t ≢ [] → s.n ≢ [] → IsScope v (parsed s.t s.n s.rest)
unfolding shape
IsScope-parsed v s ht hn = record {
  rest = s.rest;
  text = s.text;
  type_lacks = s.first;
  rest_lacks = s.last;
  type_ne = ht;
  name_ne = hn;
  actions = refl;
}

parse_scope_sound :
    (value : Str) (r : RequestedScope) → parse_scope value ≡ some r → IsScope value r
parse_scope_sound value r e =
    let (s, ht) = parse_scope_colons value r e in
    let same : (if is_empty s.n then none else some (parsed s.t s.n s.rest)) ≡ some r =
      sym (ap parse_scope s.text ∙ parse_scope-shape s.t s.n s.rest ht s.first s.last) ∙ e in
    let hn : s.n ≢ [] = λ q. absurd (cc (same, ap is_empty q)) in
    subst (IsScope value) (ground (arith, same, hn)) (IsScope-parsed value s ht hn)

-- A scope parses to a type, a name and actions exactly when the text is type, ':', name, ':' and a
-- rest, where type and name are not empty, neither the type nor the rest has a colon, and the
-- actions are the non-empty parts of the rest between commas.
pub parse_scope_iff :
    (value : Str) (r : RequestedScope) → (parse_scope value ≡ some r) ↔ IsScope value r
parse_scope_iff value r = (parse_scope_sound value r, parse_scope_complete value r)

-- ===== src/Auth/Scope/Merge.antt =====
-- What the merged scopes offer: the union of what the values ask, each resource once.
use aocr.Prelude.{
  ◌≡◌, refl, sym, ◌∙◌, subst, Bool, true, false, ◌&&◌, ◌||◌, List, [], ◌∷◌, ◌++◌, Option, none,
  some, inl, inr, arith, if◌then◌else◌, Bool-cases, Option-cases, All, any,
}
use aocr.Text.{Str, str_eq, contains}
use aocr.Text.Laws.{str_eq_iff, contains-append, Lacks, separator_injective}
use aocr.JsMap.{JsMap, values}
use aocr.JsMap.Laws.{upsert, set-get}
use aocr.Auth.Scope.{
  RequestedScope, ScopeParam, parse_scope, scope_key, add_actions, entry_or_new, add_scope,
  merge_scopes, parse_requested_scopes, scope_values,
}
use aocr.Auth.Scope.Parse.{parse_scope_iff}

-- Does an entry allow this action on this resource?
unfoldable pub offers : Str → Str → Str → RequestedScope → Bool
offers t n a r = str_eq r.type t && str_eq r.name n && contains r.actions a

-- Does a value of the parameter ask for it?
unfoldable pub asks : Str → Str → Str → Str → Bool
asks t n a value = elim (parse_scope value) [ none ↦ false | some r ↦ offers t n a r ]

contains-add_actions :
    (xs ys : List Str) (a : Str) → contains (add_actions xs ys) a ≡ (contains xs a || contains ys a)
unfolding add_actions contains
contains-add_actions xs [] a = ground arith
contains-add_actions xs (y ∷ ys) a =
    contains-add_actions (if contains xs y then xs else xs ++ y ∷ []) ys a ∙ step
  where
    known : contains xs y ≡ true → str_eq y a ≡ true → contains xs a ≡ true
    known e q = subst (λ t. contains xs t ≡ true) ((str_eq_iff y a).0 q) e

    step :
        (contains (if contains xs y then xs else xs ++ y ∷ []) a || contains ys a)
        ≡ (contains xs a || contains (y ∷ ys) a)
    step = elim (Bool-cases (contains xs y)) [
      | inl e ↦ rw e (ground (arith, str_eq_iff y a, known e))
      | inr e ↦ rw (e, contains-append) (unfold contains in ground arith)
    ]

-- An entry of the map stands under its own key, and its type has no colon.
abbrev pub Keyed : Str × RequestedScope → Type 0
Keyed (k, r) = (k ≡ scope_key r) × Lacks b':' r.type

scope_key_injective :
    (r s : RequestedScope)
    → Lacks b':' r.type
    → Lacks b':' s.type
    → scope_key r ≡ scope_key s
    → (r.type ≡ s.type) × (r.name ≡ s.name)
unfolding scope_key
scope_key_injective r s h k e = separator_injective b':' r.type r.name s.type s.name h k e

-- The entry that a scope leaves at its key.
abbrev pub merged_entry : RequestedScope → Option RequestedScope → RequestedScope
merged_entry r found =
    let entry = entry_or_new found r in
    record entry { actions = add_actions entry.actions r.actions }

pub add_scope-upsert :
    (m : JsMap RequestedScope) (r : RequestedScope)
    → add_scope m r ≡ upsert m (scope_key r) (merged_entry r)
unfolding add_scope
add_scope-upsert m r = set-get m (scope_key r) (merged_entry r)

pub upsert-Keyed :
    (m : JsMap RequestedScope) (r : RequestedScope)
    → Lacks b':' r.type
    → All Keyed m
    → All Keyed (upsert m (scope_key r) (merged_entry r))
unfolding upsert scope_key
upsert-Keyed [] r h k = ((refl, h), tt)
upsert-Keyed ((j, w) ∷ m) r h ((e, l), k) = elim (Bool-cases (str_eq j (scope_key r))) [
  | inl q ↦ rw (q, upsert) ((e, l), k)
  | inr q ↦ rw (q, upsert) ((e, l), upsert-Keyed m r h k)
]

-- Merging one scope adds what it asks, and nothing else.
module _ (t n a : Str) where
  offers-same :
      (w r : RequestedScope)
      → (w.type ≡ r.type) × (w.name ≡ r.name)
      → offers t n a (merged_entry r (some w)) ≡ (offers t n a w || offers t n a r)
  unfolding offers
  offers-same w r (p, q) = rw (p, q) (ground (arith, contains-add_actions w.actions r.actions a))

  offers-new : (r : RequestedScope) → offers t n a (merged_entry r none) ≡ offers t n a r
  unfolding offers contains
  offers-new r = ground (arith, contains-add_actions [] r.actions a)

  any-upsert :
      (m : JsMap RequestedScope) (r : RequestedScope)
      → Lacks b':' r.type
      → All Keyed m
      → any (offers t n a) (values (upsert m (scope_key r) (merged_entry r)))
        ≡ (any (offers t n a) (values m) || offers t n a r)
  unfolding any upsert
  any-upsert [] r h k = ground (arith, offers-new r)
  any-upsert ((j, w) ∷ m) r h ((e, l), k) = elim (Bool-cases (str_eq j (scope_key r))) [
    | inl q ↦
        rw (q, upsert)
          (ground (
            arith,
            offers-same w r
                (scope_key_injective w r l h (sym e ∙ (str_eq_iff j (scope_key r)).0 q)),
          ))
    | inr q ↦ rw (q, upsert) (ground (arith, any-upsert m r h k))
  ]

  merge_round : JsMap RequestedScope → Str → JsMap RequestedScope
  merge_round m v = elim (parse_scope v) [ none ↦ m | some parsed ↦ add_scope m parsed ]

  merge_round_lem :
      (m : JsMap RequestedScope) (v : Str)
      → All Keyed m
      → All Keyed (merge_round m v)
        × (any (offers t n a) (values (merge_round m v))
            ≡ (any (offers t n a) (values m) || asks t n a v))
  unfolding merge_round asks
  merge_round_lem m v k = elim (Option-cases (parse_scope v)) [
    | inl e ↦ rw (e, merge_round, asks) (k, ground arith)
    | inr (r, e) ↦
        let lacks = ((parse_scope_iff v r).0 e).type_lacks in
        rw (e, merge_round, asks, add_scope-upsert m r)
          (upsert-Keyed m r lacks k, any-upsert m r lacks k)
  ]

  any-merge_scopes :
      (m : JsMap RequestedScope) (vs : List Str)
      → All Keyed m
      → any (offers t n a) (values (merge_scopes m vs))
        ≡ (any (offers t n a) (values m) || any (asks t n a) vs)
  unfolding merge_scopes any merge_round
  any-merge_scopes m [] k = ground arith
  any-merge_scopes m (v ∷ vs) k =
      let (k', e) = merge_round_lem m v k in
      ground (arith, any-merge_scopes (merge_round m v) vs k', e)

-- An action on a resource is offered exactly when some value asks for it: merging neither widens
-- nor narrows the request.
pub offers-parse_requested_scopes :
    (raw : ScopeParam) (t n a : Str)
    → any (offers t n a) (parse_requested_scopes raw) ≡ any (asks t n a) (scope_values raw)
unfolding parse_requested_scopes any
offers-parse_requested_scopes raw t n a = any-merge_scopes t n a [] (scope_values raw) tt

-- ===== src/Auth/Scope/Order.antt =====
-- The order of the merged scopes, and that no resource and no action is listed twice.
use aocr.Prelude.{
  ◌≡◌, refl, sym, ap, ◌∙◌, List, [], ◌∷◌, ◌++◌, append_assoc, append-nil, Option, inl, inr, arith,
  if◌then◌else◌, Bool-cases, Option-cases, All, map, filter_map,
}
use mathlib.Core.Path.{ap₂}
use mathlib.Core.Option
use aocr.Text.{Str, contains, unique, unique_from}
use aocr.Text.Laws.{contains-append}
use aocr.JsMap.{JsMap, values, keys}
use aocr.JsMap.Laws.{upsert, keys-upsert}
use aocr.Auth.Scope.{
  RequestedScope, ScopeParam, parse_scope, scope_key, merge_scopes, parse_requested_scopes,
  scope_values,
}
use aocr.Auth.Scope.Parse.{parse_scope_iff}
use aocr.Auth.Scope.Merge.{Keyed, merged_entry, upsert-Keyed, add_scope-upsert}

-- The resource that a value asks for.
unfoldable pub key_of : Str → Option Str
key_of v = Option.map scope_key (parse_scope v)

seen_grows :
    (ks seen : List Str) (k : Str)
    → ((s : Str) → contains seen s ≡ contains ks s)
    → (s : Str) → contains (k ∷ seen) s ≡ contains (ks ++ k ∷ []) s
unfolding contains
seen_grows ks seen k same s = rw contains-append (unfold contains in ground (arith, same s))

-- One more key, new or old, from what holds of the rest of the loop.
merge_step :
    (ks ks' done : List Str) (k : Str) (seen vs : List Str)
    → ((s : Str) → contains seen s ≡ contains ks s)
    → ks' ≡ (if contains ks k then ks else ks ++ k ∷ [])
    → ((seen' : List Str)
        → ((s : Str) → contains seen' s ≡ contains ks' s)
        → done ≡ ks' ++ unique_from seen' vs)
    → done ≡ ks ++ unique_from seen (k ∷ vs)
unfolding unique_from
merge_step ks ks' done k seen vs same q rest = elim (Bool-cases (contains ks k)) [
  | inl e ↦
      let q' : ks' ≡ ks = q ∙ ap (λ b. if b then ks else ks ++ k ∷ []) e in
      rw (same k ∙ e, unique_from)
        (rest seen (λ s. same s ∙ ap (λ z. contains z s) (sym q'))
          ∙ ap (λ z. z ++ unique_from seen vs) q')
  | inr e ↦
      let q' : ks' ≡ ks ++ k ∷ [] = q ∙ ap (λ b. if b then ks else ks ++ k ∷ []) e in
      rw (same k ∙ e, unique_from)
        (rest (k ∷ seen) (λ s. seen_grows ks seen k same s ∙ ap (λ z. contains z s) (sym q'))
          ∙ ap (λ z. z ++ unique_from (k ∷ seen) vs) q'
          ∙ append_assoc ks (k ∷ []) (unique_from (k ∷ seen) vs))
]

keys-merge_scopes :
    (m : JsMap RequestedScope) (vs seen : List Str)
    → ((s : Str) → contains seen s ≡ contains (keys m) s)
    → keys (merge_scopes m vs) ≡ keys m ++ unique_from seen (filter_map key_of vs)
unfolding merge_scopes filter_map key_of
keys-merge_scopes m [] seen same = unfold unique_from in sym (append-nil (keys m))
keys-merge_scopes m (v ∷ vs) seen same = elim (Option-cases (parse_scope v)) [
  | inl e ↦ rw (e, merge_scopes, filter_map, key_of) (keys-merge_scopes m vs seen same)
  | inr (r, e) ↦
      rw (e, merge_scopes, filter_map, key_of, add_scope-upsert m r)
        (merge_step (keys m) (keys (upsert m (scope_key r) (merged_entry r))) _ (scope_key r) seen
          (filter_map key_of vs) same (keys-upsert m (scope_key r) (merged_entry r))
          (keys-merge_scopes (upsert m (scope_key r) (merged_entry r)) vs))
]

keys-values : (m : JsMap RequestedScope) → All Keyed m → map scope_key (values m) ≡ keys m
keys-values [] h = refl
keys-values ((k, r) ∷ m) ((e, l), h) = ap₂ (λ x xs. x ∷ xs) (sym e) (keys-values m h)

merge_scopes-Keyed :
    (m : JsMap RequestedScope) (vs : List Str) → All Keyed m → All Keyed (merge_scopes m vs)
unfolding merge_scopes
merge_scopes-Keyed m [] h = h
merge_scopes-Keyed m (v ∷ vs) h = elim (Option-cases (parse_scope v)) [
  | inl e ↦ rw (e, merge_scopes) (merge_scopes-Keyed m vs h)
  | inr (r, e) ↦
      rw (e, merge_scopes, add_scope-upsert m r)
        (merge_scopes-Keyed (upsert m (scope_key r) (merged_entry r)) vs
          (upsert-Keyed m r ((parse_scope_iff v r).0 e).type_lacks h))
]

-- The merged scopes are the resources of the well-formed values, each once, in the order in which
-- they first stand.
pub scope_key-parse_requested_scopes :
    (raw : ScopeParam)
    → map scope_key (parse_requested_scopes raw) ≡ unique (filter_map key_of (scope_values raw))
unfolding parse_requested_scopes unique
scope_key-parse_requested_scopes raw =
    keys-values (merge_scopes [] (scope_values raw)) (merge_scopes-Keyed [] (scope_values raw) tt)
    ∙ keys-merge_scopes [] (scope_values raw) [] (λ s. refl)

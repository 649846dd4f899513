-- ===== src/Hooks/Mount/Digests.antt =====
-- The digests of a manifest: each once, in the order of the manifest.
use aocr.Prelude.{
  ◌≡◌, refl, sym, ap, ◌∙◌, List, [], ◌∷◌, ◌++◌, Option, none, some, append_assoc, append-nil,
  filter_map, if◌then◌else◌, Bool-cases, Option-cases, inl, inr,
}
use aocr.Text.{Str, is_empty, contains, unique_from, unique}
use aocr.Text.Laws.{unique_from-old, unique_from-new}
use aocr.Hooks.Mount.{Descriptor, Manifest, push_digest, push_all, or_nil, collect_blob_digests}

-- The digest that a descriptor refers to, where it is a text that is not empty.
abbrev reference_of : Descriptor → Option Str
reference_of d = elim d.digest [
  | none ↦ none
  | some digest ↦ if is_empty digest then none else some digest
]

abbrev option_list {ℓ} : {A : Type ℓ} → Option A → List A
option_list none = []
option_list (some x) = x ∷ []

-- What the manifest refers to, with repetitions: its config, its layers, its sub-manifests.
unfoldable pub references : Manifest → List Str
unfolding filter_map
references m =
    filter_map reference_of (option_list m.config ++ (or_nil m.layers ++ or_nil m.manifests))

push_all-append :
    (state : List Str × List Str) (cs bs : List Descriptor)
    → push_all state (cs ++ bs) ≡ push_all (push_all state cs) bs
unfolding push_all
push_all-append state [] bs = refl
push_all-append state (a ∷ cs) bs = push_all-append (push_digest state (some a)) cs bs

push_digest_list :
    (state : List Str × List Str) (o : Option Descriptor)
    → push_digest state o ≡ push_all state (option_list o)
unfolding push_all push_digest
push_digest_list (seen, out) none = refl
push_digest_list (seen, out) (some d) = refl

abbrev add : List Str × List Str → Option Str → List Str × List Str
add (seen, out) none = (seen, out)
add (seen, out) (some digest) =
    if contains seen digest then (seen, out) else (digest ∷ seen, out ++ (digest ∷ []))

push_digest-add :
    (seen out : List Str) (d : Descriptor)
    → push_digest (seen, out) (some d) ≡ add (seen, out) (reference_of d)
unfolding push_digest
push_digest-add seen out d = elim (Option-cases d.digest) [
  | inl e ↦ cc e
  | inr (digest, e) ↦ elim (Bool-cases (is_empty digest)) [ inl f ↦ cc (e, f) | inr f ↦ cc (e, f) ]
]

filter_map-cons {ℓ κ} :
    {A : Type ℓ} {B : Type κ} (f : A → Option B) (x : A) (xs : List A)
    → filter_map f (x ∷ xs) ≡ option_list (f x) ++ filter_map f xs
unfolding filter_map
filter_map-cons f x xs = elim (Option-cases (f x)) [
  | inl e ↦ rw (e, filter_map) refl
  | inr (y, e) ↦ rw (e, filter_map) refl
]

add_step :
    (ds : List Descriptor) (refs seen out : List Str) (o : Option Str)
    → ((s t : List Str) → (push_all (s, t) ds).1 ≡ t ++ unique_from s refs)
    → (push_all (add (seen, out) o) ds).1 ≡ out ++ unique_from seen (option_list o ++ refs)
add_step ds refs seen out none ih = ih seen out
add_step ds refs seen out (some digest) ih = elim (Bool-cases (contains seen digest)) [
  | inl f ↦ rw f (ih seen out) ∙ ap (λ t. out ++ t) (sym (unique_from-old seen refs digest f))
  | inr f ↦
      rw f (ih (digest ∷ seen) (out ++ (digest ∷ [])))
      ∙ append_assoc out (digest ∷ []) _
      ∙ ap (λ t. out ++ t) (sym (unique_from-new seen refs digest f))
]

push_all-unique_from :
    (ds : List Descriptor) (seen out : List Str)
    → (push_all (seen, out) ds).1 ≡ out ++ unique_from seen (filter_map reference_of ds)
unfolding push_all
push_all-unique_from [] seen out = unfold unique_from filter_map in sym (append-nil out)
push_all-unique_from (d ∷ ds) seen out =
    ap (λ s. (push_all s ds).1) (push_digest-add seen out d)
    ∙ add_step ds (filter_map reference_of ds) seen out (reference_of d) (push_all-unique_from ds)
    ∙ ap (λ r. out ++ unique_from seen r) (sym (filter_map-cons reference_of d ds))

-- The digests collected are those that the manifest refers to, config first, then the layers, then
-- the sub-manifests, each at its first place only.
pub collect_blob_digests-unique : (m : Manifest) → collect_blob_digests m ≡ unique (references m)
unfolding collect_blob_digests references unique
collect_blob_digests-unique m =
    ap (λ s. (push_all (push_all s (or_nil m.layers)) (or_nil m.manifests)).1)
      (push_digest_list ([], []) m.config)
    ∙ ap (λ (s : List Str × List Str). s.1)
        (sym (
            push_all-append (push_all ([], []) (option_list m.config)) (or_nil m.layers)
              (or_nil m.manifests))
          ∙ sym (push_all-append ([], []) (option_list m.config) _))
    ∙ push_all-unique_from (option_list m.config ++ (or_nil m.layers ++ or_nil m.manifests)) [] []

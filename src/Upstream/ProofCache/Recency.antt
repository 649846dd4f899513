-- ===== src/Upstream/ProofCache/Recency.antt =====
-- The entries of a cache stand in the order of their last use, so the first is the least recently used.
pub mod Runs
use aocr.Prelude.{
  ℕ, zero, suc, ◌+◌, ◌≡◌, refl, sym, ap, ◌∙◌, subst, inl, inr, false, not, List, [], ◌∷◌, ◌++◌,
  Option, none, some, arith, leb, ltb, filter, length, Bool-cases, Option-cases,
}
use aocr.Text.{Str, str_eq, contains}
use aocr.Text.Laws.{IsUnique, str_eq_iff, str_eq_refl}
use aocr.Text.Utf8.{Utf8}
use aocr.JsMap.{JsMap, get, set, delete, keys}
use aocr.JsMap.Laws.{get-delete, set-append, set-IsUnique}
use aocr.Upstream.ProofCache.{
  ProofCache, ProofEntry, ProofLookup, new_cache, new_entry, evict, touch, lookup_proof,
  enforce_capacity, record_proof, record_scope, invalidate,
}
use aocr.Upstream.ProofCache.Invariant.{
  Call, looks_up, records, widens, invalidates, step, run, evict-IsUnique, touch-IsUnique,
}
use aocr.Upstream.ProofCache.Eviction.{record_proof-full}

-- The elements of the first list, in their order, among those of the second.
pub data Among : List Str → List Str → Type 0 where
  stop : Among [] []
  skip : {ks os : List Str} (o : Str) → Among ks os → Among ks (o ∷ os)
  keep : {ks os : List Str} (k : Str) → Among ks os → Among (k ∷ ks) (k ∷ os)

abbrev pub without : Str → List Str → List Str
without j ks = filter (λ k. not (str_eq k j)) ks

abbrev pub found : Str → Option ProofLookup → Option Str
found identity none = none
found identity (some proof) = some identity

-- The identity that a call uses: one that is recorded, or that a lookup finds proved.
unfoldable pub used_by : Utf8 → ProofCache → Call → Option Str
unfolding lookup_proof
used_by utf8 c (looks_up now identity repo) =
    found identity (lookup_proof utf8 now identity repo c).0
used_by utf8 c (records now identity repo bearer) = some identity
used_by utf8 c (widens identity repo) = none
used_by utf8 c (invalidates identity) = none

-- An identity that is used moves to the end of the order.
abbrev pub renew : List Str → Option Str → List Str
renew order none = order
renew order (some k) = without k order ++ (k ∷ [])

-- The identities that calls use, each once, by their last use.
unfoldable pub use_order : Utf8 → ProofCache → List Str → List Call → List Str
unfolding step used_by filter
use_order utf8 c order [] = order
use_order utf8 c order (call ∷ calls) =
    use_order utf8 (step utf8 c call) (renew order (used_by utf8 c call)) calls

pub Among-without : {ks os : List Str} (j : Str) → Among ks os → Among (without j ks) (without j os)
unfolding filter
Among-without j stop = stop
Among-without j (skip o a) = elim (Bool-cases (str_eq o j)) [
  | inl e ↦ rw e (Among-without j a)
  | inr e ↦ rw e (skip o (Among-without j a))
]
Among-without j (keep k a) = elim (Bool-cases (str_eq k j)) [
  | inl e ↦ rw e (Among-without j a)
  | inr e ↦ rw e (keep k (Among-without j a))
]

pub Among-fewer : {ks os : List Str} (j : Str) → Among ks os → Among (without j ks) os
unfolding filter
Among-fewer j stop = stop
Among-fewer j (skip o a) = skip o (Among-fewer j a)
Among-fewer j (keep k a) = elim (Bool-cases (str_eq k j)) [
  | inl e ↦ rw e (skip k (Among-fewer j a))
  | inr e ↦ rw e (keep k (Among-fewer j a))
]

pub Among-append :
    {ks os : List Str} (k : Str) → Among ks os → Among (ks ++ (k ∷ [])) (os ++ (k ∷ []))
Among-append k stop = keep k stop
Among-append k (skip o a) = skip o (Among-append k a)
Among-append k (keep j a) = keep j (Among-append k a)

pub without-absent : (k : Str) (ks : List Str) → contains ks k ≡ false → without k ks ≡ ks
unfolding filter contains
without-absent k [] h = refl
without-absent k (j ∷ ks) h = ground (arith, h, without-absent k ks)

module _ {V : Type 0} where
  pub get-absent : (m : JsMap V) (k : Str) → get m k ≡ none → contains (keys m) k ≡ false
  unfolding get contains
  get-absent [] k h = refl
  get-absent ((j, v) ∷ m) k h = ground (arith, h, get-absent m k)

  keys-append : (m : JsMap V) (k : Str) (v : V) → keys (m ++ ((k, v) ∷ [])) ≡ keys m ++ (k ∷ [])
  keys-append [] k v = refl
  keys-append ((j, w) ∷ m) k v = ap (λ ks. j ∷ ks) (keys-append m k v)

  pub keys-delete :
      (m : JsMap V) (k : Str) → IsUnique (keys m) → keys (delete m k) ≡ without k (keys m)
  unfolding delete filter
  keys-delete [] k u = refl
  keys-delete ((j, v) ∷ m) k (fresh, u) = elim (Bool-cases (str_eq j k)) [
    | inl e ↦
        let absent = subst (λ t. contains (keys m) t ≡ false) ((str_eq_iff j k).0 e) fresh in
        rw e (sym (without-absent k (keys m) absent))
    | inr e ↦ rw e (ap (λ ks. j ∷ ks) (keys-delete m k u))
  ]

  pub keys-set_new :
      (m : JsMap V) (k : Str) (v : V) → get m k ≡ none → keys (set m k v) ≡ keys m ++ (k ∷ [])
  keys-set_new m k v h = ap keys (set-append m k v h) ∙ keys-append m k v

  pub keys-set_old :
      (m : JsMap V) (k : Str) (v w : V) → get m k ≡ some w → keys (set m k v) ≡ keys m
  unfolding get set
  keys-set_old [] k v w h = absurd (cc h)
  keys-set_old ((j, x) ∷ m) k v w h = elim (Bool-cases (str_eq j k)) [
    | inl e ↦ rw e refl
    | inr e ↦ rw e (ap (λ ks. j ∷ ks) (keys-set_old m k v w (cc (e, h))))
  ]

pub keys-touch :
    (m : JsMap ProofEntry) (k : Str) (e : ProofEntry)
    → IsUnique (keys m)
    → keys (touch m k e) ≡ without k (keys m) ++ (k ∷ [])
unfolding touch
keys-touch m k e u =
    let gone : get (delete m k) k ≡ none = get-delete m k k u ∙ rw (str_eq_refl k) refl in
    keys-set_new (delete m k) k e gone ∙ ap (λ ks. ks ++ (k ∷ [])) (keys-delete m k u)

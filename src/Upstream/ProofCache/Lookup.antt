-- ===== src/Upstream/ProofCache/Lookup.antt =====
-- What a lookup answers, alone and behind a record or an invalidation.
use aocr.Prelude.{
  ℕ, zero, suc, ◌+◌, ◌<◌, ◌≡◌, refl, ◌∙◌, sym, ap, subst, inl, inr, ◌↔◌, ◌||◌, true, false, List,
  [], ◌∷◌, ◌++◌, Option, none, some, arith, leb, ltb, length, or-right, Bool-cases, Option-cases,
  if◌then◌else◌,
}
use aocr.Text.{Str, str_eq, contains}
use aocr.Text.Laws.{IsUnique, str_eq_iff, str_eq_refl, contains-append}
use aocr.Text.Utf8.{Utf8}
use aocr.JsMap.{JsMap, get, set, delete, keys}
use aocr.JsMap.Laws.{get-set_self, set-append, get-append_last, set-IsUnique}
use aocr.Upstream.ProofCache.{
  ProofCache, ProofEntry, ProofLookup, add_repo, evict, touch, lookup_proof, enforce_capacity,
  record_proof, to_lookup, new_entry, renew_entry,
}
use aocr.Upstream.ProofCache.Invariant.{IsValid, evict-head, max-evict}

-- A proof that serves a repository at a time.
pub record Covers (now : ℕ) (repo : Str) (e : ProofEntry) : Type 0 where
  pub fresh : now < e.expires_at
  pub has_repo : contains e.scoped_repos repo ≡ true

unfoldable pub answer_of : Utf8 → ℕ → Str → Option ProofEntry → Option ProofLookup
answer_of utf8 now repo none = none
answer_of utf8 now repo (some e) =
    if leb e.expires_at now
    then none
    else if contains e.scoped_repos repo
    then some (to_lookup utf8 e)
    else none

pub lookup_proof-answer_of :
    (utf8 : Utf8) (now : ℕ) (identity repo : Str) (c : ProofCache)
    → (lookup_proof utf8 now identity repo c).0 ≡ answer_of utf8 now repo (get c.entries identity)
unfolding lookup_proof answer_of
lookup_proof-answer_of utf8 now identity repo c = ground arith

answer_of_sound :
    (utf8 : Utf8) (now : ℕ) (repo : Str) (o : Option ProofEntry) (l : ProofLookup)
    → answer_of utf8 now repo o ≡ some l
    → (e : ProofEntry) × (o ≡ some e) × Covers now repo e × (l ≡ to_lookup utf8 e)
unfolding answer_of
answer_of_sound utf8 now repo none l h = absurd (cc h)
answer_of_sound utf8 now repo (some e) l h =
    (e, refl, record { fresh = ground (arith, h); has_repo = ground (arith, h) }, ground (arith, h))

answer_of_complete :
    (utf8 : Utf8) (now : ℕ) (repo : Str) (e : ProofEntry)
    → Covers now repo e
    → answer_of utf8 now repo (some e) ≡ some (to_lookup utf8 e)
unfolding answer_of
answer_of_complete utf8 now repo e h = ground (arith, h.fresh, h.has_repo)

-- A lookup answers exactly when the identity has an entry that has not expired and that covers the
-- repository, and then with the entry's decoded bearer, its repositories and its two times.
pub lookup_proof_iff :
    (utf8 : Utf8) (now : ℕ) (identity repo : Str) (c : ProofCache) (l : ProofLookup)
    → ((lookup_proof utf8 now identity repo c).0 ≡ some l) ↔ (
        (e : ProofEntry) × (get c.entries identity ≡ some e)
        × Covers now repo e
        × (l ≡ record {
          upstream_bearer = utf8.decode e.upstream_bearer;
          scoped_repos = e.scoped_repos;
          proven_at = e.proven_at;
          expires_at = e.expires_at;
        }))
lookup_proof_iff utf8 now identity repo c l = (
  λ h.
      answer_of_sound utf8 now repo (get c.entries identity) l
        (sym (lookup_proof-answer_of utf8 now identity repo c) ∙ h),
  λ (e, found, covers, same).
      lookup_proof-answer_of utf8 now identity repo c
      ∙ ap (answer_of utf8 now repo) found
      ∙ answer_of_complete utf8 now repo e covers
      ∙ ap (λ x. some x) (sym same),
)

pub contains-add_repo :
    (repos : List Str) (repo s : Str)
    → contains (add_repo repos repo) s ≡ (contains repos s || str_eq repo s)
unfolding add_repo
contains-add_repo repos repo s = elim (Bool-cases (contains repos repo)) [
  | inl e ↦ rw e (ground (arith, known e))
  | inr e ↦ rw (e, contains-append) (unfold contains in ground arith)
]
  where
    known : contains repos repo ≡ true → str_eq repo s ≡ true → contains repos s ≡ true
    known e q = subst (λ t. contains repos t ≡ true) ((str_eq_iff repo s).0 q) e

enforce_one :
    (fuel : ℕ) (c : ProofCache) (k : Str) (v : ProofEntry)
    → c.entries ≡ (k, v) ∷ []
    → 0 < c.max_entries
    → get (enforce_capacity (suc fuel) c).entries k ≡ some v
unfolding enforce_capacity get
enforce_one fuel c k v e pos =
    let small : ltb c.max_entries (length c.entries) ≡ false = ground (arith, e) in
    rw (e, enforce_capacity, small) (rw e (ground (arith, str_eq_refl k)))

enforce_more :
    (fuel : ℕ) (c : ProofCache) (j : Str) (w : ProofEntry) (es : JsMap ProofEntry) (k : Str)
    (v : ProofEntry)
    → c.entries ≡ (j, w) ∷ (es ++ (k, v) ∷ [])
    → IsUnique (keys ((j, w) ∷ (es ++ (k, v) ∷ [])))
    → get (enforce_capacity fuel (evict c j)).entries k ≡ some v
    → get (enforce_capacity (suc fuel) c).entries k ≡ some v
unfolding enforce_capacity
enforce_more fuel c j w es k v e u rest = elim (Bool-cases (ltb c.max_entries (length c.entries))) [
  | inl big ↦ rw (e, enforce_capacity, big) rest
  | inr small ↦ rw (e, enforce_capacity, small) (rw e (get-append_last ((j, w) ∷ es) k v u))
]

-- The loop of `enforceCapacity` keeps the entry at the end, unless the cache holds nothing.
enforce_last :
    (fuel : ℕ) (c : ProofCache) (es : JsMap ProofEntry) (k : Str) (v : ProofEntry)
    → c.entries ≡ es ++ (k, v) ∷ []
    → 0 < c.max_entries
    → IsUnique (keys (es ++ (k, v) ∷ []))
    → get (enforce_capacity fuel c).entries k ≡ some v
enforce_last zero c es k v e pos u = unfold enforce_capacity in rw e (get-append_last es k v u)
enforce_last (suc fuel) c [] k v e pos u = enforce_one fuel c k v e pos
enforce_last (suc fuel) c ((j, w) ∷ es) k v e pos u = enforce_more fuel c j w es k v e u (
    enforce_last fuel (evict c j) es k v (evict-head c j w (es ++ (k, v) ∷ []) e)
      (subst (λ m. 0 < m) (sym (max-evict c j)) pos) u.1)

-- Behind a record, the identity has an entry that covers the repository, holds the encoded bearer
-- and expires when the time to live is over.
pub get-record_proof :
    (utf8 : Utf8) (now : ℕ) (identity repo bearer : Str) (c : ProofCache)
    → IsValid c
    → 0 < c.max_entries
    → (e : ProofEntry) × (get (record_proof utf8 now identity repo bearer c).entries identity
        ≡ some e)
      × (e.expires_at ≡ now + c.ttl_ms)
      × (contains e.scoped_repos repo ≡ true)
      × (e.upstream_bearer ≡ utf8.encode bearer)
unfolding record_proof
get-record_proof utf8 now identity repo bearer c v pos =
    elim (Option-cases (get c.entries identity)) [
      | inl e ↦
          let entry = new_entry now (now + c.ttl_ms) identity repo (utf8.encode bearer) in
          let at_end = set-append c.entries identity entry e in
          (
            entry,
            rw (e, record_proof)
                (enforce_last _ (record c { entries = set c.entries identity entry }) c.entries
                  identity entry at_end pos
                  (subst (λ z. IsUnique (keys z)) at_end
                    (set-IsUnique c.entries identity entry v.distinct))),
            refl,
            unfold contains in ground (arith, str_eq_refl repo),
            refl,
          )
      | inr (old, e) ↦
          let entry = renew_entry (now + c.ttl_ms) repo (utf8.encode bearer) old in
          (
            entry,
            rw (e, record_proof, touch) (get-set_self (delete c.entries identity) identity entry),
            refl,
            contains-add_repo old.scoped_repos repo repo ∙ or-right _ _ (str_eq_refl repo),
            refl,
          )
    ]

-- ===== src/Upstream/ProofCache/Honest.antt =====
-- A property of the proofs that a cache holds, kept by every operation: what `P identity repo`
-- says of each repository that an entry covers.
use aocr.Prelude.{
  ℕ, zero, suc, ◌+◌, ◌≡◌, refl, ◌∙◌, sym, subst, inl, inr, true, List, [], ◌∷◌, some, arith, leb,
  ltb, length, Bool-cases, Option-cases, or-split,
}
use aocr.Text.{Str, str_eq, contains}
use aocr.Text.Laws.{IsUnique, str_eq_iff}
use aocr.Text.Utf8.{Utf8}
use aocr.JsMap.{JsMap, get, set, delete, keys}
use aocr.JsMap.Laws.{get-set, get-delete, set-IsUnique, delete-IsUnique}
use aocr.Upstream.ProofCache.{
  ProofCache, ProofEntry, evict, touch, lookup_proof, enforce_capacity, record_proof, invalidate,
  new_entry, renew_entry, add_repo,
}
use aocr.Upstream.ProofCache.Invariant.{touch-IsUnique}
use aocr.Upstream.ProofCache.Lookup.{contains-add_repo}

module _ (P : Str → Str → Type 0) where
  -- Every repository of the entry is proved for the identity.
  abbrev Backed : Str → ProofEntry → Type 0
  Backed identity e = (repo : Str) → contains e.scoped_repos repo ≡ true → P identity repo

  pub record IsHonest (c : ProofCache) : Type 0 where
    pub distinct : IsUnique (keys c.entries)
    pub backed :
        (identity : Str) (e : ProofEntry) → get c.entries identity ≡ some e → Backed identity e

  set-Backed :
      (m : JsMap ProofEntry) (k : Str) (v : ProofEntry)
      → ((i : Str) (e : ProofEntry) → get m i ≡ some e → Backed i e)
      → Backed k v
      → (i : Str) (e : ProofEntry) → get (set m k v) i ≡ some e
      → Backed i e
  set-Backed m k v h b i e found = elim (Bool-cases (str_eq k i)) [
    | inl q ↦
        let same : v ≡ e = ground (arith, get-set m k i v, found, q) in
        subst (λ j. Backed j e) ((str_eq_iff k i).0 q) (subst (Backed k) same b)
    | inr q ↦ h i e (ground (arith, get-set m k i v, found, q))
  ]

  delete-Backed :
      (m : JsMap ProofEntry) (k : Str)
      → IsUnique (keys m)
      → ((i : Str) (e : ProofEntry) → get m i ≡ some e → Backed i e)
      → (i : Str) (e : ProofEntry) → get (delete m k) i ≡ some e
      → Backed i e
  delete-Backed m k u h i e found = h i e (ground (arith, get-delete m k i u, found))

  evict-IsHonest : (c : ProofCache) (k : Str) → IsHonest c → IsHonest (evict c k)
  unfolding evict
  evict-IsHonest c k h = elim (Option-cases (get c.entries k)) [
    | inl e ↦ rw (e, evict) h
    | inr (v, e) ↦
        rw (e, evict)
          (record {
            distinct = delete-IsUnique c.entries k h.distinct;
            backed = delete-Backed c.entries k h.distinct h.backed;
          })
  ]

  pub invalidate-IsHonest : (k : Str) (c : ProofCache) → IsHonest c → IsHonest (invalidate k c)
  unfolding invalidate
  invalidate-IsHonest k c h = evict-IsHonest c k h

  touch-Backed :
      (c : ProofCache) (k : Str) (v : ProofEntry)
      → IsHonest c
      → Backed k v
      → (i : Str) (e : ProofEntry) → get (touch c.entries k v) i ≡ some e
      → Backed i e
  unfolding touch
  touch-Backed c k v h b =
      set-Backed (delete c.entries k) k v (delete-Backed c.entries k h.distinct h.backed) b

  pub lookup_proof-IsHonest :
      (utf8 : Utf8) (now : ℕ) (identity repo : Str) (c : ProofCache)
      → IsHonest c
      → IsHonest (lookup_proof utf8 now identity repo c).1
  unfolding lookup_proof
  lookup_proof-IsHonest utf8 now identity repo c h = elim (Option-cases (get c.entries identity)) [
    | inl e ↦ rw (e, lookup_proof) h
    | inr (old, e) ↦ elim (Bool-cases (leb old.expires_at now)) [
      | inl late ↦ rw (e, lookup_proof, late) (evict-IsHonest c identity h)
      | inr fresh ↦ elim (Bool-cases (contains old.scoped_repos repo)) [
        | inl covered ↦
            rw (e, lookup_proof, fresh, covered)
              (record {
                distinct = touch-IsUnique c.entries identity old h.distinct;
                backed = touch-Backed c identity old h (h.backed identity old e);
              })
        | inr other ↦ rw (e, lookup_proof, fresh, other) h
      ]
    ]
  ]

  enforce_round :
      (fuel : ℕ) (c : ProofCache) (es : JsMap ProofEntry)
      → c.entries ≡ es
      → IsHonest c
      → ((k : Str) → IsHonest (enforce_capacity fuel (evict c k)))
      → IsHonest (enforce_capacity (suc fuel) c)
  unfolding enforce_capacity
  enforce_round fuel c [] e h rest = rw (e, enforce_capacity) h
  enforce_round fuel c ((k, v) ∷ es) e h rest =
      elim (Bool-cases (ltb c.max_entries (length c.entries))) [
        | inl big ↦ rw (e, enforce_capacity, big) (rest k)
        | inr small ↦ rw (e, enforce_capacity, small) h
      ]

  enforce-IsHonest : (fuel : ℕ) (c : ProofCache) → IsHonest c → IsHonest (enforce_capacity fuel c)
  enforce-IsHonest zero c h = unfold enforce_capacity in h
  enforce-IsHonest (suc fuel) c h =
      enforce_round fuel c c.entries refl h
        (λ k. enforce-IsHonest fuel (evict c k) (evict-IsHonest c k h))

  enforce_new-IsHonest :
      (c : ProofCache) (es : JsMap ProofEntry)
      → IsUnique (keys es)
      → ((i : Str) (e : ProofEntry) → get es i ≡ some e → Backed i e)
      → IsHonest (enforce_capacity (length es) (record c { entries = es }))
  enforce_new-IsHonest c es u b =
      enforce-IsHonest (length es) (record c { entries = es }) (record { distinct = u; backed = b })

  add_repo-Backed :
      (identity repo : Str) (repos : List Str)
      → ((r : Str) → contains repos r ≡ true → P identity r)
      → P identity repo
      → (r : Str) → contains (add_repo repos repo) r ≡ true
      → P identity r
  add_repo-Backed identity repo repos h p r q =
      elim (or-split _ _ (sym (contains-add_repo repos repo r) ∙ q)) [
        | inl old ↦ h r old
        | inr new ↦ subst (P identity) ((str_eq_iff repo r).0 new) p
      ]

  pub record_proof-IsHonest :
      (utf8 : Utf8) (now : ℕ) (identity repo bearer : Str) (c : ProofCache)
      → IsHonest c
      → P identity repo
      → IsHonest (record_proof utf8 now identity repo bearer c)
  unfolding record_proof
  record_proof-IsHonest utf8 now identity repo bearer c h p =
      elim (Option-cases (get c.entries identity)) [
        | inl e ↦
            let entry = new_entry now (now + c.ttl_ms) identity repo (utf8.encode bearer) in
            rw (e, record_proof)
              (enforce_new-IsHonest c (set c.entries identity entry)
                (set-IsUnique c.entries identity entry h.distinct)
                (set-Backed c.entries identity entry h.backed (only_repo p)))
        | inr (old, e) ↦
            let entry = renew_entry (now + c.ttl_ms) repo (utf8.encode bearer) old in
            rw (e, record_proof)
              (record {
                distinct = touch-IsUnique c.entries identity entry h.distinct;
                backed =
                    touch-Backed c identity entry h
                      (add_repo-Backed identity repo old.scoped_repos (h.backed identity old e) p);
              })
      ]
    where
      only_repo : P identity repo → (r : Str) → contains (repo ∷ []) r ≡ true → P identity r
      only_repo p r q =
          unfold contains in subst (P identity) ((str_eq_iff repo r).0 (ground (arith, q))) p

-- ===== src/Upstream/ProofCache/Recency/Runs.antt =====
-- Every call keeps the order of the last uses, so a full cache evicts the least recently used entry.
use aocr.Prelude.{
  ℕ, zero, suc, ◌+◌, ◌≡◌, refl, sym, ap, ◌∙◌, subst, inl, inr, List, [], ◌∷◌, ◌++◌, none, some, leb,
  ltb, length, Bool-cases, Option-cases,
}
use aocr.Text.{Str, contains}
use aocr.Text.Laws.{IsUnique}
use aocr.Text.Utf8.{Utf8}
use aocr.JsMap.{JsMap, get, set, keys}
use aocr.JsMap.Laws.{set-IsUnique}
use aocr.Upstream.ProofCache.{
  ProofCache, ProofEntry, new_cache, new_entry, evict, touch, lookup_proof, enforce_capacity,
  record_proof, record_scope, invalidate,
}
use aocr.Upstream.ProofCache.Invariant.{
  Call, looks_up, records, widens, invalidates, step, run, evict-IsUnique, touch-IsUnique,
}
use aocr.Upstream.ProofCache.Eviction.{record_proof-full}
use aocr.Upstream.ProofCache.Recency.{
  Among, stop, found, used_by, renew, use_order, Among-without, Among-fewer, Among-append,
  without-absent, get-absent, keys-delete, keys-set_new, keys-set_old, keys-touch,
}

-- The keys are distinct and stand in an order of use.
record IsOrdered (order : List Str) (c : ProofCache) : Type 0 where
  distinct : IsUnique (keys c.entries)
  ordered : Among (keys c.entries) order

evict-IsOrdered :
    (order : List Str) (c : ProofCache) (k : Str) → IsOrdered order c → IsOrdered order (evict c k)
unfolding evict
evict-IsOrdered order c k h = record {
  distinct = evict-IsUnique c k h.distinct;
  ordered = elim (Option-cases (get c.entries k)) [
    | inl e ↦ rw (e, evict) h.ordered
    | inr (v, e) ↦
        rw (e, evict)
          (subst (λ ks. Among ks order) (sym (keys-delete c.entries k h.distinct))
            (Among-fewer k h.ordered))
  ];
}

enforce_round-IsOrdered :
    (order : List Str) (fuel : ℕ) (c : ProofCache) (es : JsMap ProofEntry)
    → c.entries ≡ es
    → IsOrdered order c
    → ((k : Str) → IsOrdered order (enforce_capacity fuel (evict c k)))
    → IsOrdered order (enforce_capacity (suc fuel) c)
unfolding enforce_capacity
enforce_round-IsOrdered order fuel c [] e h rest = rw (e, enforce_capacity) h
enforce_round-IsOrdered order fuel c ((k, v) ∷ es) e h rest =
    elim (Bool-cases (ltb c.max_entries (length c.entries))) [
      | inl big ↦ rw (e, enforce_capacity, big) (rest k)
      | inr small ↦ rw (e, enforce_capacity, small) h
    ]

enforce-IsOrdered :
    (order : List Str) (fuel : ℕ) (c : ProofCache)
    → IsOrdered order c
    → IsOrdered order (enforce_capacity fuel c)
enforce-IsOrdered order zero c h = unfold enforce_capacity in h
enforce-IsOrdered order (suc fuel) c h =
    enforce_round-IsOrdered order fuel c c.entries refl h
      (λ k. enforce-IsOrdered order fuel (evict c k) (evict-IsOrdered order c k h))

touch-Among :
    (order : List Str) (m : JsMap ProofEntry) (k : Str) (e : ProofEntry)
    → IsUnique (keys m)
    → Among (keys m) order
    → Among (keys (touch m k e)) (renew order (some k))
touch-Among order m k e u a =
    subst (λ ks. Among ks (renew order (some k))) (sym (keys-touch m k e u))
      (Among-append k (Among-without k a))

new-Among :
    (order : List Str) (m : JsMap ProofEntry) (k : Str) (e : ProofEntry)
    → get m k ≡ none
    → Among (keys m) order
    → Among (keys (set m k e)) (renew order (some k))
new-Among order m k e fresh a =
    let same = without-absent k (keys m) (get-absent m k fresh) in
    subst (λ ks. Among ks (renew order (some k)))
      (ap (λ ks. ks ++ (k ∷ [])) same ∙ sym (keys-set_new m k e fresh))
      (Among-append k (Among-without k a))

record_proof-IsOrdered :
    (utf8 : Utf8) (now : ℕ) (identity repo bearer : Str) (order : List Str) (c : ProofCache)
    → IsOrdered order c
    → IsOrdered (renew order (some identity)) (record_proof utf8 now identity repo bearer c)
unfolding record_proof
record_proof-IsOrdered utf8 now identity repo bearer order c h =
    let entry = new_entry now (now + c.ttl_ms) identity repo (utf8.encode bearer) in
    let entries = set c.entries identity entry in
    elim (Option-cases (get c.entries identity)) [
      | inl e ↦
          rw (e, record_proof)
            (enforce-IsOrdered (renew order (some identity)) (length entries)
              (record c { entries = entries })
              (record {
                distinct = set-IsUnique c.entries identity entry h.distinct;
                ordered = new-Among order c.entries identity entry e h.ordered;
              }))
      | inr (old, e) ↦
          rw (e, record_proof)
            (record {
              distinct = touch-IsUnique c.entries identity _ h.distinct;
              ordered = touch-Among order c.entries identity _ h.distinct h.ordered;
            })
    ]

lookup_proof-IsOrdered :
    (utf8 : Utf8) (now : ℕ) (identity repo : Str) (order : List Str) (c : ProofCache)
    → IsOrdered order c
    → IsOrdered
        (renew order (found identity (lookup_proof utf8 now identity repo c).0))
        (lookup_proof utf8 now identity repo c).1
unfolding lookup_proof
lookup_proof-IsOrdered utf8 now identity repo order c h =
    elim (Option-cases (get c.entries identity)) [
      | inl e ↦ rw (e, lookup_proof) h
      | inr (old, e) ↦ elim (Bool-cases (leb old.expires_at now)) [
        | inl late ↦ rw (e, lookup_proof, late) (evict-IsOrdered order c identity h)
        | inr fresh ↦ elim (Bool-cases (contains old.scoped_repos repo)) [
          | inl covered ↦
              rw (e, lookup_proof, fresh, covered)
                (record {
                  distinct = touch-IsUnique c.entries identity old h.distinct;
                  ordered = touch-Among order c.entries identity old h.distinct h.ordered;
                })
          | inr other ↦ rw (e, lookup_proof, fresh, other) h
        ]
      ]
    ]

record_scope-IsOrdered :
    (identity repo : Str) (order : List Str) (c : ProofCache)
    → IsOrdered order c
    → IsOrdered order (record_scope identity repo c)
unfolding record_scope
record_scope-IsOrdered identity repo order c h = elim (Option-cases (get c.entries identity)) [
  | inl e ↦ rw (e, record_scope) h
  | inr (old, e) ↦
      rw (e, record_scope)
        (record {
          distinct = set-IsUnique c.entries identity _ h.distinct;
          ordered =
              subst (λ ks. Among ks order) (sym (keys-set_old c.entries identity _ old e))
                h.ordered;
        })
]

step-IsOrdered :
    (utf8 : Utf8) (order : List Str) (c : ProofCache) (call : Call)
    → IsOrdered order c
    → IsOrdered (renew order (used_by utf8 c call)) (step utf8 c call)
unfolding step
step-IsOrdered utf8 order c (looks_up now identity repo) h =
    unfold used_by in lookup_proof-IsOrdered utf8 now identity repo order c h
step-IsOrdered utf8 order c (records now identity repo bearer) h =
    unfold used_by in record_proof-IsOrdered utf8 now identity repo bearer order c h
step-IsOrdered utf8 order c (widens identity repo) h =
    unfold used_by in record_scope-IsOrdered identity repo order c h
step-IsOrdered utf8 order c (invalidates identity) h =
    unfold used_by invalidate in evict-IsOrdered order c identity h

run-IsOrdered :
    (utf8 : Utf8) (order : List Str) (c : ProofCache) (calls : List Call)
    → IsOrdered order c
    → IsOrdered (use_order utf8 c order calls) (run utf8 c calls)
unfolding run use_order
run-IsOrdered utf8 order c [] h = h
run-IsOrdered utf8 order c (call ∷ calls) h =
    run-IsOrdered utf8 (renew order (used_by utf8 c call)) (step utf8 c call) calls
      (step-IsOrdered utf8 order c call h)

-- After any calls on a new cache, the entries stand in the order of their last use by a record or by a
-- lookup that answered. If the cache is full, recording an identity that it does not hold takes out the
-- first entry, which is the least recently used, wipes its bearer, leaves the other entries as they
-- are, and puts the new one at the end.
pub record_proof-least_recent :
    (utf8 : Utf8) (ttl_ms max_entries : ℕ) (calls : List Call) (now : ℕ)
    (identity repo bearer k : Str) (v : ProofEntry) (rest : JsMap ProofEntry)
    → get (run utf8 (new_cache ttl_ms max_entries) calls).entries identity ≡ none
    → (run utf8 (new_cache ttl_ms max_entries) calls).entries ≡ (k, v) ∷ rest
    → length (run utf8 (new_cache ttl_ms max_entries) calls).entries
      ≡ (run utf8 (new_cache ttl_ms max_entries) calls).max_entries
    → let c = run utf8 (new_cache ttl_ms max_entries) calls in
      Among (k ∷ keys rest) (use_order utf8 (new_cache ttl_ms max_entries) [] calls)
      × ((record_proof utf8 now identity repo bearer c).entries
          ≡ rest
            ++ (identity, new_entry now (now + c.ttl_ms) identity repo (utf8.encode bearer)) ∷ [])
      × ((record_proof utf8 now identity repo bearer c).wiped ≡ c.wiped ++ v.upstream_bearer ∷ [])
record_proof-least_recent utf8 ttl_ms max_entries calls now identity repo bearer k v rest fresh e
      full =
    let empty = new_cache ttl_ms max_entries in
    let start : IsOrdered [] empty = record { distinct = tt; ordered = stop } in
    let h = run-IsOrdered utf8 [] empty calls start in
    let (entries, wiped) =
      record_proof-full utf8 now identity repo bearer k v rest (run utf8 empty calls) fresh e
        full in
    (subst (λ m. Among (keys m) (use_order utf8 empty [] calls)) e h.ordered, entries, wiped)

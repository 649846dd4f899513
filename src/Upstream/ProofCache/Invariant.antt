-- ===== src/Upstream/ProofCache/Invariant.antt =====
-- The cache stays within its bounds, its keys stay distinct, and no bearer leaves it unwiped.
use aocr.Prelude.{
  ℕ, zero, suc, ◌+◌, ◌≤◌, ◌≡◌, refl, ◌∙◌, sym, subst, inl, inr, true, false, List, [], ◌∷◌, some,
  arith, leb, ltb, length, Bool-cases, Option-cases,
}
use aocr.Text.{Str, contains}
use aocr.Text.Laws.{IsUnique, str_eq_refl}
use aocr.Text.Utf8.{Utf8}
use aocr.JsMap.{JsMap, get, set, delete, keys, has}
use aocr.JsMap.Laws.{
  set-IsUnique, delete-IsUnique, length-set, length-delete, contains-keys-has, contains-keys-delete,
}
use aocr.Upstream.ProofCache.{
  ProofCache, ProofEntry, evict, touch, lookup_proof, enforce_capacity, record_proof, record_scope,
  invalidate, size, new_cache, new_entry,
}

pub record IsValid (c : ProofCache) : Type 0 where
  pub distinct : IsUnique (keys c.entries)
  pub bounded : length c.entries ≤ c.max_entries

pub has-get : {V : Type 0} (m : JsMap V) (k : Str) (v : V) → get m k ≡ some v → has m k ≡ true
unfolding has get
has-get [] k v h = absurd (cc)
has-get ((j, w) ∷ m) k v h = ground (arith, has-get m k v)

has-delete : {V : Type 0} (m : JsMap V) (k : Str) → IsUnique (keys m) → has (delete m k) k ≡ false
has-delete m k u =
    sym (contains-keys-has (delete m k) k) ∙ contains-keys-delete m k k u ∙ rw (str_eq_refl k)

length-touch :
    (m : JsMap ProofEntry) (k : Str) (e v : ProofEntry)
    → IsUnique (keys m)
    → get m k ≡ some v
    → length (touch m k e) ≡ length m
unfolding touch
length-touch m k e v u h =
    ground
      (arith, length-set (delete m k) k e, has-delete m k u, length-delete m k, has-get m k v h)

pub touch-IsUnique :
    (m : JsMap ProofEntry) (k : Str) (e : ProofEntry)
    → IsUnique (keys m)
    → IsUnique (keys (touch m k e))
unfolding touch
touch-IsUnique m k e u = set-IsUnique (delete m k) k e (delete-IsUnique m k u)

length-evict-le : (c : ProofCache) (k : Str) → length (evict c k).entries ≤ length c.entries
unfolding evict
length-evict-le c k = elim (Option-cases (get c.entries k)) [
  | inl e ↦ rw (e, evict) (omega arith)
  | inr (v, e) ↦ rw (e, evict) (ground (arith, length-delete c.entries k))
]

pub evict-IsUnique :
    (c : ProofCache) (k : Str) → IsUnique (keys c.entries) → IsUnique (keys (evict c k).entries)
unfolding evict
evict-IsUnique c k u = elim (Option-cases (get c.entries k)) [
  | inl e ↦ rw (e, evict) u
  | inr (v, e) ↦ rw (e, evict) (delete-IsUnique c.entries k u)
]

pub max-evict : (c : ProofCache) (k : Str) → (evict c k).max_entries ≡ c.max_entries
unfolding evict
max-evict c k = ground arith

evict-IsValid : (c : ProofCache) (k : Str) → IsValid c → IsValid (evict c k)
evict-IsValid c k v = record {
  distinct = evict-IsUnique c k v.distinct;
  bounded = omega (arith, length-evict-le c k, max-evict c k, v.bounded);
}

pub evict-head :
    (c : ProofCache) (k : Str) (v : ProofEntry) (rest : JsMap ProofEntry)
    → c.entries ≡ (k, v) ∷ rest
    → (evict c k).entries ≡ rest
unfolding evict get delete
evict-head c k v rest e = ground (arith, str_eq_refl k)

enforce_round :
    (fuel : ℕ) (c : ProofCache) (es : JsMap ProofEntry)
    → c.entries ≡ es
    → length es ≤ suc fuel + c.max_entries
    → IsUnique (keys c.entries)
    → ((k : Str)
        → length (evict c k).entries ≤ fuel + (evict c k).max_entries
        → IsUnique (keys (evict c k).entries)
        → IsValid (enforce_capacity fuel (evict c k)))
    → IsValid (enforce_capacity (suc fuel) c)
unfolding enforce_capacity
enforce_round fuel c [] e h u rest =
    rw (e, enforce_capacity) (record { distinct = u; bounded = ground (arith, e) })
enforce_round fuel c ((k, v) ∷ es) e h u rest =
    elim (Bool-cases (ltb c.max_entries (length c.entries))) [
      | inl big ↦
          rw (e, enforce_capacity, big)
            (rest k (ground (arith, evict-head c k v es e, max-evict c k)) (evict-IsUnique c k u))
      | inr small ↦
          rw (e, enforce_capacity, small) (record { distinct = u; bounded = ground arith })
    ]

enforce_bounds :
    (fuel : ℕ) (c : ProofCache)
    → length c.entries ≤ fuel + c.max_entries
    → IsUnique (keys c.entries)
    → IsValid (enforce_capacity fuel c)
enforce_bounds zero c h u =
    unfold enforce_capacity in record { distinct = u; bounded = omega arith }
enforce_bounds (suc fuel) c h u =
    enforce_round fuel c c.entries refl h u (λ k. enforce_bounds fuel (evict c k))

-- The loop makes any entries with distinct keys fit.
enforce_new :
    (c : ProofCache) (es : JsMap ProofEntry)
    → IsUnique (keys es)
    → IsValid (enforce_capacity (length es) (record c { entries = es }))
enforce_new c es u = enforce_bounds (length es) (record c { entries = es }) (omega arith) u

length-set_present :
    (m : JsMap ProofEntry) (k : Str) (e old : ProofEntry)
    → get m k ≡ some old
    → length (set m k e) ≡ length m
length-set_present m k e old h = ground (arith, length-set m k e, has-get m k old h)

record_proof-IsValid :
    (utf8 : Utf8) (now : ℕ) (identity repo bearer : Str) (c : ProofCache)
    → IsValid c
    → IsValid (record_proof utf8 now identity repo bearer c)
unfolding record_proof
record_proof-IsValid utf8 now identity repo bearer c v =
    elim (Option-cases (get c.entries identity)) [
      | inl e ↦
          rw (e, record_proof)
            (enforce_new c
              (set c.entries identity
                (new_entry now (now + c.ttl_ms) identity repo (utf8.encode bearer)))
              (set-IsUnique c.entries identity _ v.distinct))
      | inr (old, e) ↦
          rw (e, record_proof)
            (record {
              distinct = touch-IsUnique c.entries identity _ v.distinct;
              bounded =
                  omega (arith, length-touch c.entries identity _ old v.distinct e, v.bounded);
            })
    ]

lookup_proof-IsValid :
    (utf8 : Utf8) (now : ℕ) (identity repo : Str) (c : ProofCache)
    → IsValid c
    → IsValid (lookup_proof utf8 now identity repo c).1
unfolding lookup_proof
lookup_proof-IsValid utf8 now identity repo c v = elim (Option-cases (get c.entries identity)) [
  | inl e ↦ rw (e, lookup_proof) v
  | inr (old, e) ↦ elim (Bool-cases (leb old.expires_at now)) [
    | inl late ↦ rw (e, lookup_proof, late) (evict-IsValid c identity v)
    | inr fresh ↦ elim (Bool-cases (contains old.scoped_repos repo)) [
      | inl covered ↦
          rw (e, lookup_proof, fresh, covered)
            (record {
              distinct = touch-IsUnique c.entries identity old v.distinct;
              bounded =
                  omega (arith, length-touch c.entries identity old old v.distinct e, v.bounded);
            })
      | inr other ↦ rw (e, lookup_proof, fresh, other) v
    ]
  ]
]

record_scope-IsValid :
    (identity repo : Str) (c : ProofCache) → IsValid c → IsValid (record_scope identity repo c)
unfolding record_scope
record_scope-IsValid identity repo c v = elim (Option-cases (get c.entries identity)) [
  | inl e ↦ rw (e, record_scope) v
  | inr (old, e) ↦
      rw (e, record_scope)
        (record {
          distinct = set-IsUnique c.entries identity _ v.distinct;
          bounded = omega (arith, length-set_present c.entries identity _ old e, v.bounded);
        })
]

-- The calls that a cache may meet, with the clock's value where the method reads it.
pub data Call : Type 0 where
  looks_up : ℕ → Str → Str → Call
  records : ℕ → Str → Str → Str → Call
  widens : Str → Str → Call
  invalidates : Str → Call

unfoldable pub step : Utf8 → ProofCache → Call → ProofCache
unfolding lookup_proof record_proof record_scope invalidate
step utf8 c (looks_up now identity repo) = (lookup_proof utf8 now identity repo c).1
step utf8 c (records now identity repo bearer) = record_proof utf8 now identity repo bearer c
step utf8 c (widens identity repo) = record_scope identity repo c
step utf8 c (invalidates identity) = invalidate identity c

unfoldable pub run : Utf8 → ProofCache → List Call → ProofCache
unfolding step
run utf8 c [] = c
run utf8 c (call ∷ calls) = run utf8 (step utf8 c call) calls

invalidate-IsValid : (identity : Str) (c : ProofCache) → IsValid c → IsValid (invalidate identity c)
unfolding invalidate
invalidate-IsValid identity c v = evict-IsValid c identity v

step-IsValid : (utf8 : Utf8) (c : ProofCache) (call : Call) → IsValid c → IsValid (step utf8 c call)
unfolding step
step-IsValid utf8 c (looks_up now identity repo) v = lookup_proof-IsValid utf8 now identity repo c v
step-IsValid utf8 c (records now identity repo bearer) v =
    record_proof-IsValid utf8 now identity repo bearer c v
step-IsValid utf8 c (widens identity repo) v = record_scope-IsValid identity repo c v
step-IsValid utf8 c (invalidates identity) v = invalidate-IsValid identity c v

run-IsValid :
    (utf8 : Utf8) (c : ProofCache) (calls : List Call) → IsValid c → IsValid (run utf8 c calls)
unfolding run
run-IsValid utf8 c [] v = v
run-IsValid utf8 c (call ∷ calls) v =
    run-IsValid utf8 (step utf8 c call) calls (step-IsValid utf8 c call v)

max_round :
    (m fuel : ℕ) (c : ProofCache) (es : JsMap ProofEntry)
    → c.entries ≡ es
    → c.max_entries ≡ m
    → ((k : Str) → (enforce_capacity fuel (evict c k)).max_entries ≡ m)
    → (enforce_capacity (suc fuel) c).max_entries ≡ m
unfolding enforce_capacity
max_round m fuel c [] e h rest = rw (e, enforce_capacity) h
max_round m fuel c ((k, v) ∷ es) e h rest =
    elim (Bool-cases (ltb c.max_entries (length c.entries))) [
      | inl big ↦ rw (e, enforce_capacity, big) (rest k)
      | inr small ↦ rw (e, enforce_capacity, small) h
    ]

max-enforce :
    (m fuel : ℕ) (c : ProofCache) → c.max_entries ≡ m → (enforce_capacity fuel c).max_entries ≡ m
max-enforce m zero c h = unfold enforce_capacity in h
max-enforce m (suc fuel) c h =
    max_round m fuel c c.entries refl h (λ k. max-enforce m fuel (evict c k) (max-evict c k ∙ h))

max-step :
    (utf8 : Utf8) (c : ProofCache) (call : Call) → (step utf8 c call).max_entries ≡ c.max_entries
unfolding step
max-step utf8 c (looks_up now identity repo) = ground (arith, max-evict c identity)
max-step utf8 c (records now identity repo bearer) = elim (Option-cases (get c.entries identity)) [
  | inl e ↦ rw (e, record_proof) (max-enforce c.max_entries _ _ refl)
  | inr (old, e) ↦ rw (e, record_proof)
]
max-step utf8 c (widens identity repo) = ground arith
max-step utf8 c (invalidates identity) = max-evict c identity

max-run :
    (utf8 : Utf8) (c : ProofCache) (calls : List Call)
    → (run utf8 c calls).max_entries ≡ c.max_entries
unfolding run
max-run utf8 c [] = refl
max-run utf8 c (call ∷ calls) = max-run utf8 (step utf8 c call) calls ∙ max-step utf8 c call

-- Whatever calls a new cache has met, its keys are distinct and it holds no more entries than its
-- bound at the start.
pub run_bounded :
    (utf8 : Utf8) (ttl_ms max_entries : ℕ) (calls : List Call)
    → IsUnique (keys (run utf8 (new_cache ttl_ms max_entries) calls).entries)
      × (size (run utf8 (new_cache ttl_ms max_entries) calls) ≤ max_entries)
run_bounded utf8 ttl_ms max_entries calls =
    let c = new_cache ttl_ms max_entries in
    let v = run-IsValid utf8 c calls (record { distinct = tt; bounded = omega arith }) in
    (v.distinct, subst (λ m. size (run utf8 c calls) ≤ m) (max-run utf8 c calls) v.bounded)

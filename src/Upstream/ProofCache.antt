-- ===== src/Upstream/ProofCache.antt =====
-- auth/src/upstreamAuth/proofCache.ts: a bounded cache of proofs of access, least recently used
-- entries first. Times are milliseconds; each method takes the clock's value as an argument.
pub mod Lookup
pub mod Honest
pub mod Eviction
pub mod Recency
pub mod Invariant
use aocr.Prelude.{
  ℕ, zero, suc, ◌+◌, Bool, true, false, List, [], ◌∷◌, ◌++◌, Option, none, some, leb, ltb,
  if◌then◌else◌, length,
}
use aocr.Text.{Str, contains}
use aocr.Text.Utf8.{Buffer, Utf8}
use aocr.JsMap.{JsMap, get, set, delete}

abbrev pub default_ttl_ms : ℕ
default_ttl_ms = 300000

abbrev pub default_max_entries : ℕ
default_max_entries = 10000

pub record ProofEntry : Type 0 where
  pub identity : Str
  pub proven_at : ℕ
  pub expires_at : ℕ
  pub upstream_bearer : Buffer
  pub scoped_repos : List Str

pub record ProofLookup : Type 0 where
  pub upstream_bearer : Str
  pub scoped_repos : List Str
  pub proven_at : ℕ
  pub expires_at : ℕ

-- `wiped` is the history of `fill(0)`: the buffers that were overwritten, latest last.
pub record ProofCache : Type 0 where
  pub ttl_ms : ℕ
  pub max_entries : ℕ
  pub entries : JsMap ProofEntry
  pub wiped : List Buffer

abbrev pub new_cache : ℕ → ℕ → ProofCache
new_cache ttl_ms max_entries = record {
  ttl_ms = ttl_ms;
  max_entries = max_entries;
  entries = [];
  wiped = [];
}

-- scopedRepos.add(repo)
unfoldable pub add_repo : List Str → Str → List Str
unfolding contains
add_repo repos repo = if contains repos repo then repos else repos ++ repo ∷ []

unfoldable pub evict : ProofCache → Str → ProofCache
unfolding get delete
evict c identity = elim (get c.entries identity) [
  | none ↦ c
  | some entry ↦ record c {
    entries = delete c.entries identity;
    wiped = c.wiped ++ entry.upstream_bearer ∷ [];
  }
]

-- delete and set: the entry moves to the end
unfoldable pub touch : JsMap ProofEntry → Str → ProofEntry → JsMap ProofEntry
unfolding delete set
touch entries identity entry = set (delete entries identity) identity entry

abbrev pub to_lookup : Utf8 → ProofEntry → ProofLookup
to_lookup utf8 e = record {
  upstream_bearer = utf8.decode e.upstream_bearer;
  scoped_repos = e.scoped_repos;
  proven_at = e.proven_at;
  expires_at = e.expires_at;
}

unfoldable pub lookup_proof : Utf8 → ℕ → Str → Str → ProofCache → Option ProofLookup × ProofCache
unfolding get evict touch contains
lookup_proof utf8 now identity repo c = elim (get c.entries identity) [
  | none ↦ (none, c)
  | some entry ↦
      if leb entry.expires_at now
      then (none, evict c identity)
      else if contains entry.scoped_repos repo
      then (some (to_lookup utf8 entry), record c { entries = touch c.entries identity entry })
      else (none, c)
]

-- `while (size > maxEntries)` evicts the first key; each round takes one entry, so their number is
-- enough fuel.
unfoldable pub enforce_capacity : ℕ → ProofCache → ProofCache
unfolding evict
enforce_capacity zero c = c
enforce_capacity (suc fuel) c = elim c.entries [
  | [] ↦ c
  | (lru, _) ∷ _ ↦ elim (ltb c.max_entries (length c.entries)) [
    | true ↦ enforce_capacity fuel (evict c lru)
    | false ↦ c
  ]
]

abbrev pub renew_entry : ℕ → Str → Buffer → ProofEntry → ProofEntry
renew_entry expires_at repo bearer e = record e {
  expires_at = expires_at;
  upstream_bearer = bearer;
  scoped_repos = add_repo e.scoped_repos repo;
}

abbrev pub new_entry : ℕ → ℕ → Str → Str → Buffer → ProofEntry
new_entry now expires_at identity repo bearer = record {
  identity = identity;
  proven_at = now;
  expires_at = expires_at;
  upstream_bearer = bearer;
  scoped_repos = repo ∷ [];
}

unfoldable pub record_proof : Utf8 → ℕ → Str → Str → Str → ProofCache → ProofCache
unfolding get set touch add_repo enforce_capacity
record_proof utf8 now identity repo bearer c = elim (get c.entries identity) [
  | some existing ↦ record c {
    entries =
        touch c.entries identity (renew_entry (now + c.ttl_ms) repo (utf8.encode bearer) existing);
    wiped = c.wiped ++ existing.upstream_bearer ∷ [];
  }
  | none ↦
      let entries =
        set c.entries identity
          (new_entry now (now + c.ttl_ms) identity repo (utf8.encode bearer)) in
      enforce_capacity (length entries) (record c { entries = entries })
]

-- the entry's set is mutated in place
unfoldable pub record_scope : Str → Str → ProofCache → ProofCache
unfolding get set add_repo
record_scope identity repo c = elim (get c.entries identity) [
  | none ↦ c
  | some entry ↦ record c {
    entries =
        set c.entries identity (record entry { scoped_repos = add_repo entry.scoped_repos repo });
  }
]

unfoldable pub invalidate : Str → ProofCache → ProofCache
unfolding evict
invalidate identity c = evict c identity

abbrev pub size : ProofCache → ℕ
size c = length c.entries

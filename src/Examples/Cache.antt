-- ===== src/Examples/Cache.antt =====
-- The proof cache on a few calls.
use aocr.Prelude.{◌≤◌, ◌≡◌, ◌↔◌, refl, arith, List, [], ◌∷◌, ◌++◌, some}
use aocr.Text.{Str, codes, contains, str_eq}
use aocr.Text.Laws.{IsUnique}
use aocr.JsMap.{get, keys}
use aocr.Upstream.ProofCache.{
  ProofCache, ProofEntry, new_cache, new_entry, to_lookup, lookup_proof, record_proof, size,
}
use aocr.Upstream.ProofCache.Invariant.{IsValid, run, Call, run_bounded}
use aocr.Upstream.ProofCache.Lookup.{Covers, lookup_proof_iff}
use aocr.Upstream.ProofCache.Eviction.{bearer_of, lookup_proof-record_proof}
use aocr.Upstream.ProofCache.Recency.{Among, use_order}
use aocr.Upstream.ProofCache.Recency.Runs.{record_proof-least_recent}
use aocr.Examples.Setup.{utf8, cache}

abbrev alice : Str
alice = codes "alice"

abbrev bob : Str
bob = codes "bob"

abbrev entry : Str → ProofEntry
entry who = new_entry 10 310 who (codes "app") (codes "bearer")

abbrev full : ProofCache
full = record cache { entries = (alice, entry alice) ∷ (bob, entry bob) ∷ [] }

full-IsValid : IsValid full
unfolding str_eq contains
full-IsValid = record { distinct = (refl, (refl, tt)); bounded = omega arith }

lookup_proof_iff_example :
    ((lookup_proof utf8 20 bob (codes "app") full).0 ≡ some (to_lookup utf8 (entry bob))) ↔ (
      (e : ProofEntry) × (get full.entries bob ≡ some e)
      × Covers 20 (codes "app") e
      × (to_lookup utf8 (entry bob) ≡ to_lookup utf8 e))
lookup_proof_iff_example =
    lookup_proof_iff utf8 20 bob (codes "app") full (to_lookup utf8 (entry bob))

lookup_proof-record_proof_example :
    bearer_of
      (lookup_proof utf8 319 alice
        (codes "web")
        (record_proof utf8 20 alice (codes "web") (codes "fresh") full)).0
    ≡ some (codes "fresh")
lookup_proof-record_proof_example =
    lookup_proof-record_proof utf8 20 319 alice (codes "web") (codes "fresh") full full-IsValid
      (omega arith) refl

abbrev calls : List Call
calls =
    Call.records 0 alice (codes "app") (codes "x")
    ∷ Call.records 1 bob (codes "app") (codes "y")
    ∷ Call.looks_up 2 alice (codes "app")
    ∷ Call.records 3 (codes "carol") (codes "app") (codes "z")
    ∷ []

run_bounded_example :
    IsUnique (keys (run utf8 (new_cache 300 2) calls).entries)
    × (size (run utf8 (new_cache 300 2) calls) ≤ 2)
run_bounded_example = run_bounded utf8 300 2 calls

-- Alice is used again after Bob, so Bob gives way to Carol.
abbrev uses : List Call
uses =
    Call.records 0 alice (codes "app") (codes "x")
    ∷ Call.records 1 bob (codes "app") (codes "y")
    ∷ Call.looks_up 2 alice (codes "app")
    ∷ []

abbrev used : ProofCache
used = run utf8 (new_cache 300 2) uses

abbrev of_alice : ProofEntry
of_alice = new_entry 0 300 alice (codes "app") (codes "x")

record_proof-least_recent_example :
    Among (bob ∷ alice ∷ []) (use_order utf8 (new_cache 300 2) [] uses)
    × ((record_proof utf8 20 (codes "carol") (codes "web") (codes "fresh") used).entries
        ≡ ((alice, of_alice) ∷ [])
          ++ (codes "carol", new_entry 20 320 (codes "carol") (codes "web") (codes "fresh")) ∷ [])
    × ((record_proof utf8 20 (codes "carol") (codes "web") (codes "fresh") used).wiped
        ≡ codes "y" ∷ [])
unfolding run get str_eq
record_proof-least_recent_example =
    record_proof-least_recent utf8 300 2 uses 20 (codes "carol") (codes "web") (codes "fresh") bob
      (new_entry 1 301 bob (codes "app") (codes "y")) ((alice, of_alice) ∷ []) refl refl refl

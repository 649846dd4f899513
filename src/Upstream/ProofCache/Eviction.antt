-- ===== src/Upstream/ProofCache/Eviction.antt =====
-- What a lookup answers behind a record and an invalidation, and which entry gives way.
use mathlib.Core.Option
use aocr.Prelude.{
  ℕ, zero, suc, ◌+◌, ◌≤◌, ◌<◌, ◌≡◌, refl, ◌∙◌, ap, subst, inl, inr, true, [], ◌∷◌, ◌++◌, Option,
  none, some, arith, ltb, length, length-append, Bool-cases, Option-cases, if◌then◌else◌,
}
use aocr.Text.{Str, str_eq, contains}
use aocr.Text.Laws.{str_eq_refl, str_eq_iff, IsUnique}
use aocr.Text.Utf8.{Utf8}
use aocr.JsMap.{JsMap, get, set, keys}
use aocr.JsMap.Laws.{get-delete, set-append}
use aocr.Upstream.ProofCache.{
  ProofCache, ProofEntry, ProofLookup, evict, lookup_proof, enforce_capacity, record_proof,
  invalidate, new_entry,
}
use aocr.Upstream.ProofCache.Invariant.{IsValid, evict-head, max-evict}
use aocr.Upstream.ProofCache.Lookup.{answer_of, lookup_proof-answer_of, get-record_proof}

abbrev pub bearer_of : Option ProofLookup → Option Str
bearer_of o = Option.map (λ l. l.upstream_bearer) o

bearer_of-answer_of :
    (utf8 : Utf8) (t : ℕ) (repo : Str) (e : ProofEntry)
    → contains e.scoped_repos repo ≡ true
    → bearer_of (answer_of utf8 t repo (some e))
      ≡ (if ltb t e.expires_at then some (utf8.decode e.upstream_bearer) else none)
unfolding answer_of
bearer_of-answer_of utf8 t repo e h = ground (arith, h)

-- Behind a record in a well-formed cache with room for an entry, a lookup of that repository
-- answers the recorded bearer before the time to live is over, and nothing from then on, if the
-- bearer survives its encoding.
pub lookup_proof-record_proof :
    (utf8 : Utf8) (now t : ℕ) (identity repo bearer : Str) (c : ProofCache)
    → IsValid c
    → 0 < c.max_entries
    → utf8.decode (utf8.encode bearer) ≡ bearer
    → bearer_of (lookup_proof utf8 t identity repo (record_proof utf8 now identity repo bearer c)).0
      ≡ (if ltb t (now + c.ttl_ms) then some bearer else none)
lookup_proof-record_proof utf8 now t identity repo bearer c v pos coded =
    let (e, found, until, covers, held) = get-record_proof utf8 now identity repo bearer c v pos in
    ap bearer_of
      (lookup_proof-answer_of utf8 t identity repo (record_proof utf8 now identity repo bearer c))
    ∙ ap (λ o. bearer_of (answer_of utf8 t repo o)) found
    ∙ bearer_of-answer_of utf8 t repo e covers
    ∙ rw (until, held, coded) refl

pub get-invalidate_distinct :
    (identity j : Str) (c : ProofCache)
    → IsUnique (keys c.entries)
    → get (invalidate identity c).entries j ≡ (if str_eq identity j then none else get c.entries j)
unfolding invalidate evict
get-invalidate_distinct identity j c v = elim (Option-cases (get c.entries identity)) [
  | inl e ↦ rw (e, evict) (absent e)
  | inr (old, e) ↦ rw (e, evict) (get-delete c.entries identity j v)
]
  where
    absent :
        get c.entries identity ≡ none
        → get c.entries j ≡ (if str_eq identity j then none else get c.entries j)
    absent e = elim (Bool-cases (str_eq identity j)) [
      | inl same ↦ rw same (subst (λ k. get c.entries k ≡ none) ((str_eq_iff identity j).0 same) e)
      | inr other ↦ rw other
    ]

-- Invalidating an identity in a well-formed cache takes its entry away and leaves every other
-- entry as it is.
get-invalidate :
    (identity j : Str) (c : ProofCache)
    → IsValid c
    → get (invalidate identity c).entries j ≡ (if str_eq identity j then none else get c.entries j)
get-invalidate identity j c v = get-invalidate_distinct identity j c v.distinct

enforce_fits :
    (fuel : ℕ) (c : ProofCache) (es : JsMap ProofEntry)
    → c.entries ≡ es
    → length c.entries ≤ c.max_entries
    → enforce_capacity fuel c ≡ c
unfolding enforce_capacity
enforce_fits zero c es e h = refl
enforce_fits (suc fuel) c [] e h = ground (arith, e)
enforce_fits (suc fuel) c ((k, v) ∷ es) e h = ground (arith, e)

enforce_over :
    (fuel : ℕ) (c : ProofCache) (k : Str) (v : ProofEntry) (es : JsMap ProofEntry)
    → c.entries ≡ (k, v) ∷ es
    → length es ≡ c.max_entries
    → enforce_capacity (suc fuel) c ≡ evict c k
unfolding enforce_capacity
enforce_over fuel c k v es e h =
    let fits =
      enforce_fits fuel (evict c k) es (evict-head c k v es e)
        (ground (arith, evict-head c k v es e, max-evict c k)) in
    ground (arith, e, fits)

wiped-evict_head :
    (c : ProofCache) (k : Str) (v : ProofEntry) (rest : JsMap ProofEntry)
    → c.entries ≡ (k, v) ∷ rest
    → (evict c k).wiped ≡ c.wiped ++ v.upstream_bearer ∷ []
unfolding evict get
wiped-evict_head c k v rest e = ground (arith, str_eq_refl k)

-- Recording a new identity in a full cache evicts the first entry, wipes its bearer, and puts the new
-- entry at the end.
pub record_proof-full :
    (utf8 : Utf8) (now : ℕ) (identity repo bearer k : Str) (v : ProofEntry)
    (rest : JsMap ProofEntry) (c : ProofCache)
    → get c.entries identity ≡ none
    → c.entries ≡ (k, v) ∷ rest
    → length c.entries ≡ c.max_entries
    → ((record_proof utf8 now identity repo bearer c).entries
        ≡ rest
          ++ (identity, new_entry now (now + c.ttl_ms) identity repo (utf8.encode bearer)) ∷ [])
      × ((record_proof utf8 now identity repo bearer c).wiped ≡ c.wiped ++ v.upstream_bearer ∷ [])
unfolding record_proof
record_proof-full utf8 now identity repo bearer k v rest c fresh e full =
    let entry = new_entry now (now + c.ttl_ms) identity repo (utf8.encode bearer) in
    let es = set c.entries identity entry in
    let shape : es ≡ (k, v) ∷ (rest ++ (identity, entry) ∷ []) =
      set-append c.entries identity entry fresh ∙ ap (λ m. m ++ (identity, entry) ∷ []) e in
    let c' : ProofCache = record c { entries = es } in
    let count : length (rest ++ (identity, entry) ∷ []) ≡ c.max_entries =
      ground (arith, length-append rest ((identity, entry) ∷ [])) in
    let run : record_proof utf8 now identity repo bearer c ≡ evict c' k =
      rw (fresh, record_proof)
        (ap (λ n. enforce_capacity n c') (ap (λ (m : JsMap ProofEntry). length m) shape)
          ∙ enforce_over _ c' k v (rest ++ (identity, entry) ∷ []) shape count) in
    (
      ap (λ d. d.entries) run ∙ evict-head c' k v _ shape,
      ap (λ d. d.wiped) run ∙ wiped-evict_head c' k v _ shape,
    )

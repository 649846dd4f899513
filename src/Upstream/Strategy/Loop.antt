-- ===== src/Upstream/Strategy/Loop.antt =====
-- The loop over the routes: what it proves on success, and the cache that it leaves.
use aocr.Prelude.{
  ℕ, ◌+◌, ◌≡◌, refl, sym, subst, inl, inr, ◌⊎◌, Bool, false, List, [], ◌∷◌, Option, none, some,
  arith, Option-cases, All,
}
use aocr.Text.{Str}
use aocr.Upstream.Route.{UpstreamRoute}
use aocr.Upstream.ProofCache.{ProofCache, ProofLookup, lookup_proof, record_proof}
use aocr.Upstream.ProofCache.Lookup.{lookup_proof_iff}
use aocr.Upstream.ProofCache.Honest.{
  IsHonest, lookup_proof-IsHonest, record_proof-IsHonest, invalidate-IsHonest,
}
use aocr.Upstream.Wrap.{UpstreamCredentials}
use aocr.Upstream.Strategy.{
  World, Outcome, done, failed, Success, ProbeResult, Reason, probe_failed, probe_ok, probe_err,
  unauthorized, unreachable, unsupported, prove_routes, after_failure,
}

module _ (w : World) (i : ℕ) (identity : Str) (creds : UpstreamCredentials) (hit : Bool)
    (c : ProofCache) (r : UpstreamRoute) (routes : List UpstreamRoute) where
  abbrev looked : Option ProofLookup × ProofCache
  looked = lookup_proof w.utf8 (w.looks_at i) identity r.upstream_repo c

  pub prove-cached :
      (l : ProofLookup)
      → looked.0 ≡ some l
      → prove_routes w i identity creds hit c (r ∷ routes)
        ≡ prove_routes w (i + 1) identity creds hit looked.1 routes
  unfolding prove_routes
  prove-cached l e = rw (e, prove_routes)

  pub prove-refused :
      (reason : Reason)
      → looked.0 ≡ none
      → w.probe i r.host creds r.upstream_repo ≡ probe_err reason
      → prove_routes w i identity creds hit c (r ∷ routes)
        ≡ (failed (probe_failed reason), after_failure reason identity (w.others i looked.1))
  unfolding prove_routes
  prove-refused reason e p = rw (e, p, prove_routes)

  pub prove-probed :
      (bearer : Str)
      → looked.0 ≡ none
      → w.probe i r.host creds r.upstream_repo ≡ probe_ok bearer
      → prove_routes w i identity creds hit c (r ∷ routes)
        ≡ prove_routes w
            (i + 1)
            identity
            creds
            false
            (record_proof w.utf8
              (w.records_at i)
              identity
              r.upstream_repo
              bearer
              (w.others i looked.1))
            routes
  unfolding prove_routes
  prove-probed bearer e p = rw (e, p, prove_routes)

pub probe_cases :
    (o : ProbeResult)
    → ((bearer : Str) × (o ≡ probe_ok bearer)) ⊎ ((reason : Reason) × (o ≡ probe_err reason))
probe_cases (probe_ok bearer) = inl (bearer, refl)
probe_cases (probe_err reason) = inr (reason, refl)

module _ (P : Str → Str → Type 0) where
  after_failure-IsHonest :
      (reason : Reason) (identity : Str) (c : ProofCache)
      → IsHonest P c
      → IsHonest P (after_failure reason identity c)
  unfolding after_failure
  after_failure-IsHonest unauthorized identity c h = invalidate-IsHonest P identity c h
  after_failure-IsHonest unreachable identity c h = h
  after_failure-IsHonest unsupported identity c h = h

  -- The cache stays honest, and on success each route is proved.
  pub record Sound (identity : Str) (routes : List UpstreamRoute)
      (res : Outcome Success × ProofCache) : Type 0 where
    pub honest : IsHonest P res.1
    pub proved :
        (s : Success)
        → res.0 ≡ done s
        → All (λ (r : UpstreamRoute). P identity r.upstream_repo) routes × (s.identity ≡ identity)

  Sound-cons :
      (identity : Str) (r : UpstreamRoute) (routes : List UpstreamRoute)
      (res : Outcome Success × ProofCache)
      → P identity r.upstream_repo
      → Sound identity routes res
      → Sound identity (r ∷ routes) res
  Sound-cons identity r routes res p h = record {
    honest = h.honest;
    proved = λ s e. let (all, same) = h.proved s e in ((p, all), same);
  }

module _ (w : World) (P : Str → Str → Type 0) (creds : UpstreamCredentials) (identity : Str)
    (answers : (i : ℕ) (host repo bearer : Str)
      → w.probe i host creds repo ≡ probe_ok bearer
      → P identity repo)
    (quiet : (i : ℕ) (c : ProofCache) → IsHonest P c → IsHonest P (w.others i c)) where
  pub prove_routes-Sound :
      (i : ℕ) (hit : Bool) (c : ProofCache) (routes : List UpstreamRoute)
      → IsHonest P c
      → Sound P identity routes (prove_routes w i identity creds hit c routes)
  prove_routes-Sound i hit c [] h =
      unfold prove_routes in record { honest = h; proved = λ s e. (tt, ground (arith, e)) }
  prove_routes-Sound i hit c (r ∷ routes) h =
      let look = lookup_proof w.utf8 (w.looks_at i) identity r.upstream_repo c in
      let h' = lookup_proof-IsHonest P w.utf8 (w.looks_at i) identity r.upstream_repo c h in
      elim (Option-cases look.0) [
        | inr (l, e) ↦
            let (old, found, covers, _) =
              (lookup_proof_iff w.utf8 (w.looks_at i) identity r.upstream_repo c l).0 e in
            subst (Sound P identity (r ∷ routes))
              (sym (prove-cached w i identity creds hit c r routes l e))
              (Sound-cons P identity r routes _
                (h.backed identity old found r.upstream_repo covers.has_repo)
                (prove_routes-Sound (i + 1) hit look.1 routes h'))
        | inl e ↦ elim (probe_cases (w.probe i r.host creds r.upstream_repo)) [
          | inl (bearer, p) ↦
              let proof = answers i r.host r.upstream_repo bearer p in
              subst (Sound P identity (r ∷ routes))
                (sym (prove-probed w i identity creds hit c r routes bearer e p))
                (Sound-cons P identity r routes _ proof (
                  prove_routes-Sound (i + 1) false _ routes (
                    record_proof-IsHonest P w.utf8 (w.records_at i) identity r.upstream_repo bearer
                      (w.others i look.1) (quiet i look.1 h') proof)))
          | inr (reason, p) ↦
              subst (Sound P identity (r ∷ routes))
                (sym (prove-refused w i identity creds hit c r routes reason e p))
                (record {
                  honest =
                      after_failure-IsHonest P reason identity (w.others i look.1)
                        (quiet i look.1 h');
                  proved = λ s q. absurd (cc q);
                })
        ]
      ]

-- ===== src/Hooks/Reaper/Confirmed.antt =====
-- An image leaves the tables only behind the registry's word that its manifest is gone.
pub mod Rounds
use aocr.Prelude.{
  ℕ, ◌≡◌, refl, sym, ap, ◌∙◌, subst, ◌⊎◌, inl, inr, Bool, true, false, not, List, [], ◌∷◌, ◌++◌,
  Option, none, some, arith, ◌==◌, ==_iff, filter, any, Some, here, there, Bool-cases, Option-cases,
}
use aocr.Text.{Str, codes, is_empty, str_eq}
use aocr.Text.Laws.{str_eq_iff}
use aocr.Hooks.Registry.{
  Log, Registry, Request, Method, Reply, Fetched, unreachable, replied, head, delete, Answered, now,
  before,
}
use aocr.Hooks.Database.{Database, Image, delete_image}
use aocr.Hooks.Reaper.Selection.{Joined, Query, path_of, stale_images}
use aocr.Hooks.Reaper.Removal.{
  Env, State, Digest, unknown, absent, known, digest_of, header_or, unquote, is_gone,
  delete_request, after_digest, digest_for, get_digest_for_tag, reap_row, reap_rows,
  reap_obsolete_images,
}

-- A request about a manifest of the image's repository, by its tag or by a digest.
abbrev pub about_manifest : Method → Env → Joined → Str → Request
about_manifest method env x reference = record {
  method = method;
  url =
      env.registry_url
      ++ codes "/v2/"
      ++ (x.repository.organization ++ (b'/' ∷ x.repository.name))
      ++ codes "/manifests/"
      ++ reference;
  authorization = none;
  content = none;
}

-- The digest is the one in the row, or the one that the registry gave for the tag.
abbrev pub Names : Registry → Env → Joined → Str → Type 0
Names reg env x digest =
    (x.image.manifest_digest ≡ some digest)
    ⊎ ((log : Log) × (digest_of (reg.answer log (about_manifest head env x x.image.tag))
          ≡ known digest))

-- Among the requests of the log the registry was asked to delete the image's manifest and took it, or
-- did not know it; or it did not know the tag.
pub data Removed (reg : Registry) (env : Env) (x : Joined) (log : Log) : Type 0 where
  taken :
      (digest : Str)
      → Names reg env x digest
      → (status : ℕ) → (status ≡ 202) ⊎ ((status ≡ 204) ⊎ (status ≡ 404))
      → Answered reg (about_manifest delete env x digest) status log
      → Removed reg env x log
  no_tag : Answered reg (about_manifest head env x x.image.tag) 404 log → Removed reg env x log

module _ (reg : Registry) (env : Env) where
  abbrev asked_tag : Joined → Request
  asked_tag x = about_manifest head env x x.image.tag

  -- Where the digest of a row comes from.
  pub data Source (x : Joined) : Digest × Log → Type 0 where
    unresolved : (log : Log) → Source x (unknown, log)
    missing : (log : Log) → Answered reg (asked_tag x) 404 log → Source x (absent, log)
    named : (digest : Str) (log : Log) → Names reg env x digest → Source x (known digest, log)

  from_header :
      (x : Joined) (log : Log) (header : Option Str)
      → ((h : Str) → header ≡ some h → digest_of (reg.answer log (asked_tag x)) ≡ known (unquote h))
      → Source x (elim header [ none ↦ unknown | some h ↦ known (unquote h) ], asked_tag x ∷ log)
  from_header x log none f = unresolved _
  from_header x log (some h) f = named (unquote h) _ (inr (log, f h refl))

  asked :
      (x : Joined) (log : Log) (answer : Fetched)
      → reg.answer log (asked_tag x) ≡ answer
      → Source x (digest_of answer, asked_tag x ∷ log)
  asked x log (unreachable message) e = unresolved _
  asked x log (replied reply) e = elim (Bool-cases (reply.status == 404)) [
    | inl f ↦ rw f (missing _ (now reply e ((==_iff reply.status 404).0 f)))
    | inr f ↦
        let header =
          header_or (reply.header (codes "docker-content-digest")) (reply.header (codes "etag")) in
        rw f (from_header x log header (λ h g. ap digest_of e ∙ rw (f, g) refl))
  ]

  get_digest_for_tag-Source :
      (x : Joined) (log : Log) → Source x (get_digest_for_tag reg env (path_of x) x.image.tag log)
  unfolding get_digest_for_tag
  get_digest_for_tag-Source x log = asked x log (reg.answer log (asked_tag x)) refl

  digest_for-asked :
      (x : Joined) (log : Log)
      → ((x.image.manifest_digest ≡ none)
          ⊎ ((d : Str) × (x.image.manifest_digest ≡ some d) × (is_empty d ≡ true)))
      → digest_for reg env (path_of x) x.image log
        ≡ get_digest_for_tag reg env (path_of x) x.image.tag log
  unfolding digest_for
  digest_for-asked x log (inl e) = cc e
  digest_for-asked x log (inr (d, e, f)) = cc (e, f)

  digest_for-named :
      (x : Joined) (log : Log) (d : Str)
      → x.image.manifest_digest ≡ some d
      → is_empty d ≡ false
      → digest_for reg env (path_of x) x.image log ≡ (known d, log)
  unfolding digest_for
  digest_for-named x log d e f = cc (e, f)

  pub digest_for-Source :
      (x : Joined) (log : Log) → Source x (digest_for reg env (path_of x) x.image log)
  digest_for-Source x log = elim (Option-cases x.image.manifest_digest) [
    | inl e ↦
        subst (Source x) (sym (digest_for-asked x log (inl e))) (get_digest_for_tag-Source x log)
    | inr (d, e) ↦ elim (Bool-cases (is_empty d)) [
      | inl f ↦
          subst (Source x) (sym (digest_for-asked x log (inr (d, e, f))))
            (get_digest_for_tag-Source x log)
      | inr f ↦ subst (Source x) (sym (digest_for-named x log d e f)) (named d log (inl e))
    ]
  ]

  -- What each further request keeps of the log, a reap keeps.
  module _ (P : Log → Type 0) (more : (r : Request) (log : Log) → P log → P (r ∷ log)) where
    digest_for-log :
        (x : Joined) (log : Log) → P log → P (digest_for reg env (path_of x) x.image log).1
    unfolding digest_for get_digest_for_tag
    digest_for-log x log p = elim (Option-cases x.image.manifest_digest) [
      | inl e ↦ subst P (cc e) (more (asked_tag x) log p)
      | inr (d, e) ↦ elim (Bool-cases (is_empty d)) [
        | inl f ↦ subst P (cc (e, f)) (more (asked_tag x) log p)
        | inr f ↦ subst P (cc (e, f)) p
      ]
    ]

    after_digest-log :
        (x : Joined) (d : Digest × Log) (st : State) → P d.1 → P (after_digest reg env x d st).log
    unfolding after_digest
    after_digest-log x (unknown, log) st p = p
    after_digest-log x (absent, log) st p = elim (Bool-cases (env.postgres_up x)) [
      | inl e ↦ rw e p
      | inr e ↦ rw e p
    ]
    after_digest-log x (known digest, log) st p =
        let sent = more (delete_request reg env x digest) log p in
        elim (Bool-cases (is_gone reg env (reg.answer log (delete_request reg env x digest)))) [
          | inr e ↦ rw e sent
          | inl e ↦ elim (Bool-cases (env.postgres_up x)) [
            | inl f ↦ rw (e, f) sent
            | inr f ↦ rw (e, f) sent
          ]
        ]

    pub reap_rows-log : (xs : List Joined) (st : State) → P st.log → P (reap_rows reg env xs st).log
    unfolding reap_rows reap_row
    reap_rows-log [] st p = p
    reap_rows-log (x ∷ xs) st p =
        reap_rows-log xs (reap_row reg env x st)
          (after_digest-log x _ st (digest_for-log x st.log p))

  pub Removed-more :
      (x : Joined) (r : Request) (log : Log) → Removed reg env x log → Removed reg env x (r ∷ log)
  Removed-more x r log (taken digest n status ok a) = taken digest n status ok (before r a)
  Removed-more x r log (no_tag a) = no_tag (before r a)

  gone_status :
      (answer : Fetched)
      → is_gone reg env answer ≡ true
      → (reply : Reply) × (answer ≡ replied reply)
        × ((reply.status ≡ 202) ⊎ ((reply.status ≡ 204) ⊎ (reply.status ≡ 404)))
  gone_status (unreachable message) h = absurd (cc h)
  gone_status (replied reply) h = (
    reply,
    refl,
    elim (Bool-cases (reply.status == 202)) [
      | inl e ↦ inl ((==_iff reply.status 202).0 e)
      | inr e ↦ elim (Bool-cases (reply.status == 204)) [
        | inl f ↦ inr (inl ((==_iff reply.status 204).0 f))
        | inr f ↦ inr (inr (ground (arith, h, e, f)))
      ]
    ],
  )

  pub gone-Removed :
      (x : Joined) (digest : Str) (log : Log)
      → Names reg env x digest
      → is_gone reg env (reg.answer log (delete_request reg env x digest)) ≡ true
      → Removed reg env x (delete_request reg env x digest ∷ log)
  gone-Removed x digest log n h =
      let (reply, e, ok) = gone_status (reg.answer log (delete_request reg env x digest)) h in
      taken digest n reply.status ok (now reply e refl)

-- ===== src/Hooks/Import/Writes.antt =====
-- When an import writes a manifest, and what an answer of success means.
use aocr.Prelude.{
  ◌≡◌, refl, sym, subst, ◌⊎◌, inl, inr, Bool, true, false, ◌||◌, [], ◌∷◌, Option, none, some, ◌==◌,
  ==_iff, All, Bool-cases,
}
use aocr.Text.{Str, codes, includes}
use aocr.Hooks.Registry.{
  Request, Reply, Fetched, unreachable, replied, Log, Registry, fetch, Answered, now,
}
use aocr.Hooks.Mount.{
  Manifest, collect_blob_digests, mount_all_blobs, manifest_request, write_manifest, after_put,
}
use aocr.Hooks.Mount.Outcomes.{NoPuts, NoPuts-trans, InPlace, mount_all_blobs_lem}
use aocr.Hooks.Access.{import_authorized}
use aocr.Hooks.Import.{
  ImportBody, Validated, Checked, ok, invalid, validate, Response, answered, thrown, Parsed,
  unparseable, unusable, manifest, Env, src_repo, dst_repo, dst_tag, options_of, after_write,
  write_out, import_manifest, import_body, after_get, get_request, import_validated,
  head_manifest_digest, import_checked, import_image, is_nil, or_default, default_media_type,
  already_there,
}

abbrev is_created : Response → Bool
is_created (answered status body) = status == 201
is_created thrown = false

module _ (reg : Registry) (env : Env) (v : Validated) where
  abbrev put_request : Str → Str → Request
  put_request text media_type =
      manifest_request reg (dst_repo v) (dst_tag v) text media_type (options_of env)

  -- The mirror answered the request for the digest with this text.
  abbrev IsSource : Str → Type 0
  IsSource text =
      (log : Log) × (reply : Reply) × (reg.answer log (get_request reg env v) ≡ replied reply)
      × (reply.status ≡ 200)
      × (reply.text ≡ some text)

  -- One PUT, the last request: the text that the mirror gave for the digest goes to the cluster's
  -- tag, after every blob that it refers to is in place.
  abbrev Wrote : Log → Response × Log → Type 0
  Wrote log (response, log') =
      (text : Str) × (media_type : Str) × (m : Manifest) × (mid : Log) × (log'
        ≡ put_request text media_type ∷ mid)
      × IsSource text
      × (env.parse_json text ≡ manifest m)
      × All (InPlace reg (src_repo v) (dst_repo v) (options_of env) mid) (collect_blob_digests m)
      × NoPuts log mid
      × (is_created response ≡ true → Answered reg (put_request text media_type) 201 log')

  abbrev pub Outcome : Log → Response × Log → Type 0
  Outcome log r = ((is_created r.0 ≡ false) × NoPuts log r.1) ⊎ Wrote log r

  after_write_done :
      (text media_type : Str) (mid : Log) (answer : Fetched)
      → reg.answer mid (put_request text media_type) ≡ answer
      → ((after_write reg env v (after_put answer, put_request text media_type ∷ mid)).1
          ≡ put_request text media_type ∷ mid)
        × (is_created
                (after_write reg env v (after_put answer, put_request text media_type ∷ mid)).0
              ≡ true
            → Answered reg (put_request text media_type) 201 (put_request text media_type ∷ mid))
  unfolding after_write
  after_write_done text media_type mid (unreachable message) e = (refl, λ h. absurd (cc h))
  after_write_done text media_type mid (replied reply) e = elim (Bool-cases (reply.status == 201)) [
    | inl f ↦ rw f (refl, λ h. now reply e ((==_iff reply.status 201).0 f))
    | inr f ↦ rw f (refl, λ h. absurd (cc h))
  ]

  later : (log mid : Log) (r : Response × Log) → NoPuts log mid → Outcome mid r → Outcome log r
  later log mid r n (inl (c, k)) = inl (c, NoPuts-trans log mid r.1 n k)
  later log mid r n (inr (text, media_type, m, at, e, source, parsed, placed, k, answers)) =
      inr (text, media_type, m, at, e, source, parsed, placed, NoPuts-trans log mid at n k, answers)

  nothing_sent : (log : Log) → NoPuts log log
  nothing_sent log = ([], refl, tt)

  write_out_done :
      (text media_type : Str) (m : Manifest) (log : Log)
      → IsSource text
      → env.parse_json text ≡ manifest m
      → Outcome log (
          write_out reg env v text media_type
            (mount_all_blobs reg m (src_repo v) (dst_repo v) (options_of env) log))
  unfolding write_out write_manifest
  write_out_done text media_type m log source parsed =
      let r = mount_all_blobs reg m (src_repo v) (dst_repo v) (options_of env) log in
      let (whole, _, no_puts) =
        mount_all_blobs_lem reg m (src_repo v) (dst_repo v) (options_of env) log in
      elim (Bool-cases r.0.all_mounted) [
        | inl f ↦
            let (e, answers) = after_write_done text media_type r.1 _ refl in
            rw f (
              inr (
                text,
                media_type,
                m,
                r.1,
                e,
                source,
                parsed,
                (whole f).1,
                no_puts,
                λ h. subst (Answered reg (put_request text media_type) 201) (sym e) (answers h),
              ))
        | inr f ↦ rw f (inl (refl, no_puts))
      ]

  import_manifest_done :
      (text media_type : Str) (parsed : Parsed) (log : Log)
      → IsSource text
      → env.parse_json text ≡ parsed
      → Outcome log (import_manifest reg env v text media_type parsed log)
  unfolding import_manifest
  import_manifest_done text media_type unparseable log source e = inl (refl, nothing_sent log)
  import_manifest_done text media_type unusable log source e = inl (refl, nothing_sent log)
  import_manifest_done text media_type (manifest m) log source e =
      elim (Bool-cases (is_nil reg env v (collect_blob_digests m))) [
        | inl f ↦ rw f (inl (refl, nothing_sent log))
        | inr f ↦ rw f (write_out_done text media_type m log source e)
      ]

  import_body_done :
      (media_type : Str) (body : Option Str) (log : Log)
      → ((text : Str) → body ≡ some text → IsSource text)
      → Outcome log (import_body reg env v media_type body log)
  unfolding import_body
  import_body_done media_type none log source =
      elim (Bool-cases (
        includes media_type (codes "manifest.list") || includes media_type (codes "image.index"))) [
          | inl f ↦ rw f (inl (refl, nothing_sent log))
          | inr f ↦ rw f (inl (refl, nothing_sent log))
        ]
  import_body_done media_type (some text) log source =
      elim (Bool-cases (
        includes media_type (codes "manifest.list") || includes media_type (codes "image.index"))) [
          | inl f ↦ rw f (inl (refl, nothing_sent log))
          | inr f ↦ rw f (import_manifest_done text media_type _ log (source text refl) refl)
        ]

  after_get_done :
      (old log : Log) (answer : Fetched)
      → reg.answer old (get_request reg env v) ≡ answer
      → Outcome log (after_get reg env v (answer, log))
  unfolding after_get
  after_get_done old log (unreachable message) e = inl (refl, nothing_sent log)
  after_get_done old log (replied reply) e = elim (Bool-cases (reply.status == 404)) [
    | inl f ↦ rw f (inl (refl, nothing_sent log))
    | inr f ↦ elim (Bool-cases (reply.status == 200)) [
      | inl g ↦
          rw (f, g)
            (import_body_done (or_default (reply.header (codes "content-type")) default_media_type)
              reply.text log (λ text t. (old, reply, e, (==_iff reply.status 200).0 g, t)))
      | inr g ↦ rw (f, g) (inl (refl, nothing_sent log))
    ]
  ]

  import_validated_done : (log : Log) → Outcome log (import_validated reg env v log)
  unfolding import_validated head_manifest_digest
  import_validated_done log =
      let existing = (head_manifest_digest reg env.registry_url (dst_repo v) (dst_tag v) log).0 in
      let log' = (head_manifest_digest reg env.registry_url (dst_repo v) (dst_tag v) log).1 in
      elim (Bool-cases (already_there reg env v existing)) [
        | inl f ↦ rw f (inl (refl, (_ ∷ [], refl, (refl, tt))))
        | inr f ↦ rw f (
            later log (get_request reg env v ∷ log')
              (after_get reg env v (fetch reg log' (get_request reg env v)))
              (_ ∷ _ ∷ [], refl, (refl, (refl, tt)))
              (after_get_done log' (get_request reg env v ∷ log') _ refl))
      ]

-- Refused with nothing sent, or an authorized import of a valid body.
abbrev pub ImportOutcome : Registry → Env → Option Str → ImportBody → Log → Response × Log → Type 0
ImportOutcome reg env authorization body log r =
    ((is_created r.0 ≡ false) × (r.1 ≡ log))
    ⊎ ((import_authorized env.internal_api_token authorization ≡ true)
        × (v : Validated) × (validate body ≡ ok v)
        × Outcome reg env v log r)

import_checked_done :
    (reg : Registry) (env : Env) (authorization : Option Str) (body : ImportBody) (log : Log)
    → import_authorized env.internal_api_token authorization ≡ true
    → (c : Checked Validated) → validate body ≡ c
    → ImportOutcome reg env authorization body log (import_checked reg env c log)
unfolding import_checked
import_checked_done reg env authorization body log a (invalid message) e = inl (refl, refl)
import_checked_done reg env authorization body log a (ok v) e =
    inr (a, v, e, import_validated_done reg env v log)

import_image_open :
    (reg : Registry) (env : Env) (authorization : Option Str) (body : ImportBody) (log : Log)
    → import_authorized env.internal_api_token authorization ≡ true
    → import_image reg env authorization body log ≡ import_checked reg env (validate body) log
unfolding import_image
import_image_open reg env authorization body log a = rw a refl

import_image_shut :
    (reg : Registry) (env : Env) (authorization : Option Str) (body : ImportBody) (log : Log)
    → import_authorized env.internal_api_token authorization ≡ false
    → (is_created (import_image reg env authorization body log).0 ≡ false)
      × ((import_image reg env authorization body log).1 ≡ log)
unfolding import_image
import_image_shut reg env authorization body log a = rw a (refl, refl)

-- An import that the caller may not make, or whose body is not valid, sends nothing. Any other sends
-- no PUT and does not answer 201, or ends with one PUT, and then answers 201 only if the registry
-- answered 201 to it. The PUT writes, under the cluster's tag, the text that the mirror gave for the
-- digest, and before it every blob of that manifest was mounted, or was in the destination.
pub import_image_lem :
    (reg : Registry) (env : Env) (authorization : Option Str) (body : ImportBody) (log : Log)
    → ImportOutcome reg env authorization body log (import_image reg env authorization body log)
import_image_lem reg env authorization body log =
    elim (Bool-cases (import_authorized env.internal_api_token authorization)) [
      | inr a ↦ inl (import_image_shut reg env authorization body log a)
      | inl a ↦
          subst (ImportOutcome reg env authorization body log)
            (sym (import_image_open reg env authorization body log a))
            (import_checked_done reg env authorization body log a (validate body) refl)
    ]

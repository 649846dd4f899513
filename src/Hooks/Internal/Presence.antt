-- ===== src/Hooks/Internal/Presence.antt =====
-- What an answer about a blob rests on.
use aocr.Prelude.{◌≡◌, refl, subst, inl, inr, ◌∷◌, Option, ◌==◌, ==_iff, if◌then◌else◌, Bool-cases}
use aocr.Text.{Str}
use aocr.Text.Regex.{test}
use aocr.Hooks.Registry.{Fetched, unreachable, replied, Log, Registry, Answered, now}
use aocr.Hooks.Patterns.{digest_pattern, is_valid_repo_path}
use aocr.Hooks.Access.{internal_authorized}
use aocr.Hooks.Internal.{
  BlobPresence, Body, error, presence, Env, blob_request, after_blob_head, blob_presence,
}

-- An answer on a blob, and the reply that it rests on.
abbrev pub Rests : Registry → Env → Str → Str → Log → BlobPresence → Type 0
Rests reg env repository digest log p =
    (p.digest ≡ digest)
    × (p.repository ≡ repository)
    × Answered reg (blob_request env repository digest) (if p.present then 200 else 404) log

-- What a body that is a report rests on.
abbrev BodyRests : Registry → Env → Str → Str → Log → Body → Type 0
BodyRests reg env repository digest log (error message) = Unit
BodyRests reg env repository digest log (presence p) = Rests reg env repository digest log p

after_blob_head_done :
    (reg : Registry) (env : Env) (repository digest : Str) (log : Log) (answer : Fetched)
    → reg.answer log (blob_request env repository digest) ≡ answer
    → BodyRests reg env repository digest
        (blob_request env repository digest ∷ log)
        (after_blob_head env repository digest answer).body
unfolding after_blob_head
after_blob_head_done reg env repository digest log (unreachable message) e = tt
after_blob_head_done reg env repository digest log (replied reply) e =
    elim (Bool-cases (reply.status == 200)) [
      | inl f ↦ rw f (refl, refl, now reply e ((==_iff reply.status 200).0 f))
      | inr f ↦ elim (Bool-cases (reply.status == 404)) [
        | inl g ↦ rw (f, g) (refl, refl, now reply e ((==_iff reply.status 404).0 g))
        | inr g ↦ rw (f, g) tt
      ]
    ]

blob_presence_done :
    (reg : Registry) (env : Env) (authorization : Option Str) (repository digest : Str) (log : Log)
    → BodyRests reg env repository digest
        (blob_presence reg env authorization repository digest log).1
        (blob_presence reg env authorization repository digest log).0.body
unfolding blob_presence
blob_presence_done reg env authorization repository digest log =
    elim (Bool-cases (internal_authorized env.internal_api_token authorization)) [
      | inr a ↦ rw a tt
      | inl a ↦ elim (Bool-cases (test digest_pattern digest)) [
        | inr d ↦ rw (a, d) tt
        | inl d ↦ elim (Bool-cases (is_valid_repo_path repository)) [
          | inr r ↦ rw (a, d, r) tt
          | inl r ↦ rw (a, d, r) (after_blob_head_done reg env repository digest log _ refl)
        ]
      ]
    ]

-- A report names the blob that was asked for; it says that the blob is present only if the registry
-- answered 200 to the request for it, and that it is not only if the registry answered 404.
pub blob_presence_sound :
    (reg : Registry) (env : Env) (authorization : Option Str) (repository digest : Str) (log : Log)
    (p : BlobPresence)
    → (blob_presence reg env authorization repository digest log).0.body ≡ presence p
    → Rests reg env repository digest
        (blob_presence reg env authorization repository digest log).1
        p
blob_presence_sound reg env authorization repository digest log p h =
    subst
      (BodyRests reg env repository digest
        (blob_presence reg env authorization repository digest log).1)
      h (blob_presence_done reg env authorization repository digest log)

-- ===== src/Hooks/Mount/Outcomes.antt =====
-- What mounting promises: which blobs are in place, and which requests were made.
use aocr.Prelude.{
  ℕ, ◌≡◌, refl, sym, ap, ◌∙◌, subst, ◌⊎◌, inl, inr, Bool, true, false, List, [], ◌∷◌, ◌++◌, map,
  ◌==◌, append_assoc, append-nil, map-append, All, All-append, Bool-cases, ==_iff,
}
use aocr.Text.{Str}
use aocr.Hooks.Registry.{
  Method, get, head, post, put, delete, Request, Fetched, unreachable, replied, Log, Registry,
  Answered, now, before, Answered-append,
}
use aocr.Hooks.Mount.{
  MountOutcome, MountAllResult, Options, is_failed, mount_request, head_request, after_mount,
  after_head, mount_blob, mount_each, Manifest, collect_blob_digests, mount_all_blobs,
}

abbrev is_put : Method → Bool
is_put put = true
is_put get = false
is_put head = false
is_put post = false
is_put delete = false

abbrev pub digest_of : MountOutcome → Str
digest_of o = o.digest

-- The requests after a point of the log, of which none is a PUT.
abbrev pub NoPuts : Log → Log → Type 0
NoPuts old new =
    (sent : Log) × (new ≡ sent ++ old) × All (λ (r : Request). is_put r.method ≡ false) sent

pub NoPuts-trans : (a b c : Log) → NoPuts a b → NoPuts b c → NoPuts a c
NoPuts-trans a b c (s, e, h) (t, f, k) =
    (t ++ s, f ∙ ap (λ l. t ++ l) e ∙ sym (append_assoc t s a), All-append _ t s k h)

Answered-NoPuts :
    (reg : Registry) (req : Request) (status : ℕ) (old new : Log)
    → NoPuts old new
    → Answered reg req status old
    → Answered reg req status new
Answered-NoPuts reg req status old new (sent, e, h) a =
    subst (Answered reg req status) (sym e) (Answered-append reg req status sent old a)

module _ (reg : Registry) (src_repo dst_repo : Str) (opts : Options) where
  -- The registry mounted the blob, or did not find it to mount and has it in the destination.
  abbrev pub InPlace : Log → Str → Type 0
  InPlace log digest =
      Answered reg (mount_request reg src_repo dst_repo opts digest) 201 log
      ⊎ (Answered reg (mount_request reg src_repo dst_repo opts digest) 404 log
          × Answered reg (head_request reg src_repo dst_repo opts digest) 200 log)

  InPlace-NoPuts :
      (old new : Log) (digest : Str) → NoPuts old new → InPlace old digest → InPlace new digest
  InPlace-NoPuts old new digest n (inl a) = inl (Answered-NoPuts reg _ _ old new n a)
  InPlace-NoPuts old new digest n (inr (a, b)) =
      inr (Answered-NoPuts reg _ _ old new n a, Answered-NoPuts reg _ _ old new n b)

  abbrev BlobDone : Str → Log → MountOutcome × Log → Type 0
  BlobDone digest log (o, log') =
      (o.digest ≡ digest) × (is_failed o.status ≡ false → InPlace log' digest) × NoPuts log log'

  head_done :
      (digest : Str) (log : Log) (answer : Fetched)
      → reg.answer log (head_request reg src_repo dst_repo opts digest) ≡ answer
      → Answered reg (mount_request reg src_repo dst_repo opts digest) 404 log
      → ((after_head reg src_repo dst_repo opts digest answer).digest ≡ digest)
        × (is_failed (after_head reg src_repo dst_repo opts digest answer).status ≡ false
            → InPlace (head_request reg src_repo dst_repo opts digest ∷ log) digest)
  unfolding after_head
  head_done digest log (unreachable message) e a = (refl, λ h. absurd (cc h))
  head_done digest log (replied reply) e a = elim (Bool-cases (reply.status == 200)) [
    | inl f ↦ rw f (refl, λ h. inr (before _ a, now reply e ((==_iff reply.status 200).0 f)))
    | inr f ↦ rw f (refl, λ h. absurd (cc h))
  ]

  after_mount_done :
      (digest : Str) (log : Log) (answer : Fetched)
      → reg.answer log (mount_request reg src_repo dst_repo opts digest) ≡ answer
      → BlobDone digest log (
          after_mount reg src_repo dst_repo opts digest answer
            (mount_request reg src_repo dst_repo opts digest ∷ log))
  unfolding after_mount
  after_mount_done digest log (unreachable message) e =
      (refl, λ h. absurd (cc h), (_ ∷ [], refl, (refl, tt)))
  after_mount_done digest log (replied reply) e = elim (Bool-cases (reply.status == 201)) [
    | inl f ↦
        rw f
          (refl, λ h. inl (now reply e ((==_iff reply.status 201).0 f)), (_ ∷ [], refl, (refl, tt)))
    | inr f ↦ elim (Bool-cases (reply.status == 202)) [
      | inl g ↦ rw (f, g) (refl, λ h. absurd (cc h), (_ ∷ [], refl, (refl, tt)))
      | inr g ↦ elim (Bool-cases (reply.status == 404)) [
        | inl k ↦
            let (same, placed) =
              head_done digest _ _ refl (now reply e ((==_iff reply.status 404).0 k)) in
            rw (f, g, k) (same, placed, (_ ∷ _ ∷ [], refl, (refl, (refl, tt))))
        | inr k ↦ rw (f, g, k) (refl, λ h. absurd (cc h), (_ ∷ [], refl, (refl, tt)))
      ]
    ]
  ]

  mount_blob_done :
      (digest : Str) (log : Log)
      → BlobDone digest log (mount_blob reg src_repo dst_repo opts digest log)
  unfolding mount_blob
  mount_blob_done digest log = after_mount_done digest log _ refl

  -- What the loop promises of the blobs that are left: all in place, or one that failed after some
  -- that did not.
  abbrev Finished : List Str → List MountOutcome → Log → MountAllResult × Log → Type 0
  Finished digests outcomes log (r, log') =
      (r.all_mounted ≡ true
        → (map digest_of r.outcomes ≡ map digest_of outcomes ++ digests)
          × All (InPlace log') digests)
      × (r.all_mounted ≡ false
          → (done : List MountOutcome) × (last : MountOutcome) × (rest : List Str) × (r.outcomes
              ≡ outcomes ++ (done ++ (last ∷ [])))
            × (map digest_of (done ++ (last ∷ [])) ++ rest ≡ digests)
            × All (λ (o : MountOutcome). is_failed o.status ≡ false) done
            × (is_failed last.status ≡ true))
      × NoPuts log log'

  mount_each_failed :
      (digest : Str) (digests : List Str) (outcomes : List MountOutcome) (log : Log)
      → is_failed (mount_blob reg src_repo dst_repo opts digest log).0.status ≡ true
      → mount_each reg src_repo dst_repo opts (digest ∷ digests) outcomes log ≡ (
        record {
          outcomes = outcomes ++ ((mount_blob reg src_repo dst_repo opts digest log).0 ∷ []);
          all_mounted = false;
        },
        (mount_blob reg src_repo dst_repo opts digest log).1,
      )
  unfolding mount_each
  mount_each_failed digest digests outcomes log f = rw f refl

  mount_each_next :
      (digest : Str) (digests : List Str) (outcomes : List MountOutcome) (log : Log)
      → is_failed (mount_blob reg src_repo dst_repo opts digest log).0.status ≡ false
      → mount_each reg src_repo dst_repo opts (digest ∷ digests) outcomes log
        ≡ mount_each reg src_repo dst_repo opts digests
            (outcomes ++ ((mount_blob reg src_repo dst_repo opts digest log).0 ∷ []))
            (mount_blob reg src_repo dst_repo opts digest log).1
  unfolding mount_each
  mount_each_next digest digests outcomes log f = rw f refl

  mount_each_done :
      (digests : List Str) (outcomes : List MountOutcome) (log : Log)
      → Finished digests outcomes log (mount_each reg src_repo dst_repo opts digests outcomes log)
  mount_each_done [] outcomes log =
      unfold mount_each in (λ h. (sym (append-nil _), tt), λ h. absurd (cc h), ([], refl, tt))
  mount_each_done (digest ∷ digests) outcomes log =
      let b = mount_blob reg src_repo dst_repo opts digest log in
      let (same, placed, none_put) = mount_blob_done digest log in
      elim (Bool-cases (is_failed b.0.status)) [
        | inl f ↦
            subst (Finished (digest ∷ digests) outcomes log)
              (sym (mount_each_failed digest digests outcomes log f))
              (
                λ h. absurd (cc h),
                λ h. ([], b.0, digests, refl, ap (λ d. d ∷ digests) same, tt, f),
                none_put,
              )
        | inr f ↦
            let (whole, partial, more) = mount_each_done digests (outcomes ++ (b.0 ∷ [])) b.1 in
            subst (Finished (digest ∷ digests) outcomes log)
              (sym (mount_each_next digest digests outcomes log f))
              (
                λ h.
                    let (e, a) = whole h in
                    (
                      e
                          ∙ ap (λ l. l ++ digests) (map-append digest_of outcomes (b.0 ∷ []))
                          ∙ append_assoc (map digest_of outcomes) _ digests
                          ∙ ap (λ d. map digest_of outcomes ++ (d ∷ digests)) same,
                      (InPlace-NoPuts _ _ digest more (placed f), a),
                    ),
                λ h.
                    let (done, last, rest, e, k, fine, bad) = partial h in
                    (
                      b.0 ∷ done,
                      last,
                      rest,
                      e ∙ append_assoc outcomes (b.0 ∷ []) (done ++ (last ∷ [])),
                      ap (λ d. d ∷ (map digest_of (done ++ (last ∷ [])) ++ rest)) same
                          ∙ ap (λ l. digest ∷ l) k,
                      (f, fine),
                      bad,
                    ),
                NoPuts-trans log b.1 _ none_put more,
              )
      ]

-- The blobs of a manifest, in its order: either all are in place, with an outcome for each, or the
-- outcomes end at the first that failed. No request is a PUT.
pub mount_all_blobs_lem :
    (reg : Registry) (m : Manifest) (src_repo dst_repo : Str) (opts : Options) (log : Log)
    → Finished reg src_repo dst_repo opts
        (collect_blob_digests m)
        []
        log
        (mount_all_blobs reg m src_repo dst_repo opts log)
unfolding mount_all_blobs
mount_all_blobs_lem reg m src_repo dst_repo opts log =
    mount_each_done reg src_repo dst_repo opts (collect_blob_digests m) [] log

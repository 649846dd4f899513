-- ===== src/Hooks/Mount.antt =====
-- hooks/src/util/mountFromRepo.ts: the blobs of a manifest are mounted from one repository into
-- another, and the manifest is written there.
pub mod Digests
pub mod Outcomes
use aocr.Prelude.{
  ℕ, ◌-◌, Bool, true, false, ◌||◌, List, [], ◌∷◌, ◌++◌, Option, none, some, ◌==◌, if◌then◌else◌,
  length, take,
}
use aocr.Text.{Str, codes, is_empty, ends_with, contains}
use aocr.Hooks.Registry.{
  get, head, post, put, Content, Request, Reply, Fetched, unreachable, replied, Log, Registry,
  fetch, show_number,
}

-- ManifestDescriptor and Manifest, by the fields that are read.
pub record Descriptor : Type 0 where
  pub digest : Option Str

pub record Manifest : Type 0 where
  pub config : Option Descriptor
  pub layers : Option (List Descriptor)
  pub manifests : Option (List Descriptor)

pub data MountStatus : Type 0 where
  mounted present failed : MountStatus

pub record MountOutcome : Type 0 where
  pub digest : Str
  pub status : MountStatus
  pub detail : Option Str

pub record MountAllResult : Type 0 where
  pub outcomes : List MountOutcome
  pub all_mounted : Bool

pub record Options : Type 0 where
  pub registry_url : Str
  pub authorization : Option Str

-- The time limit of a request is part of `fetch`'s answer.
unfoldable pub trim_slash : Str → Str
unfolding ends_with
trim_slash s = if ends_with s (codes "/") then take (length s - 1) s else s

-- `if (opts.authorization)`
abbrev set_header : Option Str → Option Str
set_header none = none
set_header (some value) = if is_empty value then none else some value

abbrev pub is_failed : MountStatus → Bool
is_failed failed = true
is_failed mounted = false
is_failed present = false

module _ (reg : Registry) (src_repo dst_repo : Str) (opts : Options) where
  abbrev pub mount_request : Str → Request
  mount_request digest = record {
    method = post;
    url =
        trim_slash opts.registry_url
        ++ codes "/v2/"
        ++ dst_repo
        ++ codes "/blobs/uploads/?mount="
        ++ reg.encode_uri digest
        ++ codes "&from="
        ++ reg.encode_uri src_repo;
    authorization = set_header opts.authorization;
    content = none;
  }

  abbrev pub head_request : Str → Request
  head_request digest = record {
    method = head;
    url =
        trim_slash opts.registry_url
        ++ codes "/v2/"
        ++ dst_repo
        ++ codes "/blobs/"
        ++ reg.encode_uri digest;
    authorization = set_header opts.authorization;
    content = none;
  }

  abbrev outcome_with : Str → MountStatus → Option Str → MountOutcome
  outcome_with digest status detail = record { digest = digest; status = status; detail = detail }

  not_found : Str → MountOutcome
  not_found digest = outcome_with digest failed (some (codes "source blob not found in registry"))

  unfoldable pub after_head : Str → Fetched → MountOutcome
  unfolding not_found
  after_head digest (unreachable message) = not_found digest
  after_head digest (replied reply) =
      if reply.status == 200 then outcome_with digest present none else not_found digest

  unfoldable pub after_mount : Str → Fetched → Log → MountOutcome × Log
  unfolding after_head show_number
  after_mount digest (unreachable message) log =
      (outcome_with digest failed (some (codes "network error: " ++ message)), log)
  after_mount digest (replied reply) log =
      if reply.status == 201
      then (outcome_with digest mounted none, log)
      else if reply.status == 202
      then (
        outcome_with digest failed (some (codes "mount declined; full upload would be required")),
        log,
      )
      else if reply.status == 404
      then (let (head_reply, log') = fetch reg log (head_request digest) in
          (after_head digest head_reply, log'))
      else (
        outcome_with digest failed (some (codes "unexpected status " ++ show_number reply.status)),
        log,
      )

  unfoldable pub mount_blob : Str → Log → MountOutcome × Log
  unfolding after_mount
  mount_blob digest log =
      let (reply, log') = fetch reg log (mount_request digest) in after_mount digest reply log'

  -- The loop of `mountAllBlobs`: it stops at the first failure.
  unfoldable pub mount_each : List Str → List MountOutcome → Log → MountAllResult × Log
  unfolding mount_blob
  mount_each [] outcomes log = (record { outcomes = outcomes; all_mounted = true }, log)
  mount_each (digest ∷ digests) outcomes log =
      let outcome = (mount_blob digest log).0 in
      let rest = mount_each digests (outcomes ++ (outcome ∷ [])) (mount_blob digest log).1 in
      if is_failed outcome.status
      then (
        record { outcomes = outcomes ++ (outcome ∷ []); all_mounted = false },
        (mount_blob digest log).1,
      )
      else rest

-- `push` of `collectBlobDigests`, over the set of the digests seen and the list of them
unfoldable pub push_digest : List Str × List Str → Option Descriptor → List Str × List Str
unfolding contains
push_digest (seen, out) none = (seen, out)
push_digest (seen, out) (some d) = elim d.digest [
  | none ↦ (seen, out)
  | some digest ↦
      if is_empty digest
      then (seen, out)
      else if contains seen digest
      then (seen, out)
      else (digest ∷ seen, out ++ (digest ∷ []))
]

unfoldable pub push_all : List Str × List Str → List Descriptor → List Str × List Str
unfolding push_digest
push_all state [] = state
push_all state (d ∷ ds) = push_all (push_digest state (some d)) ds

abbrev pub or_nil : Option (List Descriptor) → List Descriptor
or_nil none = []
or_nil (some ds) = ds

unfoldable pub collect_blob_digests : Manifest → List Str
unfolding push_digest push_all
collect_blob_digests manifest =
    (push_all (push_all (push_digest ([], []) manifest.config) (or_nil manifest.layers))
      (or_nil manifest.manifests)).1

unfoldable pub mount_all_blobs :
    Registry → Manifest → Str → Str → Options → Log → MountAllResult × Log
unfolding collect_blob_digests mount_each
mount_all_blobs reg manifest src_repo dst_repo opts log =
    mount_each reg src_repo dst_repo opts (collect_blob_digests manifest) [] log

-- What `writeManifest` returns; none where its `fetch` throws.
pub record WriteManifestResult : Type 0 where
  pub digest : Option Str
  pub status : ℕ
  pub body : Option Str

abbrev pub manifest_request : Registry → Str → Str → Str → Str → Options → Request
manifest_request reg dst_repo tag manifest_body media_type opts = record {
  method = put;
  url =
      trim_slash opts.registry_url
      ++ codes "/v2/"
      ++ dst_repo
      ++ codes "/manifests/"
      ++ reg.encode_uri tag;
  authorization = set_header opts.authorization;
  content = some (record { media_type = media_type; text = manifest_body });
}

abbrev pub after_put : Fetched → Option WriteManifestResult
after_put (unreachable message) = none
after_put (replied reply) = some (record {
  digest = reply.header (codes "docker-content-digest");
  status = reply.status;
  body = reply.text;
})

unfoldable pub write_manifest :
    Registry → Str → Str → Str → Str → Options → Log → Option WriteManifestResult × Log
unfolding trim_slash
write_manifest reg dst_repo tag manifest_body media_type opts log =
    let (reply, log') =
      fetch reg log (manifest_request reg dst_repo tag manifest_body media_type opts) in
    (after_put reply, log')

-- ===== src/Hooks/Import.antt =====
-- hooks/src/controllers/ImportAPI.ts: a manifest that the mirror has cached is copied into a
-- cluster's namespace.
pub mod Writes
pub mod Target
pub mod Recorded
use aocr.Prelude.{
  ℕ, Bool, true, false, not, ◌||◌, ◌&&◌, List, [], ◌∷◌, ◌++◌, Option, none, some, ◌==◌,
  if◌then◌else◌,
}
use aocr.Text.{Str, codes, str_eq, is_empty, includes}
use aocr.Text.Regex.{test}
use aocr.Auth.ClusterPat.{cluster_id_pattern}
use aocr.Hooks.Registry.{
  get, head, Request, Reply, Fetched, unreachable, replied, Log, Registry, fetch, show_number,
}
use aocr.Hooks.Mount.{
  Manifest, MountOutcome, MountAllResult, Options, WriteManifestResult, collect_blob_digests,
  mount_all_blobs, write_manifest,
}
use aocr.Hooks.Patterns.{
  digest_pattern, host_pattern, tag_pattern, suffix_pattern, is_valid_repo_path, to_lower_case,
}
use aocr.Hooks.Access.{import_authorized}

-- A field of the body, of which each is missing if there is no body: not there, null, a text, or another value.
pub data Field : Type 0 where
  missing null other : Field
  text : Str → Field

pub record ImportBody : Type 0 where
  pub upstream_host : Field
  pub upstream_repo : Field
  pub upstream_tag : Field
  pub upstream_digest : Field
  pub cluster_id : Field
  pub target_tag_suffix : Field

pub record Validated : Type 0 where
  pub upstream_host : Str
  pub upstream_repo : Str
  pub upstream_tag : Str
  pub upstream_digest : Str
  pub cluster_id : Str
  pub tag_suffix : Str

abbrev pub default_tag_suffix : Str
default_tag_suffix = codes "--idle-90d"

-- A value, or the error's text.
pub data Checked {ℓ} (A : Type ℓ) : Type ℓ where
  ok : A → Checked A
  invalid : Str → Checked A

infixl 5 ◌>>=◌
abbrev pub ◌>>=◌ {ℓ κ} : {A : Type ℓ} {B : Type κ} → Checked A → (A → Checked B) → Checked B
ok a >>= f = f a
invalid e >>= f = invalid e

-- `typeof field !== "string" || !test(field)`
abbrev pub require : (Str → Bool) → Str → Field → Checked Str
require accepts error (text s) = if accepts s then ok s else invalid error
require accepts error missing = invalid error
require accepts error null = invalid error
require accepts error other = invalid error

abbrev pub suffix_of : Field → Checked Str
suffix_of missing = ok default_tag_suffix
suffix_of null = ok default_tag_suffix
suffix_of other = invalid (codes "invalid target_tag_suffix")
suffix_of (text s) =
    if test suffix_pattern s then ok s else invalid (codes "invalid target_tag_suffix")

unfoldable pub validate : ImportBody → Checked Validated
unfolding test host_pattern is_valid_repo_path tag_pattern digest_pattern cluster_id_pattern
    suffix_pattern
validate body = do
  host ← require (test host_pattern) (codes "invalid upstream_host") body.upstream_host
  repo ← require is_valid_repo_path (codes "invalid upstream_repo") body.upstream_repo
  tag ← require (test tag_pattern) (codes "invalid upstream_tag") body.upstream_tag
  digest ← require (test digest_pattern) (codes "invalid upstream_digest") body.upstream_digest
  cluster ← require (test cluster_id_pattern) (codes "invalid cluster_id") body.cluster_id
  suffix ← suffix_of body.target_tag_suffix
  ok (record {
    upstream_host = to_lower_case host;
    upstream_repo = repo;
    upstream_tag = tag;
    upstream_digest = to_lower_case digest;
    cluster_id = cluster;
    tag_suffix = suffix;
  })

pub record Done : Type 0 where
  pub imported : Bool
  pub already_present : Bool
  pub target_repository : Str
  pub target_tag : Str
  pub target_ref : Str
  pub digest : Str

pub data Body : Type 0 where
  error : Str → Body
  mount_failed : List MountOutcome → Body
  put_failed : Str → Option Str → Body
  finished : Done → Body

-- A status and a body, or an exception that the handler lets through.
pub data Response : Type 0 where
  answered : ℕ → Body → Response
  thrown : Response

-- `JSON.parse`: an exception, a value whose fields cannot be read as a manifest's, or a manifest.
pub data Parsed : Type 0 where
  unparseable unusable : Parsed
  manifest : Manifest → Parsed

pub record Env : Type 0 where
  pub internal_api_token : Option Str
  pub registry_url : Str
  pub parse_json : Str → Parsed

unfoldable pub src_repo : Validated → Str
src_repo v = codes "mirror/" ++ (v.upstream_host ++ (b'/' ∷ v.upstream_repo))

unfoldable pub dst_repo : Validated → Str
dst_repo v =
    codes "cluster/"
    ++ (v.cluster_id ++ (codes "/_imported/" ++ (v.upstream_host ++ (b'/' ∷ v.upstream_repo))))

unfoldable pub dst_tag : Validated → Str
dst_tag v = v.upstream_tag ++ v.tag_suffix

abbrev done_body : Validated → Bool → Str → Body
done_body v is_new digest = finished (record {
  imported = is_new;
  already_present = not is_new;
  target_repository = dst_repo v;
  target_tag = dst_tag v;
  target_ref = dst_repo v ++ (b':' ∷ dst_tag v);
  digest = digest;
})

-- headManifestDigest
abbrev manifest_digest_of : Fetched → Option Str
manifest_digest_of (unreachable message) = none
manifest_digest_of (replied reply) =
    if reply.status == 200 then reply.header (codes "docker-content-digest") else none

unfoldable pub head_manifest_digest : Registry → Str → Str → Str → Log → Option Str × Log
head_manifest_digest reg registry_url repo tag log =
    let (answer, log') = fetch reg log (record {
      method = head;
      url = registry_url ++ codes "/v2/" ++ repo ++ codes "/manifests/" ++ reg.encode_uri tag;
      authorization = none;
      content = none;
    }) in
    (manifest_digest_of answer, log')

abbrev pub or_default : Option Str → Str → Str
or_default none fallback = fallback
or_default (some s) fallback = if is_empty s then fallback else s

abbrev pub default_media_type : Str
default_media_type = codes "application/vnd.docker.distribution.manifest.v2+json"

abbrev pub options_of : Env → Options
options_of env = record { registry_url = env.registry_url; authorization = none }

module _ (reg : Registry) (env : Env) (v : Validated) where
  unfoldable pub after_write : Option WriteManifestResult × Log → Response × Log
  unfolding show_number
  after_write (none, log) = (thrown, log)
  after_write (some write, log) =
      if not (write.status == 201)
      then (
        answered 502
            (put_failed (codes "manifest_put_failed_" ++ show_number write.status) write.body),
        log,
      )
      else (answered 201 (done_body v true (or_default write.digest v.upstream_digest)), log)

  unfoldable pub write_out : Str → Str → MountAllResult × Log → Response × Log
  unfolding after_write write_manifest
  write_out body media_type (result, log) =
      if not result.all_mounted
      then (answered 502 (mount_failed result.outcomes), log)
      else after_write
          (write_manifest reg (dst_repo v) (dst_tag v) body media_type (options_of env) log)

  abbrev is_nil : List Str → Bool
  is_nil [] = true
  is_nil (d ∷ ds) = false

  unfoldable pub import_manifest : Str → Str → Parsed → Log → Response × Log
  unfolding write_out mount_all_blobs collect_blob_digests
  import_manifest body media_type unparseable log =
      (answered 502 (error (codes "registry_returned_invalid_manifest")), log)
  import_manifest body media_type unusable log = (thrown, log)
  import_manifest body media_type (manifest m) log =
      if is_nil (collect_blob_digests m)
      then (answered 502 (error (codes "manifest_references_no_blobs")), log)
      else write_out body media_type
          (mount_all_blobs reg m (src_repo v) (dst_repo v) (options_of env) log)

  unfoldable pub import_body : Str → Option Str → Log → Response × Log
  unfolding import_manifest includes
  import_body media_type body log =
      if includes media_type (codes "manifest.list") || includes media_type (codes "image.index")
      then (answered 501 (error (codes "multi_arch_not_implemented")), log)
      else elim body [
        | none ↦ (thrown, log)
        | some content ↦ import_manifest content media_type (env.parse_json content) log
      ]

  unfoldable pub after_get : Fetched × Log → Response × Log
  unfolding import_body show_number
  after_get (unreachable message, log) = (answered 502 (error (codes "registry_unreachable")), log)
  after_get (replied reply, log) =
      if reply.status == 404
      then (answered 404 (error (codes "source_manifest_not_found")), log)
      else if not (reply.status == 200)
      then (answered 502 (error (codes "registry_status_" ++ show_number reply.status)), log)
      else import_body (or_default (reply.header (codes "content-type")) default_media_type)
          reply.text log

  abbrev pub get_request : Request
  get_request = record {
    method = get;
    url =
        env.registry_url ++ codes "/v2/" ++ src_repo v ++ codes "/manifests/" ++ v.upstream_digest;
    authorization = none;
    content = none;
  }

  -- `existingDigest && existingDigest.toLowerCase() === v.upstreamDigest`
  unfoldable pub already_there : Option Str → Bool
  unfolding str_eq
  already_there none = false
  already_there (some digest) =
      not (is_empty digest) && str_eq (to_lower_case digest) v.upstream_digest

  unfoldable pub import_validated : Log → Response × Log
  unfolding after_get already_there head_manifest_digest
  import_validated log =
      let (existing, log') =
        head_manifest_digest reg env.registry_url (dst_repo v) (dst_tag v) log in
      if already_there existing
      then (answered 200 (done_body v false v.upstream_digest), log')
      else after_get (fetch reg log' get_request)

unfoldable pub import_checked : Registry → Env → Checked Validated → Log → Response × Log
unfolding import_validated
import_checked reg env (invalid message) log = (answered 400 (error message), log)
import_checked reg env (ok v) log = import_validated reg env v log

unfoldable pub import_image : Registry → Env → Option Str → ImportBody → Log → Response × Log
unfolding import_checked validate import_authorized
import_image reg env authorization body log =
    if not (import_authorized env.internal_api_token authorization)
    then (answered 401 (error (codes "unauthorized")), log)
    else import_checked reg env (validate body) log

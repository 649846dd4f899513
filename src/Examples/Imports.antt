-- ===== src/Examples/Imports.antt =====
-- An import into a cluster's namespace, from the request to the tables.
use aocr.Prelude.{length, ◌==◌, ℕ, ◌≡◌, ◌↔◌, refl, inl, true, false, [], ◌∷◌, Option, none, some}
use aocr.Text.{Str, codes, is_empty, unique}
use aocr.Text.Prefix.{InNamespace}
use aocr.Auth.ClusterPat.{own_namespace}
use aocr.Hooks.Registry.{get, head, post, put, delete, Fetched, replied, Registry, Method}
use aocr.Hooks.Mount.{Manifest, Descriptor, collect_blob_digests}
use aocr.Hooks.Mount.Digests.{references, collect_blob_digests-unique}
use aocr.Hooks.Access.{import_authorized}
use aocr.Hooks.Access.Laws.{Presents, import_authorized_iff}
use aocr.Hooks.Import.{
  ImportBody, missing, text, Validated, validate, ok, Env, manifest, import_image, dst_repo,
  dst_tag,
}
use aocr.Hooks.Import.Writes.{ImportOutcome, import_image_lem}
use aocr.Hooks.Import.Target.{import_namespace}
use aocr.Hooks.Import.Recorded.{IsSnapshot, snapshot_of, import-Recorded}
use aocr.Hooks.Database.{Image}
use aocr.Hooks.Events
use aocr.Hooks.Events.{Moment, push_event}
use aocr.Hooks.Events.Effects.{Recorded, repository_id}
use aocr.Hooks.Provenance.{cluster_snapshot, inferred_provenance}
use aocr.Hooks.TagRetention.{by_idle, TagMatch, exec_tag}
use aocr.Hooks.TagRetention.Exec.{IsRetentionTag, exec_tag_iff}

abbrev digest_text : Str
digest_text = codes "sha256:0123456789abcdef0123456789abcdef0123456789abcdef0123456789abcdef"

abbrev body : ImportBody
body = record {
  upstream_host = text (codes "docker.io");
  upstream_repo = text (codes "library/alpine");
  upstream_tag = text (codes "3.20");
  upstream_digest = text digest_text;
  cluster_id = text (codes "edge-1");
  target_tag_suffix = missing;
}

abbrev valid : Validated
valid = record {
  upstream_host = codes "docker.io";
  upstream_repo = codes "library/alpine";
  upstream_tag = codes "3.20";
  upstream_digest = digest_text;
  cluster_id = codes "edge-1";
  tag_suffix = codes "--idle-90d";
}

body_valid : validate body ≡ ok valid
unfolding validate
body_valid = refl

abbrev layer : Descriptor
layer = record { digest = some digest_text }

abbrev image_manifest : Manifest
image_manifest = record {
  config = some layer;
  layers = some (layer ∷ record { digest = some (codes "sha256:aa") } ∷ []);
  manifests = none;
}

abbrev reply : ℕ → Option Str → Fetched
reply status body = replied (record { status = status; header = λ name. none; text = body })

-- The destination has no tag yet; the mirror has the manifest and mounts every blob.
abbrev by_method : Method → Fetched
by_method head = reply 404 none
by_method get = reply 200 (some (codes "{}"))
by_method post = reply 201 none
by_method put = reply 201 none
by_method delete = reply 405 none

abbrev registry : Registry
registry = record { answer = λ log request. by_method request.method; encode_uri = λ s. s }

abbrev env : Env
env = record {
  internal_api_token = some (codes "secret");
  registry_url = codes "http://registry:5000";
  parse_json = λ s. manifest image_manifest;
}

abbrev header : Option Str
header = some (codes "Bearer secret")

import_image_lem_example :
    ImportOutcome registry env header body [] (import_image registry env header body [])
import_image_lem_example = import_image_lem registry env header body []

import_namespace_example :
    InNamespace (own_namespace (codes "edge-1")) (dst_repo valid)
    × (name : Str) × (inferred_provenance (some (dst_repo valid))
        ≡ some (record {
          provenance = cluster_snapshot;
          organization = codes "cluster";
          name = name;
          cluster_id = some (codes "edge-1");
          upstream_ref = none;
        }))
import_namespace_example = import_namespace body valid body_valid

-- A cluster whose id is a UUID.
abbrev cluster : Str
cluster = codes "11111111-2222-4333-8444-555555555555"

abbrev uuid_body : ImportBody
uuid_body = record body { cluster_id = text cluster }

abbrev uuid_valid : Validated
uuid_valid = record valid { cluster_id = cluster }

uuid_body_valid : validate uuid_body ≡ ok uuid_valid
unfolding validate
uuid_body_valid = refl

abbrev uuids : Events.Env
uuids = record { is_uuid = λ s. length s == 36 }

abbrev moment : Moment
moment = record {
  now = 5000;
  fresh_repository = codes "r1";
  fresh_image = codes "i1";
  postgres_up = true;
}

abbrev blank : Events.State
blank = record { db = record { repositories = []; images = [] }; cached = []; to_reap = [] }

import-Recorded_example :
    (name : Str) × (row : Image) × IsSnapshot uuid_valid row
    × Recorded
        (snapshot_of cluster name)
        (repository_id moment (snapshot_of cluster name) blank)
        (dst_tag uuid_valid)
        row
        blank
        (push_event uuids moment (dst_repo uuid_valid) (dst_tag uuid_valid) none blank)
import-Recorded_example =
    import-Recorded uuid_body uuid_valid uuids moment none blank uuid_body_valid (inl refl) refl
      refl

import_authorized_iff_example : (import_authorized (some (codes "secret")) header ≡ true) ↔ (
    (token : Str) × (h : Str) × (some (codes "secret") ≡ some token)
    × (header ≡ some h)
    × (is_empty token ≡ false)
    × Presents token h)
import_authorized_iff_example = import_authorized_iff (some (codes "secret")) header

abbrev idle_tag : TagMatch
idle_tag = record { stem = codes "3.20"; kind = by_idle; suffix = codes "90d" }

exec_tag_iff_example :
    (exec_tag (codes "3.20--idle-90d") ≡ some idle_tag)
    ↔ IsRetentionTag (codes "3.20--idle-90d") idle_tag
exec_tag_iff_example = exec_tag_iff (codes "3.20--idle-90d") idle_tag

collect_blob_digests-unique_example :
    collect_blob_digests image_manifest ≡ unique (references image_manifest)
collect_blob_digests-unique_example = collect_blob_digests-unique image_manifest

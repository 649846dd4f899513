-- ===== src/Hooks/Import/Recorded.antt =====
-- What the push of an import leaves in the tables.
use aocr.Prelude.{◌≡◌, refl, ap, ◌⊎◌, true, Option, none, some}
use aocr.Text.{Str, codes}
use aocr.Hooks.Provenance.{InferredProvenance, cluster_snapshot}
use aocr.Hooks.TagRetention.{idle}
use aocr.Hooks.Database.{Image}
use aocr.Hooks.Events.{Env, Moment, State, push_event, integer_of, timestamp_of, uuid_of}
use aocr.Hooks.Events.Effects.{Recorded, repository_id, pushed_row, push_event-Recorded}
use aocr.Hooks.Import.{missing, null, ImportBody, Validated, ok, validate, dst_repo, dst_tag}
use aocr.Hooks.Import.Target.{import_namespace, import_retention}

-- A snapshot of the cluster, of ninety days of idle time, without an end.
abbrev pub IsSnapshot : Validated → Image → Type 0
IsSnapshot v row =
    (row.tag ≡ dst_tag v)
    × (row.provenance ≡ cluster_snapshot)
    × (row.cluster_id ≡ some v.cluster_id)
    × (row.retention_mode ≡ idle)
    × (row.retention_value_seconds ≡ some 7776000)
    × (row.expires_at ≡ none)

abbrev pub snapshot_of : Str → Str → InferredProvenance
snapshot_of id name = record {
  provenance = cluster_snapshot;
  organization = codes "cluster";
  name = name;
  cluster_id = some id;
  upstream_ref = none;
}

-- The push of a valid import that names no suffix, to its destination and its tag, where the cluster's
-- id is one that a UUID column takes and Postgres carries the statements out, is recorded as a snapshot
-- of the cluster that lasts for ninety days of idle time: the row is that of the tag, or renews its
-- old row, and no other row is changed.
pub import-Recorded :
    (body : ImportBody) (v : Validated) (env : Env) (at : Moment) (digest : Option Str) (st : State)
    → validate body ≡ ok v
    → (body.target_tag_suffix ≡ missing) ⊎ (body.target_tag_suffix ≡ null)
    → env.is_uuid v.cluster_id ≡ true
    → at.postgres_up ≡ true
    → (name : Str) × (row : Image) × IsSnapshot v row
      × Recorded
          (snapshot_of v.cluster_id name)
          (repository_id at (snapshot_of v.cluster_id name) st)
          (dst_tag v)
          row
          st
          (push_event env at (dst_repo v) (dst_tag v) digest st)
import-Recorded body v env at digest st valid absent uuid up =
    let (_, name, path) = import_namespace body v valid in
    let retention = import_retention body v valid at.now absent in
    let parsed = snapshot_of v.cluster_id name in
    let id = repository_id at parsed st in
    let cluster : uuid_of env (some v.cluster_id) ≡ some (some v.cluster_id) = cc uuid in
    (
      name,
      pushed_row at id (dst_tag v) digest parsed (some 7776000) none (some v.cluster_id),
      (refl, refl, refl, ap (λ r. r.retention_mode) retention, refl, refl),
      push_event-Recorded env at (dst_repo v) (dst_tag v) digest st parsed (some 7776000) none
          (some v.cluster_id) path (ap (λ r. integer_of r.retention_value_seconds) retention)
          (ap (λ r. timestamp_of r.expires_at) retention) cluster up,
    )

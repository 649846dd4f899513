-- ===== src/Hooks/Reaper/Job.antt =====
-- A call of `reapObsoleteImages`: its settings, its query, its loop; and that it fits the
-- notifications that trigger it.
use aocr.Prelude.{ℕ, List, [], ◌∷◌, Option, Bool}
use aocr.Text.{Str}
use aocr.Hooks.Registry.{Log, Registry}
use aocr.Hooks.Database.{Database}
use aocr.Hooks.Database.Keys.{IsSound}
use aocr.Hooks.Events.{Moment, Event, process_registry_events}
use aocr.Hooks.Events
use aocr.Hooks.Events.Invariant.{process_registry_events-IsSound}
use aocr.Hooks.Reaper.Settings.{
  Numbers, parse_mirror_default_idle_seconds, parse_mirror_upstream_retention_map,
  parse_protected_namespaces, normalize_repository_ids,
}
use aocr.Hooks.Reaper.Selection.{Joined, Query}
use aocr.Hooks.Reaper.Removal
use aocr.Hooks.Reaper.Removal.{reap_obsolete_images}
use aocr.Hooks.Reaper.Kept.{reap_obsolete_images-keeps}

-- The environment variables of the reaper, and the collation of the database.
pub record Setting : Type 0 where
  pub mirror_default_idle_seconds : Option Str
  pub mirror_upstream_retention_json : Option Str
  pub wasm_std_namespace : Option Str
  pub retention_protected_namespaces : Option Str
  pub tag_before : Str → Str → Bool
  pub row_before : Joined → Joined → Bool

unfoldable build_query : Numbers → Setting → List Str → ℕ → Query
unfolding parse_mirror_default_idle_seconds parse_mirror_upstream_retention_map
    parse_protected_namespaces normalize_repository_ids
build_query js s repository_ids now = record {
  now = now;
  repository_ids = normalize_repository_ids repository_ids;
  mirror_default_idle_seconds = parse_mirror_default_idle_seconds js s.mirror_default_idle_seconds;
  mirror_overrides = parse_mirror_upstream_retention_map js s.mirror_upstream_retention_json;
  protected_namespaces =
      parse_protected_namespaces s.wasm_std_namespace s.retention_protected_namespaces;
  tag_before = s.tag_before;
  row_before = s.row_before;
}

-- `reap` for one repository after a batch, at some moment, with the registry's log so far.
unfoldable pub reap_repository :
    Numbers → Registry → Removal.Env → Setting → ℕ → Log → Str → Database → Database
unfolding build_query reap_obsolete_images
reap_repository js reg env s now log id db =
    (reap_obsolete_images reg env (build_query js s (id ∷ []) now)
      (record { db = db; log = log; uncached = [] })).1.db

-- A batch of notifications with the reaps that it triggers keeps paths unique, tags unique in their
-- repository, and every image with a repository.
pub reap_repository-IsSound :
    (js : Numbers) (reg : Registry) (env : Removal.Env) (s : Setting) (now : ℕ) (log : Log)
    (events_env : Events.Env) (events : List (Moment × Event)) (db : Database)
    → IsSound db
    → IsSound (process_registry_events events_env (reap_repository js reg env s now log) events db)
unfolding reap_repository
reap_repository-IsSound js reg env s now log events_env events db sound =
    process_registry_events-IsSound events_env (reap_repository js reg env s now log) events db
      (λ id db k.
        (reap_obsolete_images-keeps reg env (build_query js s (id ∷ []) now)
            (record { db = db; log = log; uncached = [] })).4
          k)
      sound

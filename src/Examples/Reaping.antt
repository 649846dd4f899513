-- ===== src/Examples/Reaping.antt =====
-- Notifications, reaps and the schedule on a small registry.
use aocr.Prelude.{
  ◌↔◌, ℕ, suc, ◌≤◌, ◌≢◌, Option-cases, Bool-cases, inl, inr, ◌≡◌, refl, arith, true, false, not, [],
  ◌∷◌, none, some, filter, any, length, All, Some,
}
use aocr.Text.{Str, codes, str_eq, contains, is_empty}
use aocr.Text.Laws.{Lacks}
use aocr.Text.Prefix.{InNamespace, in_namespace}
use aocr.Hooks.Registry.{head, delete, get, post, put, Method, Fetched, replied, Log, Registry}
use aocr.Hooks.Provenance.{
  InferredProvenance, inferred_provenance, pushed, cluster_snapshot, from_push,
}
use aocr.Hooks.TagRetention.{keep_latest, parse_tag_retention}
use aocr.Hooks.Database.{Repository, Image, Database, is_under, upsert_repository}
use aocr.Hooks.Database.Keys.{IsSound}
use aocr.Hooks.Events
use aocr.Hooks.Events.{Moment, Event, process_registry_events, row_of, push_event, pull_event}
use aocr.Hooks.Events.Effects.{Recorded, push_event-Recorded, push_event_lost}
use aocr.Hooks.Internal
use aocr.Hooks.Internal.{BlobPresence, presence, blob_presence}
use aocr.Hooks.Internal.Presence.{Rests, blob_presence_sound}
use aocr.Hooks.Reaper.Selection.{
  Joined, Query, joined, path_of, is_protected, stale_images, is_expired_idle,
}
use aocr.Hooks.Reaper.Guard.{IsPlain, is_protected-in_namespace, stale_images_unprotected}
use aocr.Hooks.Reaper.Removal
use aocr.Hooks.Reaper.Removal.{reap_obsolete_images, digest_for, unknown}
use aocr.Hooks.Reaper.Like.{token}
use aocr.Hooks.Reaper.Confirmed.{Removed}
use aocr.Hooks.Reaper.Confirmed.Rounds.{Confirmed, reap_obsolete_images-Confirmed}
use aocr.Hooks.Reaper.Kept.{ids_of, reap_obsolete_images-keeps}
use aocr.Hooks.Reaper.Complete.{Cooperates, IsGone, reap_obsolete_images-IsGone}
use aocr.Hooks.Reaper.Reasons.{IsObsolete, stale_images_sound}
use aocr.Hooks.Reaper.Pulled.{pull_event-is_expired_idle}
use aocr.Hooks.Schedule.{idle_cron, on_tick, on_end, Reach, start, next, tick}
use aocr.Hooks.Schedule.Runs.{IsExclusive, Reach-IsExclusive, Reach-on_tick}

abbrev app : Repository
app = record { id = codes "r1"; organization = codes "org"; name = codes "app" }

abbrev image : Str → Str → ℕ → Image
image id tag at = record {
  id = id;
  repository_id = codes "r1";
  tag = tag;
  created_at = at;
  last_pushed_at = at;
  last_pulled_at = none;
  retention_mode = keep_latest;
  retention_value_seconds = none;
  expires_at = none;
  raw_retention_suffix = none;
  manifest_digest = some (codes "sha256:aa");
  provenance = pushed;
  cluster_id = none;
  upstream_ref = none;
}

abbrev old_image : Image
old_image = image (codes "i1") (codes "v1") 1000

abbrev new_image : Image
new_image = image (codes "i2") (codes "v2") 2000

abbrev tables : Database
tables = record { repositories = app ∷ []; images = old_image ∷ new_image ∷ [] }

abbrev by_method : Method → Fetched
by_method head =
    replied (record { status = 200; header = λ name. some (codes "sha256:aa"); text = none })
by_method get = replied (record { status = 404; header = λ name. none; text = none })
by_method post = replied (record { status = 202; header = λ name. none; text = none })
by_method put = replied (record { status = 201; header = λ name. none; text = none })
by_method delete = replied (record { status = 202; header = λ name. none; text = none })

abbrev registry : Registry
registry = record { answer = λ log request. by_method request.method; encode_uri = λ s. s }

abbrev query : Query
query = record {
  now = 10000;
  repository_ids = [];
  mirror_default_idle_seconds = 60;
  mirror_overrides = [];
  protected_namespaces = codes "wasm/std" ∷ [];
  tag_before = λ s t. false;
  row_before = λ x y. true;
}

-- The older of the two images is listed.
listed : stale_images query tables ≡ record { image = old_image; repository = app } ∷ []
unfolding stale_images
listed = refl

stale_images_sound_example :
    All
      (λ x. IsObsolete query (joined tables) x.image × (is_protected query (path_of x) ≡ false))
      (stale_images query tables)
stale_images_sound_example = stale_images_sound query tables

stale_images_unprotected_example :
    All
      (λ x.
        (ns : Str)
        → contains (codes "wasm/std" ∷ []) ns ≡ true
        → Lacks b'\\' ns
        → InNamespace ns (path_of x)
        → ⊥)
      (stale_images query tables)
stale_images_unprotected_example = stale_images_unprotected query tables

IsPlain-std : All IsPlain (codes "wasm/std" ∷ [])
unfolding token
IsPlain-std = ((refl, (refl, (refl, (refl, (refl, (refl, (refl, (refl, tt)))))))), tt)

is_protected-in_namespace_example :
    is_protected query (codes "wasm/stdlib/x")
    ≡ any (λ ns. in_namespace ns (codes "wasm/stdlib/x")) (codes "wasm/std" ∷ [])
is_protected-in_namespace_example =
    is_protected-in_namespace query (codes "wasm/stdlib/x") IsPlain-std

abbrev removal : Removal.Env
removal = record { registry_url = codes "http://registry:5000"; postgres_up = λ x. true }

abbrev before : Removal.State
before = record { db = tables; log = []; uncached = [] }

reap_obsolete_images-keeps_example :
    (length (stale_images query tables) ≤ 500)
    × ((reap_obsolete_images registry removal query before).0 ≡ length (stale_images query tables))
    × (filter
          (λ i. not (contains (ids_of (stale_images query tables)) i.id))
          (reap_obsolete_images registry removal query before).1.db.images
        ≡ filter (λ i. not (contains (ids_of (stale_images query tables)) i.id)) tables.images)
    × ((reap_obsolete_images registry removal query before).1.db.repositories ≡ app ∷ [])
    × (IsSound tables → IsSound (reap_obsolete_images registry removal query before).1.db)
reap_obsolete_images-keeps_example = reap_obsolete_images-keeps registry removal query before

resolves :
    (x : Joined) (log : Log) → (digest_for registry removal (path_of x) x.image log).0 ≢ unknown
unfolding digest_for
resolves x log h = elim (Option-cases x.image.manifest_digest) [
  | inl e ↦ absurd (cc (e, h))
  | inr (digest, e) ↦ elim (Bool-cases (is_empty digest)) [
    | inl f ↦ absurd (cc (e, f, h))
    | inr f ↦ absurd (cc (e, f, h))
  ]
]

cooperates : Cooperates registry removal
cooperates = record { stored = λ x. refl; resolved = resolves; accepted = λ x digest log. refl }

reap_obsolete_images-IsGone_example :
    All
      (λ x.
        IsGone x.image.id (reap_obsolete_images registry removal query before).1.db
        × Removed registry removal x (reap_obsolete_images registry removal query before).1.log)
      (stale_images query tables)
reap_obsolete_images-IsGone_example =
    reap_obsolete_images-IsGone registry removal cooperates query before

reap_obsolete_images-Confirmed_example :
    Some
      (Confirmed registry removal
        (codes "i1")
        (reap_obsolete_images registry removal query before).1.log)
      (stale_images query tables)
unfolding reap_obsolete_images
reap_obsolete_images-Confirmed_example =
    reap_obsolete_images-Confirmed registry removal (codes "i1") query before refl refl

abbrev moment : Moment
moment = record {
  now = 5000;
  fresh_repository = codes "r9";
  fresh_image = codes "i9";
  postgres_up = true;
}

-- A UUID column that takes no label.
abbrev events_env : Events.Env
events_env = record { is_uuid = λ s. false }

abbrev state : Events.State
state = record { db = tables; cached = []; to_reap = [] }

abbrev org_app : InferredProvenance
org_app = from_push (codes "org") (codes "app")

abbrev row_v3 : Image
row_v3 = record (image (codes "i9") (codes "v3") 5000) {
  manifest_digest = some (codes "sha256:bb");
}

push_event-Recorded_example :
    Recorded org_app
      (codes "r1")
      (codes "v3")
      row_v3
      state
      (push_event events_env moment (codes "org/app") (codes "v3") (some (codes "sha256:bb")) state)
unfolding inferred_provenance parse_tag_retention upsert_repository
push_event-Recorded_example =
    push_event-Recorded events_env moment (codes "org/app") (codes "v3") (some (codes "sha256:bb"))
      state org_app none none none refl refl refl refl refl

abbrev edge : InferredProvenance
edge = record {
  provenance = cluster_snapshot;
  organization = codes "cluster";
  name = codes "edge-1/snap";
  cluster_id = some (codes "edge-1");
  upstream_ref = none;
}

push_event_lost_example :
    (push_event events_env moment (codes "cluster/edge-1/snap") (codes "v1") none state).db ≡ tables
unfolding inferred_provenance
push_event_lost_example =
    push_event_lost events_env moment (codes "cluster/edge-1/snap") (codes "v1") none state edge
      (codes "edge-1") refl refl refl

pull_event-is_expired_idle_example :
    All
      (λ i.
        is_under (app ∷ []) (codes "org") (codes "app") i ≡ true
        → str_eq i.tag (codes "v1") ≡ true
        → i.retention_value_seconds ≡ some 7200
        → is_expired_idle query i ≡ false)
      (pull_event moment (codes "org/app") (codes "v1") state).db.images
unfolding inferred_provenance
pull_event-is_expired_idle_example =
    pull_event-is_expired_idle moment (codes "org/app") (codes "v1") state org_app query 7200 refl
      refl (omega arith)

abbrev internal : Internal.Env
internal = record {
  internal_api_token = some (codes "secret");
  registry_url = codes "http://registry:5000";
  to_number = λ s. none;
}

abbrev digest : Str
digest = codes "sha256:0123456789abcdef0123456789abcdef0123456789abcdef0123456789abcdef"

abbrev found : BlobPresence
found = record { present = true; digest = digest; repository = codes "org/app"; size_bytes = none }

is_found :
    (blob_presence registry internal
      (some (codes "Token secret"))
      (codes "org/app")
      digest
      []).0.body
    ≡ presence found
unfolding blob_presence
is_found = refl

blob_presence_sound_example :
    Rests registry internal
      (codes "org/app")
      digest
      (blob_presence registry internal (some (codes "Token secret")) (codes "org/app") digest []).1
      found
blob_presence_sound_example =
    blob_presence_sound registry internal (some (codes "Token secret")) (codes "org/app") digest []
      found is_found

ticked : Reach (on_tick idle_cron)
ticked = next (start idle_cron refl) (tick idle_cron (on_tick idle_cron) refl)

Reach-IsExclusive_example : IsExclusive (on_tick idle_cron)
Reach-IsExclusive_example = Reach-IsExclusive ticked

Reach-on_tick_example :
    (((on_tick (on_tick idle_cron)).skipped ≡ suc (on_tick idle_cron).skipped)
      ↔ ((on_tick idle_cron).in_progress ≡ 1))
    × (((on_tick (on_tick idle_cron)).started ≡ suc (on_tick idle_cron).started)
        ↔ ((on_tick idle_cron).in_progress ≡ 0))
    × ((on_tick (on_tick idle_cron)).in_progress ≡ 1)
    × ((on_tick (on_end (on_tick idle_cron))).started ≡ suc (on_tick idle_cron).started)
    × ((on_tick (on_end (on_tick idle_cron))).in_progress ≡ 1)
Reach-on_tick_example = Reach-on_tick (on_tick idle_cron) ticked

-- ===== src/Hooks/Events/Invariant.antt =====
-- Notifications keep the invariant of the tables.
use aocr.Prelude.{◌≡◌, refl, inl, inr, List, [], ◌∷◌, Option, none, some, Bool-cases, Option-cases}
use aocr.Text.{Str}
use aocr.Hooks.Provenance.{InferredProvenance, inferred_provenance}
use aocr.Hooks.TagRetention.{ParsedTagRetention, parse_tag_retention}
use aocr.Hooks.Database.{Image, Database, upsert_repository}
use aocr.Hooks.Database.Keys.{IsSound, delete_manifest-IsSound, update_last_pulled_at-IsSound}
use aocr.Hooks.Database.Rows.{upsert-IsSound}
use aocr.Hooks.Events.{
  Event, Moment, Env, State, Request, skip, push, delete, pull, row_of, integer_of, timestamp_of,
  uuid_of, record_push, push_event, delete_event, pull_event, apply_request, request_of,
  process_event, store_row, delete_path, pull_path, on_path, cache_push, start, process_events,
  reap_each, process_registry_events,
}

-- The row refers to the repository that it was made for, under the tag.
row_of_key :
    (env : Env) (at : Moment) (id tag : Str) (digest : Option Str) (retention : ParsedTagRetention)
    (parsed : InferredProvenance) (row : Image)
    → row_of env at id tag digest retention parsed ≡ some row
    → (row.repository_id ≡ id) × (row.tag ≡ tag)
unfolding row_of
row_of_key env at id tag digest retention parsed row h =
    elim (Option-cases (integer_of retention.retention_value_seconds)) [
      | inl a ↦ absurd (cc (a, h))
      | inr (seconds, a) ↦ elim (Option-cases (timestamp_of retention.expires_at)) [
        | inl b ↦ absurd (cc (a, b, h))
        | inr (expires, b) ↦ elim (Option-cases (uuid_of env parsed.cluster_id)) [
          | inl c ↦ absurd (cc (a, b, c, h))
          | inr (cluster, c) ↦ (cc (a, b, c, h), cc (a, b, c, h))
        ]
      ]
    ]

store_row-IsSound :
    (at : Moment) (o n : Str) (st : State) (row : Option Image)
    → ((i : Image)
        → row ≡ some i
        → i.repository_id ≡ (upsert_repository at.fresh_repository o n st.db.repositories).0)
    → IsSound st.db
    → IsSound
        (store_row at
          (upsert_repository at.fresh_repository o n st.db.repositories).0
          (upsert_repository at.fresh_repository o n st.db.repositories).1
          st
          row).db
store_row-IsSound at o n st none h s = s
store_row-IsSound at o n st (some row) h s = elim (Bool-cases at.postgres_up) [
  | inr f ↦ rw f s
  | inl f ↦ rw f (upsert-IsSound at.fresh_repository o n row st.db (h row refl) s)
]

record_push-IsSound :
    (env : Env) (at : Moment) (tag : Str) (digest : Option Str) (retention : ParsedTagRetention)
    (parsed : InferredProvenance) (st : State)
    → IsSound st.db
    → IsSound (record_push env at tag digest retention parsed st).db
unfolding record_push
record_push-IsSound env at tag digest retention parsed st s =
    store_row-IsSound at parsed.organization parsed.name st _
      (λ row e. (row_of_key env at _ tag digest retention parsed row e).0) s

on_path-IsSound :
    (f : InferredProvenance → State → State) (st : State) (o : Option InferredProvenance)
    → ((p : InferredProvenance) → IsSound (f p st).db)
    → IsSound st.db
    → IsSound (on_path f st o).db
on_path-IsSound f st none h s = s
on_path-IsSound f st (some p) h s = h p

apply_request-IsSound :
    (env : Env) (at : Moment) (q : Request) (st : State)
    → IsSound st.db
    → IsSound (apply_request env at q st).db
unfolding apply_request
apply_request-IsSound env at skip st s = s
apply_request-IsSound env at (push image tag digest) st s =
    unfold push_event in
    on_path-IsSound (record_push env at tag digest (parse_tag_retention tag at.now))
      (cache_push at image tag st) (inferred_provenance (some image))
      (λ p.
        record_push-IsSound env at tag digest (parse_tag_retention tag at.now) p
          (cache_push at image tag st) s)
      s
apply_request-IsSound env at (delete image digest) st s =
    unfold delete_event in
    on_path-IsSound (delete_path at digest) st (inferred_provenance (some image))
      (λ p. elim (Bool-cases at.postgres_up) [
        | inl f ↦ rw f (delete_manifest-IsSound p.organization p.name digest st.db s)
        | inr f ↦ rw f s
      ])
      s
apply_request-IsSound env at (pull image tag) st s =
    unfold pull_event in
    on_path-IsSound (pull_path at tag) st (inferred_provenance (some image))
      (λ p. elim (Bool-cases at.postgres_up) [
        | inl f ↦ rw f (update_last_pulled_at-IsSound p.organization p.name tag at.now st.db s)
        | inr f ↦ rw f s
      ])
      s

process_events-IsSound :
    (env : Env) (events : List (Moment × Event)) (st : State)
    → IsSound st.db
    → IsSound (process_events env events st).db
unfolding process_events process_event
process_events-IsSound env [] st s = s
process_events-IsSound env ((at, e) ∷ rest) st s =
    process_events-IsSound env rest (process_event env at e st)
      (apply_request-IsSound env at (request_of e) st s)

reap_each-IsSound :
    (reap : Str → Database → Database)
    → ((id : Str) (db : Database) → IsSound db → IsSound (reap id db))
    → (ids : List Str) (db : Database) → IsSound db
    → IsSound (reap_each reap ids db)
unfolding reap_each
reap_each-IsSound reap keeps [] db s = s
reap_each-IsSound reap keeps (id ∷ ids) db s =
    reap_each-IsSound reap keeps ids (reap id db) (keeps id db s)

-- Any batch of notifications, whatever of it Postgres carries out, leaves the tables with unique
-- paths and unique tags in a repository, and every image with its repository, if reaping does.
pub process_registry_events-IsSound :
    (env : Env) (reap : Str → Database → Database) (events : List (Moment × Event)) (db : Database)
    → ((id : Str) (db : Database) → IsSound db → IsSound (reap id db))
    → IsSound db
    → IsSound (process_registry_events env reap events db)
unfolding process_registry_events
process_registry_events-IsSound env reap events db keeps s =
    reap_each-IsSound reap keeps (process_events env events (start db)).to_reap _
      (process_events-IsSound env events (start db) s)

-- ===== src/Hooks/Events/Effects.antt =====
-- What a push and a pull leave in the tables.
use aocr.Prelude.{
  ℕ, ltb, any, ◌+◌, ◌≤◌, ◌≡◌, refl, sym, ap, ◌∙◌, subst, inl, inr, true, false, ◌&&◌, List, [], ◌∷◌,
  Option, none, some, arith, map, All, Bool, not, filter, Bool-cases, Option-cases, if◌then◌else◌,
}
use aocr.Text.{Str, contains, str_eq}
use aocr.Text.Laws.{contains-append, str_eq_refl}
use aocr.Hooks.Provenance.{InferredProvenance, inferred_provenance}
use aocr.Hooks.TagRetention.{parse_tag_retention, ParsedTagRetention}
use aocr.Hooks.Database.{
  Repository, Image, coalesce, upsert_repository, upsert_image, is_named, is_under, one_hour,
  pull_row, update_last_pulled_at,
}
use aocr.Hooks.Database.Keys.{pull_row-KeepsKey}
use aocr.Hooks.Database.Rows.{
  find_image, merged, find_image-upsert_image, has_path, upsert_repository-has_path,
  upsert_repository-others,
}
use aocr.Hooks.Events.{
  Env, Moment, State, row_of, record_push, push_event, pull_event, pull_path, add, store_row,
  on_path, cache_push, integer_of, timestamp_of, uuid_of,
}

-- The row of a pushed tag, where nothing was there before.
abbrev pub pushed_row :
    Moment → Str → Str → Option Str → InferredProvenance → Option ℕ → Option ℕ → Option Str → Image
pushed_row at id tag digest parsed seconds expires cluster =
    let retention = parse_tag_retention tag at.now in
    record {
      id = at.fresh_image;
      repository_id = id;
      tag = tag;
      created_at = at.now;
      last_pushed_at = at.now;
      last_pulled_at = none;
      retention_mode = retention.retention_mode;
      retention_value_seconds = seconds;
      expires_at = expires;
      raw_retention_suffix = retention.raw_retention_suffix;
      manifest_digest = digest;
      provenance = parsed.provenance;
      cluster_id = cluster;
      upstream_ref = parsed.upstream_ref;
    }

-- The new row, or the old one renewed: it keeps its id, its creation and its last pull, and what the
-- push does not know of the digest, the cluster and the upstream.
abbrev pub renewed : Image → Option Image → Image
renewed new none = new
renewed new (some old) = record {
  id = old.id;
  repository_id = old.repository_id;
  tag = old.tag;
  created_at = old.created_at;
  last_pushed_at = new.last_pushed_at;
  last_pulled_at = old.last_pulled_at;
  retention_mode = new.retention_mode;
  retention_value_seconds = new.retention_value_seconds;
  expires_at = new.expires_at;
  raw_retention_suffix = new.raw_retention_suffix;
  manifest_digest = coalesce new.manifest_digest old.manifest_digest;
  provenance = new.provenance;
  cluster_id = coalesce new.cluster_id old.cluster_id;
  upstream_ref = coalesce new.upstream_ref old.upstream_ref;
}

-- The tables after a push of the tag: the path has a row with the id and all other rows of
-- repositories stand as they were; the id's tag has the pushed row, or the old one renewed, and every
-- other tag has what it had; and the repository is to be reaped.
abbrev pub Recorded : InferredProvenance → Str → Str → Image → State → State → Type 0
Recorded parsed id tag row st st' =
    let other : Repository → Bool = λ r. not (is_named parsed.organization parsed.name r) in
    (has_path id parsed.organization parsed.name st'.db.repositories ≡ true)
    × (filter other st'.db.repositories ≡ filter other st.db.repositories)
    × ((r t : Str)
        → find_image r t st'.db.images ≡ (
            if str_eq id r && str_eq tag t
            then some (renewed row (find_image id tag st.db.images))
            else find_image r t st.db.images))
    × (contains st'.to_reap id ≡ true)

renewed-merged : (new : Image) (old : Option Image) → merged new old ≡ renewed new old
renewed-merged new none = refl
renewed-merged new (some old) = refl

contains-add : (set : List Str) (x : Str) → contains (add set x) x ≡ true
contains-add set x = elim (Bool-cases (contains set x)) [
  | inl e ↦ rw e e
  | inr e ↦ rw e (contains-append set (x ∷ []) x ∙ unfold contains in ground (arith, str_eq_refl x))
]

abbrev pub repository_id : Moment → InferredProvenance → State → Str
repository_id at parsed st =
    (upsert_repository at.fresh_repository parsed.organization parsed.name st.db.repositories).0

push_event_step :
    (env : Env) (at : Moment) (image tag : Str) (digest : Option Str) (st : State)
    (parsed : InferredProvenance)
    → inferred_provenance (some image) ≡ some parsed
    → push_event env at image tag digest st
      ≡ record_push env at tag digest
          (parse_tag_retention tag at.now)
          parsed
          (cache_push at image tag st)
unfolding push_event
push_event_step env at image tag digest st parsed path =
    ap
      (on_path (record_push env at tag digest (parse_tag_retention tag at.now))
        (cache_push at image tag st))
      path

row_of_refused :
    (env : Env) (at : Moment) (id tag : Str) (digest : Option Str) (retention : ParsedTagRetention)
    (parsed : InferredProvenance) (cluster : Str)
    → parsed.cluster_id ≡ some cluster
    → env.is_uuid cluster ≡ false
    → row_of env at id tag digest retention parsed ≡ none
unfolding row_of
row_of_refused env at id tag digest retention parsed cluster e refused =
    let c : uuid_of env parsed.cluster_id ≡ none = cc (e, refused) in
    elim (Option-cases (integer_of retention.retention_value_seconds)) [
      | inl a ↦ cc a
      | inr (seconds, a) ↦ elim (Option-cases (timestamp_of retention.expires_at)) [
        | inl b ↦ cc (a, b)
        | inr (expires, b) ↦ cc (a, b, c)
      ]
    ]

row_of_accepted :
    (env : Env) (at : Moment) (id tag : Str) (digest : Option Str) (parsed : InferredProvenance)
    (seconds expires : Option ℕ) (cluster : Option Str)
    → integer_of (parse_tag_retention tag at.now).retention_value_seconds ≡ some seconds
    → timestamp_of (parse_tag_retention tag at.now).expires_at ≡ some expires
    → uuid_of env parsed.cluster_id ≡ some cluster
    → row_of env at id tag digest (parse_tag_retention tag at.now) parsed
      ≡ some (pushed_row at id tag digest parsed seconds expires cluster)
unfolding row_of
row_of_accepted env at id tag digest parsed seconds expires cluster a b c = rw (a, b, c) refl

record_push_stored :
    (env : Env) (at : Moment) (image tag : Str) (digest : Option Str) (st : State)
    (parsed : InferredProvenance) (row : Image)
    → row_of env at (repository_id at parsed st) tag digest (parse_tag_retention tag at.now) parsed
      ≡ some row
    → at.postgres_up ≡ true
    → record_push env at tag digest
        (parse_tag_retention tag at.now)
        parsed
        (cache_push at image tag st)
      ≡ record (cache_push at image tag st) {
        db = record {
          repositories =
              (upsert_repository at.fresh_repository parsed.organization parsed.name
                st.db.repositories).1;
          images = upsert_image row st.db.images;
        };
        to_reap = add st.to_reap (repository_id at parsed st);
      }
unfolding record_push
record_push_stored env at image tag digest st parsed row accepted up = rw accepted (rw up refl)

-- A push whose retention and cluster Postgres takes, and whose statements it carries out: the path has
-- the id's row and the rows of all other paths are as they were; the pushed tag of that repository has
-- the row of this push, or its old row renewed by it; every other tag has what it had; and the
-- repository is to be reaped.
pub push_event-Recorded :
    (env : Env) (at : Moment) (image tag : Str) (digest : Option Str) (st : State)
    (parsed : InferredProvenance) (seconds expires : Option ℕ) (cluster : Option Str)
    → inferred_provenance (some image) ≡ some parsed
    → integer_of (parse_tag_retention tag at.now).retention_value_seconds ≡ some seconds
    → timestamp_of (parse_tag_retention tag at.now).expires_at ≡ some expires
    → uuid_of env parsed.cluster_id ≡ some cluster
    → at.postgres_up ≡ true
    → Recorded parsed
        (repository_id at parsed st)
        tag
        (pushed_row at (repository_id at parsed st) tag digest parsed seconds expires cluster)
        st
        (push_event env at image tag digest st)
push_event-Recorded env at image tag digest st parsed seconds expires cluster path a b c up =
    let id = repository_id at parsed st in
    let row = pushed_row at id tag digest parsed seconds expires cluster in
    let accepted = row_of_accepted env at id tag digest parsed seconds expires cluster a b c in
    subst (Recorded parsed id tag row st)
      (sym (
        push_event_step env at image tag digest st parsed path
        ∙ record_push_stored env at image tag digest st parsed row accepted up))
      (
        upsert_repository-has_path at.fresh_repository parsed.organization parsed.name
            st.db.repositories,
        upsert_repository-others at.fresh_repository parsed.organization parsed.name
            st.db.repositories,
        λ r t.
            find_image-upsert_image row r t st.db.images
            ∙ ap
                (λ i.
                  if str_eq (repository_id at parsed st) r && str_eq tag t
                  then some i
                  else find_image r t st.db.images)
                (renewed-merged row (find_image (repository_id at parsed st) tag st.db.images)),
        contains-add st.to_reap (repository_id at parsed st),
      )

-- A push to the repository of a cluster whose id is not a UUID leaves the tables as they were.
pub push_event_lost :
    (env : Env) (at : Moment) (image tag : Str) (digest : Option Str) (st : State)
    (parsed : InferredProvenance) (id : Str)
    → inferred_provenance (some image) ≡ some parsed
    → parsed.cluster_id ≡ some id
    → env.is_uuid id ≡ false
    → (push_event env at image tag digest st).db ≡ st.db
unfolding record_push
push_event_lost env at image tag digest st parsed id path cluster refused =
    ap (λ (u : State). u.db)
      (push_event_step env at image tag digest st parsed path
        ∙ ap (store_row at _ _ (cache_push at image tag st)) (
            row_of_refused env at (repository_id at parsed st) tag digest
              (parse_tag_retention tag at.now) parsed id cluster refused))

-- A row that a pull names was pulled, as far as the tables say, at most an hour before.
abbrev pub Refreshed : ℕ → Image → Type 0
Refreshed now i = (t : ℕ) × (i.last_pulled_at ≡ some t) × (now ≤ t + one_hour)

pull_row-Refreshed :
    (rs : List Repository) (organization name tag : Str) (now : ℕ) (i : Image)
    → is_under rs organization name i ≡ true
    → str_eq i.tag tag ≡ true
    → Refreshed now (pull_row rs organization name tag now i)
unfolding pull_row
pull_row-Refreshed rs organization name tag now i under tagged =
    elim (Option-cases i.last_pulled_at) [
      | inl e ↦ rw (under, tagged, e) (now, refl, omega arith)
      | inr (t, e) ↦ elim (Bool-cases (ltb (t + one_hour) now)) [
        | inl f ↦ rw (under, tagged, e, f) (now, refl, omega arith)
        | inr f ↦ rw (under, tagged, e, f) (t, refl, ground arith)
      ]
    ]

pull_row_same :
    (rs : List Repository) (organization name tag : Str) (now : ℕ) (i : Image)
    → (is_under rs organization name (pull_row rs organization name tag now i)
        ≡ is_under rs organization name i)
      × (str_eq (pull_row rs organization name tag now i).tag tag ≡ str_eq i.tag tag)
unfolding is_under
pull_row_same rs organization name tag now i =
    let (r, t) = pull_row-KeepsKey rs organization name tag now i in
    (
      ap (λ id. any (λ (x : Repository). str_eq id x.id && is_named organization name x) rs) r,
      ap (λ u. str_eq u tag) t,
    )

pulled_rows :
    (rs : List Repository) (organization name tag : Str) (now : ℕ) (is : List Image)
    → All
        (λ i. is_under rs organization name i ≡ true → str_eq i.tag tag ≡ true → Refreshed now i)
        (map (pull_row rs organization name tag now) is)
pulled_rows rs organization name tag now [] = tt
pulled_rows rs organization name tag now (i ∷ is) =
    let (u, t) = pull_row_same rs organization name tag now i in
    (
      λ under tagged.
          pull_row-Refreshed rs organization name tag now i (sym u ∙ under) (sym t ∙ tagged),
      pulled_rows rs organization name tag now is,
    )

-- A pull that Postgres carries out leaves every row of its path and tag with a last pull at most an
-- hour before it.
pub pull_event-Refreshed :
    (at : Moment) (image tag : Str) (st : State) (parsed : InferredProvenance)
    → inferred_provenance (some image) ≡ some parsed
    → at.postgres_up ≡ true
    → All
        (λ i.
          is_under st.db.repositories parsed.organization parsed.name i ≡ true
          → str_eq i.tag tag ≡ true
          → Refreshed at.now i)
        (pull_event at image tag st).db.images
unfolding update_last_pulled_at
pull_event-Refreshed at image tag st parsed path up =
    subst
      (λ (u : State).
        All
          (λ i.
            is_under st.db.repositories parsed.organization parsed.name i ≡ true
            → str_eq i.tag tag ≡ true
            → Refreshed at.now i)
          u.db.images)
      (sym step)
      (pulled_rows st.db.repositories parsed.organization parsed.name tag at.now st.db.images)
  where
    step :
        pull_event at image tag st
        ≡ record st { db = update_last_pulled_at parsed.organization parsed.name tag at.now st.db }
    step = unfold pull_event in ap (on_path (pull_path at tag) st) path ∙ rw up refl

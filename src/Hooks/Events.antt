-- ===== src/Hooks/Events.antt =====
-- hooks/src/controllers/hookEvents.ts: what the registry's notifications change.
pub mod Invariant
pub mod Effects
use aocr.Prelude.{
  ℕ, Bool, true, false, not, ◌||◌, ◌&&◌, List, [], ◌∷◌, ◌++◌, Option, none, some, if◌then◌else◌,
}
use aocr.Text.{Str, codes, str_eq, is_empty, includes, contains}
use aocr.Hooks.Provenance.{InferredProvenance, inferred_provenance}
use aocr.Hooks.TagRetention.{
  Property, missing, inherited, own, Expiry, never, invalid_date, at_ms, ParsedTagRetention,
  parse_tag_retention,
}
use aocr.Hooks.Database.{
  Repository, Image, Database, upsert_repository, upsert_image, update_last_pulled_at,
  delete_manifest,
}

pub record Target : Type 0 where
  pub repository : Option Str
  pub tag : Option Str
  pub digest : Option Str
  pub media_type : Option Str

pub record Event : Type 0 where
  pub action : Option Str
  pub target : Option Target

-- What stands round an event when it is processed: the clock, the ids that new rows are given, and
-- whether Postgres carries its statements out, which it does not where an id is in use or a text is
-- longer than its column.
pub record Moment : Type 0 where
  pub now : ℕ
  pub fresh_repository : Str
  pub fresh_image : Str
  pub postgres_up : Bool

-- `is_uuid` is what a column of the type UUID accepts.
pub record Env : Type 0 where
  pub is_uuid : Str → Bool

-- The tables, the calls of `cachePush`, and `repositoriesToReap`.
pub record State : Type 0 where
  pub db : Database
  pub cached : List (Str × ℕ)
  pub to_reap : List Str

unfoldable is_manifest_pull_media_type : Option Str → Bool
unfolding includes
is_manifest_pull_media_type none = false
is_manifest_pull_media_type (some media_type) =
    if is_empty media_type
    then false
    else includes media_type (codes "manifest") || includes media_type (codes "image.index")

-- `!x` of a text that may be missing
abbrev pub present : Option Str → Option Str
present none = none
present (some s) = if is_empty s then none else some s

infixl 5 ◌>>=◌
abbrev ◌>>=◌ {ℓ κ} : {A : Type ℓ} {B : Type κ} → Option A → (A → Option B) → Option B
none >>= f = none
some a >>= f = f a

-- A parameter of the type INTEGER, or TIMESTAMP: none where Postgres refuses the value.
abbrev pub integer_of : Property ℕ → Option (Option ℕ)
integer_of missing = some none
integer_of (own n) = some (some n)
integer_of inherited = none

abbrev pub timestamp_of : Expiry → Option (Option ℕ)
timestamp_of never = some none
timestamp_of (at_ms t) = some (some t)
timestamp_of invalid_date = none

abbrev pub uuid_of : Env → Option Str → Option (Option Str)
uuid_of env none = some none
uuid_of env (some id) = if env.is_uuid id then some (some id) else none

-- The row of INSERT INTO images; none where a parameter is refused.
unfoldable pub row_of :
    Env → Moment → Str → Str → Option Str → ParsedTagRetention → InferredProvenance → Option Image
row_of env at repository_id tag digest retention parsed = do
  seconds ← integer_of retention.retention_value_seconds
  expires ← timestamp_of retention.expires_at
  cluster ← uuid_of env parsed.cluster_id
  some (record {
    id = at.fresh_image;
    repository_id = repository_id;
    tag = tag;
    created_at = at.now;
    last_pushed_at = at.now;
    last_pulled_at = none;
    retention_mode = retention.retention_mode;
    retention_value_seconds = seconds;
    expires_at = expires;
    raw_retention_suffix = retention.raw_retention_suffix;
    manifest_digest = digest;
    provenance = parsed.provenance;
    cluster_id = cluster;
    upstream_ref = parsed.upstream_ref;
  })

-- `set.add(x)`
abbrev pub add : List Str → Str → List Str
add set x = if contains set x then set else set ++ (x ∷ [])

-- The second statement of a push and COMMIT; else ROLLBACK.
abbrev pub store_row : Moment → Str → List Repository → State → Option Image → State
store_row at id repositories st none = st
store_row at id repositories st (some row) =
    if at.postgres_up
    then record st {
      db = record { repositories = repositories; images = upsert_image row st.db.images };
      to_reap = add st.to_reap id;
    }
    else st

-- The transaction of a push, from BEGIN.
unfoldable pub record_push :
    Env → Moment → Str → Option Str → ParsedTagRetention → InferredProvenance → State → State
unfolding upsert_repository upsert_image row_of contains
record_push env at tag digest retention parsed st =
    let (id, repositories) =
      upsert_repository at.fresh_repository parsed.organization parsed.name st.db.repositories in
    store_row at id repositories st (row_of env at id tag digest retention parsed)

-- `if (parsed) { ... }`
abbrev pub on_path :
    (InferredProvenance → State → State) → State → Option InferredProvenance → State
on_path f st none = st
on_path f st (some parsed) = f parsed st

abbrev pub cache_push : Moment → Str → Str → State → State
cache_push at image tag st = record st {
  cached = st.cached ++ ((image ++ (b':' ∷ tag), at.now) ∷ []);
}

-- `cachePush` is called first; that it fails changes nothing here.
unfoldable pub push_event : Env → Moment → Str → Str → Option Str → State → State
unfolding record_push inferred_provenance parse_tag_retention
push_event env at image tag digest st =
    on_path (record_push env at tag digest (parse_tag_retention tag at.now))
      (cache_push at image tag st) (inferred_provenance (some image))

abbrev pub delete_path : Moment → Str → InferredProvenance → State → State
delete_path at digest parsed st =
    if at.postgres_up
    then record st { db = delete_manifest parsed.organization parsed.name digest st.db }
    else st

unfoldable pub delete_event : Moment → Str → Str → State → State
unfolding inferred_provenance delete_manifest
delete_event at image digest st =
    on_path (delete_path at digest) st (inferred_provenance (some image))

abbrev pub pull_path : Moment → Str → InferredProvenance → State → State
pull_path at tag parsed st =
    if at.postgres_up
    then record st { db = update_last_pulled_at parsed.organization parsed.name tag at.now st.db }
    else st

unfoldable pub pull_event : Moment → Str → Str → State → State
unfolding inferred_provenance update_last_pulled_at
pull_event at image tag st = on_path (pull_path at tag) st (inferred_provenance (some image))

abbrev blank_target : Target
blank_target = record { repository = none; tag = none; digest = none; media_type = none }

abbrev target_of : Event → Target
target_of e = elim e.target [ none ↦ blank_target | some t ↦ t ]

-- What an event asks for, if it is not skipped.
pub data Request : Type 0 where
  skip : Request
  push : Str → Str → Option Str → Request
  delete : Str → Str → Request
  pull : Str → Str → Request

abbrev is_action : Str → Event → Bool
is_action name e = elim e.action [ none ↦ false | some a ↦ str_eq a name ]

abbrev pub both : Option Str → Option Str → (Str → Str → Request) → Request
both none b f = skip
both (some a) none f = skip
both (some a) (some b) f = f a b

unfoldable pub request_of : Event → Request
unfolding str_eq is_manifest_pull_media_type
request_of e =
    let t = target_of e in
    if is_action (codes "push") e
    then both (present t.repository) (present t.tag) (λ image tag. push image tag t.digest)
    else if is_action (codes "delete") e
    then both (present t.repository) (present t.digest) delete
    else if is_action (codes "pull") e
    then (if is_manifest_pull_media_type t.media_type
        then both (present t.repository) (present t.tag) pull
        else skip)
    else skip

unfoldable pub apply_request : Env → Moment → Request → State → State
unfolding push_event delete_event pull_event
apply_request env at skip st = st
apply_request env at (push image tag digest) st = push_event env at image tag digest st
apply_request env at (delete image digest) st = delete_event at image digest st
apply_request env at (pull image tag) st = pull_event at image tag st

unfoldable pub process_event : Env → Moment → Event → State → State
unfolding request_of apply_request
process_event env at e st = apply_request env at (request_of e) st

unfoldable pub process_events : Env → List (Moment × Event) → State → State
unfolding process_event
process_events env [] st = st
process_events env ((at, e) ∷ rest) st = process_events env rest (process_event env at e st)

-- `reap` for each repository of the set; what it leaves, whether it throws or not.
unfoldable pub reap_each : (Str → Database → Database) → List Str → Database → Database
reap_each reap [] db = db
reap_each reap (id ∷ ids) db = reap_each reap ids (reap id db)

abbrev pub start : Database → State
start db = record { db = db; cached = []; to_reap = [] }

unfoldable pub process_registry_events :
    Env → (Str → Database → Database) → List (Moment × Event) → Database → Database
unfolding process_events reap_each
process_registry_events env reap events db =
    let st = process_events env events (start db) in reap_each reap st.to_reap st.db

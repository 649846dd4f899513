-- ===== src/Hooks/Database.antt =====
-- The tables of db/init.sql that the hooks service keeps, and its SQL statements on them: those of
-- hooks/src/controllers/hookEvents.ts and the deletion of hooks/src/util/imageRetention.ts.
-- Instants are in milliseconds. A column of the type UUID is a text.
pub mod Keys
pub mod Rows
use aocr.Prelude.{
  ℕ, ◌+◌, ◌*◌, Bool, true, false, not, ◌||◌, ◌&&◌, List, [], ◌∷◌, ◌++◌, Option, none, some, ltb,
  filter, any, map, if◌then◌else◌,
}
use aocr.Text.{Str, str_eq}
use aocr.Hooks.Provenance.{Provenance}
use aocr.Hooks.TagRetention.{RetentionMode}

pub record Repository : Type 0 where
  pub id : Str
  pub organization : Str
  pub name : Str

pub record Image : Type 0 where
  pub id : Str
  pub repository_id : Str
  pub tag : Str
  pub created_at : ℕ
  pub last_pushed_at : ℕ
  pub last_pulled_at : Option ℕ
  pub retention_mode : RetentionMode
  pub retention_value_seconds : Option ℕ
  pub expires_at : Option ℕ
  pub raw_retention_suffix : Option Str
  pub manifest_digest : Option Str
  pub provenance : Provenance
  pub cluster_id : Option Str
  pub upstream_ref : Option Str

pub record Database : Type 0 where
  pub repositories : List Repository
  pub images : List Image

-- COALESCE
abbrev pub coalesce {ℓ} : {A : Type ℓ} → Option A → Option A → Option A
coalesce none b = b
coalesce (some a) b = some a

abbrev pub is_named : Str → Str → Repository → Bool
is_named organization name r = str_eq r.organization organization && str_eq r.name name

-- INSERT INTO repositories ... ON CONFLICT (organization, name) DO UPDATE SET name = ... RETURNING id,
-- with the id that a new row is given.
unfoldable pub upsert_repository : Str → Str → Str → List Repository → Str × List Repository
unfolding str_eq
upsert_repository fresh organization name [] =
    (fresh, record { id = fresh; organization = organization; name = name } ∷ [])
upsert_repository fresh organization name (r ∷ rs) =
    let (id, rest) = upsert_repository fresh organization name rs in
    if is_named organization name r then (r.id, record r { name = name } ∷ rs) else (id, r ∷ rest)

abbrev pub has_key : Str → Str → Image → Bool
has_key repository_id tag i = str_eq i.repository_id repository_id && str_eq i.tag tag

-- What ON CONFLICT (repository_id, tag) DO UPDATE leaves of the old row and of the new.
abbrev pub overwrite : Image → Image → Image
overwrite old new = record old {
  last_pushed_at = new.last_pushed_at;
  retention_mode = new.retention_mode;
  retention_value_seconds = new.retention_value_seconds;
  expires_at = new.expires_at;
  raw_retention_suffix = new.raw_retention_suffix;
  manifest_digest = coalesce new.manifest_digest old.manifest_digest;
  provenance = new.provenance;
  cluster_id = coalesce new.cluster_id old.cluster_id;
  upstream_ref = coalesce new.upstream_ref old.upstream_ref;
}

-- INSERT INTO images ... ON CONFLICT (repository_id, tag)
unfoldable pub upsert_image : Image → List Image → List Image
unfolding str_eq
upsert_image new [] = new ∷ []
upsert_image new (i ∷ is) =
    let rest = upsert_image new is in
    if has_key new.repository_id new.tag i then overwrite i new ∷ is else i ∷ rest

-- The join on the repository of a path.
unfoldable pub is_under : List Repository → Str → Str → Image → Bool
unfolding any str_eq
is_under repositories organization name i =
    any (λ r. str_eq i.repository_id r.id && is_named organization name r) repositories

abbrev pub one_hour : ℕ
one_hour = 60 * 60 * 1000

-- `last_pulled_at IS NULL OR last_pulled_at < CURRENT_TIMESTAMP - INTERVAL '1 hour'`
abbrev is_stale_pull : ℕ → Option ℕ → Bool
is_stale_pull now none = true
is_stale_pull now (some at) = ltb (at + one_hour) now

-- UPDATE_LAST_PULLED_AT_SQL at one row
unfoldable pub pull_row : List Repository → Str → Str → Str → ℕ → Image → Image
unfolding is_under str_eq
pull_row repositories organization name tag now i =
    if is_under repositories organization name i
      && str_eq i.tag tag
      && is_stale_pull now i.last_pulled_at
    then record i { last_pulled_at = some now }
    else i

unfoldable pub update_last_pulled_at : Str → Str → Str → ℕ → Database → Database
unfolding pull_row
update_last_pulled_at organization name tag now db = record db {
  images = map (pull_row db.repositories organization name tag now) db.images;
}

abbrev has_digest : Str → Image → Bool
has_digest digest i = elim i.manifest_digest [ none ↦ false | some d ↦ str_eq d digest ]

-- DELETE_MANIFEST_SQL
unfoldable pub delete_manifest : Str → Str → Str → Database → Database
unfolding is_under filter str_eq
delete_manifest organization name digest db = record db {
  images =
      filter (λ i. not (is_under db.repositories organization name i && has_digest digest i))
        db.images;
}

-- DELETE FROM images WHERE id = $1
unfoldable pub delete_image : Str → Database → Database
unfolding filter str_eq
delete_image id db = record db { images = filter (λ i. not (str_eq i.id id)) db.images }

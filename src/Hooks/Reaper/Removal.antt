-- ===== src/Hooks/Reaper/Removal.antt =====
-- The loop of `reapObsoleteImages`: each stale image is deleted in the registry and in the tables.
use aocr.Prelude.{
  ℕ, Bool, false, not, ◌||◌, List, [], ◌∷◌, ◌++◌, Option, none, some, ◌==◌, filter, length,
  if◌then◌else◌,
}
use aocr.Text.{Str, codes, is_empty}
use aocr.Hooks.Registry.{head, delete, Request, Fetched, unreachable, replied, Log, Registry, fetch}
use aocr.Hooks.Database.{Database, Image, delete_image}
use aocr.Hooks.Reaper.Selection.{Joined, Query, path_of, stale_images}

-- `postgres_up` says whether the DELETE for a row is carried out; where it is not, or Redis fails,
-- the loop goes on with the next row.
pub record Env : Type 0 where
  pub registry_url : Str
  pub postgres_up : Joined → Bool

-- The tables, the registry's requests, and the calls of `removeCachedImage`.
pub record State : Type 0 where
  pub db : Database
  pub log : Log
  pub uncached : List Str

-- An exception, no digest, or a digest.
pub data Digest : Type 0 where
  unknown absent : Digest
  known : Str → Digest

abbrev is_quote : ℕ → Bool
is_quote c = c == b'"'

-- String(header).replace(/"/g, "")
unfoldable pub unquote : Str → Str
unfolding filter
unquote s = filter (λ c. not (is_quote c)) s

-- `a || b` of two headers; the error is for a missing header only.
abbrev pub header_or : Option Str → Option Str → Option Str
header_or none b = b
header_or (some s) b = if is_empty s then b else some s

abbrev pub digest_of : Fetched → Digest
digest_of (unreachable message) = unknown
digest_of (replied reply) =
    if reply.status == 404
    then absent
    else elim (header_or (reply.header (codes "docker-content-digest"))
        (reply.header (codes "etag"))) [ none ↦ unknown | some header ↦ known (unquote header) ]

module _ (reg : Registry) (env : Env) where
  abbrev manifest_url : Str → Str → Str
  manifest_url path reference =
      env.registry_url ++ codes "/v2/" ++ path ++ codes "/manifests/" ++ reference

  unfoldable pub get_digest_for_tag : Str → Str → Log → Digest × Log
  unfolding unquote
  get_digest_for_tag path tag log =
      let (answer, log') = fetch reg log (record {
        method = head;
        url = manifest_url path tag;
        authorization = none;
        content = none;
      }) in
      (digest_of answer, log')

  -- `row.manifest_digest || await getDigestForTag(...)`
  unfoldable pub digest_for : Str → Image → Log → Digest × Log
  unfolding get_digest_for_tag
  digest_for path i log = elim i.manifest_digest [
    | none ↦ get_digest_for_tag path i.tag log
    | some digest ↦
        if is_empty digest then get_digest_for_tag path i.tag log else (known digest, log)
  ]

  abbrev pub is_gone : Fetched → Bool
  is_gone (unreachable message) = false
  is_gone (replied reply) = reply.status == 202 || (reply.status == 204 || reply.status == 404)

  abbrev image_of : Joined → Str
  image_of x = path_of x ++ (b':' ∷ x.image.tag)

  abbrev pub drop_row : Joined → State → State
  drop_row x st = if env.postgres_up x then record st { db = delete_image x.image.id st.db } else st

  abbrev pub purge : Joined → State → State
  purge x st =
      if env.postgres_up x
      then record st {
        db = delete_image x.image.id st.db;
        uncached = st.uncached ++ (image_of x ∷ []);
      }
      else st

  abbrev pub delete_request : Joined → Str → Request
  delete_request x digest = record {
    method = delete;
    url = manifest_url (path_of x) digest;
    authorization = none;
    content = none;
  }

  unfoldable pub after_digest : Joined → Digest × Log → State → State
  unfolding delete_image
  after_digest x (unknown, log) st = record st { log = log }
  after_digest x (absent, log) st = drop_row x (record st { log = log })
  after_digest x (known digest, log) st =
      let (answer, log') = fetch reg log (delete_request x digest) in
      if is_gone answer then purge x (record st { log = log' }) else record st { log = log' }

  unfoldable pub reap_row : Joined → State → State
  unfolding after_digest digest_for
  reap_row x st = after_digest x (digest_for (path_of x) x.image st.log) st

  unfoldable pub reap_rows : List Joined → State → State
  unfolding reap_row
  reap_rows [] st = st
  reap_rows (x ∷ xs) st = reap_rows xs (reap_row x st)

  -- The number of stale images is what the function returns.
  unfoldable pub reap_obsolete_images : Query → State → ℕ × State
  unfolding reap_rows stale_images
  reap_obsolete_images q st = let rows = stale_images q st.db in (length rows, reap_rows rows st)

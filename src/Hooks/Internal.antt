-- ===== src/Hooks/Internal.antt =====
-- hooks/src/controllers/InternalAPI.ts: whether the registry has a blob.
pub mod Presence
use aocr.Prelude.{ℕ, Bool, true, false, not, [], ◌∷◌, ◌++◌, Option, none, some, ◌==◌, if◌then◌else◌}
use aocr.Text.{Str, codes}
use aocr.Text.Regex.{test}
use aocr.Hooks.Registry.{
  head, Request, Reply, Fetched, unreachable, replied, Log, Registry, fetch, show_number,
}
use aocr.Hooks.Patterns.{digest_pattern, is_valid_repo_path}
use aocr.Hooks.Access.{internal_authorized}

pub record BlobPresence : Type 0 where
  pub present : Bool
  pub digest : Str
  pub repository : Str
  pub size_bytes : Option ℕ

pub data Body : Type 0 where
  error : Str → Body
  presence : BlobPresence → Body

pub record Answer : Type 0 where
  pub status : ℕ
  pub body : Body

-- `to_number` is `Number` of a text, where that is finite.
pub record Env : Type 0 where
  pub internal_api_token : Option Str
  pub registry_url : Str
  pub to_number : Str → Option ℕ

module _ (env : Env) (repository digest : Str) where
  abbrev refuse : ℕ → Str → Answer
  refuse status message = record { status = status; body = error message }

  abbrev size_of : Option Str → Option ℕ
  size_of none = none
  size_of (some header) = env.to_number header

  abbrev report : Bool → Option ℕ → Answer
  report found size = record {
    status = 200;
    body =
        presence
          (record { present = found; digest = digest; repository = repository; size_bytes = size });
  }

  abbrev pub blob_request : Request
  blob_request = record {
    method = head;
    url = env.registry_url ++ codes "/v2/" ++ repository ++ codes "/blobs/" ++ digest;
    authorization = none;
    content = none;
  }

  unfoldable pub after_blob_head : Fetched → Answer
  unfolding show_number
  after_blob_head (unreachable message) = refuse 502 (codes "registry_unreachable")
  after_blob_head (replied reply) =
      if reply.status == 200
      then report true (size_of (reply.header (codes "content-length")))
      else if reply.status == 404
      then report false none
      else refuse 502 (codes "registry_status_" ++ show_number reply.status)

unfoldable pub blob_presence : Registry → Env → Option Str → Str → Str → Log → Answer × Log
unfolding after_blob_head internal_authorized test digest_pattern is_valid_repo_path
blob_presence reg env authorization repository digest log =
    if not (internal_authorized env.internal_api_token authorization)
    then (refuse env repository digest 401 (codes "unauthorized"), log)
    else if not (test digest_pattern digest)
    then (refuse env repository digest 400 (codes "invalid digest"), log)
    else if not (is_valid_repo_path repository)
    then (refuse env repository digest 400 (codes "invalid repository"), log)
    else (let (answer, log') = fetch reg log (blob_request env repository digest) in
        (after_blob_head env repository digest answer, log'))

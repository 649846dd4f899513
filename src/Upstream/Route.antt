-- ===== src/Upstream/Route.antt =====
-- auth/src/upstreamAuth/route.ts: from a mirror-side repository to its upstream.
pub mod Laws
use aocr.Prelude.{
  Bool, true, false, ◌||◌, List, [], ◌∷◌, ◌++◌, Option, none, some, if◌then◌else◌, length,
}
use aocr.Text.{Str, codes, str_eq, is_empty, starts_with, slice_from}

pub record UpstreamRoute : Type 0 where
  pub host : Str
  pub upstream_repo : Str

unfoldable pub prefix_table : List (Str × Str)
prefix_table =
    (codes "aocr/ghcr/", codes "ghcr.io")
    ∷ (codes "aocr/gcr/", codes "gcr.io")
    ∷ (codes "aocr/quay/", codes "quay.io")
    ∷ (codes "aocr/k8s/", codes "registry.k8s.io")
    ∷ []

-- no prefix: Docker Hub, but nothing under the reserved segment
unfoldable pub route_to_hub : Str → Option UpstreamRoute
unfolding str_eq starts_with
route_to_hub mirror_repo =
    if str_eq mirror_repo (codes "aocr") || starts_with mirror_repo (codes "aocr/")
    then none
    else some (record { host = codes "docker.io"; upstream_repo = mirror_repo })

-- the loop over the table; the first prefix that fits decides
unfoldable pub route_by : List (Str × Str) → Str → Option UpstreamRoute
unfolding starts_with route_to_hub
route_by [] mirror_repo = route_to_hub mirror_repo
route_by ((prefix, host) ∷ table) mirror_repo =
    let upstream_repo = slice_from (length prefix) mirror_repo in
    if starts_with mirror_repo prefix
    then (if is_empty upstream_repo
        then none
        else some (record { host = host; upstream_repo = upstream_repo }))
    else route_by table mirror_repo

unfoldable pub route_mirror_repo_to_upstream : Str → Option UpstreamRoute
unfolding route_by prefix_table
route_mirror_repo_to_upstream mirror_repo =
    if is_empty mirror_repo then none else route_by prefix_table mirror_repo

-- `to_lower` is the runtime's `toLowerCase`.
unfoldable pub route_matches_wrapped_host : (Str → Str) → UpstreamRoute → Str → Bool
unfolding str_eq
route_matches_wrapped_host to_lower route envelope_host =
    str_eq (to_lower route.host) (to_lower envelope_host)

-- ===== src/Hooks/Provenance.antt =====
-- hooks/src/util/tagRetention.ts: where a repository comes from, by its path.
pub mod Laws
use aocr.Prelude.{
  ℕ, Bool, true, false, not, List, [], ◌∷◌, Option, none, some, ◌==◌, filter, if◌then◌else◌,
}
use aocr.Text.{Str, codes, str_eq, is_empty, split_on, join}
use aocr.Text.Regex.{test}
use aocr.Auth.ClusterPat.{cluster_id_pattern}

pub data Provenance : Type 0 where
  pushed mirror cluster_snapshot : Provenance

pub record InferredProvenance : Type 0 where
  pub provenance : Provenance
  pub organization : Str
  pub name : Str
  pub cluster_id : Option Str
  pub upstream_ref : Option Str

abbrev is_slash : ℕ → Bool
is_slash c = c == b'/'

abbrev non_empty : Str → Bool
non_empty s = not (is_empty s)

-- The pattern is that of the auth service's cluster PATs.
unfoldable pub cluster_id_of : Str → Option Str
unfolding test cluster_id_pattern
cluster_id_of candidate = if test cluster_id_pattern candidate then some candidate else none

abbrev pub from_cluster : Str → Str → Str → InferredProvenance
from_cluster organization second name = record {
  provenance = cluster_snapshot;
  organization = organization;
  name = name;
  cluster_id = cluster_id_of second;
  upstream_ref = none;
}

abbrev pub from_mirror : Str → Str → InferredProvenance
from_mirror organization name = record {
  provenance = mirror;
  organization = organization;
  name = name;
  cluster_id = none;
  upstream_ref = some name;
}

abbrev pub from_push : Str → Str → InferredProvenance
from_push organization name = record {
  provenance = pushed;
  organization = organization;
  name = name;
  cluster_id = none;
  upstream_ref = none;
}

unfoldable pub from_segments : List Str → Option InferredProvenance
unfolding str_eq join cluster_id_of
from_segments [] = none
from_segments (organization ∷ []) = none
from_segments (organization ∷ second ∷ rest) =
    let name = join b'/' (second ∷ rest) in
    some (
      if str_eq organization (codes "cluster")
      then from_cluster organization second name
      else if str_eq organization (codes "mirror")
      then from_mirror organization name
      else from_push organization name)

unfoldable pub segments : Str → List Str
unfolding split_on filter
segments repository = filter non_empty (split_on is_slash repository)

unfoldable pub inferred_provenance : Option Str → Option InferredProvenance
unfolding from_segments segments
inferred_provenance none = none
inferred_provenance (some repository) =
    if is_empty repository then none else from_segments (segments repository)

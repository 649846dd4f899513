-- ===== src/Examples/Pages.antt =====
-- A probe of an upstream, pages of a list of images, and the provenance of a repository.
use aocr.Prelude.{
  ℕ, ◌≤◌, ◌≡◌, ◌≢◌, refl, List, [], ◌∷◌, ◌++◌, Option, none, some, length, take, drop,
}
use aocr.Text.{codes, str_eq}
use aocr.JsMap.{get}
use aocr.Auth.Images.{ListQuery, admin_list, user_list, Listing, listed, listing, list_all_images}
use aocr.Auth.Images.Paging.{behind, list_all_images-listing}
use aocr.Upstream.Strategy.{probe_ok}
use aocr.Upstream.Adapters.{Http, Adapter, probes, probe_host}
use aocr.Upstream.Adapters.Vouched.{Vouches, probe_host_sound}
use aocr.Hooks.Provenance.{InferredProvenance, from_mirror, inferred_provenance}
use aocr.Examples.Setup.{creds}

-- The token endpoint gives one bearer, and the repository has no tag `latest`.
abbrev http : Http
http = record {
  request_token = λ url service scope authorization.
      some (200, record { token = some (codes "upstream"); access_token = none });
  head = λ url authorization. some 404;
  base64 = λ s. s;
}

probed :
    probe_host http (λ s. s) (codes "docker.io") creds (codes "library/alpine")
    ≡ probe_ok (codes "upstream")
unfolding probe_host str_eq
probed = refl

probe_host_sound_example :
    (codes "library/alpine" ≢ [])
    × (a : Adapter) × (get probes (codes "docker.io") ≡ some a)
    × Vouches http creds (codes "library/alpine") (codes "upstream") a
probe_host_sound_example =
    probe_host_sound http creds (codes "library/alpine") (codes "upstream") (λ s. s)
      (codes "docker.io") probed

abbrev images : List ℕ
images = 11 ∷ 12 ∷ 13 ∷ 14 ∷ []

abbrev query : ListQuery → Option (List ℕ)
query (admin_list limit offset) = some (take limit (drop offset images))
query (user_list id limit offset) = some []

list_all_images-listing_example :
    (l : Listing ℕ) × (listing query none 2 1 (list_all_images query 2 1) ≡ listed l)
    × (length l.images ≤ 2)
    × (l.images ++ behind l.next_offset images ≡ drop 1 images)
list_all_images-listing_example = list_all_images-listing query images none 2 1 refl

abbrev alpine_mirror : InferredProvenance
alpine_mirror = from_mirror (codes "mirror") (codes "library/alpine")

inferred : inferred_provenance (some (codes "mirror//library/alpine")) ≡ some alpine_mirror
unfolding inferred_provenance str_eq
inferred = refl

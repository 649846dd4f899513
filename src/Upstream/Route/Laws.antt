-- ===== src/Upstream/Route/Laws.antt =====
-- Routes are invertible, and keep to the table.
use aocr.Prelude.{
  ◌≡◌, refl, sym, ap, ◌∙◌, subst, ◌≢◌, inl, inr, ◌↔◌, true, false, List, [], ◌∷◌, ◌++◌, none, some,
  arith, if◌then◌else◌, length, drop, drop-length-append, not_true, or-left, or-right, Bool-cases,
}
use aocr.Text.{Str, codes, str_eq, contains, is_empty, starts_with}
use aocr.Text.Laws.{str_eq_iff, IsUnique}
use aocr.Text.Prefix.{starts_with_some, starts_with-append}
use aocr.Upstream.Route.{
  UpstreamRoute, prefix_table, route_to_hub, route_by, route_mirror_repo_to_upstream,
}

-- The mirror-side name of an upstream repository.
abbrev mirror_name : List (Str × Str) → UpstreamRoute → Str
mirror_name [] r = r.upstream_repo
mirror_name ((prefix, host) ∷ table) r =
    if str_eq r.host host then prefix ++ r.upstream_repo else mirror_name table r

-- A route of the table, or of Docker Hub outside the reserved segment.
pub data IsRoute (name : Str) : List (Str × Str) → UpstreamRoute → Type 0 where
  hub :
      {r : UpstreamRoute}
      → r.host ≡ codes "docker.io"
      → r.upstream_repo ≡ name
      → str_eq name (codes "aocr") ≡ false
      → starts_with name (codes "aocr/") ≡ false
      → IsRoute name [] r
  here :
      {prefix host : Str} {table : List (Str × Str)} {r : UpstreamRoute}
      → r.host ≡ host
      → name ≡ prefix ++ r.upstream_repo
      → r.upstream_repo ≢ []
      → IsRoute name ((prefix, host) ∷ table) r
  later :
      {prefix host : Str} {table : List (Str × Str)} {r : UpstreamRoute}
      → starts_with name prefix ≡ false
      → IsRoute name table r
      → IsRoute name ((prefix, host) ∷ table) r

route_to_hub_sound :
    (name : Str) (r : UpstreamRoute) → route_to_hub name ≡ some r → IsRoute name [] r
unfolding route_to_hub
route_to_hub_sound name r h = hub (ground arith) (ground arith) (ground arith) (ground arith)

kept :
    (host up : Str) (r : UpstreamRoute)
    → (if is_empty up then none else some (record { host = host; upstream_repo = up })) ≡ some r
    → (r.host ≡ host) × (r.upstream_repo ≡ up) × (up ≢ [])
kept host [] r h = absurd (cc h)
kept host (c ∷ up) r h = (ground (arith, h), ground (arith, h), λ q. cc q)

keep :
    (host : Str) (r : UpstreamRoute)
    → r.host ≡ host
    → r.upstream_repo ≢ []
    → (if is_empty r.upstream_repo
        then none
        else some (record { host = host; upstream_repo = r.upstream_repo }))
      ≡ some r
keep host r e h = ground arith

route_by_sound :
    (table : List (Str × Str)) (name : Str) (r : UpstreamRoute)
    → route_by table name ≡ some r
    → IsRoute name table r
unfolding route_by
route_by_sound [] name r h = route_to_hub_sound name r h
route_by_sound ((prefix, host) ∷ table) name r h = elim (Bool-cases (starts_with name prefix)) [
  | inl e ↦
      let (to, up, full) = kept host (drop (length prefix) name) r (rw (e, route_by) at h) in
      here to (starts_with_some name prefix e ∙ ap (λ z. prefix ++ z) (sym up))
        (λ q. full (sym up ∙ q))
  | inr e ↦ later e (route_by_sound table name r (rw (e, route_by) at h))
]

route_by_complete :
    {name : Str} {table : List (Str × Str)} {r : UpstreamRoute}
    → IsRoute name table r
    → route_by table name ≡ some r
unfolding route_by
route_by_complete {r} (hub e₁ e₂ e₃ e₄) =
    unfold route_to_hub in rw (e₃, e₄, route_by) (ground (arith, e₁, e₂))
route_by_complete {r} (here {prefix} {host} {table} e₁ e₂ e₃) =
    subst (λ z. route_by ((prefix, host) ∷ table) z ≡ some r) (sym e₂)
      (rw
        (
          starts_with-append prefix r.upstream_repo,
          drop-length-append prefix r.upstream_repo,
          route_by,
        )
        (keep host r e₁ e₃))
route_by_complete {r} (later e p) = rw (e, route_by) (route_by_complete p)

-- A repository with a name is routed exactly as the table says: by the first prefix that it has, with a rest
-- that is not empty, or to Docker Hub if it has none and is not in the reserved segment.
pub route_mirror_repo_to_upstream_iff :
    (name : Str) (r : UpstreamRoute)
    → name ≢ []
    → (route_mirror_repo_to_upstream name ≡ some r) ↔ IsRoute name prefix_table r
unfolding route_mirror_repo_to_upstream
route_mirror_repo_to_upstream_iff [] r h = absurd (h refl)
route_mirror_repo_to_upstream_iff (c ∷ name) r h =
    (route_by_sound prefix_table (c ∷ name) r, route_by_complete)

-- The hosts that a table routes to.
hosts : List (Str × Str) → List Str
hosts [] = codes "docker.io" ∷ []
hosts ((prefix, host) ∷ table) = host ∷ hosts table

contains-hosts :
    {name : Str} {table : List (Str × Str)} {r : UpstreamRoute}
    → IsRoute name table r
    → contains (hosts table) r.host ≡ true
unfolding contains hosts
contains-hosts {r} (hub e₁ e₂ e₃ e₄) =
    or-left _ _ ((str_eq_iff (codes "docker.io") r.host).1 (sym e₁))
contains-hosts {r} (here {host} e₁ e₂ e₃) = or-left _ _ ((str_eq_iff host r.host).1 (sym e₁))
contains-hosts (later e p) = or-right _ _ (contains-hosts p)

mirror_name-IsRoute :
    {name : Str} {table : List (Str × Str)} {r : UpstreamRoute}
    → IsRoute name table r
    → IsUnique (hosts table)
    → mirror_name table r ≡ name
unfolding hosts
mirror_name-IsRoute (hub e₁ e₂ e₃ e₄) u = e₂
mirror_name-IsRoute {r} (here {host} e₁ e₂ e₃) u = rw ((str_eq_iff r.host host).1 e₁) (sym e₂)
mirror_name-IsRoute {r} (later {host} e p) (fresh, u) = rw (other) (mirror_name-IsRoute p u)
  where
    other : str_eq r.host host ≡ false
    other =
        not_true
          λ q. absurd (cc (contains-hosts p, fresh, ap (contains _) ((str_eq_iff r.host host).0 q)))

hosts_differ : IsUnique (hosts prefix_table)
unfolding hosts prefix_table contains str_eq
hosts_differ = (refl, (refl, (refl, (refl, (refl, tt)))))

-- The mirror-side name can be read back from the route, so two repositories never share a route.
mirror_name-route :
    (name : Str) (r : UpstreamRoute)
    → route_mirror_repo_to_upstream name ≡ some r
    → mirror_name prefix_table r ≡ name
mirror_name-route [] r h = unfold route_mirror_repo_to_upstream in absurd (cc h)
mirror_name-route (c ∷ name) r h =
    mirror_name-IsRoute ((route_mirror_repo_to_upstream_iff (c ∷ name) r (λ q. cc q)).0 h)
      hosts_differ

-- ===== src/Hooks/Reaper/Selection.antt =====
-- The query of `reapObsoleteImages`: its common table expressions, the guard, the order, the limit.
-- `order` stands for what the database's collation decides.
use aocr.Prelude.{
  ℕ, suc, ◌+◌, ◌*◌, Bool, true, false, not, ◌||◌, ◌&&◌, List, [], ◌∷◌, ◌++◌, Option, none, some,
  ltb, leb, ◌==◌, filter, filter_map, any, length, take, if◌then◌else◌,
}
use aocr.Text.{Str, codes, str_eq, contains}
use aocr.JsMap.{JsMap}
use aocr.Hooks.Provenance.{pushed, mirror, cluster_snapshot}
use aocr.Hooks.TagRetention.{keep_latest, ttl, idle}
use aocr.Hooks.Database.{Repository, Image, Database, coalesce}
use aocr.Hooks.Reaper.Like.{like}

-- A row of `images i JOIN repositories r ON i.repository_id = r.id`.
pub record Joined : Type 0 where
  pub image : Image
  pub repository : Repository

unfoldable repository_of : Str → List Repository → Option Repository
unfolding str_eq
repository_of id [] = none
repository_of id (r ∷ rs) =
    let rest = repository_of id rs in if str_eq r.id id then some r else rest

abbrev join_row : List Repository → Image → Option Joined
join_row rs i = elim (repository_of i.repository_id rs) [
  | none ↦ none
  | some r ↦ some (record { image = i; repository = r })
]

unfoldable pub joined : Database → List Joined
unfolding repository_of filter_map
joined db = filter_map (join_row db.repositories) db.images

abbrev pub path_of : Joined → Str
path_of x = x.repository.organization ++ (b'/' ∷ x.repository.name)

-- The parameters of the query; `tag_before` and `row_before` are the collation's orders.
pub record Query : Type 0 where
  pub now : ℕ
  pub repository_ids : List Str
  pub mirror_default_idle_seconds : ℕ
  pub mirror_overrides : JsMap ℕ
  pub protected_namespaces : List Str
  pub tag_before : Str → Str → Bool
  pub row_before : Joined → Joined → Bool

module _ (q : Query) where
  -- buildRepositoryScope: no condition, or `i.repository_id = ANY(...)`
  unfoldable pub in_scope : Image → Bool
  unfolding contains
  in_scope i = elim q.repository_ids [ [] ↦ true | id ∷ ids ↦ contains (id ∷ ids) i.repository_id ]

  abbrev pub is_mirror : Image → Bool
  is_mirror i = elim i.provenance [ mirror ↦ true | pushed ↦ false | cluster_snapshot ↦ false ]

  abbrev pub is_keep_latest : Image → Bool
  is_keep_latest i = elim i.retention_mode [ keep_latest ↦ true | ttl ↦ false | idle ↦ false ]

  abbrev pub is_ttl : Image → Bool
  is_ttl i = elim i.retention_mode [ ttl ↦ true | keep_latest ↦ false | idle ↦ false ]

  abbrev pub is_idle : Image → Bool
  is_idle i = elim i.retention_mode [ idle ↦ true | keep_latest ↦ false | ttl ↦ false ]

  -- ORDER BY i.last_pushed_at DESC, i.created_at DESC, i.tag DESC
  unfoldable pub precedes : Image → Image → Bool
  precedes j i =
      ltb i.last_pushed_at j.last_pushed_at
      || (i.last_pushed_at == j.last_pushed_at
          && (ltb i.created_at j.created_at
              || (i.created_at == j.created_at && q.tag_before i.tag j.tag)))

  abbrev pub competes : Joined → Bool
  competes x = in_scope x.image && is_keep_latest x.image && not (is_mirror x.image)

  abbrev pub same_repository : Image → Image → Bool
  same_repository i j = str_eq j.repository_id i.repository_id

  -- ROW_NUMBER() OVER (PARTITION BY i.repository_id ORDER BY ...)
  unfoldable pub row_num : List Joined → Image → ℕ
  unfolding precedes filter str_eq
  row_num rows i = suc (length (filter (λ y. same_repository i y.image && precedes y.image i) rows))

  -- keep_latest_images, WHERE row_num > 1
  unfoldable pub keep_latest_images : List Joined → List Joined
  unfolding filter row_num in_scope
  keep_latest_images rows =
      let competing = filter competes rows in
      filter (λ x. ltb 1 (row_num competing x.image)) competing

  abbrev pub has_passed : Option ℕ → Bool
  has_passed none = false
  has_passed (some t) = leb t q.now

  -- expired_ttl_images
  unfoldable pub is_expired_ttl : Image → Bool
  unfolding in_scope
  is_expired_ttl i = in_scope i && is_ttl i && has_passed i.expires_at

  -- COALESCE(i.last_pulled_at, i.last_pushed_at, i.created_at), of which the second is NOT NULL
  abbrev pub clock_of : Image → ℕ
  clock_of i = elim i.last_pulled_at [ none ↦ i.last_pushed_at | some t ↦ t ]

  abbrev pub idle_for : Image → Option ℕ → Bool
  idle_for i none = false
  idle_for i (some seconds) = leb (clock_of i + seconds * 1000) q.now

  -- expired_idle_images
  unfoldable pub is_expired_idle : Image → Bool
  unfolding in_scope
  is_expired_idle i =
      in_scope i && is_idle i && idle_for i i.retention_value_seconds && not (is_mirror i)

  -- mirror_resolved_retention: of the overrides whose prefix the upstream has, the longest.
  unfoldable longest_override : Str → List (Str × ℕ) → Option (ℕ × ℕ)
  unfolding like
  longest_override upstream [] = none
  longest_override upstream ((prefix, seconds) ∷ rest) =
      let other = longest_override upstream rest in
      if like (prefix ++ codes "%") upstream
      then elim other [
        | none ↦ some (length prefix, seconds)
        | some (n, s) ↦ if ltb (length prefix) n then some (n, s) else some (length prefix, seconds)
      ]
      else other

  unfoldable pub resolved_retention : Option Str → ℕ
  unfolding longest_override
  resolved_retention none = q.mirror_default_idle_seconds
  resolved_retention (some upstream) = elim (longest_override upstream q.mirror_overrides) [
    | none ↦ q.mirror_default_idle_seconds
    | some (n, seconds) ↦ seconds
  ]

  -- expired_mirror_idle_images
  unfoldable pub is_expired_mirror : Image → Bool
  unfolding in_scope resolved_retention
  is_expired_mirror i =
      in_scope i
      && is_mirror i
      && not (is_ttl i)
      && idle_for i (coalesce i.retention_value_seconds (some (resolved_retention i.upstream_ref)))

  -- reap_candidates
  unfoldable pub reap_candidates : List Joined → List Joined
  unfolding filter keep_latest_images is_expired_ttl is_expired_idle is_expired_mirror
  reap_candidates rows =
      keep_latest_images rows
      ++ (filter (λ x. is_expired_ttl x.image) rows
          ++ (filter (λ x. is_expired_idle x.image) rows
              ++ filter (λ x. is_expired_mirror x.image) rows))

  -- The guard's EXISTS.
  unfoldable pub is_protected : Str → Bool
  unfolding any str_eq like
  is_protected path =
      any (λ prefix. str_eq path prefix || like (prefix ++ codes "/%") path) q.protected_namespaces

  -- ORDER BY organization, name, tag
  unfoldable pub insert_row : Joined → List Joined → List Joined
  insert_row x [] = x ∷ []
  insert_row x (y ∷ ys) =
      let rest = insert_row x ys in if q.row_before x y then x ∷ (y ∷ ys) else y ∷ rest

  unfoldable pub order_rows : List Joined → List Joined
  unfolding insert_row
  order_rows [] = []
  order_rows (x ∷ xs) = insert_row x (order_rows xs)

  abbrev row_limit : ℕ
  row_limit = 500

  unfoldable pub stale_images : Database → List Joined
  unfolding joined reap_candidates filter is_protected order_rows
  stale_images db =
      take row_limit
        (order_rows (filter (λ x. not (is_protected (path_of x))) (reap_candidates (joined db))))

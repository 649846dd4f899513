-- ===== src/Hooks/Reaper/Reasons.antt =====
-- Why an image is listed.
use aocr.Prelude.{
  ℕ, suc, ◌+◌, ◌*◌, ◌≤◌, ◌≡◌, ◌≢◌, refl, ap, inl, inr, Bool, true, false, not, ◌&&◌, List, [], ◌∷◌,
  Option, none, some, arith, ltb, ltb→lt, filter, any, any-filter→Some, Some, ◌<◌, ◌⊎◌, &&-split,
  length, All, All-imp, All-append, All-filter, All-filter_test, Bool-cases, or-left, or-right,
  leb→le,
}
use aocr.Text.Laws.{str_eq_iff}
use aocr.Hooks.Provenance.{Provenance, pushed, mirror, cluster_snapshot}
use aocr.Hooks.TagRetention.{RetentionMode, keep_latest, ttl, idle}
use aocr.Hooks.Database.{Database, Image, coalesce}
use aocr.Hooks.Reaper.Selection.{
  Joined, Query, joined, is_mirror, is_keep_latest, is_ttl, is_idle, precedes, competes,
  same_repository, row_num, keep_latest_images, has_passed, is_expired_ttl, clock_of, idle_for,
  is_expired_idle, resolved_retention, is_expired_mirror, reap_candidates, is_protected, path_of,
  stale_images,
}
use aocr.Hooks.Reaper.Guard.{stale_images-All}

-- `j` was pushed after `i`; or at the same time and created after it; or that too at the same time,
-- and its tag is the later one in the database's collation.
abbrev pub Newer : Query → Image → Image → Type 0
Newer q j i =
    (i.last_pushed_at < j.last_pushed_at)
    ⊎ ((i.last_pushed_at ≡ j.last_pushed_at)
        × ((i.created_at < j.created_at)
            ⊎ ((i.created_at ≡ j.created_at) × (q.tag_before i.tag j.tag ≡ true))))

-- A row of the same repository that is kept as the latest, too, and is newer.
abbrev pub Outdoes : Query → Image → Image → Type 0
Outdoes q i j =
    (j.repository_id ≡ i.repository_id)
    × (j.retention_mode ≡ keep_latest)
    × (j.provenance ≢ mirror)
    × Newer q j i

-- The start of an image's idle time: its last pull, or where it was never pulled its last push.
abbrev pub LastUse : Image → ℕ → Type 0
LastUse i t = (i.last_pulled_at ≡ some t) ⊎ ((i.last_pulled_at ≡ none) × (i.last_pushed_at ≡ t))

-- The reasons for which an image is obsolete, of those that the query finds.
pub data IsObsolete (q : Query) (rows : List Joined) (i : Image) : Type 0 where
  outdone :
      i.retention_mode ≡ keep_latest
      → i.provenance ≢ mirror
      → Some (λ (y : Joined). Outdoes q i y.image) rows
      → IsObsolete q rows i
  past : i.retention_mode ≡ ttl → (t : ℕ) → i.expires_at ≡ some t → t ≤ q.now → IsObsolete q rows i
  unused :
      i.retention_mode ≡ idle
      → i.provenance ≢ mirror
      → (seconds : ℕ) → i.retention_value_seconds ≡ some seconds
      → (used : ℕ) → LastUse i used
      → used + seconds * 1000 ≤ q.now
      → IsObsolete q rows i
  unused_mirror :
      i.retention_mode ≢ ttl
      → i.provenance ≡ mirror
      → (seconds : ℕ)
      → coalesce i.retention_value_seconds (some (resolved_retention q i.upstream_ref))
        ≡ some seconds
      → (used : ℕ) → LastUse i used
      → used + seconds * 1000 ≤ q.now
      → IsObsolete q rows i

mode_is : (q : Query) (i : Image) → is_keep_latest q i ≡ true → i.retention_mode ≡ keep_latest
mode_is q i h = by_mode i.retention_mode h
  where
    by_mode :
        (m : RetentionMode)
        → (elim m [ keep_latest ↦ true | ttl ↦ false | idle ↦ false ]) ≡ true
        → m ≡ keep_latest
    by_mode keep_latest h = refl
    by_mode ttl h = absurd (cc h)
    by_mode idle h = absurd (cc h)

ttl_is : (q : Query) (i : Image) → is_ttl q i ≡ true → i.retention_mode ≡ ttl
ttl_is q i h = by_mode i.retention_mode h
  where
    by_mode :
        (m : RetentionMode)
        → (elim m [ ttl ↦ true | keep_latest ↦ false | idle ↦ false ]) ≡ true
        → m ≡ ttl
    by_mode ttl h = refl
    by_mode keep_latest h = absurd (cc h)
    by_mode idle h = absurd (cc h)

idle_is : (q : Query) (i : Image) → is_idle q i ≡ true → i.retention_mode ≡ idle
idle_is q i h = by_mode i.retention_mode h
  where
    by_mode :
        (m : RetentionMode)
        → (elim m [ idle ↦ true | keep_latest ↦ false | ttl ↦ false ]) ≡ true
        → m ≡ idle
    by_mode idle h = refl
    by_mode keep_latest h = absurd (cc h)
    by_mode ttl h = absurd (cc h)

mirror_is : (q : Query) (i : Image) → is_mirror q i ≡ true → i.provenance ≡ mirror
mirror_is q i h = by_source i.provenance h
  where
    by_source :
        (p : Provenance)
        → (elim p [ mirror ↦ true | pushed ↦ false | cluster_snapshot ↦ false ]) ≡ true
        → p ≡ mirror
    by_source mirror h = refl
    by_source pushed h = absurd (cc h)
    by_source cluster_snapshot h = absurd (cc h)

not_mirror : (q : Query) (i : Image) → is_mirror q i ≡ false → i.provenance ≢ mirror
not_mirror q i h e =
    absurd
      (cc (ap (λ p. elim p [ mirror ↦ true | pushed ↦ false | cluster_snapshot ↦ false ]) e, h))

not_ttl : (q : Query) (i : Image) → is_ttl q i ≡ false → i.retention_mode ≢ ttl
not_ttl q i h e =
    absurd (cc (ap (λ m. elim m [ ttl ↦ true | keep_latest ↦ false | idle ↦ false ]) e, h))

All-both :
    {P Q R : Joined → Type 0}
    → ((x : Joined) → P x → Q x → R x)
    → (xs : List Joined) → All P xs
    → All Q xs
    → All R xs
All-both f [] h k = tt
All-both f (x ∷ xs) (p, h) (r, k) = (f x p r, All-both f xs h k)

-- A number above one counts something.
some_counted :
    (p : Joined → Bool) (xs : List Joined)
    → ltb 1 (suc (length (filter p xs))) ≡ true
    → any p xs ≡ true
unfolding any filter
some_counted p [] h = absurd (ground (arith, h))
some_counted p (x ∷ xs) h = elim (Bool-cases (p x)) [
  | inl e ↦ or-left _ _ e
  | inr e ↦ or-right _ _ (some_counted p xs (rw e at h))
]

idle_for_sound :
    (q : Query) (i : Image) (o : Option ℕ)
    → idle_for q i o ≡ true
    → (seconds : ℕ) × (o ≡ some seconds) × (clock_of q i + seconds * 1000 ≤ q.now)
idle_for_sound q i none h = absurd (cc h)
idle_for_sound q i (some seconds) h = (seconds, refl, leb→le _ _ h)

has_passed_sound :
    (q : Query) (o : Option ℕ) → has_passed q o ≡ true → (t : ℕ) × (o ≡ some t) × (t ≤ q.now)
has_passed_sound q none h = absurd (cc h)
has_passed_sound q (some t) h = (t, refl, leb→le _ _ h)

last_use : (q : Query) (i : Image) → LastUse i (clock_of q i)
last_use q i = by_pull i.last_pulled_at
  where
    by_pull :
        (o : Option ℕ)
        → (o ≡ some (elim o [ none ↦ i.last_pushed_at | some t ↦ t ]))
          ⊎ ((o ≡ none) × (i.last_pushed_at ≡ (elim o [ none ↦ i.last_pushed_at | some t ↦ t ])))
    by_pull none = inr (refl, refl)
    by_pull (some t) = inl refl

precedes_sound : (q : Query) (j i : Image) → precedes q j i ≡ true → Newer q j i
unfolding precedes
precedes_sound q j i h = elim (Bool-cases (ltb i.last_pushed_at j.last_pushed_at)) [
  | inl later ↦ inl (ltb→lt i.last_pushed_at j.last_pushed_at later)
  | inr e ↦ elim (Bool-cases (ltb i.created_at j.created_at)) [
    | inl later ↦ inr (ground (arith, h, e), inl (ltb→lt i.created_at j.created_at later))
    | inr f ↦ inr (ground (arith, h, e), inr (ground (arith, h, e, f), ground (arith, h, e, f)))
  ]
]

outdoes :
    (q : Query) (i : Image) (y : Joined)
    → competes q y ≡ true
    → (same_repository q i y.image && precedes q y.image i) ≡ true
    → Outdoes q i y.image
outdoes q i y c h =
    let (same, later) = &&-split (same_repository q i y.image) (precedes q y.image i) h in
    (
      (str_eq_iff y.image.repository_id i.repository_id).0 same,
      mode_is q y.image (ground (arith, c)),
      not_mirror q y.image (ground (arith, c)),
      precedes_sound q y.image i later,
    )

module _ (q : Query) (rows : List Joined) where
  outdone_rows : All (λ x. IsObsolete q rows x.image) (keep_latest_images q rows)
  unfolding keep_latest_images row_num
  outdone_rows =
      All-both
        (λ x c n.
          outdone (mode_is q x.image (ground (arith, c))) (not_mirror q x.image (ground (arith, c)))
            (any-filter→Some _ (competes q) rows (outdoes q x.image)
              (some_counted _ (filter (competes q) rows) n)))
        (filter (λ x. ltb 1 (row_num q (filter (competes q) rows) x.image))
          (filter (competes q) rows))
        (All-filter (λ x. competes q x ≡ true) _ (filter (competes q) rows)
          (All-filter_test (competes q) rows))
        (All-filter_test _ (filter (competes q) rows))

  past_row : (x : Joined) → is_expired_ttl q x.image ≡ true → IsObsolete q rows x.image
  unfolding is_expired_ttl
  past_row x h =
      let (t, at, passed) = has_passed_sound q x.image.expires_at (ground (arith, h)) in
      past (ttl_is q x.image (ground (arith, h))) t at passed

  unused_row : (x : Joined) → is_expired_idle q x.image ≡ true → IsObsolete q rows x.image
  unfolding is_expired_idle
  unused_row x h =
      let (s, at, passed) =
        idle_for_sound q x.image x.image.retention_value_seconds (ground (arith, h)) in
      unused (idle_is q x.image (ground (arith, h))) (not_mirror q x.image (ground (arith, h))) s at
        _ (last_use q x.image) passed

  mirror_row : (x : Joined) → is_expired_mirror q x.image ≡ true → IsObsolete q rows x.image
  unfolding is_expired_mirror
  mirror_row x h =
      let (s, at, passed) =
        idle_for_sound q x.image
          (coalesce x.image.retention_value_seconds
            (some (resolved_retention q x.image.upstream_ref)))
          (ground (arith, h)) in
      unused_mirror (not_ttl q x.image (ground (arith, h)))
        (mirror_is q x.image (ground (arith, h))) s at _ (last_use q x.image) passed

  candidates : All (λ x. IsObsolete q rows x.image) (reap_candidates q rows)
  unfolding reap_candidates
  candidates = All-append _ (keep_latest_images q rows) _ outdone_rows (
      All-append _ (filter (λ x. is_expired_ttl q x.image) rows) _
        (All-imp past_row _ (All-filter_test (λ x. is_expired_ttl q x.image) rows))
        (All-append _ (filter (λ x. is_expired_idle q x.image) rows) _
          (All-imp unused_row _ (All-filter_test (λ x. is_expired_idle q x.image) rows))
          (All-imp mirror_row _ (All-filter_test (λ x. is_expired_mirror q x.image) rows))))

-- Every image that a reap lists is obsolete for one of four reasons. It is kept as the latest, not of a
-- mirror, and the tables have such a row of its repository that is newer: pushed later, else created
-- later, else with the later tag. Its mode is ttl, and its end has passed. It is idle and not of a mirror, and
-- the seconds of its row have passed since its last use. It is of a mirror and its mode is not ttl, and the
-- seconds of its row, else of the settings, have passed since its last use. The last use is the last
-- pull, and the last push only where there was no pull. And the guard does not protect its repository.
pub stale_images_sound :
    (q : Query) (db : Database)
    → All
        (λ x. IsObsolete q (joined db) x.image × (is_protected q (path_of x) ≡ false))
        (stale_images q db)
stale_images_sound q db = stale_images-All q _ db (
    All-both (λ x o g. (o, ground (arith, g)))
      (filter (λ x. not (is_protected q (path_of x))) (reap_candidates q (joined db)))
      (All-filter _ _ (reap_candidates q (joined db)) (candidates q (joined db)))
      (All-filter_test _ (reap_candidates q (joined db))))

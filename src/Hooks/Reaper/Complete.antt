-- ===== src/Hooks/Reaper/Complete.antt =====
-- When the registry and the tables accept every deletion, a reap removes all that it lists.
use aocr.Prelude.{
  ◌≡◌, refl, inl, inr, Bool, true, false, not, List, [], ◌∷◌, ◌≢◌, arith, filter, any, All,
  Bool-cases,
}
use aocr.Text.{Str, str_eq}
use aocr.Hooks.Registry.{Log, Registry}
use aocr.Hooks.Database.{Database, Image, delete_image}
use aocr.Hooks.Reaper.Selection.{Joined, Query, path_of, stale_images}
use aocr.Hooks.Reaper.Removal.{
  Env, State, Digest, unknown, absent, known, is_gone, delete_request, after_digest, digest_for,
  reap_row, reap_rows, reap_obsolete_images,
}
use aocr.Hooks.Reaper.Confirmed.{
  Removed, no_tag, Source, unresolved, missing, named, digest_for-Source, gone-Removed,
  Removed-more, reap_rows-log,
}
use aocr.Hooks.Reaper.Kept.{reap_rows-keeps, every}

-- The registry gives a digest or says that there is none, and takes every deletion; so do the tables.
pub record Cooperates (reg : Registry) (env : Env) : Type 0 where
  pub stored : (x : Joined) → env.postgres_up x ≡ true
  pub resolved : (x : Joined) (log : Log) → (digest_for reg env (path_of x) x.image log).0 ≢ unknown
  pub accepted :
      (x : Joined) (digest : Str) (log : Log)
      → is_gone reg env (reg.answer log (delete_request reg env x digest)) ≡ true

-- No image has the id.
abbrev pub IsGone : Str → Database → Type 0
IsGone id db = any (λ (i : Image). str_eq i.id id) db.images ≡ false

filtered_gone :
    (id : Str) (is : List Image)
    → any (λ (i : Image). str_eq i.id id) (filter (λ i. not (str_eq i.id id)) is) ≡ false
unfolding any filter
filtered_gone id [] = refl
filtered_gone id (i ∷ is) = elim (Bool-cases (str_eq i.id id)) [
  | inl e ↦ rw e (filtered_gone id is)
  | inr e ↦ rw e (rw e (filtered_gone id is))
]

filter_gone :
    (p : Image → Bool) (id : Str) (is : List Image)
    → any (λ (i : Image). str_eq i.id id) is ≡ false
    → any (λ (i : Image). str_eq i.id id) (filter p is) ≡ false
unfolding any filter
filter_gone p id [] h = refl
filter_gone p id (i ∷ is) h = elim (Bool-cases (p i)) [
  | inl e ↦ rw e (ground (arith, h, filter_gone p id is))
  | inr e ↦ rw e (filter_gone p id is (ground (arith, h)))
]

delete_image-IsGone :
    (id other : Str) (db : Database) → IsGone id db → IsGone id (delete_image other db)
unfolding delete_image
delete_image-IsGone id other db h = filter_gone _ id db.images h

module _ (reg : Registry) (env : Env) (c : Cooperates reg env) where
  after_digest-IsGone :
      (x : Joined) (d : Digest × Log) (st : State)
      → d.0 ≢ unknown
      → IsGone x.image.id (after_digest reg env x d st).db
  unfolding after_digest delete_image
  after_digest-IsGone x (unknown, log) st h = absurd (h refl)
  after_digest-IsGone x (absent, log) st h = rw (c.stored x) (filtered_gone x.image.id st.db.images)
  after_digest-IsGone x (known digest, log) st h =
      rw (c.accepted x digest log) (rw (c.stored x) (filtered_gone x.image.id st.db.images))

  reap_row-IsGone : (x : Joined) (st : State) → IsGone x.image.id (reap_row reg env x st).db
  unfolding reap_row
  reap_row-IsGone x st = after_digest-IsGone x _ st (c.resolved x st.log)

  after_digest-Removed :
      (x : Joined) (d : Digest × Log) (st : State)
      → Source reg env x d
      → d.0 ≢ unknown
      → Removed reg env x (after_digest reg env x d st).log
  unfolding after_digest
  after_digest-Removed x _ st (unresolved log) h = absurd (h refl)
  after_digest-Removed x _ st (missing log a) h = rw (c.stored x) (no_tag a)
  after_digest-Removed x _ st (named digest log n) h =
      rw (c.accepted x digest log)
        (rw (c.stored x) (gone-Removed reg env x digest log n (c.accepted x digest log)))

  reap_row-Removed : (x : Joined) (st : State) → Removed reg env x (reap_row reg env x st).log
  unfolding reap_row
  reap_row-Removed x st =
      after_digest-Removed x _ st (digest_for-Source reg env x st.log) (c.resolved x st.log)

  reap_rows-IsGone :
      (xs : List Joined) (st : State)
      → All
          (λ x.
            IsGone x.image.id (reap_rows reg env xs st).db
            × Removed reg env x (reap_rows reg env xs st).log)
          xs
  unfolding reap_rows
  reap_rows-IsGone [] st = tt
  reap_rows-IsGone (x ∷ xs) st = (
    (
      reap_rows-keeps reg env (IsGone x.image.id) xs (reap_row reg env x st)
          (every xs (λ y db h. delete_image-IsGone x.image.id y.image.id db h))
          (reap_row-IsGone x st),
      reap_rows-log reg env (Removed reg env x) (Removed-more reg env x) xs (reap_row reg env x st)
          (reap_row-Removed x st),
    ),
    reap_rows-IsGone xs (reap_row reg env x st),
  )

  -- If the registry gives a digest or says that there is none, and takes every deletion, and the tables
  -- carry out every deletion, then after a reap no image that it listed is left in the tables, and for
  -- each the registry was asked to delete the manifest and took it or did not know it, or did not know
  -- the tag.
  pub reap_obsolete_images-IsGone :
      (q : Query) (st : State)
      → All
          (λ x.
            IsGone x.image.id (reap_obsolete_images reg env q st).1.db
            × Removed reg env x (reap_obsolete_images reg env q st).1.log)
          (stale_images q st.db)
  unfolding reap_obsolete_images
  reap_obsolete_images-IsGone q st = reap_rows-IsGone (stale_images q st.db) st

-- ===== src/Hooks/Reaper/Confirmed/Rounds.antt =====
-- A reap takes a row away only in a round in which the registry had its say on the image.
use aocr.Prelude.{
  ◌≡◌, refl, ap, ◌∙◌, ◌⊎◌, inl, inr, Bool, true, false, not, List, [], ◌∷◌, arith, filter, any,
  Some, here, there, Bool-cases,
}
use aocr.Text.{Str, str_eq}
use aocr.Text.Laws.{str_eq_iff}
use aocr.Hooks.Registry.{Log, Registry}
use aocr.Hooks.Database.{Database, Image, delete_image}
use aocr.Hooks.Reaper.Selection.{Joined, Query, stale_images}
use aocr.Hooks.Reaper.Removal.{
  Env, State, Digest, is_gone, delete_request, after_digest, reap_row, reap_rows,
  reap_obsolete_images,
}
use aocr.Hooks.Reaper.Confirmed.{
  Removed, no_tag, Source, unresolved, missing, named, digest_for-Source, gone-Removed,
  Removed-more, reap_rows-log,
}

module _ (reg : Registry) (env : Env) where
  -- A round leaves the tables as they were, or it takes its row away and the registry had its say.
  abbrev Round : Joined → Database → State → Type 0
  Round x db st = (st.db ≡ db) ⊎ ((st.db ≡ delete_image x.image.id db) × Removed reg env x st.log)

  after_digest-Round :
      (x : Joined) (d : Digest × Log) (st : State)
      → Source reg env x d
      → Round x st.db (after_digest reg env x d st)
  unfolding after_digest
  after_digest-Round x _ st (unresolved log) = inl refl
  after_digest-Round x _ st (missing log a) = elim (Bool-cases (env.postgres_up x)) [
    | inl e ↦ rw e (inr (refl, no_tag a))
    | inr e ↦ rw e (inl refl)
  ]
  after_digest-Round x _ st (named digest log n) =
      elim (Bool-cases (is_gone reg env (reg.answer log (delete_request reg env x digest)))) [
        | inr e ↦ rw e (inl refl)
        | inl e ↦
            let removed = gone-Removed reg env x digest log n e in
            elim (Bool-cases (env.postgres_up x)) [
              | inl f ↦ rw (e, f) (inr (refl, removed))
              | inr f ↦ rw (e, f) (inl refl)
            ]
      ]

  reap_row-Round : (x : Joined) (st : State) → Round x st.db (reap_row reg env x st)
  unfolding reap_row
  reap_row-Round x st = after_digest-Round x _ st (digest_for-Source reg env x st.log)

abbrev pub has_image : Str → List Image → Bool
has_image id is = any (λ (i : Image). str_eq i.id id) is

kept_elsewhere :
    (id other : Str) (is : List Image)
    → str_eq other id ≡ false
    → has_image id is ≡ true
    → has_image id (filter (λ (i : Image). not (str_eq i.id other)) is) ≡ true
unfolding any filter
kept_elsewhere id other [] e h = absurd (cc h)
kept_elsewhere id other (i ∷ is) e h = elim (Bool-cases (str_eq i.id other)) [
  | inl f ↦
      let same = (str_eq_iff i.id other).0 f in
      let apart : str_eq i.id id ≡ false = ap (λ t. str_eq t id) same ∙ e in
      rw f (kept_elsewhere id other is e (ground (arith, h, apart)))
  | inr f ↦ rw f (ground (arith, h, kept_elsewhere id other is e))
]

-- The row of this id was listed, and the registry had its say on it.
abbrev pub Confirmed : Registry → Env → Str → Log → Joined → Type 0
Confirmed reg env id log x = (x.image.id ≡ id) × Removed reg env x log

module _ (reg : Registry) (env : Env) (id : Str) where
  reap_rows-Confirmed :
      (xs : List Joined) (st : State)
      → has_image id st.db.images ≡ true
      → has_image id (reap_rows reg env xs st).db.images ≡ false
      → Some (Confirmed reg env id (reap_rows reg env xs st).log) xs
  unfolding reap_rows delete_image
  reap_rows-Confirmed [] st h g = absurd (cc (h, g))
  reap_rows-Confirmed (x ∷ xs) st h g =
      let st' = reap_row reg env x st in
      elim (reap_row-Round reg env x st) [
        | inl e ↦ there (reap_rows-Confirmed xs st' (ap (λ db. has_image id db.images) e ∙ h) g)
        | inr (e, r) ↦ elim (Bool-cases (str_eq x.image.id id)) [
          | inl same ↦ here (
            (str_eq_iff x.image.id id).0 same,
            reap_rows-log reg env (Removed reg env x) (Removed-more reg env x) xs st' r,
          )
          | inr other ↦ there (
              reap_rows-Confirmed xs st'
                (ap (λ db. has_image id db.images) e
                  ∙ kept_elsewhere id x.image.id st.db.images other h)
                g)
        ]
      ]

  -- An image that was in the tables and is no more after a reap was listed, and among its requests the
  -- reap asked the registry to delete the manifest, by the digest of the row or one that the registry
  -- gives for the tag, and was answered 202, 204 or 404; or it asked for the tag and was answered 404.
  pub reap_obsolete_images-Confirmed :
      (q : Query) (st : State)
      → has_image id st.db.images ≡ true
      → has_image id (reap_obsolete_images reg env q st).1.db.images ≡ false
      → Some (Confirmed reg env id (reap_obsolete_images reg env q st).1.log) (stale_images q st.db)
  unfolding reap_obsolete_images
  reap_obsolete_images-Confirmed q st h g = reap_rows-Confirmed (stale_images q st.db) st h g

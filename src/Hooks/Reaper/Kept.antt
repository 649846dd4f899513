-- ===== src/Hooks/Reaper/Kept.antt =====
-- What a reap removes, what it leaves, and when it removes all.
use aocr.Prelude.{
  ◌≤◌, ◌≡◌, refl, sym, ap, ◌∙◌, subst, ◌⊎◌, inl, inr, Bool, true, not, List, [], ◌∷◌, arith, filter,
  map, length, length-take-le, All, All-imp, Bool-cases, or-left, or-right, if◌then◌else◌,
}
use aocr.Text.{Str, contains, str_eq}
use aocr.Text.Laws.{str_eq_iff, str_eq_refl}
use aocr.Hooks.Registry.{Log, Registry}
use aocr.Hooks.Database.{Database, Image, delete_image}
use aocr.Hooks.Database.Keys.{IsSound, delete_image-IsSound}
use aocr.Hooks.Reaper.Selection.{Joined, Query, stale_images}
use aocr.Hooks.Reaper.Removal.{
  Env, State, Digest, unknown, absent, known, is_gone, delete_request, after_digest, reap_row,
  reap_rows, drop_row, purge, reap_obsolete_images,
}

-- One round changes the tables by the deletion of its row at most.
abbrev IsRound : Joined → Database → Database → Type 0
IsRound x db db' = (db' ≡ db) ⊎ (db' ≡ delete_image x.image.id db)

module _ (reg : Registry) (env : Env) where
  drop_row-IsRound : (x : Joined) (st : State) → IsRound x st.db (drop_row reg env x st).db
  drop_row-IsRound x st = elim (Bool-cases (env.postgres_up x)) [
    | inl e ↦ rw e (inr refl)
    | inr e ↦ rw e (inl refl)
  ]

  purge-IsRound : (x : Joined) (st : State) → IsRound x st.db (purge reg env x st).db
  purge-IsRound x st = elim (Bool-cases (env.postgres_up x)) [
    | inl e ↦ rw e (inr refl)
    | inr e ↦ rw e (inl refl)
  ]

  after_digest-IsRound :
      (x : Joined) (d : Digest × Log) (st : State)
      → IsRound x st.db (after_digest reg env x d st).db
  unfolding after_digest
  after_digest-IsRound x (unknown, log) st = inl refl
  after_digest-IsRound x (absent, log) st = drop_row-IsRound x (record st { log = log })
  after_digest-IsRound x (known digest, log) st =
      elim (Bool-cases (is_gone reg env (reg.answer log (delete_request reg env x digest)))) [
        | inl e ↦ rw e (purge-IsRound x (record st { log = delete_request reg env x digest ∷ log }))
        | inr e ↦ rw e (inl refl)
      ]

  reap_row-IsRound : (x : Joined) (st : State) → IsRound x st.db (reap_row reg env x st).db
  unfolding reap_row
  reap_row-IsRound x st = after_digest-IsRound x _ st

  -- What every deletion of a listed row keeps is kept.
  pub reap_rows-keeps :
      (P : Database → Type 0) (xs : List Joined) (st : State)
      → All (λ x. (db : Database) → P db → P (delete_image x.image.id db)) xs
      → P st.db
      → P (reap_rows reg env xs st).db
  unfolding reap_rows
  reap_rows-keeps P [] st h p = p
  reap_rows-keeps P (x ∷ xs) st (k, h) p =
      reap_rows-keeps P xs (reap_row reg env x st) h (elim (reap_row-IsRound x st) [
        | inl e ↦ subst P (sym e) p
        | inr e ↦ subst P (sym e) (k st.db p)
      ])

-- The images of other ids.
abbrev others : List Str → List Image → List Image
others ids is = filter (λ i. not (contains ids i.id)) is

filter-filter :
    (p q : Image → Bool) (is : List Image)
    → ((i : Image) → p i ≡ true → q i ≡ true)
    → filter p (filter q is) ≡ filter p is
unfolding filter
filter-filter p q [] h = refl
filter-filter p q (i ∷ is) h = elim (Bool-cases (q i)) [
  | inl e ↦ rw e (ap (λ r. if p i then i ∷ r else r) (filter-filter p q is h))
  | inr e ↦ elim (Bool-cases (p i)) [
    | inl f ↦ absurd (cc (h i f, e))
    | inr f ↦ rw (e, f) (filter-filter p q is h)
  ]
]

others-delete_image :
    (ids : List Str) (id : Str) (db : Database)
    → contains ids id ≡ true
    → others ids (delete_image id db).images ≡ others ids db.images
unfolding delete_image
others-delete_image ids id db c = filter-filter _ _ db.images (λ i h.
    elim (Bool-cases (str_eq i.id id)) [
      | inr e ↦ rw e refl
      | inl e ↦
          absurd (
            ground
              (arith, h, subst (λ t. contains ids t ≡ true) (sym ((str_eq_iff i.id id).0 e)) c))
    ])

abbrev pub ids_of : List Joined → List Str
ids_of xs = map (λ x. x.image.id) xs

contained :
    (xs : List Joined) (ids : List Str)
    → ((id : Str) → contains (ids_of xs) id ≡ true → contains ids id ≡ true)
    → All (λ x. contains ids x.image.id ≡ true) xs
unfolding contains
contained [] ids h = tt
contained (x ∷ xs) ids h = (
  h x.image.id (or-left _ _ (str_eq_refl x.image.id)),
  contained xs ids (λ id e. h id (or-right _ _ e)),
)

pub every : {P : Joined → Type 0} (xs : List Joined) → ((x : Joined) → P x) → All P xs
every [] f = tt
every (x ∷ xs) f = (f x, every xs f)

-- A reap lists at most five hundred images and reports how many it listed. The images that it did
-- not list, and the repositories, are as they were; and if paths were unique, tags unique in their
-- repository and every image had a repository, they still are and it still has.
pub reap_obsolete_images-keeps :
    (reg : Registry) (env : Env) (q : Query) (st : State)
    → (length (stale_images q st.db) ≤ 500)
      × ((reap_obsolete_images reg env q st).0 ≡ length (stale_images q st.db))
      × (filter
            (λ i. not (contains (ids_of (stale_images q st.db)) i.id))
            (reap_obsolete_images reg env q st).1.db.images
          ≡ filter (λ i. not (contains (ids_of (stale_images q st.db)) i.id)) st.db.images)
      × ((reap_obsolete_images reg env q st).1.db.repositories ≡ st.db.repositories)
      × (IsSound st.db → IsSound (reap_obsolete_images reg env q st).1.db)
unfolding reap_obsolete_images
reap_obsolete_images-keeps reg env q st =
    let rows = stale_images q st.db in
    (
      unfold stale_images in length-take-le 500 _,
      refl,
      reap_rows-keeps reg env
          (λ db. others (ids_of rows) db.images ≡ others (ids_of rows) st.db.images) rows st
          (All-imp (λ x c db e. others-delete_image (ids_of rows) x.image.id db c ∙ e) rows
            (contained rows (ids_of rows) (λ id e. e)))
          refl,
      reap_rows-keeps reg env (λ db. db.repositories ≡ st.db.repositories) rows st
          (every rows (λ x db e. unfold delete_image in e)) refl,
      λ s.
          reap_rows-keeps reg env IsSound rows st
            (every rows (λ x db k. delete_image-IsSound x.image.id db k)) s,
    )

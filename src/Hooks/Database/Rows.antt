-- ===== src/Hooks/Database/Rows.antt =====
-- What a push writes: the row of its repository and the row of its tag, and no other.
use aocr.Prelude.{
  ◌≡◌, refl, sym, ap, ◌∙◌, subst, inl, inr, Bool, true, false, ◌||◌, ◌&&◌, List, [], ◌∷◌, Option,
  none, some, arith, any, filter, not, All-imp, Bool-cases, &&-split, if◌then◌else◌,
}
use aocr.Text.{Str, str_eq}
use aocr.Text.Laws.{str_eq_iff, str_eq_refl, str_eq_comm}
use aocr.Hooks.Database.{
  Repository, Image, Database, is_named, upsert_repository, has_key, overwrite, upsert_image,
}
use aocr.Hooks.Database.Keys.{
  IsNamed, Refers, IsSound, has_id, has_key_same, upsert_image_hit, upsert_image_miss,
  upsert_image-IsKeyed,
}

upsert_repository_hit :
    (fresh o n : Str) (r : Repository) (rs : List Repository)
    → is_named o n r ≡ true
    → upsert_repository fresh o n (r ∷ rs) ≡ (r.id, record r { name = n } ∷ rs)
unfolding upsert_repository
upsert_repository_hit fresh o n r rs h = rw h refl

upsert_repository_miss :
    (fresh o n : Str) (r : Repository) (rs : List Repository)
    → is_named o n r ≡ false
    → upsert_repository fresh o n (r ∷ rs)
      ≡ ((upsert_repository fresh o n rs).0, r ∷ (upsert_repository fresh o n rs).1)
unfolding upsert_repository
upsert_repository_miss fresh o n r rs h = rw h refl

any_named-upsert_repository :
    (fresh o n o' n' : Str) (rs : List Repository)
    → any (is_named o' n') (upsert_repository fresh o n rs).1
      ≡ ((str_eq o o' && str_eq n n') || any (is_named o' n') rs)
unfolding any
any_named-upsert_repository fresh o n o' n' [] = unfold upsert_repository in refl
any_named-upsert_repository fresh o n o' n' (r ∷ rs) = elim (Bool-cases (is_named o n r)) [
  | inl h ↦
      let (e, f) = &&-split (str_eq r.organization o) (str_eq r.name n) h in
      let same = (str_eq_iff r.organization o).0 e in
      let named = (str_eq_iff r.name n).0 f in
      rw (upsert_repository_hit fresh o n r rs h) (rw (same, named) (ground arith))
  | inr h ↦
      rw (upsert_repository_miss fresh o n r rs h)
        (ground (arith, any_named-upsert_repository fresh o n o' n' rs))
]

upsert_repository-IsNamed :
    (fresh o n : Str) (rs : List Repository)
    → IsNamed rs
    → IsNamed (upsert_repository fresh o n rs).1
unfolding any
upsert_repository-IsNamed fresh o n [] k = unfold upsert_repository in (refl, tt)
upsert_repository-IsNamed fresh o n (r ∷ rs) (new, k) = elim (Bool-cases (is_named o n r)) [
  | inl h ↦
      let (e, f) = &&-split (str_eq r.organization o) (str_eq r.name n) h in
      let named = (str_eq_iff r.name n).0 f in
      subst (λ u. IsNamed u.1) (sym (upsert_repository_hit fresh o n r rs h))
        (ap (λ m. any (is_named r.organization m) rs) (sym named) ∙ new, k)
  | inr h ↦
      subst (λ u. IsNamed u.1) (sym (upsert_repository_miss fresh o n r rs h))
        (
          any_named-upsert_repository fresh o n r.organization r.name rs
              ∙ ground (arith, new, h, str_eq_comm o r.organization, str_eq_comm n r.name),
          upsert_repository-IsNamed fresh o n rs k,
        )
]

-- The id that the statement returns is that of a row with the path, and no id is lost.
upsert_repository-has_id :
    (fresh o n id : Str) (rs : List Repository)
    → has_id id rs ≡ true
    → has_id id (upsert_repository fresh o n rs).1 ≡ true
unfolding has_id
upsert_repository-has_id fresh o n id [] h = absurd (cc h)
upsert_repository-has_id fresh o n id (r ∷ rs) h = elim (Bool-cases (is_named o n r)) [
  | inl e ↦ rw (upsert_repository_hit fresh o n r rs e) h
  | inr e ↦
      rw (upsert_repository_miss fresh o n r rs e)
        (ground (arith, h, upsert_repository-has_id fresh o n id rs))
]

-- The rows of a path, by the id.
unfoldable pub has_path : Str → Str → Str → List Repository → Bool
unfolding any str_eq
has_path id o n rs = any (λ (r : Repository). str_eq id r.id && is_named o n r) rs

pub upsert_repository-has_path :
    (fresh o n : Str) (rs : List Repository)
    → has_path (upsert_repository fresh o n rs).0 o n (upsert_repository fresh o n rs).1 ≡ true
unfolding has_path
upsert_repository-has_path fresh o n [] =
    unfold upsert_repository in ground (arith, str_eq_refl fresh, str_eq_refl o, str_eq_refl n)
upsert_repository-has_path fresh o n (r ∷ rs) = elim (Bool-cases (is_named o n r)) [
  | inl e ↦
      rw (upsert_repository_hit fresh o n r rs e)
        (ground (arith, e, str_eq_refl r.id, str_eq_refl n))
  | inr e ↦
      rw (upsert_repository_miss fresh o n r rs e)
        (ground (arith, upsert_repository-has_path fresh o n rs))
]

-- The rows of other paths stand as they were, and no row is added beside that of the path.
pub upsert_repository-others :
    (fresh o n : Str) (rs : List Repository)
    → filter (λ r. not (is_named o n r)) (upsert_repository fresh o n rs).1
      ≡ filter (λ r. not (is_named o n r)) rs
unfolding filter
upsert_repository-others fresh o n [] =
    unfold upsert_repository in ground (arith, str_eq_refl o, str_eq_refl n)
upsert_repository-others fresh o n (r ∷ rs) = elim (Bool-cases (is_named o n r)) [
  | inl e ↦
      let (same, _) = &&-split (str_eq r.organization o) (str_eq r.name n) e in
      rw (upsert_repository_hit fresh o n r rs e) (rw (e, same, str_eq_refl n) refl)
  | inr e ↦
      rw (upsert_repository_miss fresh o n r rs e)
        (rw e (ap (λ k. r ∷ k) (upsert_repository-others fresh o n rs)))
]

has_path-has_id :
    (id o n : Str) (rs : List Repository) → has_path id o n rs ≡ true → has_id id rs ≡ true
unfolding has_path has_id
has_path-has_id id o n [] h = h
has_path-has_id id o n (r ∷ rs) h =
    ground (arith, h, str_eq_comm id r.id, has_path-has_id id o n rs)

upsert_image-Refers :
    (rs : List Repository) (new : Image) (is : List Image)
    → has_id new.repository_id rs ≡ true
    → Refers rs is
    → Refers rs (upsert_image new is)
upsert_image-Refers rs new [] h k = unfold upsert_image in (h, tt)
upsert_image-Refers rs new (i ∷ is) h (e, k) =
    elim (Bool-cases (has_key new.repository_id new.tag i)) [
      | inl f ↦ subst (Refers rs) (sym (upsert_image_hit new i is f)) (e, k)
      | inr f ↦
          subst (Refers rs) (sym (upsert_image_miss new i is f))
            (e, upsert_image-Refers rs new is h k)
    ]

-- A push keeps the invariant.
pub upsert-IsSound :
    (fresh o n : Str) (new : Image) (db : Database)
    → new.repository_id ≡ (upsert_repository fresh o n db.repositories).0
    → IsSound db
    → IsSound (record {
      repositories = (upsert_repository fresh o n db.repositories).1;
      images = upsert_image new db.images;
    })
upsert-IsSound fresh o n new db e s =
    let u = upsert_repository fresh o n db.repositories in
    let referred : has_id new.repository_id u.1 ≡ true =
      ap (λ id. has_id id u.1) e
      ∙ has_path-has_id u.0 o n u.1 (upsert_repository-has_path fresh o n db.repositories) in
    record {
      keyed = upsert_image-IsKeyed new db.images s.keyed;
      named = upsert_repository-IsNamed fresh o n db.repositories s.named;
      refers = upsert_image-Refers u.1 new db.images referred (
          All-imp (λ i h. upsert_repository-has_id fresh o n i.repository_id db.repositories h)
            db.images s.refers);
    }

-- The row of a key.
unfoldable pub find_image : Str → Str → List Image → Option Image
find_image r t [] = none
find_image r t (i ∷ is) = let rest = find_image r t is in if has_key r t i then some i else rest

-- What the row of a key becomes.
abbrev pub merged : Image → Option Image → Image
merged new none = new
merged new (some old) = overwrite old new

-- After the upsert the key has the merged row, and every other key what it had.
pub find_image-upsert_image :
    (new : Image) (r t : Str) (is : List Image)
    → find_image r t (upsert_image new is) ≡ (
        if has_key r t new
        then some (merged new (find_image new.repository_id new.tag is))
        else find_image r t is)
unfolding find_image
find_image-upsert_image new r t [] = unfold upsert_image in ground arith
find_image-upsert_image new r t (i ∷ is) = elim (Bool-cases (has_key new.repository_id new.tag i)) [
  | inl h ↦
      let same : has_key r t i ≡ has_key r t new = has_key_same new.repository_id new.tag r t i h in
      rw (upsert_image_hit new i is h) (rw (h, same) (both_branches (has_key r t new) _ _ _))
  | inr h ↦
      rw (upsert_image_miss new i is h)
        (rw (h, find_image-upsert_image new r t is) (other_key _ _ i h))
]
  where
    both_branches :
        (b : Bool) (x y z : Option Image)
        → (if b then x else z) ≡ (if b then x else (if b then y else z))
    both_branches true x y z = refl
    both_branches false x y z = refl

    other_key :
        (x y : Option Image) (i : Image)
        → has_key new.repository_id new.tag i ≡ false
        → (if has_key r t i then some i else (if has_key r t new then x else y))
          ≡ (if has_key r t new then x else (if has_key r t i then some i else y))
    other_key x y i h = elim (Bool-cases (has_key r t i)) [
      | inr f ↦ rw f refl
      | inl f ↦
          let apart : has_key r t new ≡ false = ground (
            arith,
            has_key_same r t new.repository_id new.tag i f,
            h,
            str_eq_comm r new.repository_id,
            str_eq_comm t new.tag,
          ) in
          rw (f, apart) refl
    ]

-- ===== src/Hooks/Database/Keys.antt =====
-- The UNIQUE constraints of db/init.sql and the reference of an image to its repository, as an invariant
-- of the tables that each statement keeps. The primary keys are not part of it.
use aocr.Prelude.{
  ℕ, ◌≡◌, refl, sym, ap, ◌∙◌, subst, inl, inr, Bool, true, false, ◌||◌, ◌&&◌, List, [], ◌∷◌, arith,
  any, map, filter, All, All-filter, Bool-cases, &&-split,
}
use aocr.Text.{Str, str_eq}
use aocr.Text.Laws.{str_eq_iff, str_eq_comm}
use aocr.Hooks.Database.{
  Repository, Image, Database, is_named, has_key, overwrite, upsert_image, pull_row,
  update_last_pulled_at, delete_manifest, delete_image,
}

-- UNIQUE (repository_id, tag)
abbrev IsKeyed : List Image → Type 0
IsKeyed [] = Unit
IsKeyed (i ∷ is) = (any (has_key i.repository_id i.tag) is ≡ false) × IsKeyed is

-- UNIQUE (organization, name)
abbrev pub IsNamed : List Repository → Type 0
IsNamed [] = Unit
IsNamed (r ∷ rs) = (any (is_named r.organization r.name) rs ≡ false) × IsNamed rs

unfoldable pub has_id : Str → List Repository → Bool
unfolding any str_eq
has_id id rs = any (λ (r : Repository). str_eq r.id id) rs

abbrev pub Refers : List Repository → List Image → Type 0
Refers rs is = All (λ (i : Image). has_id i.repository_id rs ≡ true) is

-- The keys are unique, and every image refers to a repository.
pub record IsSound (db : Database) : Type 0 where
  pub keyed : IsKeyed db.images
  pub named : IsNamed db.repositories
  pub refers : Refers db.repositories db.images

-- The tests of equal keys agree.
pub has_key_same :
    (r t r' t' : Str) (i : Image)
    → has_key r t i ≡ true
    → has_key r' t' i ≡ (str_eq r r' && str_eq t t')
has_key_same r t r' t' i h =
    let (e, f) = &&-split (str_eq i.repository_id r) (str_eq i.tag t) h in
    cc ((str_eq_iff i.repository_id r).0 e, (str_eq_iff i.tag t).0 f)

pub upsert_image_hit :
    (new i : Image) (is : List Image)
    → has_key new.repository_id new.tag i ≡ true
    → upsert_image new (i ∷ is) ≡ overwrite i new ∷ is
unfolding upsert_image
upsert_image_hit new i is h = rw h refl

pub upsert_image_miss :
    (new i : Image) (is : List Image)
    → has_key new.repository_id new.tag i ≡ false
    → upsert_image new (i ∷ is) ≡ i ∷ upsert_image new is
unfolding upsert_image
upsert_image_miss new i is h = rw h refl

any_key-upsert_image :
    (new : Image) (r t : Str) (is : List Image)
    → any (has_key r t) (upsert_image new is) ≡ (has_key r t new || any (has_key r t) is)
unfolding any
any_key-upsert_image new r t [] = unfold upsert_image in refl
any_key-upsert_image new r t (i ∷ is) = elim (Bool-cases (has_key new.repository_id new.tag i)) [
  | inl h ↦
      let same : has_key r t i ≡ has_key r t new = has_key_same new.repository_id new.tag r t i h in
      rw (upsert_image_hit new i is h) (ground (arith, same))
  | inr h ↦ rw (upsert_image_miss new i is h) (ground (arith, any_key-upsert_image new r t is))
]

pub upsert_image-IsKeyed :
    (new : Image) (is : List Image) → IsKeyed is → IsKeyed (upsert_image new is)
unfolding any
upsert_image-IsKeyed new [] k = unfold upsert_image in (refl, tt)
upsert_image-IsKeyed new (i ∷ is) (fresh, k) =
    elim (Bool-cases (has_key new.repository_id new.tag i)) [
      | inl h ↦ subst IsKeyed (sym (upsert_image_hit new i is h)) (fresh, k)
      | inr h ↦ subst IsKeyed (sym (upsert_image_miss new i is h)) (
        any_key-upsert_image new i.repository_id i.tag is
            ∙ ground (
              arith,
              fresh,
              h,
              str_eq_comm new.repository_id i.repository_id,
              str_eq_comm new.tag i.tag,
            ),
        upsert_image-IsKeyed new is k,
      )
    ]

any_key-filter :
    (p : Image → Bool) (r t : Str) (is : List Image)
    → any (has_key r t) is ≡ false
    → any (has_key r t) (filter p is) ≡ false
unfolding any filter
any_key-filter p r t [] h = refl
any_key-filter p r t (i ∷ is) h = elim (Bool-cases (p i)) [
  | inl e ↦ rw e (ground (arith, any_key-filter p r t is))
  | inr e ↦ rw e (ground (arith, any_key-filter p r t is))
]

filter-IsKeyed : (p : Image → Bool) (is : List Image) → IsKeyed is → IsKeyed (filter p is)
unfolding filter
filter-IsKeyed p [] k = tt
filter-IsKeyed p (i ∷ is) (fresh, k) = elim (Bool-cases (p i)) [
  | inl e ↦ rw e (any_key-filter p i.repository_id i.tag is fresh, filter-IsKeyed p is k)
  | inr e ↦ rw e (filter-IsKeyed p is k)
]

-- A change of rows that leaves their keys.
abbrev KeepsKey : (Image → Image) → Type 0
KeepsKey f = (i : Image) → ((f i).repository_id ≡ i.repository_id) × ((f i).tag ≡ i.tag)

any_key-map :
    (f : Image → Image) (keeps : KeepsKey f) (r t : Str) (is : List Image)
    → any (has_key r t) (map f is) ≡ any (has_key r t) is
unfolding any
any_key-map f keeps r t [] = refl
any_key-map f keeps r t (i ∷ is) = cc ((keeps i).0, (keeps i).1, any_key-map f keeps r t is)

map-IsKeyed :
    (f : Image → Image) (keeps : KeepsKey f) (is : List Image) → IsKeyed is → IsKeyed (map f is)
map-IsKeyed f keeps [] k = tt
map-IsKeyed f keeps (i ∷ is) (fresh, k) = (
  any_key-map f keeps (f i).repository_id (f i).tag is
      ∙ ap (λ r. any (has_key r (f i).tag) is) (keeps i).0
      ∙ ap (λ t. any (has_key i.repository_id t) is) (keeps i).1
      ∙ fresh,
  map-IsKeyed f keeps is k,
)

map-Refers :
    (f : Image → Image) (keeps : KeepsKey f) (rs : List Repository) (is : List Image)
    → Refers rs is
    → Refers rs (map f is)
map-Refers f keeps rs [] h = tt
map-Refers f keeps rs (i ∷ is) (e, h) =
    (ap (λ r. has_id r rs) (keeps i).0 ∙ e, map-Refers f keeps rs is h)

pub pull_row-KeepsKey :
    (rs : List Repository) (organization name tag : Str) (now : ℕ)
    → KeepsKey (pull_row rs organization name tag now)
unfolding pull_row
pull_row-KeepsKey rs organization name tag now i = (ground arith, ground arith)

pub update_last_pulled_at-IsSound :
    (organization name tag : Str) (now : ℕ) (db : Database)
    → IsSound db
    → IsSound (update_last_pulled_at organization name tag now db)
unfolding update_last_pulled_at
update_last_pulled_at-IsSound organization name tag now db s =
    let keeps = pull_row-KeepsKey db.repositories organization name tag now in
    record {
      keyed = map-IsKeyed _ keeps db.images s.keyed;
      named = s.named;
      refers = map-Refers _ keeps db.repositories db.images s.refers;
    }

filter-IsSound :
    (p : Image → Bool) (db : Database)
    → IsSound db
    → IsSound (record db { images = filter p db.images })
filter-IsSound p db s = record {
  keyed = filter-IsKeyed p db.images s.keyed;
  named = s.named;
  refers = All-filter _ p db.images s.refers;
}

pub delete_manifest-IsSound :
    (organization name digest : Str) (db : Database)
    → IsSound db
    → IsSound (delete_manifest organization name digest db)
unfolding delete_manifest
delete_manifest-IsSound organization name digest db s = filter-IsSound _ db s

pub delete_image-IsSound : (id : Str) (db : Database) → IsSound db → IsSound (delete_image id db)
unfolding delete_image
delete_image-IsSound id db s = filter-IsSound _ db s

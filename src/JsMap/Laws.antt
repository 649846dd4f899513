-- ===== src/JsMap/Laws.antt =====
-- Laws of the map: lookups after writes, sizes, and keys that stay distinct.
use aocr.Prelude.{
  suc, ◌≡◌, refl, inl, inr, true, false, ◌||◌, ◌&&◌, not, [], ◌∷◌, ◌++◌, Option, none, some, arith,
  if◌then◌else◌, length, ap, subst, Bool-cases, not_true, or-right, All,
}
use aocr.Text.{Str, str_eq, contains}
use aocr.Text.Laws.{str_eq_iff, str_eq_refl, IsUnique}
use aocr.JsMap.{JsMap, get, set, delete, has, keys}

module _ {ℓ} {V : Type ℓ} where
  pub get-set :
      (m : JsMap V) (k j : Str) (v : V)
      → get (set m k v) j ≡ (if str_eq k j then some v else get m j)
  unfolding get set
  get-set [] k j v = refl
  get-set ((i, w) ∷ m) k j v =
      ground (arith, str_eq_iff k j, str_eq_iff i k, str_eq_iff i j, get-set m k j v)

  pub get-set_self : (m : JsMap V) (k : Str) (v : V) → get (set m k v) k ≡ some v
  get-set_self m k v = ground (arith, get-set m k k v, str_eq_refl k)

  -- With distinct keys a deleted key is gone, and the others are as they were.
  get-none : (m : JsMap V) (k : Str) → contains (keys m) k ≡ false → get m k ≡ none
  unfolding get contains
  get-none [] k h = refl
  get-none ((j, v) ∷ m) k h = ground (arith, get-none m k)

  pub contains-keys-has : (m : JsMap V) (k : Str) → contains (keys m) k ≡ has m k
  unfolding has contains
  contains-keys-has [] k = refl
  contains-keys-has ((j, v) ∷ m) k = ground (arith, contains-keys-has m k)

  pub get-delete :
      (m : JsMap V) (k j : Str)
      → IsUnique (keys m)
      → get (delete m k) j ≡ (if str_eq k j then none else get m j)
  unfolding get delete
  get-delete [] k j u = ground arith
  get-delete ((i, w) ∷ m) k j (fresh, u) =
      ground (arith, str_eq_iff k j, str_eq_iff i k, str_eq_iff i j, get-delete m k j u, absent)
    where
      absent : str_eq i k ≡ true → str_eq k j ≡ true → get m j ≡ none
      absent p q = rw (← ((str_eq_iff k j).0 q), ← ((str_eq_iff i k).0 p)) (get-none m i fresh)

  contains-keys-set :
      (m : JsMap V) (k j : Str) (v : V)
      → contains (keys (set m k v)) j ≡ (str_eq k j || contains (keys m) j)
  unfolding set contains
  contains-keys-set [] k j v = refl
  contains-keys-set ((i, w) ∷ m) k j v =
      ground (arith, str_eq_iff k j, str_eq_iff i k, str_eq_iff i j, contains-keys-set m k j v)

  pub set-IsUnique :
      (m : JsMap V) (k : Str) (v : V) → IsUnique (keys m) → IsUnique (keys (set m k v))
  unfolding set contains
  set-IsUnique [] k v u = (refl, tt)
  set-IsUnique ((i, w) ∷ m) k v (fresh, u) = elim (Bool-cases (str_eq i k)) [
    | inl e ↦ rw (e, set) (fresh, u)
    | inr e ↦
        rw (e, set)
          (
            ground (arith, contains-keys-set m k i v, str_eq_iff k i, str_eq_iff i k),
            set-IsUnique m k v u,
          )
  ]

  -- Deleting takes a key away and adds none.
  pub contains-keys-delete :
      (m : JsMap V) (k j : Str)
      → IsUnique (keys m)
      → contains (keys (delete m k)) j ≡ (not (str_eq k j) && contains (keys m) j)
  unfolding delete contains
  contains-keys-delete [] k j u = ground arith
  contains-keys-delete ((i, w) ∷ m) k j (fresh, u) =
      ground (
        arith,
        str_eq_iff k j,
        str_eq_iff i k,
        str_eq_iff i j,
        contains-keys-delete m k j u,
        absent,
      )
    where
      absent : str_eq i k ≡ true → str_eq k j ≡ true → contains (keys m) j ≡ false
      absent p q = rw (← ((str_eq_iff k j).0 q), ← ((str_eq_iff i k).0 p)) fresh

  pub delete-IsUnique : (m : JsMap V) (k : Str) → IsUnique (keys m) → IsUnique (keys (delete m k))
  unfolding delete
  delete-IsUnique [] k u = tt
  delete-IsUnique ((i, w) ∷ m) k (fresh, u) = elim (Bool-cases (str_eq i k)) [
    | inl e ↦ rw (e, delete) u
    | inr e ↦ rw (e, delete) (ground (arith, contains-keys-delete m k i u), delete-IsUnique m k u)
  ]

  -- Reading a key and setting it, in one pass.
  unfoldable pub upsert : JsMap V → Str → (Option V → V) → JsMap V
  upsert [] k f = (k, f none) ∷ []
  upsert ((j, w) ∷ m) k f =
      let rest = upsert m k f in if str_eq j k then (j, f (some w)) ∷ m else (j, w) ∷ rest

  pub set-get : (m : JsMap V) (k : Str) (f : Option V → V) → set m k (f (get m k)) ≡ upsert m k f
  unfolding set get upsert
  set-get [] k f = refl
  set-get ((j, w) ∷ m) k f = ground (arith, set-get m k f)

  pub length-set :
      (m : JsMap V) (k : Str) (v : V)
      → length (set m k v) ≡ (if has m k then length m else suc (length m))
  unfolding set has
  length-set [] k v = refl
  length-set ((i, w) ∷ m) k v = ground (arith, length-set m k v)

  pub length-delete :
      (m : JsMap V) (k : Str)
      → length m ≡ (if has m k then suc (length (delete m k)) else length (delete m k))
  unfolding delete has
  length-delete [] k = refl
  length-delete ((i, w) ∷ m) k = ground (arith, length-delete m k)

  -- A new key goes to the end, and an old one keeps its place.
  pub keys-upsert :
      (m : JsMap V) (k : Str) (f : Option V → V)
      → keys (upsert m k f) ≡ (if contains (keys m) k then keys m else keys m ++ k ∷ [])
  unfolding upsert contains
  keys-upsert [] k f = refl
  keys-upsert ((j, w) ∷ m) k f = ground (arith, keys-upsert m k f)

  pub set-append : (m : JsMap V) (k : Str) (v : V) → get m k ≡ none → set m k v ≡ m ++ (k, v) ∷ []
  unfolding set get
  set-append [] k v h = refl
  set-append ((j, w) ∷ m) k v h = ground (arith, set-append m k v)

  contains-keys_last : (m : JsMap V) (k : Str) (v : V) → contains (keys (m ++ (k, v) ∷ [])) k ≡ true
  unfolding contains
  contains-keys_last [] k v = ground (arith, str_eq_refl k)
  contains-keys_last ((j, w) ∷ m) k v = or-right _ _ (contains-keys_last m k v)

  -- A key at the end, of distinct keys, is found there.
  pub get-append_last :
      (m : JsMap V) (k : Str) (v : V)
      → IsUnique (keys (m ++ (k, v) ∷ []))
      → get (m ++ (k, v) ∷ []) k ≡ some v
  unfolding get
  get-append_last [] k v u = ground (arith, str_eq_refl k)
  get-append_last ((j, w) ∷ m) k v (fresh, u) =
      let differs : str_eq j k ≡ false = not_true λ e. absurd (
        cc (
          fresh,
          contains-keys_last m k v,
          ap (contains (keys (m ++ (k, v) ∷ []))) ((str_eq_iff j k).0 e),
        )) in
      ground (arith, get-append_last m k v u)

-- What holds of every entry holds of the value that a key has.
pub get_All {ℓ κ} :
    {V : Type ℓ} (P : Str → V → Type κ) (m : JsMap V) (key : Str) (value : V)
    → All (λ (e : Str × V). P e.0 e.1) m
    → get m key ≡ some value
    → P key value
unfolding get
get_All P [] key value a h = absurd (cc h)
get_All P ((k, v) ∷ m) key value (p, a) h = elim (Bool-cases (str_eq k key)) [
  | inl e ↦
      let same : v ≡ value = cc (e, h) in
      subst (λ t. P t value) ((str_eq_iff k key).0 e) (subst (P k) same p)
  | inr e ↦ get_All P m key value a (cc (e, h))
]

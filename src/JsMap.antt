-- ===== src/JsMap.antt =====
-- A JavaScript `Map` with string keys: entries in order of insertion. Setting a key that is there
-- keeps its place; deleting and setting it again moves it to the end.
pub mod Laws
use aocr.Prelude.{Bool, true, false, List, [], ◌∷◌, Option, none, some, if◌then◌else◌, map}
use aocr.Text.{Str, str_eq}

abbrev pub JsMap {ℓ} : Type ℓ → Type ℓ
JsMap V = List (Str × V)

module _ {ℓ} {V : Type ℓ} where
  -- m.get(key)
  unfoldable pub get : JsMap V → Str → Option V
  get [] key = none
  get ((k, v) ∷ m) key = if str_eq k key then some v else get m key

  -- m.set(key, value)
  unfoldable pub set : JsMap V → Str → V → JsMap V
  set [] key value = (key, value) ∷ []
  set ((k, v) ∷ m) key value =
      let rest = set m key value in if str_eq k key then (k, value) ∷ m else (k, v) ∷ rest

  -- m.delete(key)
  unfoldable pub delete : JsMap V → Str → JsMap V
  delete [] key = []
  delete ((k, v) ∷ m) key = let rest = delete m key in if str_eq k key then m else (k, v) ∷ rest

  -- m.has(key)
  unfoldable pub has : JsMap V → Str → Bool
  has [] key = false
  has ((k, v) ∷ m) key = if str_eq k key then true else has m key

  -- Array.from(m.values()) and Array.from(m.keys())
  abbrev pub values : JsMap V → List V
  values [] = []
  values ((k, v) ∷ m) = v ∷ values m

  abbrev pub keys : JsMap V → List Str
  keys [] = []
  keys ((k, v) ∷ m) = k ∷ keys m

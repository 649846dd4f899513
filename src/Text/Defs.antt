-- ===== src/Text/Defs.antt =====
-- String methods: equality, search, slices, split, trim, prefix tests.
use Prim.Native.Char.{code}
use aocr.Prelude.{
  ℕ, zero, suc, ◌-◌, String, Bool, true, false, ◌&&◌, ◌||◌, List, [], ◌∷◌, ◌++◌, Option, none, some,
  ◌==◌, leb, if◌then◌else◌, drop, take, length,
}

abbrev pub Str : Type 0
Str = List ℕ

-- A literal of the source; the source's literals are ASCII.
abbrev pub codes : String → Str
codes String.[] = []
codes (String.◌∷◌ c s) = code c ∷ codes s

-- s === t
unfoldable pub str_eq : Str → Str → Bool
str_eq [] [] = true
str_eq [] (b ∷ t) = false
str_eq (a ∷ s) [] = false
str_eq (a ∷ s) (b ∷ t) = (a == b) && str_eq s t

-- s.length === 0, the test of a falsy string
abbrev pub is_empty : Str → Bool
is_empty [] = true
is_empty (c ∷ s) = false

-- list.includes(s)
unfoldable pub contains : List Str → Str → Bool
contains [] s = false
contains (x ∷ xs) s = str_eq x s || contains xs s

-- s.indexOf(c) of one character
unfoldable pub index_of : ℕ → Str → Option ℕ
index_of c [] = none
index_of c (d ∷ s) = elim (index_of c s) [
  | none ↦ if d == c then some zero else none
  | some i ↦ if d == c then some zero else some (suc i)
]

-- s.lastIndexOf(c) of one character
unfoldable pub last_index_of : ℕ → Str → Option ℕ
last_index_of c [] = none
last_index_of c (d ∷ s) = elim (last_index_of c s) [
  | none ↦ if d == c then some zero else none
  | some i ↦ some (suc i)
]

-- s.slice(from, to) and s.slice(from)
abbrev pub slice : ℕ → ℕ → Str → Str
slice from to s = drop from (take to s)

abbrev pub slice_from : ℕ → Str → Str
slice_from from s = drop from s

-- s.startsWith(prefix)
unfoldable pub starts_with : Str → Str → Bool
starts_with s [] = true
starts_with [] (p ∷ ps) = false
starts_with (c ∷ s) (p ∷ ps) = (c == p) && starts_with s ps

-- s.includes(part)
unfoldable pub includes : Str → Str → Bool
unfolding starts_with
includes [] part = is_empty part
includes (c ∷ s) part = starts_with (c ∷ s) part || includes s part

cons_head : ℕ → List Str → List Str
cons_head c [] = (c ∷ []) ∷ []
cons_head c (x ∷ xs) = (c ∷ x) ∷ xs

-- s.split(/[...]/) at every character of a class
unfoldable pub split_on : (ℕ → Bool) → Str → List Str
unfolding cons_head
split_on p [] = [] ∷ []
split_on p (c ∷ s) = let parts = split_on p s in if p c then [] ∷ parts else cons_head c parts

abbrev head_is : (ℕ → Bool) → Str → Bool
head_is p [] = false
head_is p (c ∷ s) = p c

-- s.split(/[...]+/) at every run of a class
unfoldable pub split_runs : (ℕ → Bool) → Str → List Str
unfolding cons_head
split_runs p [] = [] ∷ []
split_runs p (c ∷ s) =
    let parts = split_runs p s in
    if p c then (if head_is p s then parts else [] ∷ parts) else cons_head c parts

-- the white space of `trim` and of \s
unfoldable pub is_space : ℕ → Bool
is_space c =
    (leb 9 c && leb c 13)
    || (c == 32)
    || (c == 160)
    || (c == 0x1680)
    || (leb 0x2000 c && leb c 0x200a)
    || (c == 0x2028)
    || (c == 0x2029)
    || (c == 0x202f)
    || (c == 0x205f)
    || (c == 0x3000)
    || (c == 0xfeff)

unfoldable pub drop_start : (ℕ → Bool) → Str → Str
drop_start p [] = []
drop_start p (c ∷ s) = let rest = drop_start p s in if p c then rest else c ∷ s

unfoldable drop_end : (ℕ → Bool) → Str → Str
drop_end p [] = []
drop_end p (c ∷ s) = let rest = drop_end p s in if is_empty rest && p c then [] else c ∷ rest

-- s.trim()
unfoldable pub trim : Str → Str
unfolding is_space drop_start drop_end
trim s = drop_end is_space (drop_start is_space s)

-- s.replace(/\/+$/, '')
unfoldable pub strip_slashes : Str → Str
unfolding drop_end
strip_slashes s = drop_end (λ c. c == b'/') s

-- parts.join('/') and the like, by one character
unfoldable pub join : ℕ → List Str → Str
join c [] = []
join c (x ∷ []) = x
join c (x ∷ y ∷ ys) = x ++ (c ∷ join c (y ∷ ys))

-- s.endsWith(suffix)
unfoldable pub ends_with : Str → Str → Bool
unfolding str_eq
ends_with s suffix =
    leb (length suffix) (length s) && str_eq (drop (length s - length suffix) s) suffix

-- Array.from(new Set(values)): the first of each value, in order
unfoldable pub unique_from : List Str → List Str → List Str
unfolding contains str_eq
unique_from seen [] = []
unique_from seen (x ∷ xs) = elim (contains seen x) [
  | true ↦ unique_from seen xs
  | false ↦ x ∷ unique_from (x ∷ seen) xs
]

unfoldable pub unique : List Str → List Str
unfolding unique_from
unique xs = unique_from [] xs

-- ===== src/Auth/ClusterPat/Entries.antt =====
-- The parsed entries: valid, distinct, and the last entry of a label wins.
use aocr.Prelude.{
  ℕ, suc, ◌-◌, ◌==◌, leb, length, ◌||◌, ◌≡◌, refl, ap, ◌∙◌, ◌≢◌, inl, inr, Bool, true, not, List,
  [], ◌∷◌, Option, none, some, arith, Bool-cases, Option-cases, if◌then◌else◌, All, map,
}
use aocr.Text.{Str, str_eq, is_empty, index_of, split_on, trim, slice, slice_from}
use aocr.Text.Laws.{str_eq_iff, IsUnique}
use aocr.Text.Regex.{test}
use aocr.JsMap.{JsMap, get, set, keys}
use aocr.JsMap.Laws.{get-set, set-IsUnique}
use aocr.Auth.ClusterPat.{
  ClusterPatEntry, cluster_id_pattern, parse_entry, cut_entry, collect_entries, to_entries,
  parse_cluster_pat_entries, is_separator,
}

abbrev pub IsValidEntry : ClusterPatEntry → Type 0
IsValidEntry e = (test cluster_id_pattern e.cluster_id ≡ true) × (e.token ≢ [])

guarded :
    (bad fits : Bool) (k t : Str) (e : ClusterPatEntry)
    → (if bad
        then none
        else if not fits
        then none
        else if is_empty t
        then none
        else some (record { cluster_id = k; token = t }))
      ≡ some e
    → (fits ≡ true) × (t ≢ []) × (k ≡ e.cluster_id) × (t ≡ e.token)
guarded bad fits k [] e h = absurd (ground (arith, h))
guarded bad fits k (c ∷ t) e h =
    (ground (arith, h), λ q. cc q, ground (arith, h), ground (arith, h))

cut_entry-IsValidEntry :
    (s : Str) (i : ℕ) (e : ClusterPatEntry) → cut_entry s i ≡ some e → IsValidEntry e
unfolding cut_entry
cut_entry-IsValidEntry s i e h =
    let (fits, full, k, t) =
      guarded (i == 0 || leb (length s - 1) i) (test cluster_id_pattern (trim (slice 0 i s)))
        (trim (slice 0 i s)) (trim (slice_from (suc i) s)) e h in
    (rw (← k) fits, λ q. full (t ∙ q))

parse_entry-IsValidEntry :
    (line : Str) (e : ClusterPatEntry) → parse_entry line ≡ some e → IsValidEntry e
unfolding parse_entry
parse_entry-IsValidEntry line e h = elim (Bool-cases (is_empty (trim line))) [
  | inl blank ↦ absurd (cc (blank, h))
  | inr full ↦ elim (Option-cases (index_of b'=' (trim line))) [
    | inl missing ↦ absurd (cc (full, missing, h))
    | inr (i, found) ↦ cut_entry-IsValidEntry (trim line) i e (rw (full, found, parse_entry) at h)
  ]
]

-- The token of the last valid line for a label.
unfoldable pub last_token : Str → List Str → Option Str
last_token id [] = none
last_token id (line ∷ lines) = elim (last_token id lines) [
  | some t ↦ some t
  | none ↦ elim (parse_entry line) [
    | none ↦ none
    | some e ↦ if str_eq e.cluster_id id then some e.token else none
  ]
]

abbrev or_else : Option Str → Option Str → Option Str
or_else none o = o
or_else (some t) o = some t

get-collect_entries :
    (m : JsMap Str) (lines : List Str) (id : Str)
    → get (collect_entries m lines) id ≡ or_else (last_token id lines) (get m id)
unfolding collect_entries last_token
get-collect_entries m [] id = refl
get-collect_entries m (line ∷ lines) id = elim (Option-cases (parse_entry line)) [
  | inl e ↦ rw (e, collect_entries, last_token) (ground (arith, get-collect_entries m lines id))
  | inr (r, e) ↦
      rw (e, collect_entries, last_token)
        (ground (
          arith,
          get-collect_entries (set m r.cluster_id r.token) lines id,
          get-set m r.cluster_id id r.token,
        ))
]

-- A line of the map, as an entry.
abbrev Good : Str × Str → Type 0
Good (k, v) = IsValidEntry (record { cluster_id = k; token = v })

set-Good : (m : JsMap Str) (k v : Str) → Good (k, v) → All Good m → All Good (set m k v)
unfolding set
set-Good [] k v g h = (g, tt)
set-Good ((j, w) ∷ m) k v g (h₀, h) = elim (Bool-cases (str_eq j k)) [
  | inl e ↦ rw (e, set) ((rw ((str_eq_iff j k).0 e) g.0, g.1), h)
  | inr e ↦ rw (e, set) (h₀, set-Good m k v g h)
]

collect_entries-Good :
    (m : JsMap Str) (lines : List Str)
    → All Good m
    → IsUnique (keys m)
    → All Good (collect_entries m lines) × IsUnique (keys (collect_entries m lines))
unfolding collect_entries
collect_entries-Good m [] h u = (h, u)
collect_entries-Good m (line ∷ lines) h u = elim (Option-cases (parse_entry line)) [
  | inl e ↦ rw (e, collect_entries) (collect_entries-Good m lines h u)
  | inr (r, e) ↦
      rw (e, collect_entries)
        (collect_entries-Good (set m r.cluster_id r.token) lines
          (set-Good m r.cluster_id r.token (parse_entry-IsValidEntry line r e) h)
          (set-IsUnique m r.cluster_id r.token u))
]

All-to_entries : (m : JsMap Str) → All Good m → All IsValidEntry (to_entries m)
unfolding to_entries
All-to_entries [] h = tt
All-to_entries ((k, v) ∷ m) (g, h) = (g, All-to_entries m h)

labels-to_entries : (m : JsMap Str) → map (λ e. e.cluster_id) (to_entries m) ≡ keys m
unfolding to_entries
labels-to_entries [] = refl
labels-to_entries ((k, v) ∷ m) = ap (λ r. k ∷ r) (labels-to_entries m)

-- The token that the entries hold for a label.
abbrev pub token_of : Str → List ClusterPatEntry → Option Str
token_of id [] = none
token_of id (e ∷ es) = if str_eq e.cluster_id id then some e.token else token_of id es

token_of-to_entries : (m : JsMap Str) (id : Str) → token_of id (to_entries m) ≡ get m id
unfolding to_entries get
token_of-to_entries [] id = refl
token_of-to_entries ((k, v) ∷ m) id = ground (arith, token_of-to_entries m id)

parse_some :
    (raw : Str)
    → raw ≢ []
    → parse_cluster_pat_entries (some raw)
      ≡ to_entries (collect_entries [] (split_on is_separator raw))
unfolding parse_cluster_pat_entries
parse_some [] h = absurd (h refl)
parse_some (c ∷ raw) h = refl

-- Every entry has a label that the pattern accepts and a token that is not empty, and no two
-- entries share a label.
pub parse_cluster_pat_entries-IsValid :
    (raw : Str)
    → All IsValidEntry (parse_cluster_pat_entries (some raw))
      × IsUnique (map (λ e. e.cluster_id) (parse_cluster_pat_entries (some raw)))
parse_cluster_pat_entries-IsValid [] = unfold parse_cluster_pat_entries in (tt, tt)
parse_cluster_pat_entries-IsValid (c ∷ raw) =
    let lines = split_on is_separator (c ∷ raw) in
    let (good, distinct) = collect_entries-Good [] lines tt tt in
    rw (parse_some (c ∷ raw) (λ q. cc q), labels-to_entries (collect_entries [] lines))
      (All-to_entries (collect_entries [] lines) good, distinct)

-- In a text that is not empty, the token of a label is that of its last valid line.
pub token_of-parse_cluster_pat_entries :
    (raw id : Str)
    → raw ≢ []
    → token_of id (parse_cluster_pat_entries (some raw)) ≡ last_token id (split_on is_separator raw)
unfolding get
token_of-parse_cluster_pat_entries raw id h =
    let lines = split_on is_separator raw in
    ap (token_of id) (parse_some raw h)
    ∙ token_of-to_entries (collect_entries [] lines) id
    ∙ get-collect_entries [] lines id
    ∙ ground arith

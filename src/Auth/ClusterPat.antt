-- ===== src/Auth/ClusterPat.antt =====
-- auth/src/clusterPat.ts: cluster PAT entries, and what a cluster PAT may do.
pub mod Policy
pub mod Entries
use aocr.Prelude.{
  ℕ, suc, ◌-◌, Bool, true, false, not, ◌||◌, ◌&&◌, List, [], ◌∷◌, ◌++◌, Option, none, some, ◌==◌,
  leb, ltb, if◌then◌else◌, filter, length,
}
use aocr.Text.{
  Str, codes, str_eq, is_empty, index_of, slice, slice_from, split_on, trim, strip_slashes,
}
use aocr.Text.Prefix.{in_namespace}
use aocr.Text.Regex.{Regex, char, seq, up_to, test}
use aocr.JsMap.{JsMap, set}

-- [A-Za-z0-9_-]
unfoldable pub is_label_char : ℕ → Bool
is_label_char c =
    (leb b'A' c && leb c b'Z')
    || (leb b'a' c && leb c b'z')
    || (leb b'0' c && leb c b'9')
    || (c == b'_')
    || (c == b'-')

-- CLUSTER_ID_PATTERN = /^[A-Za-z0-9_-]{1,64}$/
unfoldable pub cluster_id_pattern : Regex
unfolding up_to is_label_char
cluster_id_pattern = seq (char is_label_char) (up_to 63 (char is_label_char))

pub record ClusterPatEntry : Type 0 where
  pub cluster_id : Str
  pub token : Str

pub record ClusterPatScopeDecision : Type 0 where
  pub allowed : Bool
  pub allowed_actions : List Str
  pub reason : Option Str

abbrev default_standard_module_namespace : Str
default_standard_module_namespace = codes "wasm/std"

-- `process.env[...] || ''`
abbrev or_blank : Option Str → Str
or_blank none = []
or_blank (some s) = s

-- The argument is the value of AOCR_WASM_STD_NAMESPACE.
unfoldable pub get_standard_module_namespace : Option Str → Str
unfolding trim strip_slashes
get_standard_module_namespace env =
    let raw = strip_slashes (trim (or_blank env)) in
    if is_empty raw then default_standard_module_namespace else raw

abbrev pub is_separator : ℕ → Bool
is_separator c = c == 10 || c == b','

-- `separatorIndex <= 0 || separatorIndex >= trimmed.length - 1`
unfoldable pub cut_entry : Str → ℕ → Option ClusterPatEntry
unfolding trim test cluster_id_pattern
cut_entry trimmed separator =
    if separator == 0 || leb (length trimmed - 1) separator
    then none
    else let cluster_id = trim (slice 0 separator trimmed) in
      let token = trim (slice_from (suc separator) trimmed) in
      if not (test cluster_id_pattern cluster_id)
      then none
      else if is_empty token
      then none
      else some (record { cluster_id = cluster_id; token = token })

-- One entry of the list; `none` where the loop continues.
unfoldable pub parse_entry : Str → Option ClusterPatEntry
unfolding trim index_of cut_entry
parse_entry line =
    let trimmed = trim line in
    if is_empty trimmed
    then none
    else elim (index_of b'=' trimmed) [ none ↦ none | some separator ↦ cut_entry trimmed separator ]

unfoldable pub collect_entries : JsMap Str → List Str → JsMap Str
unfolding parse_entry set str_eq
collect_entries by_cluster_id [] = by_cluster_id
collect_entries by_cluster_id (line ∷ lines) =
    collect_entries
      (elim (parse_entry line) [
        | none ↦ by_cluster_id
        | some e ↦ set by_cluster_id e.cluster_id e.token
      ])
      lines

to_entries : JsMap Str → List ClusterPatEntry
to_entries [] = []
to_entries ((k, v) ∷ m) = record { cluster_id = k; token = v } ∷ to_entries m

unfoldable pub parse_cluster_pat_entries : Option Str → List ClusterPatEntry
unfolding collect_entries to_entries split_on
parse_cluster_pat_entries none = []
parse_cluster_pat_entries (some raw) =
    if is_empty raw then [] else to_entries (collect_entries [] (split_on is_separator raw))

abbrev reject : Str → ClusterPatScopeDecision
reject reason = record { allowed = false; allowed_actions = []; reason = some reason }

abbrev permit : List Str → ClusterPatScopeDecision
permit actions = record { allowed = true; allowed_actions = actions; reason = none }

unfoldable pub read_only : List Str → List Str
unfolding filter str_eq
read_only actions = filter (λ a. str_eq a (codes "pull")) actions

abbrev pub own_namespace : Str → Str
own_namespace cluster_id = codes "cluster/" ++ cluster_id

outside_reason : Str → Str → Str → Str
outside_reason name cluster_id std_namespace =
    codes "cluster PAT scope "
    ++ name
    ++ codes " is outside the cluster/"
    ++ cluster_id
    ++ codes ", mirror/*, and "
    ++ std_namespace
    ++ codes "/* namespaces"

unfoldable pub evaluate_cluster_pat_scope :
    Option Str → Str → Str → Str → List Str → ClusterPatScopeDecision
unfolding str_eq in_namespace read_only get_standard_module_namespace outside_reason
evaluate_cluster_pat_scope env cluster_id scope_type scope_name requested_actions =
    let std_namespace = get_standard_module_namespace env in
    if not (str_eq scope_type (codes "repository"))
    then reject (codes "cluster PAT supports only repository scope")
    else if is_empty scope_name
    then reject (codes "cluster PAT requires a scope name")
    else if in_namespace (own_namespace cluster_id) scope_name
    then permit requested_actions
    else if in_namespace (codes "mirror") scope_name
    then permit (read_only requested_actions)
    else if in_namespace std_namespace scope_name
    then permit (read_only requested_actions)
    else reject (outside_reason scope_name cluster_id std_namespace)

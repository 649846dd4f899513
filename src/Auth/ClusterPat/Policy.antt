-- ===== src/Auth/ClusterPat/Policy.antt =====
-- What a cluster PAT may do.
use aocr.Prelude.{
  ◌≡◌, refl, sym, ap, ◌∙◌, ◌≢◌, ◌↔◌, ◌⊎◌, inl, inr, Bool, true, false, not, ◌&&◌, ◌||◌, List, [],
  ◌∷◌, Option, arith, or-split, not_true, &&-split, if◌then◌else◌,
}
use aocr.Text.{Str, codes, is_empty, str_eq, contains}
use aocr.Text.Laws.{str_eq_iff, Lacks}
use aocr.Text.Prefix.{in_namespace, InNamespace, in_namespace_iff, InNamespace-apart}
use aocr.Auth.ClusterPat.{
  evaluate_cluster_pat_scope, get_standard_module_namespace, own_namespace, read_only, reject,
  permit,
}

contains-read_only :
    (xs : List Str) (a : Str)
    → contains (read_only xs) a ≡ (contains xs a && str_eq a (codes "pull"))
unfolding contains read_only
contains-read_only [] a = refl
contains-read_only (x ∷ xs) a = ground (
  arith,
  contains-read_only xs a,
  str_eq_iff x a,
  str_eq_iff x (codes "pull"),
  str_eq_iff a (codes "pull"),
)

-- The namespaces that the policy opens for an action.
abbrev pub MayAct : Option Str → Str → Str → Str → Type 0
MayAct env cluster_id name action =
    InNamespace (own_namespace cluster_id) name
    ⊎ ((action ≡ codes "pull")
        × (InNamespace (codes "mirror") name
            ⊎ InNamespace (get_standard_module_namespace env) name))

abbrev may_act : Option Str → Str → Str → Str → Bool
may_act env cluster_id name action =
    in_namespace (own_namespace cluster_id) name
    || (str_eq action (codes "pull")
        && (in_namespace (codes "mirror") name
            || in_namespace (get_standard_module_namespace env) name))

named : (s : Str) → not (is_empty s) ≡ true → s ≢ []
named s h e = absurd (cc (h, ap is_empty e))

not_blank : (s : Str) → s ≢ [] → not (is_empty s) ≡ true
not_blank [] h = absurd (h refl)
not_blank (c ∷ s) h = refl

all_true :
    {a b c d : Bool} → a ≡ true → b ≡ true → c ≡ true → d ≡ true → (a && (b && (c && d))) ≡ true
all_true p q r s = ground arith

open_to_pull :
    (own : Bool) {pull m n : Bool}
    → pull ≡ true
    → (m ≡ true) ⊎ (n ≡ true)
    → (own || (pull && (m || n))) ≡ true
open_to_pull own p q = ground arith

-- The ladder of tests, over any answers of them.
ladder :
    (repository blank own mirror std pull : Bool) (xs ys : List Str) (r₁ r₂ r₃ a : Str)
    → contains ys a ≡ (contains xs a && pull)
    → contains
        (if not repository
          then reject r₁
          else if blank
          then reject r₂
          else if own
          then permit xs
          else if mirror
          then permit ys
          else if std
          then permit ys
          else reject r₃).allowed_actions
        a
      ≡ (repository && (not blank && (contains xs a && (own || (pull && (mirror || std))))))
unfolding contains
ladder repository blank own mirror std pull xs ys r₁ r₂ r₃ a h = ground arith

module _ (env : Option Str) (cluster_id scope_type scope_name : Str) (requested : List Str) where
  evaluate-eq :
      (a : Str)
      → contains
          (evaluate_cluster_pat_scope env cluster_id scope_type scope_name
            requested).allowed_actions
          a
        ≡ (str_eq scope_type (codes "repository")
            && (not (is_empty scope_name)
                && (contains requested a && may_act env cluster_id scope_name a)))
  unfolding evaluate_cluster_pat_scope contains
  evaluate-eq a =
      ladder (str_eq scope_type (codes "repository")) (is_empty scope_name)
        (in_namespace (own_namespace cluster_id) scope_name)
        (in_namespace (codes "mirror") scope_name)
        (in_namespace (get_standard_module_namespace env) scope_name) (str_eq a (codes "pull"))
        requested (read_only requested) _ _ _ a (contains-read_only requested a)

  may_act_sound :
      (a : Str) → may_act env cluster_id scope_name a ≡ true → MayAct env cluster_id scope_name a
  may_act_sound a h = elim (or-split _ _ h) [
    | inl own ↦ inl ((in_namespace_iff _ scope_name).0 own)
    | inr other ↦
        let (pull, open_to_all) = &&-split _ _ other in
        inr (
          (str_eq_iff a (codes "pull")).0 pull,
          elim (or-split _ _ open_to_all) [
            | inl m ↦ inl ((in_namespace_iff _ scope_name).0 m)
            | inr n ↦ inr ((in_namespace_iff _ scope_name).0 n)
          ],
        )
  ]

  may_act_complete :
      (a : Str) → MayAct env cluster_id scope_name a → may_act env cluster_id scope_name a ≡ true
  may_act_complete a (inl own) = rw ((in_namespace_iff _ scope_name).1 own)
  may_act_complete a (inr (pull, inl m)) =
      open_to_pull (in_namespace (own_namespace cluster_id) scope_name)
        ((str_eq_iff a (codes "pull")).1 pull)
        (inl ((in_namespace_iff (codes "mirror") scope_name).1 m))
  may_act_complete a (inr (pull, inr n)) =
      open_to_pull (in_namespace (own_namespace cluster_id) scope_name)
        ((str_eq_iff a (codes "pull")).1 pull)
        (inr ((in_namespace_iff (get_standard_module_namespace env) scope_name).1 n))

  -- A cluster PAT is given an action exactly when it asked for it on a named repository, and the
  -- repository is in the cluster's own namespace, or the action is pull and the repository is in
  -- the mirror or the standard module namespace.
  pub evaluate_cluster_pat_scope_iff :
      (a : Str)
      → (contains
            (evaluate_cluster_pat_scope env cluster_id scope_type scope_name
              requested).allowed_actions
            a
          ≡ true)
        ↔ ((scope_type ≡ codes "repository")
            × (scope_name ≢ [])
            × (contains requested a ≡ true)
            × MayAct env cluster_id scope_name a)
  evaluate_cluster_pat_scope_iff a = (to, from)
    where
      to :
          contains
              (evaluate_cluster_pat_scope env cluster_id scope_type scope_name
                requested).allowed_actions
              a
            ≡ true
          → (scope_type ≡ codes "repository")
            × (scope_name ≢ [])
            × (contains requested a ≡ true)
            × MayAct env cluster_id scope_name a
      to h =
          let (b₁, rest) = &&-split _ _ (sym (evaluate-eq a) ∙ h) in
          let (b₂, rest') = &&-split _ _ rest in
          let (b₃, b₄) = &&-split _ _ rest' in
          (
            (str_eq_iff scope_type (codes "repository")).0 b₁,
            named scope_name b₂,
            b₃,
            may_act_sound a b₄,
          )

      from :
          (scope_type ≡ codes "repository")
            × (scope_name ≢ [])
            × (contains requested a ≡ true)
            × MayAct env cluster_id scope_name a
          → contains
              (evaluate_cluster_pat_scope env cluster_id scope_type scope_name
                requested).allowed_actions
              a
            ≡ true
      from (p₁, p₂, p₃, p₄) =
          evaluate-eq a
          ∙ all_true ((str_eq_iff scope_type (codes "repository")).1 p₁) (not_blank scope_name p₂)
              p₃ (may_act_complete a p₄)

-- The PAT of one cluster never does more than pull in the namespace of another, whatever it asks,
-- where the labels of the two differ and hold no slash.
evaluate_cluster_pat_scope_isolates :
    (env : Option Str) (mine theirs scope_type scope_name : Str) (requested : List Str) (a : Str)
    → Lacks b'/' mine
    → Lacks b'/' theirs
    → mine ≢ theirs
    → InNamespace (own_namespace theirs) scope_name
    → a ≢ codes "pull"
    → contains
        (evaluate_cluster_pat_scope env mine scope_type scope_name requested).allowed_actions
        a
      ≡ false
evaluate_cluster_pat_scope_isolates env mine theirs scope_type scope_name requested a hm ht ne p
      act =
    not_true λ h.
      elim ((evaluate_cluster_pat_scope_iff env mine scope_type scope_name requested a).0 h).3 [
        | inl own ↦ ne (InNamespace-apart (codes "cluster/") mine theirs scope_name hm ht own p)
        | inr (pull, _) ↦ act pull
      ]

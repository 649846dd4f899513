-- ===== src/Auth/Token/Grants.antt =====
-- What the access list of an issued token holds.
use aocr.Prelude.{
  ◌≡◌, ◌≢◌, refl, sym, ap, ◌∙◌, subst, ◌⊎◌, inl, inr, List, [], ◌∷◌, ◌++◌, Option, some, map,
  Bool-cases, Option-cases, All,
}
use aocr.Text.{Str, codes, is_empty}
use aocr.Text.Laws.{All-contains}
use aocr.Auth.Scope.{RequestedScope, scope_key}
use aocr.Auth.ClusterPat.{ClusterPatScopeDecision, evaluate_cluster_pat_scope}
use aocr.Auth.ClusterPat.Policy.{MayAct, evaluate_cluster_pat_scope_iff}
use aocr.Auth.Validation.{ValidationResult, cluster_pat}
use aocr.Auth.Token.{Access, granted, denied, Refusal, grant, access_of}
use aocr.Auth.Token.Guards.{Strategy-cases}

-- Each action of the scope is one that the policy opens to the cluster, on a named repository.
abbrev pub IsPermitted : Option Str → Str → RequestedScope → Type 0
IsPermitted env id r =
    All (λ a. (r.type ≡ codes "repository") × (r.name ≢ []) × MayAct env id r.name a) r.actions

module _ (env : Option Str) (result : ValidationResult) where
  -- Other strategies grant what is asked.
  pub access_of-plain :
      result.strategy ≢ cluster_pat
      → (rs : List RequestedScope) → access_of env result rs ≡ granted rs
  unfolding access_of
  access_of-plain ne [] = refl
  access_of-plain ne (r ∷ rs) =
      let rest = access_of-plain ne rs in
      elim (Strategy-cases result.strategy) [
        | inl e ↦ rw (e, access_of) (ap (grant r r.actions) rest)
        | inr (inl e) ↦ rw (e, access_of) (ap (grant r r.actions) rest)
        | inr (inr (inl e)) ↦ absurd (ne e)
        | inr (inr (inr e)) ↦ rw (e, access_of) (ap (grant r r.actions) rest)
      ]

Access-cases :
    (a : Access)
    → ((rs : List RequestedScope) × (a ≡ granted rs)) ⊎ ((e : Refusal) × (a ≡ denied e))
Access-cases (granted rs) = inl (rs, refl)
Access-cases (denied e) = inr (e, refl)

grant_sound :
    (r : RequestedScope) (actions : List Str) (a : Access) (ys : List RequestedScope)
    → grant r actions a ≡ granted ys
    → (rs : List RequestedScope) × (a ≡ granted rs)
      × (ys ≡ record { type = r.type; name = r.name; actions = actions } ∷ rs)
grant_sound r actions (granted rs) ys h = (rs, refl, cc h)
grant_sound r actions (denied e) ys h = absurd (cc h)

module _ (env : Option Str) (result : ValidationResult)
    (is_cluster : result.strategy ≡ cluster_pat) where
  abbrev decision : Str → RequestedScope → ClusterPatScopeDecision
  decision id r = evaluate_cluster_pat_scope env id r.type r.name r.actions

  access_of-allowed :
      (id : Str) (r : RequestedScope) (rs ys : List RequestedScope)
      → result.cluster_id ≡ some id
      → access_of env result (r ∷ rs) ≡ granted ys
      → grant r (decision id r).allowed_actions (access_of env result rs) ≡ granted ys
  unfolding access_of
  access_of-allowed id r rs ys named h = elim (Bool-cases (is_empty id)) [
    | inl e ↦ absurd (cc (is_cluster, named, e, h))
    | inr e ↦ elim (Bool-cases (decision id r).allowed) [
      | inl f ↦ cc (is_cluster, named, e, f, h)
      | inr f ↦ absurd (cc (is_cluster, named, e, f, h))
    ]
  ]

  pub access_of_permits :
      (id : Str) (rs ys : List RequestedScope)
      → result.cluster_id ≡ some id
      → access_of env result rs ≡ granted ys
      → All (IsPermitted env id) ys
  access_of_permits id [] ys named h =
      let eq : [] ≡ ys = unfold access_of in cc h in subst (All (IsPermitted env id)) eq tt
  access_of_permits id (r ∷ rs) ys named h =
      let (zs, rest, eq) = grant_sound r _ _ ys (access_of-allowed id r rs ys named h) in
      subst (All (IsPermitted env id)) (sym eq) (
        All-contains _ (decision id r).allowed_actions λ a k.
            let (repository, has_name, _, may) =
              (evaluate_cluster_pat_scope_iff env id r.type r.name r.actions a).0 k in
            (repository, has_name, may),
        access_of_permits id rs zs named rest,
      )

grant_rest :
    (env : Option Str) (result : ValidationResult) (r : RequestedScope)
    (rs ys : List RequestedScope)
    → access_of env result (r ∷ rs) ≡ granted ys
    → (actions : List Str) × (grant r actions (access_of env result rs) ≡ granted ys)
unfolding access_of
grant_rest env result r rs ys h = elim (Strategy-cases result.strategy) [
  | inl e ↦ (r.actions, cc (e, h))
  | inr (inl e) ↦ (r.actions, cc (e, h))
  | inr (inr (inr e)) ↦ (r.actions, cc (e, h))
  | inr (inr (inl e)) ↦ elim (Option-cases result.cluster_id) [
    | inl unnamed ↦ absurd (cc (e, unnamed, h))
    | inr (id, named) ↦ (_, access_of-allowed env result e id r rs ys named h)
  ]
]

keys_cons :
    (r : RequestedScope) (actions : List Str) (zs rs : List RequestedScope)
    → map scope_key zs ≡ map scope_key rs
    → map scope_key (record { type = r.type; name = r.name; actions = actions } ∷ zs)
      ≡ map scope_key (r ∷ rs)
keys_cons r actions zs rs e = unfold scope_key in ap (λ ks. (r.type ++ (b':' ∷ r.name)) ∷ ks) e

-- The access list has the resources of the request, in its order.
pub access_of-resources :
    (env : Option Str) (result : ValidationResult) (rs ys : List RequestedScope)
    → access_of env result rs ≡ granted ys
    → map scope_key ys ≡ map scope_key rs
access_of-resources env result [] ys h =
    let eq : [] ≡ ys = unfold access_of in cc h in ap (map scope_key) (sym eq)
access_of-resources env result (r ∷ rs) ys h =
    let (actions, g) = grant_rest env result r rs ys h in
    let (zs, rest, eq) = grant_sound r actions _ ys g in
    ap (map scope_key) eq ∙ keys_cons r actions zs rs (access_of-resources env result rs zs rest)

-- ===== src/Hooks/Import/Target.antt =====
-- Where an import ends up: in the cluster's own namespace, with the retention of its suffix.
use aocr.Prelude.{
  ℕ, ◌≡◌, refl, sym, ap, ◌∙◌, subst, ◌≢◌, ◌⊎◌, inl, inr, Bool, true, false, not, ◌∷◌, ◌++◌, none,
  some, arith, append_assoc, filter, All→all, all, Bool-cases,
}
use aocr.Text.{Str, codes, is_empty, join}
use aocr.Text.Laws.{Lacks}
use aocr.Text.Prefix.{InNamespace}
use aocr.Text.Regex.{char, test, test_sound, Matches-All, Matches-head, Chars-up_to}
use aocr.Text.Split.{split_on-append}
use aocr.Auth.ClusterPat.{cluster_id_pattern, is_label_char, own_namespace}
use aocr.Hooks.Provenance.{
  cluster_snapshot, inferred_provenance, from_segments, segments, cluster_id_of,
}
use aocr.Hooks.TagRetention.{
  idle, own, never, by_idle, parse_tag_retention, is_any_char, read_property, ttl_suffix_seconds,
  ttl_canonical_suffix, Kind, marker, mode_of, expiry_of,
}
use aocr.Hooks.TagRetention.Laws.{parse_tag_retention_known}
use aocr.Hooks.Patterns.{digest_pattern, host_pattern, tag_pattern, is_valid_repo_path, is_tag_char}
use aocr.Hooks.Import.{
  Field, missing, null, other, text, ImportBody, Validated, Checked, ok, invalid, require,
  suffix_of, validate, dst_repo, dst_tag, default_tag_suffix, ◌>>=◌,
}

-- What holds of a checked value, if there is one.
abbrev Post : {A : Type 0} → (A → Type 0) → Checked A → Type 0
Post P (ok a) = P a
Post P (invalid e) = Unit

bind-Post :
    {A B : Type 0} (P : B → Type 0) (c : Checked A) (f : A → Checked B)
    → ((a : A) → c ≡ ok a → Post P (f a))
    → Post P (c >>= f)
bind-Post P (ok a) f h = h a refl
bind-Post P (invalid e) f h = tt

post_ok : {A : Type 0} (P : A → Type 0) (c : Checked A) (a : A) → Post P c → c ≡ ok a → P a
post_ok P (ok b) a h e = let same : b ≡ a = cc e in subst P same h
post_ok P (invalid m) a h e = absurd (cc e)

require_ok :
    (accepts : Str → Bool) (error s : Str) (field : Field)
    → require accepts error field ≡ ok s
    → (field ≡ text s) × (accepts s ≡ true)
require_ok accepts error s (text t) h = elim (Bool-cases (accepts t)) [
  | inl e ↦ let same : t ≡ s = cc (e, h) in (ap text same, subst (λ x. accepts x ≡ true) same e)
  | inr e ↦ absurd (cc (e, h))
]
require_ok accepts error s missing h = absurd (cc h)
require_ok accepts error s null h = absurd (cc h)
require_ok accepts error s other h = absurd (cc h)

-- The parts that a valid body gives.
abbrev Valid : ImportBody → Validated → Type 0
Valid body v =
    (body.upstream_tag ≡ text v.upstream_tag)
    × (test tag_pattern v.upstream_tag ≡ true)
    × (body.cluster_id ≡ text v.cluster_id)
    × (test cluster_id_pattern v.cluster_id ≡ true)
    × (suffix_of body.target_tag_suffix ≡ ok v.tag_suffix)

validate-Post : (body : ImportBody) → Post (Valid body) (validate body)
unfolding validate
validate-Post body =
    bind-Post (Valid body)
      (require (test host_pattern) (codes "invalid upstream_host") body.upstream_host) _
      λ host _.
        bind-Post (Valid body)
          (require is_valid_repo_path (codes "invalid upstream_repo") body.upstream_repo) _
          λ repo _.
            bind-Post (Valid body)
              (require (test tag_pattern) (codes "invalid upstream_tag") body.upstream_tag) _
              λ tag t.
                bind-Post (Valid body)
                  (require (test digest_pattern) (codes "invalid upstream_digest")
                    body.upstream_digest)
                  _
                  λ digest _.
                    bind-Post (Valid body)
                      (require (test cluster_id_pattern) (codes "invalid cluster_id")
                        body.cluster_id)
                      _
                      λ cluster c.
                        bind-Post (Valid body) (suffix_of body.target_tag_suffix) _ λ suffix s.
                          let (tag_is, tag_ok) =
                            require_ok (test tag_pattern) _ tag body.upstream_tag t in
                          let (cluster_is, cluster_ok) =
                            require_ok (test cluster_id_pattern) _ cluster body.cluster_id c in
                          (tag_is, tag_ok, cluster_is, cluster_ok, s)

label_no_slash : (c : ℕ) → is_label_char c ≡ true → c ≢ b'/'
unfolding is_label_char
label_no_slash c h e = ground (arith, e)

cluster_id_Lacks : (id : Str) → test cluster_id_pattern id ≡ true → Lacks b'/' id
unfolding cluster_id_pattern
cluster_id_Lacks id h =
    Matches-All (λ d. d ≢ b'/') (test_sound cluster_id_pattern id h)
      (label_no_slash, Chars-up_to (λ d. d ≢ b'/') 63 (char is_label_char) label_no_slash)

cluster_id_filled : (id : Str) → test cluster_id_pattern id ≡ true → is_empty id ≡ false
unfolding cluster_id_pattern
cluster_id_filled id h = Matches-head (test_sound cluster_id_pattern id h)

tag_any : (tag : Str) → test tag_pattern tag ≡ true → all is_any_char tag ≡ true
unfolding tag_pattern
tag_any tag h = All→all is_any_char tag (
    Matches-All (λ d. is_any_char d ≡ true) (test_sound tag_pattern tag h)
      (
        λ c e. ground (arith, e),
        Chars-up_to (λ d. is_any_char d ≡ true) 127 (char is_tag_char) (λ c e. ground (arith, e)),
      ))

-- The path of a cluster.
abbrev cluster_path : Str → Str → Str
cluster_path id rest = codes "cluster" ++ (b'/' ∷ (id ++ (b'/' ∷ rest)))

segments-cluster :
    (id rest : Str)
    → test cluster_id_pattern id ≡ true
    → segments (cluster_path id rest) ≡ codes "cluster" ∷ id ∷ segments rest
unfolding segments
segments-cluster id rest h =
    ap (filter (λ s. not (is_empty s))) (
      split_on-append b'/' (codes "cluster") (id ++ (b'/' ∷ rest)) (omega arith)
      ∙ ap (λ parts. codes "cluster" ∷ parts)
          (split_on-append b'/' id rest (cluster_id_Lacks id h)))
    ∙ rw (cluster_id_filled id h, filter) refl

-- A repository below a cluster's is a snapshot of that cluster.
provenance-cluster :
    (id rest : Str)
    → test cluster_id_pattern id ≡ true
    → inferred_provenance (some (cluster_path id rest))
      ≡ some (record {
        provenance = cluster_snapshot;
        organization = codes "cluster";
        name = join b'/' (id ∷ segments rest);
        cluster_id = some id;
        upstream_ref = none;
      })
unfolding inferred_provenance from_segments cluster_id_of
provenance-cluster id rest h = rw (segments-cluster id rest h) (rw h refl)

module _ (body : ImportBody) (v : Validated) (valid : validate body ≡ ok v) where
  -- The destination of a valid import stands in the namespace that the cluster's PAT opens, and its
  -- path is read as that of a snapshot of that cluster.
  pub import_namespace :
      InNamespace (own_namespace v.cluster_id) (dst_repo v)
      × (name : Str) × (inferred_provenance (some (dst_repo v))
          ≡ some (record {
            provenance = cluster_snapshot;
            organization = codes "cluster";
            name = name;
            cluster_id = some v.cluster_id;
            upstream_ref = none;
          }))
  unfolding dst_repo
  import_namespace =
      let (_, _, _, label, _) = post_ok (Valid body) (validate body) v (validate-Post body) valid in
      (
        inr (_, sym (append_assoc (codes "cluster/") v.cluster_id _)),
        _,
        provenance-cluster v.cluster_id _ label,
      )

  import_retention_of :
      (kind : Kind) (suffix : Str) (seconds now : ℕ)
      → v.tag_suffix ≡ marker kind ++ (b'-' ∷ suffix)
      → read_property ttl_suffix_seconds suffix ≡ own seconds
      → parse_tag_retention (dst_tag v) now ≡ record {
        retention_mode = mode_of kind;
        retention_value_seconds = own seconds;
        expires_at = expiry_of kind now (own seconds);
        raw_retention_suffix = some suffix;
        canonical_retention_suffix = read_property ttl_canonical_suffix suffix;
      }
  unfolding dst_tag
  import_retention_of kind suffix seconds now e known =
      let (_, tag, _, _, _) = post_ok (Valid body) (validate body) v (validate-Post body) valid in
      ap (λ s. parse_tag_retention (v.upstream_tag ++ s) now) e
      ∙ parse_tag_retention_known kind v.upstream_tag suffix seconds now
          (tag_any v.upstream_tag tag) known

  default_suffix :
      (body.target_tag_suffix ≡ missing) ⊎ (body.target_tag_suffix ≡ null)
      → v.tag_suffix ≡ default_tag_suffix
  default_suffix absent =
      let (_, _, _, _, s) = post_ok (Valid body) (validate body) v (validate-Post body) valid in
      elim absent [ inl e ↦ cc (e, s) | inr e ↦ cc (e, s) ]

  -- The destination's tag of a valid import that names no suffix parses as idle retention of ninety
  -- days, at any moment.
  pub import_retention :
      (now : ℕ)
      → (body.target_tag_suffix ≡ missing) ⊎ (body.target_tag_suffix ≡ null)
      → parse_tag_retention (dst_tag v) now ≡ record {
        retention_mode = idle;
        retention_value_seconds = own 7776000;
        expires_at = never;
        raw_retention_suffix = some (codes "90d");
        canonical_retention_suffix = own (codes "90d");
      }
  unfolding read_property ttl_suffix_seconds ttl_canonical_suffix
  import_retention now absent =
      import_retention_of by_idle (codes "90d") 7776000 now (default_suffix absent) refl

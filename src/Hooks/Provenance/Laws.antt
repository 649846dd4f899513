-- ===== src/Hooks/Provenance/Laws.antt =====
-- What the provenance keeps of the path.
use aocr.Prelude.{◌≡◌, refl, subst, inl, inr, List, [], ◌∷◌, ◌++◌, Option, none, some, Bool-cases}
use aocr.Text.{Str, codes, str_eq, is_empty, join}
use aocr.Hooks.Provenance.{
  from_cluster, from_mirror, from_push, InferredProvenance, Provenance, mirror, from_segments,
  segments, inferred_provenance,
}

-- The upstream of a repository is its name behind `mirror/`, and no other repository has one.
abbrev upstream_of : Provenance → Str → Option Str
upstream_of mirror name = some name
upstream_of _ name = none

from_segments_sound :
    (segs : List Str) (p : InferredProvenance)
    → from_segments segs ≡ some p
    → (p.organization ++ (b'/' ∷ p.name) ≡ join b'/' segs)
      × (p.upstream_ref ≡ upstream_of p.provenance p.name)
unfolding from_segments join
from_segments_sound [] p h = absurd (cc h)
from_segments_sound (o ∷ []) p h = absurd (cc h)
from_segments_sound (o ∷ second ∷ rest) p h = elim (Bool-cases (str_eq o (codes "cluster"))) [
  | inl e ↦ built {q = from_cluster o second (join b'/' (second ∷ rest))} (cc (e, h)) refl refl
  | inr e ↦ elim (Bool-cases (str_eq o (codes "mirror"))) [
    | inl f ↦ built {q = from_mirror o (join b'/' (second ∷ rest))} (cc (e, f, h)) refl refl
    | inr f ↦ built {q = from_push o (join b'/' (second ∷ rest))} (cc (e, f, h)) refl refl
  ]
]
  where
    built :
        {q : InferredProvenance}
        → q ≡ p
        → q.organization ++ (b'/' ∷ q.name) ≡ join b'/' (o ∷ second ∷ rest)
        → q.upstream_ref ≡ upstream_of q.provenance q.name
        → (p.organization ++ (b'/' ∷ p.name) ≡ join b'/' (o ∷ second ∷ rest))
          × (p.upstream_ref ≡ upstream_of p.provenance p.name)
    built e u v =
        subst
          (λ x.
            (x.organization ++ (b'/' ∷ x.name) ≡ join b'/' (o ∷ second ∷ rest))
            × (x.upstream_ref ≡ upstream_of x.provenance x.name))
          e (u, v)

-- The organization and the name that are inferred for a path are, joined by a slash, its segments
-- that are not empty, and the upstream is the name of a mirror's repository and nothing else.
inferred_provenance_sound :
    (repository : Str) (p : InferredProvenance)
    → inferred_provenance (some repository) ≡ some p
    → (p.organization ++ (b'/' ∷ p.name) ≡ join b'/' (segments repository))
      × (p.upstream_ref ≡ upstream_of p.provenance p.name)
unfolding inferred_provenance
inferred_provenance_sound repository p h = elim (Bool-cases (is_empty repository)) [
  | inl e ↦ absurd (cc (e, h))
  | inr e ↦ from_segments_sound (segments repository) p (cc (e, h))
]

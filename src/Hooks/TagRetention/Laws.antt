-- ===== src/Hooks/TagRetention/Laws.antt =====
-- What a retention suffix means, and that its canonical form means the same.
use aocr.Prelude.{
  ℕ, ◌≡◌, refl, sym, ap, ◌∙◌, subst, inl, inr, true, false, ◌∷◌, ◌++◌, some, all, All, arith,
  Option-cases,
}
use aocr.Text.{Str, codes, is_empty}
use aocr.JsMap.{get}
use aocr.JsMap.Laws.{get_All}
use aocr.Hooks.TagRetention.{
  Kind, marker, own, mode_of, expiry_of, read_property, ttl_suffix_seconds, ttl_canonical_suffix,
  parse_tag_retention, ParsedTagRetention, is_any_char, is_suffix_char,
}
use aocr.Hooks.TagRetention.Exec.{exec_tag_iff}

-- A suffix that has a canonical form of the same length of time, which is its own canonical form.
abbrev IsCanonicalized : Str → ℕ → Type 0
IsCanonicalized suffix seconds =
    (c : Str) × (read_property ttl_canonical_suffix suffix ≡ own c)
    × (read_property ttl_suffix_seconds c ≡ own seconds)
    × (read_property ttl_canonical_suffix c ≡ own c)
    × (is_empty suffix ≡ false)
    × (all is_suffix_char suffix ≡ true)

entries : All (λ (e : Str × ℕ). IsCanonicalized e.0 e.1) ttl_suffix_seconds
unfolding ttl_suffix_seconds ttl_canonical_suffix read_property get all
entries = (
  (codes "1h", refl, refl, refl, refl, refl),
  (
    (codes "6h", refl, refl, refl, refl, refl),
    (
      (codes "24h", refl, refl, refl, refl, refl),
      (
        (codes "7d", refl, refl, refl, refl, refl),
        (
          (codes "30d", refl, refl, refl, refl, refl),
          (
            (codes "90d", refl, refl, refl, refl, refl),
            (
              (codes "180d", refl, refl, refl, refl, refl),
              (
                (codes "365d", refl, refl, refl, refl, refl),
                (
                  (codes "30d", refl, refl, refl, refl, refl),
                  (
                    (codes "90d", refl, refl, refl, refl, refl),
                    (
                      (codes "180d", refl, refl, refl, refl, refl),
                      ((codes "365d", refl, refl, refl, refl, refl), tt),
                    ),
                  ),
                ),
              ),
            ),
          ),
        ),
      ),
    ),
  ),
)

table :
    (suffix : Str) (seconds : ℕ)
    → read_property ttl_suffix_seconds suffix ≡ own seconds
    → IsCanonicalized suffix seconds
unfolding read_property get ttl_suffix_seconds
table suffix seconds h = elim (Option-cases (get ttl_suffix_seconds suffix)) [
  | inl e ↦ absurd (ground (arith, e, h))
  | inr (n, e) ↦
      let same : n ≡ seconds = cc (e, h) in
      subst (IsCanonicalized suffix) same
        (get_All IsCanonicalized ttl_suffix_seconds suffix n entries e)
]

-- A tag that ends in `--ttl-` or `--idle-` and a suffix of the table is read with the mode of the
-- marker, the table's seconds, and for `ttl` the end at that many seconds from now.
pub parse_tag_retention_known :
    (kind : Kind) (stem suffix : Str) (seconds now : ℕ)
    → all is_any_char stem ≡ true
    → read_property ttl_suffix_seconds suffix ≡ own seconds
    → parse_tag_retention (stem ++ (marker kind ++ (b'-' ∷ suffix))) now ≡ record {
      retention_mode = mode_of kind;
      retention_value_seconds = own seconds;
      expires_at = expiry_of kind now (own seconds);
      raw_retention_suffix = some suffix;
      canonical_retention_suffix = read_property ttl_canonical_suffix suffix;
    }
unfolding parse_tag_retention read_property
parse_tag_retention_known kind stem suffix seconds now any known =
    let (_, _, _, _, full, chars) = table suffix seconds known in
    rw
      (
        (exec_tag_iff _ (record { stem = stem; kind = kind; suffix = suffix })).1
            (refl, any, full, chars),
        parse_tag_retention,
      )
      (rw (known, parse_tag_retention) refl)

-- The canonical form of a known suffix asks for the same: a tag that ends in it has the same mode,
-- seconds, end and canonical suffix.
parse_tag_retention-canonical :
    (kind : Kind) (stem suffix : Str) (seconds now : ℕ)
    → all is_any_char stem ≡ true
    → read_property ttl_suffix_seconds suffix ≡ own seconds
    → (c : Str) × ((parse_tag_retention
          (stem ++ (marker kind ++ (b'-' ∷ suffix)))
          now).canonical_retention_suffix
        ≡ own c)
      × (parse_tag_retention (stem ++ (marker kind ++ (b'-' ∷ c))) now
          ≡ record (parse_tag_retention (stem ++ (marker kind ++ (b'-' ∷ suffix))) now) {
            raw_retention_suffix = some c;
          })
parse_tag_retention-canonical kind stem suffix seconds now any known =
    let (c, canon, secs, again, _, _) = table suffix seconds known in
    let first = parse_tag_retention_known kind stem suffix seconds now any known in
    let second = parse_tag_retention_known kind stem c seconds now any secs in
    (
      c,
      ap (λ (r : ParsedTagRetention). r.canonical_retention_suffix) first ∙ canon,
      second
          ∙ cc (canon, again)
          ∙ sym (ap (λ (r : ParsedTagRetention). record r { raw_retention_suffix = some c }) first),
    )

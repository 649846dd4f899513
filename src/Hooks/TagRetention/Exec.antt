-- ===== src/Hooks/TagRetention/Exec.antt =====
-- The pattern of a retention tag: what it accepts, and that it reads a tag in one way.
use aocr.Prelude.{
  ℕ, suc, ◌≡◌, refl, sym, ap, ◌∙◌, ◌≢◌, ◌↔◌, true, false, ◌&&◌, not, [], ◌∷◌, ◌++◌, none, some,
  arith, append_assoc, length, take, drop, take-length-append, past_prefix, all, All-imp, all→All,
  Bool-cases, Option-cases, &&-split, inl, inr,
}
use aocr.Text.{Str, is_empty, last_index_of}
use aocr.Text.Laws.{Lacks, last_index_of-append, last_index_of-some}
use aocr.Text.Suffix.{strip_end, strip_end-append, strip_end_sound}
use aocr.Hooks.TagRetention.{
  Kind, by_ttl, by_idle, TagMatch, marker, is_suffix_char, is_any_char, of_stem, match_head,
  exec_tag,
}

-- What stands behind a last separator is determined.
last_part_injective :
    (c : ℕ) (s u s' u' : Str) → Lacks c u → Lacks c u' → s ++ (c ∷ u) ≡ s' ++ (c ∷ u') → u ≡ u'
last_part_injective c s u s' u' h h' e =
    let i : some (length s) ≡ some (length s') =
      sym (last_index_of-append c s u h)
      ∙ ap (last_index_of c) e
      ∙ last_index_of-append c s' u' h' in
    let k : length s ≡ length s' = cc i in
    sym (past_prefix s c u)
    ∙ ap (λ n. drop (suc n) (s ++ (c ∷ u))) k
    ∙ ap (drop (suc (length s'))) e
    ∙ past_prefix s' c u'

marker_apart : (s t : Str) → s ++ marker by_idle ≡ t ++ marker by_ttl → ⊥
marker_apart s t e =
    let tails =
      last_part_injective b'-' (s ++ (b'-' ∷ [])) (b'i' ∷ b'd' ∷ b'l' ∷ b'e' ∷ [])
        (t ++ (b'-' ∷ [])) (b't' ∷ b't' ∷ b'l' ∷ []) (omega arith) (omega arith)
        (append_assoc s (b'-' ∷ []) _ ∙ e ∙ sym (append_assoc t (b'-' ∷ []) _)) in
    omega (arith, ap length tails)

not_ttl : (s : Str) → strip_end (marker by_ttl) (s ++ marker by_idle) ≡ none
not_ttl s = elim (Option-cases (strip_end (marker by_ttl) (s ++ marker by_idle))) [
  | inl e ↦ e
  | inr (t, e) ↦ absurd (marker_apart s t (strip_end_sound (marker by_ttl) _ t e))
]

suffix_char_ne : (c : ℕ) → is_suffix_char c ≡ true → c ≢ b'-'
suffix_char_ne c h e = ground (arith, e)

-- The parts of a tag that the pattern matches.
abbrev pub IsRetentionTag : Str → TagMatch → Type 0
IsRetentionTag tag m =
    (tag ≡ m.stem ++ (marker m.kind ++ (b'-' ∷ m.suffix)))
    × (all is_any_char m.stem ≡ true)
    × (is_empty m.suffix ≡ false)
    × (all is_suffix_char m.suffix ≡ true)

match_head_ttl :
    (suffix head stem : Str)
    → strip_end (marker by_ttl) head ≡ some stem
    → match_head suffix head ≡ of_stem by_ttl suffix stem
unfolding match_head
match_head_ttl suffix head stem e = cc e

match_head_idle :
    (suffix head stem : Str)
    → strip_end (marker by_ttl) head ≡ none
    → strip_end (marker by_idle) head ≡ some stem
    → match_head suffix head ≡ of_stem by_idle suffix stem
unfolding match_head
match_head_idle suffix head stem e f = cc (e, f)

match_head-marker :
    (kind : Kind) (stem suffix : Str)
    → all is_any_char stem ≡ true
    → match_head suffix (stem ++ marker kind)
      ≡ some (record { stem = stem; kind = kind; suffix = suffix })
match_head-marker by_ttl stem suffix h =
    match_head_ttl suffix _ stem (strip_end-append stem (marker by_ttl)) ∙ rw h refl
match_head-marker by_idle stem suffix h =
    match_head_idle suffix _ stem (not_ttl stem) (strip_end-append stem (marker by_idle))
    ∙ rw h refl

-- A tag cut at its last dash.
exec_tag_at :
    (tag : Str) (dash : ℕ)
    → last_index_of b'-' tag ≡ some dash
    → is_empty (drop (suc dash) tag) ≡ false
    → all is_suffix_char (drop (suc dash) tag) ≡ true
    → exec_tag tag ≡ match_head (drop (suc dash) tag) (take dash tag)
unfolding exec_tag
exec_tag_at tag dash e full chars = rw (e, exec_tag) (rw (full, chars) refl)

exec_tag-append :
    (head suffix : Str)
    → is_empty suffix ≡ false
    → all is_suffix_char suffix ≡ true
    → exec_tag (head ++ (b'-' ∷ suffix)) ≡ match_head suffix head
exec_tag-append head suffix full chars =
    let lacks : Lacks b'-' suffix =
      All-imp suffix_char_ne suffix (all→All is_suffix_char suffix chars) in
    let cut = past_prefix head b'-' suffix in
    exec_tag_at (head ++ (b'-' ∷ suffix)) (length head)
      (last_index_of-append b'-' head suffix lacks) (ap is_empty cut ∙ full)
      (ap (all is_suffix_char) cut ∙ chars)
    ∙ ap (λ s. match_head s (take (length head) (head ++ (b'-' ∷ suffix)))) cut
    ∙ ap (match_head suffix) (take-length-append head (b'-' ∷ suffix))

exec_tag_complete : (tag : Str) (m : TagMatch) → IsRetentionTag tag m → exec_tag tag ≡ some m
exec_tag_complete tag m (e, any, full, chars) =
    ap exec_tag (e ∙ sym (append_assoc m.stem (marker m.kind) (b'-' ∷ m.suffix)))
    ∙ exec_tag-append (m.stem ++ marker m.kind) m.suffix full chars
    ∙ match_head-marker m.kind m.stem m.suffix any

of_stem_sound :
    (kind : Kind) (suffix stem : Str) (m : TagMatch)
    → of_stem kind suffix stem ≡ some m
    → (m ≡ record { stem = stem; kind = kind; suffix = suffix }) × (all is_any_char stem ≡ true)
of_stem_sound kind suffix stem m h = elim (Bool-cases (all is_any_char stem)) [
  | inl e ↦ (cc (e, h), e)
  | inr e ↦ absurd (cc (e, h))
]

match_head_sound :
    (suffix head : Str) (m : TagMatch)
    → match_head suffix head ≡ some m
    → (head ≡ m.stem ++ marker m.kind) × (m.suffix ≡ suffix) × (all is_any_char m.stem ≡ true)
unfolding match_head
match_head_sound suffix head m h = elim (Option-cases (strip_end (marker by_ttl) head)) [
  | inr (stem, e) ↦ made by_ttl stem (strip_end_sound (marker by_ttl) head stem e) (cc (e, h))
  | inl e ↦ elim (Option-cases (strip_end (marker by_idle) head)) [
    | inr (stem, f) ↦
        made by_idle stem (strip_end_sound (marker by_idle) head stem f) (cc (e, f, h))
    | inl f ↦ absurd (cc (e, f, h))
  ]
]
  where
    made :
        (kind : Kind) (stem : Str)
        → head ≡ stem ++ marker kind
        → of_stem kind suffix stem ≡ some m
        → (head ≡ m.stem ++ marker m.kind) × (m.suffix ≡ suffix) × (all is_any_char m.stem ≡ true)
    made kind stem e h =
        let (same, any) = of_stem_sound kind suffix stem m h in
        (
          e ∙ ap (λ (k : TagMatch). k.stem ++ marker k.kind) (sym same),
          ap (λ (k : TagMatch). k.suffix) same,
          ap (λ (k : TagMatch). all is_any_char k.stem) same ∙ any,
        )

exec_tag_sound : (tag : Str) (m : TagMatch) → exec_tag tag ≡ some m → IsRetentionTag tag m
unfolding exec_tag
exec_tag_sound tag m h = elim (Option-cases (last_index_of b'-' tag)) [
  | inl e ↦ absurd (cc (e, h))
  | inr (dash, e) ↦
      let suffix = drop (suc dash) tag in
      elim (Bool-cases (not (is_empty suffix) && all is_suffix_char suffix)) [
        | inr f ↦ absurd (cc (e, f, h))
        | inl f ↦
            let (full, chars) = &&-split (not (is_empty suffix)) (all is_suffix_char suffix) f in
            let (head, same, any) = match_head_sound suffix (take dash tag) m (cc (e, f, h)) in
            let (cut, lacks, below) = last_index_of-some b'-' tag dash e in
            (
              cut
                  ∙ ap (λ t. t ++ (b'-' ∷ suffix)) head
                  ∙ append_assoc m.stem (marker m.kind) (b'-' ∷ suffix)
                  ∙ ap (λ t. m.stem ++ (marker m.kind ++ (b'-' ∷ t))) (sym same),
              any,
              ap is_empty same ∙ ground (arith, full),
              ap (all is_suffix_char) same ∙ chars,
            )
      ]
]

-- The pattern matches a tag exactly when the tag is a stem with no line break, `--ttl-` or `--idle-`,
-- and a suffix of one or more lower case letters and digits, and it gives these parts.
pub exec_tag_iff : (tag : Str) (m : TagMatch) → (exec_tag tag ≡ some m) ↔ IsRetentionTag tag m
exec_tag_iff tag m = (exec_tag_sound tag m, exec_tag_complete tag m)

-- ===== src/Hooks/Patterns.antt =====
-- The patterns that ImportAPI.ts and InternalAPI.ts (hooks/src/controllers) test their input by.
use aocr.Prelude.{
  ℕ, zero, suc, ◌+◌, Bool, false, ◌&&◌, ◌||◌, [], ◌∷◌, Option, none, some, ◌==◌, leb, ltb,
  if◌then◌else◌, length, map, all,
}
use aocr.Text.{Str, codes, is_empty, split_on, strip_slashes}
use aocr.Text.Regex.{Regex, empty, char, seq, alt, star, plus, opt, up_to, test}

-- s.toLowerCase() of ASCII
abbrev pub lower : ℕ → ℕ
lower c = if leb b'A' c && leb c b'Z' then c + 32 else c

abbrev pub to_lower_case : Str → Str
to_lower_case s = map lower s

abbrev pub is_digit : ℕ → Bool
is_digit c = leb b'0' c && leb c b'9'

abbrev is_lower : ℕ → Bool
is_lower c = leb b'a' c && leb c b'z'

-- [a-z0-9], and the same under the flag i
abbrev is_word : ℕ → Bool
is_word c = is_lower c || is_digit c

abbrev is_word_i : ℕ → Bool
is_word_i c = is_word (lower c)

-- [0-9a-f] under the flag i
abbrev is_hex_i : ℕ → Bool
is_hex_i c = (leb b'a' (lower c) && leb (lower c) b'f') || is_digit c

-- A word under the flag i.
abbrev literal_i : Str → Regex
literal_i [] = empty
literal_i (c ∷ s) = seq (char (λ d. lower d == c)) (literal_i s)

abbrev pub one : ℕ → Regex
one c = char (λ d. d == c)

-- r{n}
unfoldable times : ℕ → Regex → Regex
times zero r = empty
times (suc n) r = seq r (times n r)

-- DIGEST_PATTERN, `^sha256:[0-9a-f]{64}$` under the flag i
unfoldable pub digest_pattern : Regex
unfolding times
digest_pattern = seq (literal_i (codes "sha256:")) (times 64 (char is_hex_i))

-- HOST_PATTERN, `^[a-z0-9]+(?:[.-][a-z0-9]+)*(?::[0-9]+)?$` under the flag i
unfoldable pub host_pattern : Regex
host_pattern = seq (plus (char is_word_i)) (
    seq (star (seq (alt (one b'.') (one b'-')) (plus (char is_word_i))))
      (opt (seq (one b':') (plus (char is_digit)))))

-- REPO_SEGMENT_PATTERN, `^[a-z0-9]+(?:[._-][a-z0-9]+)*$`
unfoldable repo_segment_pattern : Regex
repo_segment_pattern =
    seq (plus (char is_word))
      (star (seq (char (λ c. c == b'.' || (c == b'_' || c == b'-'))) (plus (char is_word))))

abbrev is_tag_head : ℕ → Bool
is_tag_head c = is_word_i c || c == b'_'

abbrev pub is_tag_char : ℕ → Bool
is_tag_char c = is_tag_head c || (c == b'.' || c == b'-')

-- TAG_PATTERN, `^[A-Za-z0-9_][A-Za-z0-9._-]{0,127}$`
unfoldable pub tag_pattern : Regex
unfolding up_to
tag_pattern = seq (char is_tag_head) (up_to 127 (char is_tag_char))

-- SUFFIX_PATTERN, `^--[a-z0-9]+(?:-[a-z0-9]+)*$`
unfoldable pub suffix_pattern : Regex
suffix_pattern =
    seq (one b'-')
      (seq (one b'-') (seq (plus (char is_word)) (star (seq (one b'-') (plus (char is_word))))))

abbrev is_slash : ℕ → Bool
is_slash c = c == b'/'

-- isValidRepoPath and isValidRepository
unfoldable pub is_valid_repo_path : Str → Bool
unfolding split_on repo_segment_pattern test all
is_valid_repo_path repo =
    if is_empty repo || ltb 256 (length repo)
    then false
    else all (test repo_segment_pattern) (split_on is_slash repo)

-- `(process.env["REGISTRY_URL"] || "http://registry:5000").replace(/\/+$/, "")`
unfoldable registry_url_of : Option Str → Str
unfolding strip_slashes
registry_url_of none = strip_slashes (codes "http://registry:5000")
registry_url_of (some url) =
    strip_slashes (if is_empty url then codes "http://registry:5000" else url)

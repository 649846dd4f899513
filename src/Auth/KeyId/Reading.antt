-- ===== src/Auth/KeyId/Reading.antt =====
-- A key's id read back: its groups and its digits.
use Prim.Native.Nat.{◌^◌}
use aocr.Prelude.{
  ℕ, zero, suc, ◌+◌, ◌-◌, ◌*◌, ◌<◌, ◌≡◌, refl, sym, ap, ◌∙◌, subst, List, [], ◌∷◌, ◌++◌, Option,
  some, arith, map, length, length-take, length-map, take, drop, take-append-drop, leb, ◌==◌, All,
  All-left, if◌then◌else◌,
}
use aocr.Text.{Str, join}
use aocr.Auth.KeyId.{base32_char, base32, groups, compute_libtrust_key_id}
use aocr.Auth.KeyId.Base32.{number, base32-Writes}

-- The number behind a base 32 digit.
abbrev digit_of : ℕ → ℕ
digit_of c = if leb b'A' c then c - b'A' else c - b'2' + 26

abbrev read_char : ℕ → ℕ → ℕ
read_char n c = if c == b':' then n else n * 32 + digit_of c

-- The number that an id writes, its colons skipped.
unfoldable pub read_id : ℕ → Str → ℕ
read_id n [] = n
read_id n (c ∷ cs) = read_id (read_char n c) cs

read_char-base32_char : (n d : ℕ) → d < 32 → read_char n (base32_char d) ≡ n * 32 + d
read_char-base32_char n d lt = ground arith

read_id-digits :
    (n : ℕ) (ds : List ℕ) → All (λ d. d < 32) ds → read_id n (map base32_char ds) ≡ number 32 n ds
unfolding read_id number
read_id-digits n [] h = refl
read_id-digits n (d ∷ ds) (lt, h) =
    ap (λ k. read_id k (map base32_char ds)) (read_char-base32_char n d lt)
    ∙ read_id-digits (n * 32 + d) ds h

-- A group that is not the last has a colon behind it.
join-groups :
    (x : Str) (c : ℕ) (s : Str)
    → join b':' (x ∷ groups (c ∷ s)) ≡ x ++ (b':' ∷ join b':' (groups (c ∷ s)))
unfolding join groups
join-groups x c [] = refl
join-groups x c (d ∷ []) = refl
join-groups x c (d ∷ e ∷ []) = refl
join-groups x c (d ∷ e ∷ f ∷ s) = refl

read_id-groups : (n : ℕ) (s : Str) → read_id n (join b':' (groups s)) ≡ read_id n s
unfolding read_id groups join
read_id-groups n [] = refl
read_id-groups n (a ∷ []) = refl
read_id-groups n (a ∷ b ∷ []) = refl
read_id-groups n (a ∷ b ∷ c ∷ []) = refl
read_id-groups n (a ∷ b ∷ c ∷ d ∷ []) = refl
read_id-groups n (a ∷ b ∷ c ∷ d ∷ e ∷ s) =
    ap (read_id n) (join-groups (a ∷ b ∷ c ∷ d ∷ []) e s)
    ∙ read_id-groups (read_char (read_char (read_char (read_char n a) b) c) d) (e ∷ s)

length-groups : (k : ℕ) (s : Str) → length s ≡ 4 * k + 4 → length (join b':' (groups s)) ≡ 5 * k + 4
unfolding groups join
length-groups k [] e = absurd (omega arith)
length-groups k (a ∷ []) e = absurd (omega arith)
length-groups k (a ∷ b ∷ []) e = absurd (omega arith)
length-groups k (a ∷ b ∷ c ∷ []) e = absurd (omega arith)
length-groups k (a ∷ b ∷ c ∷ d ∷ []) e = omega arith
length-groups zero (a ∷ b ∷ c ∷ d ∷ f ∷ s) e = absurd (omega arith)
length-groups (suc k) (a ∷ b ∷ c ∷ d ∷ f ∷ s) e =
    rw (join-groups (a ∷ b ∷ c ∷ d ∷ []) f s) (omega (arith, length-groups k (f ∷ s) (omega arith)))

module _ (fingerprint : Str → Option (List ℕ)) (private_key_pem : Str) (hash : List ℕ) where
  -- For a private key whose fingerprint has 32 bytes, the key id is a text of 59 characters which, its
  -- colons skipped and read in base 32, is the number that the first 30 bytes of the fingerprint write.
  pub read_id-compute_libtrust_key_id :
      fingerprint private_key_pem ≡ some hash
      → length hash ≡ 32
      → All (λ b. b < 256) hash
      → (id : Str) × (compute_libtrust_key_id fingerprint private_key_pem ≡ some id)
        × (length id ≡ 59)
        × (read_id 0 id ≡ number 256 0 (take 30 hash))
  unfolding compute_libtrust_key_id
  read_id-compute_libtrust_key_id e len bs =
      let bytes = take 30 hash in
      let all : All (λ b. b < 256) bytes =
        All-left (λ b. b < 256) bytes (drop 30 hash)
          (subst (All (λ b. b < 256)) (sym (take-append-drop 30 hash)) bs) in
      let (padding, few, w) = base32-Writes bytes all in
      let thirty : length bytes ≡ 30 = length-take 30 hash ∙ rw len refl in
      let none_left : padding ≡ 0 = omega (arith, w.count) in
      let text_length : length (base32 bytes) ≡ 48 =
        ap length w.written ∙ length-map base32_char w.ds ∙ omega (arith, w.count) in
      let whole : number 32 0 w.ds ≡ number 256 0 bytes =
        subst (λ p. number 32 0 w.ds ≡ number 256 0 bytes * 2 ^ p) none_left w.sum ∙ omega arith in
      (
        join b':' (groups (base32 bytes)),
        rw (e, compute_libtrust_key_id) refl,
        length-groups 11 (base32 bytes) text_length,
        read_id-groups 0 (base32 bytes)
            ∙ ap (read_id 0) w.written
            ∙ read_id-digits 0 w.ds w.small
            ∙ whole,
      )

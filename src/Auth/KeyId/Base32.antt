-- ===== src/Auth/KeyId/Base32.antt =====
-- The text of a key's id is its bytes as one number, in base 32.
use Prim.Native.Nat.{◌^◌}
use aocr.Prelude.{
  ℕ, zero, suc, ◌+◌, ◌-◌, ◌*◌, ◌/◌, ◌%◌, ◌≤◌, ◌<◌, ◌≡◌, refl, sym, ap, ◌∙◌, subst, inl, inr, false,
  List, [], ◌∷◌, ◌++◌, arith, map, map-append, length, length-append, leb, leb→le, ltb, ltb→lt,
  Bool-cases, All, All-append,
}
use aocr.Text.{Str}
use aocr.Auth.KeyId.{
  Coder, word, shift_in, base32_char, emit, drain, add_byte, add_bytes, last_char, new_coder,
  base32,
}

-- The number that digits write, the highest first, behind a number that is there already.
unfoldable pub number : ℕ → ℕ → List ℕ → ℕ
number base n [] = n
number base n (d ∷ ds) = number base (n * base + d) ds

number-append :
    (base n d : ℕ) (ds : List ℕ) → number base n (ds ++ (d ∷ [])) ≡ number base n ds * base + d
unfolding number
number-append base n d [] = refl
number-append base n d (e ∷ ds) = number-append base (n * base + e) d ds

-- The coder holds a number of n bytes: its digits, and its lowest bits in the value.
record Holds (total n : ℕ) (c : Coder) : Type 0 where
  ds : List ℕ
  written : c.result ≡ map base32_char ds
  small : All (λ d. d < 32) ds
  sum : total ≡ number 32 0 ds * 2 ^ c.bits + c.value % 2 ^ c.bits
  count : 5 * length ds + c.bits ≡ 8 * n

-- A digit is cut off the bits.
cut :
    (total value n k : ℕ)
    → k < 8
    → total ≡ n * 2 ^ (k + 5) + value % 2 ^ (k + 5)
    → total ≡ (n * 32 + (value / 2 ^ k) % 32) * 2 ^ k + value % 2 ^ k
cut total value n zero lt e = omega arith
cut total value n (suc zero) lt e = omega arith
cut total value n (suc (suc zero)) lt e = omega arith
cut total value n (suc (suc (suc zero))) lt e = omega arith
cut total value n (suc (suc (suc (suc zero)))) lt e = omega arith
cut total value n (suc (suc (suc (suc (suc zero))))) lt e = omega arith
cut total value n (suc (suc (suc (suc (suc (suc zero)))))) lt e = omega arith
cut total value n (suc (suc (suc (suc (suc (suc (suc zero))))))) lt e = omega arith
cut total value n (suc (suc (suc (suc (suc (suc (suc (suc k)))))))) lt e = absurd (omega arith)

-- A byte is put behind the bits.
put :
    (total value n byte k : ℕ)
    → byte < 256
    → k < 5
    → total ≡ n * 2 ^ k + value % 2 ^ k
    → total * 256 + byte ≡ n * 2 ^ (k + 8) + shift_in value byte % 2 ^ (k + 8)
put total value n byte zero b lt e = omega arith
put total value n byte (suc zero) b lt e = omega arith
put total value n byte (suc (suc zero)) b lt e = omega arith
put total value n byte (suc (suc (suc zero))) b lt e = omega arith
put total value n byte (suc (suc (suc (suc zero)))) b lt e = omega arith
put total value n byte (suc (suc (suc (suc (suc k))))) b lt e = absurd (omega arith)

not_leb : (a b : ℕ) → leb a b ≡ false → b < a
not_leb a b h = ground arith

emit-Holds :
    (total n : ℕ) (c : Coder) → 5 ≤ c.bits → c.bits < 13 → Holds total n c → Holds total n (emit c)
emit-Holds total n c ge lt h =
    let d = (c.value / 2 ^ (c.bits - 5)) % 32 in
    let back : c.bits ≡ c.bits - 5 + 5 = omega arith in
    let sum = subst (λ b. total ≡ number 32 0 h.ds * 2 ^ b + c.value % 2 ^ b) back h.sum in
    record {
      ds = h.ds ++ (d ∷ []);
      written =
          ap (λ r. r ++ (base32_char d ∷ [])) h.written
          ∙ sym (map-append base32_char h.ds (d ∷ []));
      small = All-append (λ d. d < 32) h.ds (d ∷ []) h.small (omega arith, tt);
      sum =
          rw (number-append 32 0 d h.ds)
            (cut total c.value (number 32 0 h.ds) (c.bits - 5) (omega arith) sum);
      count = omega (arith, h.count, length-append h.ds (d ∷ []));
    }

drain-Holds :
    (total n fuel : ℕ) (c : Coder)
    → c.bits ≤ fuel
    → c.bits < 13
    → Holds total n c
    → Holds total n (drain fuel c) × ((drain fuel c).bits < 5)
unfolding drain
drain-Holds total n zero c le lt h = (h, omega arith)
drain-Holds total n (suc fuel) c le lt h = elim (Bool-cases (leb 5 c.bits)) [
  | inl e ↦ rw e (
      drain-Holds total n fuel (emit c) (omega arith) (omega arith)
        (emit-Holds total n c (leb→le 5 c.bits e) (omega arith) h))
  | inr e ↦ let few = not_leb 5 c.bits e in rw e (h, few)
]

add_byte-Holds :
    (total n byte : ℕ) (c : Coder)
    → byte < 256
    → c.bits < 5
    → Holds total n c
    → Holds (total * 256 + byte) (suc n) (add_byte c byte) × ((add_byte c byte).bits < 5)
unfolding add_byte
add_byte-Holds total n byte c b few h =
    drain-Holds (total * 256 + byte) (suc n) (c.bits + 8)
      (record c { value = shift_in c.value byte; bits = c.bits + 8 }) (omega arith) (omega arith)
      (record {
        ds = h.ds;
        written = h.written;
        small = h.small;
        sum = put total c.value (number 32 0 h.ds) byte c.bits b few h.sum;
        count = omega (arith, h.count);
      })

add_bytes-Holds :
    (total n : ℕ) (bytes : List ℕ) (c : Coder)
    → All (λ b. b < 256) bytes
    → c.bits < 5
    → Holds total n c
    → Holds (number 256 total bytes) (n + length bytes) (add_bytes c bytes)
      × ((add_bytes c bytes).bits < 5)
unfolding add_bytes number
add_bytes-Holds total n [] c bs few h = (subst (λ k. Holds total k c) (omega arith) h, few)
add_bytes-Holds total n (byte ∷ bytes) c (b, bs) few h =
    let (h2, few2) = add_byte-Holds total n byte c b few h in
    let (h3, few3) =
      add_bytes-Holds (total * 256 + byte) (suc n) bytes (add_byte c byte) bs few2 h2 in
    (
      subst
          (λ k. Holds (number 256 (total * 256 + byte) bytes) k (add_bytes (add_byte c byte) bytes))
          (omega arith) h3,
      few3,
    )

-- The bits that are left, with zeros behind them, are one digit more.
pad :
    (total value n k : ℕ)
    → 0 < k
    → k < 5
    → total ≡ n * 2 ^ k + value % 2 ^ k
    → total * 2 ^ (5 - k) ≡ n * 32 + ((value * 2 ^ (5 - k)) % word) % 32
pad total value n zero pos lt e = absurd (omega arith)
pad total value n (suc zero) pos lt e = omega arith
pad total value n (suc (suc zero)) pos lt e = omega arith
pad total value n (suc (suc (suc zero))) pos lt e = omega arith
pad total value n (suc (suc (suc (suc zero)))) pos lt e = omega arith
pad total value n (suc (suc (suc (suc (suc k))))) pos lt e = absurd (omega arith)

-- A text that writes a number of n bytes in base 32, with the bits of padding behind it.
pub record Writes (total n padding : ℕ) (text : Str) : Type 0 where
  pub ds : List ℕ
  pub written : text ≡ map base32_char ds
  pub small : All (λ d. d < 32) ds
  pub sum : number 32 0 ds ≡ total * 2 ^ padding
  pub count : 5 * length ds ≡ 8 * n + padding

last_char-Writes :
    (total n : ℕ) (c : Coder)
    → c.bits < 5
    → Holds total n c
    → (padding : ℕ) × (padding < 5) × Writes total n padding (last_char c)
unfolding last_char
last_char-Writes total n c few h = elim (Bool-cases (ltb 0 c.bits)) [
  | inl e ↦
      let d = ((c.value * 2 ^ (5 - c.bits)) % word) % 32 in
      let some_bits = ltb→lt 0 c.bits e in
      rw e (
        5 - c.bits,
        omega arith,
        record {
          ds = h.ds ++ (d ∷ []);
          written =
              ap (λ r. r ++ (base32_char d ∷ [])) h.written
              ∙ sym (map-append base32_char h.ds (d ∷ []));
          small = All-append (λ d. d < 32) h.ds (d ∷ []) h.small (omega arith, tt);
          sum =
              number-append 32 0 d h.ds
              ∙ sym (pad total c.value (number 32 0 h.ds) c.bits some_bits few h.sum);
          count = omega (arith, h.count, length-append h.ds (d ∷ []));
        },
      )
  | inr e ↦
      let no_bits : c.bits ≡ 0 = ground arith in
      let sum = subst (λ b. total ≡ number 32 0 h.ds * 2 ^ b + c.value % 2 ^ b) no_bits h.sum in
      rw e (
        0,
        omega arith,
        record {
          ds = h.ds;
          written = h.written;
          small = h.small;
          sum = omega (arith, sum);
          count = omega (arith, h.count);
        },
      )
]

pub base32-Writes :
    (bytes : List ℕ)
    → All (λ b. b < 256) bytes
    → (padding : ℕ) × (padding < 5)
      × Writes (number 256 0 bytes) (length bytes) padding (base32 bytes)
unfolding base32 number
base32-Writes bytes bs =
    let start : Holds 0 0 new_coder = record {
      ds = [];
      written = refl;
      small = tt;
      sum = refl;
      count = refl;
    } in
    let (h, few) = add_bytes-Holds 0 0 bytes new_coder bs (omega arith) start in
    last_char-Writes (number 256 0 bytes) (length bytes) (add_bytes new_coder bytes) few
      (subst (λ k. Holds (number 256 0 bytes) k (add_bytes new_coder bytes)) (omega arith) h)

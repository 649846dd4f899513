-- ===== src/Auth/KeyId.antt =====
-- auth/src/serverHelpers.ts: the id of the signing key, and the database's address.
pub mod Base32
pub mod Reading
use Prim.Native.Nat.{◌^◌}
use aocr.Prelude.{
  ℕ, zero, suc, ◌+◌, ◌-◌, ◌*◌, ◌/◌, ◌%◌, List, [], ◌∷◌, ◌++◌, Option, none, some, ltb, leb,
  if◌then◌else◌, take,
}
use aocr.Text.{Str, codes, is_empty, join}

-- The words of the operators `<<` and `|`, as bit patterns.
abbrev pub word : ℕ
word = 4294967296

-- `(value << 8) | byte`: the low eight bits of the shifted value are free.
abbrev pub shift_in : ℕ → ℕ → ℕ
shift_in value byte = (value * 256) % word + byte

-- base32chars[d] of "ABCDEFGHIJKLMNOPQRSTUVWXYZ234567"
abbrev pub base32_char : ℕ → ℕ
base32_char d = if ltb d 26 then b'A' + d else b'2' + (d - 26)

pub record Coder : Type 0 where
  pub bits : ℕ
  pub value : ℕ
  pub result : Str

abbrev pub emit : Coder → Coder
emit c = record c {
  result = c.result ++ (base32_char ((c.value / 2 ^ (c.bits - 5)) % 32) ∷ []);
  bits = c.bits - 5;
}

-- `while (bits >= 5)`; the rounds are at most as many as the bits.
unfoldable pub drain : ℕ → Coder → Coder
drain zero c = c
drain (suc fuel) c = let rest = drain fuel (emit c) in if leb 5 c.bits then rest else c

unfoldable pub add_byte : Coder → ℕ → Coder
unfolding drain
add_byte c byte = drain (c.bits + 8) (record c { value = shift_in c.value byte; bits = c.bits + 8 })

unfoldable pub add_bytes : Coder → List ℕ → Coder
unfolding add_byte
add_bytes c [] = c
add_bytes c (byte ∷ bytes) = add_bytes (add_byte c byte) bytes

unfoldable pub last_char : Coder → Str
last_char c =
    if ltb 0 c.bits
    then c.result ++ (base32_char (((c.value * 2 ^ (5 - c.bits)) % word) % 32) ∷ [])
    else c.result

abbrev pub new_coder : Coder
new_coder = record { bits = 0; value = 0; result = [] }

unfoldable pub base32 : List ℕ → Str
unfolding add_bytes last_char
base32 bytes = last_char (add_bytes new_coder bytes)

-- result.match(/.{1,4}/g) || []
unfoldable pub groups : Str → List Str
groups [] = []
groups (a ∷ []) = (a ∷ []) ∷ []
groups (a ∷ b ∷ []) = (a ∷ b ∷ []) ∷ []
groups (a ∷ b ∷ c ∷ []) = (a ∷ b ∷ c ∷ []) ∷ []
groups (a ∷ b ∷ c ∷ d ∷ rest) = (a ∷ b ∷ c ∷ d ∷ []) ∷ groups rest

-- `fingerprint` is the SHA-256 of the public key's SPKI, or none where the text is not a private key
-- and createPrivateKey throws.
unfoldable pub compute_libtrust_key_id : (Str → Option (List ℕ)) → Str → Option Str
unfolding base32 groups join
compute_libtrust_key_id fingerprint private_key_pem = elim (fingerprint private_key_pem) [
  | none ↦ none
  | some hash ↦ some (join b':' (groups (base32 (take 30 hash))))
]

-- `env.X`, where an empty text counts as missing
abbrev set_value : Option Str → Option Str
set_value none = none
set_value (some s) = if is_empty s then none else some s

record DatabaseEnv : Type 0 where
  pub database_url : Option Str
  pub postgres_host : Option Str
  pub postgres_db : Option Str
  pub postgres_user : Option Str
  pub postgres_password : Option Str
  pub postgres_port : Option Str

abbrev port_of : Option Str → Str
port_of none = codes "5432"
port_of (some port) = port

infixl 5 ◌>>=◌
abbrev ◌>>=◌ : Option Str → (Str → Option Str) → Option Str
none >>= f = none
some a >>= f = f a

-- The address; none where the function throws.
unfoldable get_database_connection_string : (Str → Str) → DatabaseEnv → Option Str
get_database_connection_string encode_uri env = elim (set_value env.database_url) [
  | some url ↦ some url
  | none ↦ do
    host ← set_value env.postgres_host
    database ← set_value env.postgres_db
    user ← set_value env.postgres_user
    password ← set_value env.postgres_password
    some (
        codes "postgres://"
        ++ (encode_uri user
            ++ (b':'
                ∷ (encode_uri password
                    ++ (b'@'
                        ∷ (host
                            ++ (b':'
                                ∷ (port_of (set_value env.postgres_port)
                                    ++ (b'/' ∷ database)))))))))
]

-- ===== src/Hooks/Access.antt =====
-- How the hooks service authorizes its callers: ImportAPI.ts, InternalAPI.ts and HookAPI.ts
-- (hooks/src/controllers).
pub mod Laws
use Prim.Native.Nat.{bit_or, bit_xor}
use aocr.Prelude.{
  ℕ, zero, suc, Bool, true, false, not, ◌||◌, ◌&&◌, [], ◌∷◌, ◌++◌, Option, none, some, ◌==◌,
  if◌then◌else◌, length,
}
use aocr.Text.{Str, codes, str_eq, is_empty, index_of, slice, slice_from}

-- The loop of `constantTimeEquals`; past the end `charCodeAt` is NaN, which `^` takes for 0.
unfoldable pub diff_loop : ℕ → Str → Str → ℕ
diff_loop diff [] b = diff
diff_loop diff (x ∷ a) [] = diff_loop (bit_or diff (bit_xor x 0)) a []
diff_loop diff (x ∷ a) (y ∷ b) = diff_loop (bit_or diff (bit_xor x y)) a b

unfoldable pub constant_time_equals : Str → Str → Bool
unfolding diff_loop
constant_time_equals a b = if not (length a == length b) then false else diff_loop 0 a b == 0

abbrev pub is_scheme : Str → Bool
is_scheme scheme = str_eq scheme (codes "Bearer") || str_eq scheme (codes "Token")

-- The header of ImportAPI cut at its first space.
unfoldable pub presented_at : Str → Str → Option ℕ → Bool
unfolding constant_time_equals str_eq
presented_at expected authorization none = false
presented_at expected authorization (some zero) = false
presented_at expected authorization (some (suc i)) =
    is_scheme (slice 0 (suc i) authorization)
    && constant_time_equals (slice_from (suc (suc i)) authorization) expected

-- `authorized` of ImportAPI, with INTERNAL_API_TOKEN
unfoldable pub import_authorized : Option Str → Option Str → Bool
unfolding presented_at index_of
import_authorized none authorization = false
import_authorized (some expected) none = false
import_authorized (some expected) (some authorization) =
    if is_empty expected || is_empty authorization
    then false
    else presented_at expected authorization (index_of b' ' authorization)

-- `authorized` of InternalAPI, with INTERNAL_API_TOKEN
unfoldable pub internal_authorized : Option Str → Option Str → Bool
unfolding str_eq
internal_authorized none authorization = false
internal_authorized (some expected) none = false
internal_authorized (some expected) (some authorization) =
    not (is_empty expected) && str_eq authorization (codes "Token " ++ expected)

-- The test of HookAPI, with HOOK_TOKEN; a variable that is not set is written `undefined`.
unfoldable hook_authorized : Option Str → Option Str → Bool
unfolding str_eq
hook_authorized hook_token none = false
hook_authorized none (some authorization) = str_eq authorization (codes "Token undefined")
hook_authorized (some token) (some authorization) = str_eq authorization (codes "Token " ++ token)

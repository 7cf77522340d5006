-- ===== src/Base/Bytes.antt =====
-- Byte slices as lists of numbers below 256, and encoding/binary's BigEndian.
use fsend.Base.Lists.{get_or, All}
use Prim.Native.Nat.{ℕ, zero, suc, ◌+◌, ◌*◌, ◌/◌, ◌%◌, ◌^◌, ◌<◌}
use mathlib.Core.Path.{◌≡◌}
use mathlib.Core.Bool.{Bool, true, false, ◌&&◌}
use fsend.Base.Tests.{◌==◌}
use mathlib.Core.List.{List, [], ◌∷◌}
use native.Mathlib.Omega.{arith}

abbrev pub IsByte : ℕ → Type 0
IsByte b = b < 256

abbrev pub IsU32 : ℕ → Type 0
IsU32 n = n < 2 ^ 32

-- binary.BigEndian.PutUint16 and PutUint32.
abbrev pub put_u16 : ℕ → List ℕ
put_u16 n = (n / 2 ^ 8 % 256) ∷ (n % 256) ∷ []

abbrev pub put_u32 : ℕ → List ℕ
put_u32 n = (n / 2 ^ 24 % 256) ∷ (n / 2 ^ 16 % 256) ∷ (n / 2 ^ 8 % 256) ∷ (n % 256) ∷ []

-- binary.BigEndian.Uint16 and Uint32 of the bytes at `at` and behind.
abbrev pub get_u16 : List ℕ → ℕ → ℕ
get_u16 bs at = get_or bs at 0 * 2 ^ 8 + get_or bs (suc at) 0

abbrev pub u32_of : ℕ → ℕ → ℕ → ℕ → ℕ
u32_of a b c d = a * 2 ^ 24 + b * 2 ^ 16 + c * 2 ^ 8 + d

abbrev pub get_u32 : List ℕ → ℕ → ℕ
get_u32 bs at =
    u32_of (get_or bs at 0) (get_or bs (suc at) 0) (get_or bs (suc (suc at)) 0)
      (get_or bs (suc (suc (suc at))) 0)

pub get-put_u32 :
    (n : ℕ) → IsU32 n → u32_of (n / 2 ^ 24 % 256) (n / 2 ^ 16 % 256) (n / 2 ^ 8 % 256) (n % 256) ≡ n
get-put_u32 n h = omega arith

pub get-put_u16 : (n : ℕ) → n < 2 ^ 16 → n / 2 ^ 8 % 256 * 2 ^ 8 + n % 256 ≡ n
get-put_u16 n h = omega arith

pub get_or-IsByte : (bs : List ℕ) (i : ℕ) → All IsByte bs → get_or bs i 0 < 256
get_or-IsByte [] i h = omega arith
get_or-IsByte (b ∷ bs) zero h = h.0
get_or-IsByte (b ∷ bs) (suc i) h = get_or-IsByte bs i h.1

pub get_u32-IsU32 : (bs : List ℕ) (at : ℕ) → All IsByte bs → IsU32 (get_u32 bs at)
get_u32-IsU32 bs at h =
    let b = λ (i : ℕ). get_or-IsByte bs i h in
    omega (arith, b at, b (suc at), b (suc (suc at)), b (suc (suc (suc at))))

pub get_u16-lt : (bs : List ℕ) (at : ℕ) → All IsByte bs → get_u16 bs at < 2 ^ 16
get_u16-lt bs at h = omega (arith, get_or-IsByte bs at h, get_or-IsByte bs (suc at) h)

-- Equality of two arrays.
unfoldable pub bytes_eq : List ℕ → List ℕ → Bool
bytes_eq [] [] = true
bytes_eq [] (y ∷ ys) = false
bytes_eq (x ∷ xs) [] = false
bytes_eq (x ∷ xs) (y ∷ ys) = (x == y) && bytes_eq xs ys

pub bytes_eq_iff :
    (xs ys : List ℕ) → (bytes_eq xs ys ≡ true → xs ≡ ys) × (xs ≡ ys → bytes_eq xs ys ≡ true)
unfolding bytes_eq
bytes_eq_iff [] [] = ground arith
bytes_eq_iff [] (y ∷ ys) = ground arith
bytes_eq_iff (x ∷ xs) [] = ground arith
bytes_eq_iff (x ∷ xs) (y ∷ ys) = ground (arith, bytes_eq_iff xs ys)

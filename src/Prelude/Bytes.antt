-- ===== src/Prelude/Bytes.antt =====
-- encoding/binary.LittleEndian and Go's fixed-width conversions, over lists of bytes below 256.
use Prim.Native.Nat.{ℕ, ◌+◌, ◌-◌, ◌*◌, ◌/◌, ◌%◌, ◌<◌}
use mathlib.Core.Path.{◌≡◌}
use mathlib.Core.List.{List, [], ◌∷◌}
use native.Mathlib.Omega.{arith}
use sumpnet.Prelude.Tests.{ltb, if◌then◌else◌}
use sumpnet.Prelude.Lists.{get_or}
use sumpnet.Prelude.Int.{ℤ, pos, negsuc}

-- b[i]; every use stands behind a check of the length.
abbrev pub byte_at : List ℕ → ℕ → ℕ
byte_at b i = get_or b i 0

-- The bytes that PutUint16 writes.
abbrev pub le16 : ℕ → List ℕ
le16 v = (v % 256) ∷ (v / 256 % 256) ∷ []

abbrev pub le32 : ℕ → List ℕ
le32 v = (v % 256) ∷ (v / 256 % 256) ∷ (v / 65536 % 256) ∷ (v / 16777216 % 256) ∷ []

-- Uint16 of b[i : i+2].
abbrev pub u16_at : List ℕ → ℕ → ℕ
u16_at b i = byte_at b i + 256 * byte_at b (i + 1)

-- Uint32 of b[i : i+4].
abbrev pub u32_at : List ℕ → ℕ → ℕ
u32_at b i =
    byte_at b i + 256 * byte_at b (i + 1) + 65536 * byte_at b (i + 2) + 16777216 * byte_at b (i + 3)

-- uint16(x) of an int16 x, and int16(v) of a uint16 v: two's complement.
abbrev pub u16_of_i16 : ℤ → ℕ
u16_of_i16 (pos n) = n % 65536
u16_of_i16 (negsuc n) = 65535 - n % 65536

abbrev pub i16_of_u16 : ℕ → ℤ
i16_of_u16 v = if ltb v 32768 then pos v else negsuc (65535 - v)

-- The values of an int16.
abbrev pub IsI16 : ℤ → Type 0
IsI16 (pos n) = n < 32768
IsI16 (negsuc n) = n < 32768

-- Every element is a byte.
abbrev pub AreBytes : List ℕ → Type 0
AreBytes [] = Unit
AreBytes (x ∷ xs) = (x < 256) × AreBytes xs

pub i16-u16 : (x : ℤ) → IsI16 x → i16_of_u16 (u16_of_i16 x) ≡ x
i16-u16 (pos n) h = ground arith
i16-u16 (negsuc n) h = ground arith

pub u16-i16 : (v : ℕ) → v < 65536 → u16_of_i16 (i16_of_u16 v) ≡ v
u16-i16 v h = ground arith

pub i16_of_u16-IsI16 : (v : ℕ) → v < 65536 → IsI16 (i16_of_u16 v)
i16_of_u16-IsI16 v h = ground arith

pub u16_of_i16-lt : (x : ℤ) → u16_of_i16 x < 65536
u16_of_i16-lt (pos n) = omega arith
u16_of_i16-lt (negsuc n) = omega arith

-- ===== src/Prelude/Maps.antt =====
-- Go maps with string keys as functions, and their updates.
use Prim.Native.String.{String}
use mathlib.Core.Path.{◌≡◌}
use mathlib.Core.Logic.{◌≢◌}
use mathlib.Core.Bool.{true, false}
use native.Mathlib.Omega.{arith}
use text.Mathlib.Text.{◌==◌ as str_eq}
use text.Mathlib.TextEquality.{eq_iff}
use text.Mathlib.TextPositions.{eq_refl}
use sumpnet.Prelude.Tests.{if◌then◌else◌}

-- m[k] = v
abbrev pub update {ℓ} : {V : Type ℓ} → (String → V) → String → V → String → V
update m k v j = if str_eq k j then v else m j

pub str_eq_refl : (k : String) → str_eq k k ≡ true
str_eq_refl k = eq_refl k

pub str_eq-ne : (k j : String) → k ≢ j → str_eq k j ≡ false
str_eq-ne k j h = ground (arith, eq_iff k j)

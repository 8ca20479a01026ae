-- ===== src/Prelude/Strings.antt =====
-- Byte strings: `strings.HasPrefix`, `strings.TrimPrefix` and literals.
use Prim.Native.Nat.{ℕ}
use Prim.Native.Char.{code}
use Prim.Native.String.{String}
use mathlib.Core.Path.{◌≡◌, refl}
use mathlib.Core.Bool.{Bool, true, false, ◌&&◌}
use mathlib.Core.List.{List, [], ◌∷◌, ◌++◌}
use native.Mathlib.Omega.{arith}
use golibs.Prelude.Tests.{◌==◌, if◌then◌else◌}

-- A Go string is its bytes.
abbrev pub Bytes : Type 0
Bytes = List ℕ

abbrev pub codes : String → Bytes
codes String.[] = []
codes (String.◌∷◌ c s) = code c ∷ codes s

unfoldable pub has_prefix : Bytes → Bytes → Bool
has_prefix s [] = true
has_prefix [] (p ∷ ps) = false
has_prefix (x ∷ xs) (p ∷ ps) = (x == p) && has_prefix xs ps

-- What is left of `s` behind a prefix of the length of `p`.
unfoldable pub drop_prefix : Bytes → Bytes → Bytes
drop_prefix s [] = s
drop_prefix [] (p ∷ ps) = []
drop_prefix (x ∷ xs) (p ∷ ps) = drop_prefix xs ps

unfoldable pub trim_prefix : Bytes → Bytes → Bytes
unfolding has_prefix drop_prefix
trim_prefix s p = if has_prefix s p then drop_prefix s p else s

pub has_prefix-nil : (s : Bytes) → has_prefix s [] ≡ true
unfolding has_prefix
has_prefix-nil [] = refl
has_prefix-nil (x ∷ s) = refl

pub has_prefix-append : (p s : Bytes) → has_prefix (p ++ s) p ≡ true
unfolding has_prefix
has_prefix-append [] s = refl
has_prefix-append (x ∷ p) s = ground (arith, has_prefix-append p s)

drop_prefix-append : (p s : Bytes) → drop_prefix (p ++ s) p ≡ s
unfolding drop_prefix
drop_prefix-append [] s = refl
drop_prefix-append (x ∷ p) s = drop_prefix-append p s

pub trim_prefix-append : (p s : Bytes) → trim_prefix (p ++ s) p ≡ s
unfolding trim_prefix
trim_prefix-append p s = ground (arith, has_prefix-append p s, drop_prefix-append p s)

append-drop_prefix : (p s : Bytes) → has_prefix s p ≡ true → p ++ drop_prefix s p ≡ s
unfolding has_prefix drop_prefix
append-drop_prefix [] s h = refl
append-drop_prefix (x ∷ p) [] h = cc
append-drop_prefix (x ∷ p) (y ∷ s) h = ground (arith, append-drop_prefix p s)

pub append-trim_prefix : (p s : Bytes) → has_prefix s p ≡ true → p ++ trim_prefix s p ≡ s
unfolding trim_prefix
append-trim_prefix p s h = ground (arith, append-drop_prefix p s h)

-- ===== src/Prelude/Keys.antt =====
-- Go's `cmp.Ordered`: a strict total order with a decided equality. `as_string` is the outcome of
-- the type assertion `any(k).(string)`, and `zero_key` the zero value of the type.
use Prim.Native.Nat.{ℕ}
use mathlib.Core.Path.{◌≡◌, refl}
use mathlib.Core.Logic.{◌↔◌}
use mathlib.Core.Bool.{Bool, true, false, ◌&&◌, ◌||◌}
use mathlib.Core.Option.{Option, none, some}
use mathlib.Core.List.{List, [], ◌∷◌, ◌++◌}
use native.Mathlib.Omega.{arith}
use golibs.Prelude.Tests.{ltb, ◌==◌, ==_iff}

pub record Key {ℓ} (K : Type ℓ) : Type ℓ where
  pub eqb : K → K → Bool
  pub less : K → K → Bool
  pub zero_key : K
  pub as_string : K → Option (List ℕ)
  pub eqb_iff : (a b : K) → (eqb a b ≡ true) ↔ (a ≡ b)
  pub less_irrefl : (a : K) → less a a ≡ false
  pub less_trans : (a b c : K) → less a b ≡ true → less b c ≡ true → less a c ≡ true
  pub less_total : (a b : K) → less a b ≡ false → less b a ≡ false → a ≡ b

module _ {ℓ} {K : Type ℓ} ⦃o : Key K⦄ where
  pub eqb_refl : (a : K) → o.eqb a a ≡ true
  eqb_refl a = (o.eqb_iff a a).1 refl

-- Strings are lists of bytes; equality and order go byte by byte.
unfoldable pub bytes_eqb : List ℕ → List ℕ → Bool
bytes_eqb [] [] = true
bytes_eqb (x ∷ xs) (y ∷ ys) = (x == y) && bytes_eqb xs ys
bytes_eqb _ _ = false

unfoldable pub bytes_less : List ℕ → List ℕ → Bool
bytes_less [] [] = false
bytes_less [] (y ∷ ys) = true
bytes_less (x ∷ xs) [] = false
bytes_less (x ∷ xs) (y ∷ ys) = ltb x y || ((x == y) && bytes_less xs ys)

bytes_eqb→eq : (a b : List ℕ) → bytes_eqb a b ≡ true → a ≡ b
unfolding bytes_eqb
bytes_eqb→eq [] [] h = refl
bytes_eqb→eq (x ∷ xs) (y ∷ ys) h = ground (arith, bytes_eqb→eq xs ys)
bytes_eqb→eq [] (y ∷ ys) h = cc
bytes_eqb→eq (x ∷ xs) [] h = cc

bytes_eqb_refl : (a : List ℕ) → bytes_eqb a a ≡ true
unfolding bytes_eqb
bytes_eqb_refl [] = refl
bytes_eqb_refl (x ∷ xs) = ground (arith, bytes_eqb_refl xs)

pub bytes_eqb_iff : (a b : List ℕ) → (bytes_eqb a b ≡ true) ↔ (a ≡ b)
bytes_eqb_iff a b = (bytes_eqb→eq a b, λ e. rw e (bytes_eqb_refl b))

pub bytes_less_irrefl : (a : List ℕ) → bytes_less a a ≡ false
unfolding bytes_less
bytes_less_irrefl [] = refl
bytes_less_irrefl (x ∷ xs) = ground (arith, bytes_less_irrefl xs)

pub bytes_less_trans :
    (a b c : List ℕ) → bytes_less a b ≡ true → bytes_less b c ≡ true → bytes_less a c ≡ true
unfolding bytes_less
bytes_less_trans [] [] c h k = cc
bytes_less_trans [] (y ∷ ys) [] h k = cc
bytes_less_trans [] (y ∷ ys) (z ∷ zs) h k = refl
bytes_less_trans (x ∷ xs) [] c h k = cc
bytes_less_trans (x ∷ xs) (y ∷ ys) [] h k = cc
bytes_less_trans (x ∷ xs) (y ∷ ys) (z ∷ zs) h k = ground (arith, bytes_less_trans xs ys zs)

pub bytes_less_total : (a b : List ℕ) → bytes_less a b ≡ false → bytes_less b a ≡ false → a ≡ b
unfolding bytes_less
bytes_less_total [] [] h k = refl
bytes_less_total [] (y ∷ ys) h k = cc
bytes_less_total (x ∷ xs) [] h k = cc
bytes_less_total (x ∷ xs) (y ∷ ys) h k = ground (arith, bytes_less_total xs ys)

pub ltb_irrefl : (a : ℕ) → ltb a a ≡ false
ltb_irrefl a = ground arith

pub ltb_trans : (a b c : ℕ) → ltb a b ≡ true → ltb b c ≡ true → ltb a c ≡ true
ltb_trans a b c h k = ground arith

pub ltb_total : (a b : ℕ) → ltb a b ≡ false → ltb b a ≡ false → a ≡ b
ltb_total a b h k = ground arith

instance abbrev pub bytes_key : Key (List ℕ)
bytes_key = record {
  eqb = bytes_eqb;
  less = bytes_less;
  zero_key = [];
  as_string = some;
  eqb_iff = bytes_eqb_iff;
  less_irrefl = bytes_less_irrefl;
  less_trans = bytes_less_trans;
  less_total = bytes_less_total;
}

instance abbrev pub nat_key : Key ℕ
nat_key = record {
  eqb = ◌==◌;
  less = ltb;
  zero_key = 0;
  as_string = λ n. none;
  eqb_iff = ==_iff;
  less_irrefl = ltb_irrefl;
  less_trans = ltb_trans;
  less_total = ltb_total;
}

-- A common prefix plays no part in a comparison.
pub bytes_eqb-append : (p a b : List ℕ) → bytes_eqb (p ++ a) (p ++ b) ≡ bytes_eqb a b
unfolding bytes_eqb
bytes_eqb-append [] a b = refl
bytes_eqb-append (x ∷ p) a b = ground (arith, bytes_eqb-append p a b)

pub bytes_less-append : (p a b : List ℕ) → bytes_less (p ++ a) (p ++ b) ≡ bytes_less a b
unfolding bytes_less
bytes_less-append [] a b = refl
bytes_less-append (x ∷ p) a b = ground (arith, bytes_less-append p a b)

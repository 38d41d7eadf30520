-- ===== src/Prelude/Int.antt =====
-- Signed integers over the native numbers: amounts of money, counted in their smallest part.
use Prim.Native.Nat.{ℕ, suc, ◌+◌, ◌-◌, ◌*◌, ◌≤◌}
use mathlib.Core.Path.{◌≡◌, refl}
use mathlib.Core.Logic.{◌↔◌}
use mathlib.Core.Bool.{Bool, true}
use mathlib.Core.List.{List, [], ◌∷◌, ◌++◌}
use native.Mathlib.Omega.{arith}
use xeno_reconciliation.Prelude.Tests.{ltb, leb, nat_beq, HasEq, if◌then◌else◌}

-- `negsuc n` is -(n + 1).
pub data ℤ : Type 0 where
  pos : ℕ → ℤ
  negsuc : ℕ → ℤ

abbrev pub pos_part : ℤ → ℕ
pos_part (pos n) = n
pos_part (negsuc n) = 0

abbrev pub neg_part : ℤ → ℕ
neg_part (pos n) = 0
neg_part (negsuc n) = suc n

-- a - b, as an integer.
abbrev pub sub_ℕ : ℕ → ℕ → ℤ
sub_ℕ a b = if leb b a then pos (a - b) else negsuc (b - a - 1)

infixl 65 ◌+ℤ◌ ◌-ℤ◌
infix 50 ◌≤ℤ◌
unfoldable pub ◌+ℤ◌ : ℤ → ℤ → ℤ
a +ℤ b = sub_ℕ (pos_part a + pos_part b) (neg_part a + neg_part b)

unfoldable pub ◌-ℤ◌ : ℤ → ℤ → ℤ
a -ℤ b = sub_ℕ (pos_part a + neg_part b) (neg_part a + pos_part b)

abbrev pub ◌≤ℤ◌ : ℤ → ℤ → Type 0
a ≤ℤ b = pos_part a + neg_part b ≤ pos_part b + neg_part a

abbrev pub ltb_ℤ : ℤ → ℤ → Bool
ltb_ℤ a b = ltb (pos_part a + neg_part b) (pos_part b + neg_part a)

abbrev pub leb_ℤ : ℤ → ℤ → Bool
leb_ℤ a b = leb (pos_part a + neg_part b) (pos_part b + neg_part a)

-- `Math.abs`
abbrev pub abs : ℤ → ℕ
abs a = pos_part a + neg_part a

-- A number times an integer.
infixl 70 ◌*ₙ◌
abbrev pub ◌*ₙ◌ : ℕ → ℤ → ℤ
k *ₙ a = sub_ℕ (k * pos_part a) (k * neg_part a)

abbrev pub int_beq : ℤ → ℤ → Bool
int_beq a b = nat_beq (pos_part a + neg_part b) (pos_part b + neg_part a)

pub int_beq_iff : (a b : ℤ) → (int_beq a b ≡ true) ↔ (a ≡ b)
int_beq_iff a b = ground arith

instance abbrev pub int_eq : HasEq ℤ
int_eq = record { same = int_beq; same_iff = int_beq_iff }

-- One lemma for each operation lets `omega` work with the operations shut.
pub +ℤ_parts :
    (a b : ℤ)
    → pos_part (a +ℤ b) + neg_part a + neg_part b ≡ neg_part (a +ℤ b) + pos_part a + pos_part b
unfolding ◌+ℤ◌
+ℤ_parts a b = ground arith

pub -ℤ_parts :
    (a b : ℤ)
    → pos_part (a -ℤ b) + neg_part a + pos_part b ≡ neg_part (a -ℤ b) + pos_part a + neg_part b
unfolding ◌-ℤ◌
-ℤ_parts a b = ground arith

pub eq_of_parts : (a b : ℤ) → pos_part a + neg_part b ≡ pos_part b + neg_part a → a ≡ b
eq_of_parts a b h = ground arith

pub ruleset int_laws = (arith, +ℤ_parts, -ℤ_parts, eq_of_parts)

pub +ℤ_assoc : (a b c : ℤ) → a +ℤ b +ℤ c ≡ a +ℤ (b +ℤ c)
+ℤ_assoc a b c = omega int_laws

pub +ℤ_comm : (a b : ℤ) → a +ℤ b ≡ b +ℤ a
+ℤ_comm a b = omega int_laws

-- `xs.reduce((sum, x) => sum + f(x), acc)`
module _ {ℓ} {A : Type ℓ} (f : A → ℤ) where
  unfoldable pub sum_from : ℤ → List A → ℤ
  sum_from acc [] = acc
  sum_from acc (x ∷ xs) = sum_from (acc +ℤ f x) xs

  unfoldable pub sum_of : List A → ℤ
  unfolding sum_from
  sum_of xs = sum_from (pos 0) xs

  pub sum_from-eq : (acc : ℤ) (xs : List A) → sum_from acc xs ≡ acc +ℤ sum_of xs
  unfolding sum_of
  sum_from-eq acc [] = omega int_laws
  sum_from-eq acc (x ∷ xs) =
      rw (sum_from-eq (acc +ℤ f x) xs, sum_from-eq (pos 0 +ℤ f x) xs) (omega int_laws)

  pub sum_of-nil : sum_of [] ≡ pos 0
  unfolding sum_of
  sum_of-nil = refl

  sum_of-step : (x : A) (xs : List A) → sum_of (x ∷ xs) ≡ sum_from (pos 0 +ℤ f x) xs
  unfolding sum_of
  sum_of-step x xs = refl

  pub sum_of-cons : (x : A) (xs : List A) → sum_of (x ∷ xs) ≡ f x +ℤ sum_of xs
  sum_of-cons x xs = rw (sum_of-step x xs, sum_from-eq (pos 0 +ℤ f x) xs) (omega int_laws)

  pub sum_of-append : (xs ys : List A) → sum_of (xs ++ ys) ≡ sum_of xs +ℤ sum_of ys
  sum_of-append [] ys = rw sum_of-nil (omega int_laws)
  sum_of-append (x ∷ xs) ys =
      rw (sum_of-cons x xs, sum_of-cons x (xs ++ ys), sum_of-append xs ys) (omega int_laws)

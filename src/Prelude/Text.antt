-- ===== src/Prelude/Text.antt =====
-- JavaScript strings, as the list of their UTF-16 code units, and the methods that the program uses.
use Prim.Native.Char.{code}
use Prim.Native.String.{String}
use Prim.Native.Nat.{ℕ, zero, suc, ◌+◌, ◌-◌, ◌/◌, ◌%◌, ◌≤◌}
use mathlib.Core.Path.{◌≡◌, refl}
use mathlib.Core.Bool.{Bool, true, false, ◌&&◌, ◌||◌}
use mathlib.Core.List.{List, [], ◌∷◌, ◌++◌, reverse}
use native.Mathlib.Omega.{arith}
use xeno_reconciliation.Prelude.Tests.{ltb, leb, ◌==◌, nat_eq, if◌then◌else◌}
use xeno_reconciliation.Prelude.Lists.{length, replicate, includes}

abbrev pub Text : Type 0
Text = List ℕ

-- A literal of the source; all of them are ASCII.
abbrev pub codes : String → Text
codes String.[] = []
codes (String.◌∷◌ c s) = code c ∷ codes s

-- What `trim` removes and `\s` matches.
abbrev pub is_space : ℕ → Bool
is_space c =
    (leb 9 c && leb c 13)
    || c == 32
    || c == 160
    || c == 0x1680
    || (leb 0x2000 c && leb c 0x200a)
    || c == 0x2028
    || c == 0x2029
    || c == 0x202f
    || c == 0x205f
    || c == 0x3000
    || c == 0xfeff

unfoldable pub skip_spaces : Text → Text
skip_spaces [] = []
skip_spaces (c ∷ s) = let rest = skip_spaces s in if is_space c then rest else c ∷ s

-- `s.trim()`
unfoldable pub trim : Text → Text
unfolding skip_spaces
trim s = reverse (skip_spaces (reverse (skip_spaces s)))

-- `s.startsWith(p)`
unfoldable pub starts_with : Text → Text → Bool
starts_with s [] = true
starts_with [] (p ∷ ps) = false
starts_with (c ∷ s) (p ∷ ps) = c == p && starts_with s ps

-- `s.includes(p)`
unfoldable pub includes_text : Text → Text → Bool
unfolding starts_with
includes_text [] p = starts_with [] p
includes_text (c ∷ s) p = starts_with (c ∷ s) p || includes_text s p

-- A character before the first of the parts.
abbrev pub extend : ℕ → List Text → List Text
extend c [] = (c ∷ []) ∷ []
extend c (p ∷ ps) = (c ∷ p) ∷ ps

-- `s.split(d)` for a separator of one character
unfoldable pub split : ℕ → Text → List Text
split d [] = [] ∷ []
split d (c ∷ s) = let rest = split d s in if c == d then [] ∷ rest else extend c rest

-- `parts.join(d)`
unfoldable pub join : ℕ → List Text → Text
join d [] = []
join d (p ∷ []) = p
join d (p ∷ q ∷ ps) = p ++ (d ∷ join d (q ∷ ps))

-- No part of the text is the character.
abbrev pub Lacks : ℕ → Text → Type 0
Lacks d s = includes s d ≡ false

pub split_of_Lacks : (d : ℕ) (s : Text) → Lacks d s → split d s ≡ s ∷ []
unfolding split
split_of_Lacks d [] h = refl
split_of_Lacks d (c ∷ s) h = ground (arith, split_of_Lacks d s)

-- A separator after a part that lacks it ends the part.
pub split-append : (d : ℕ) (s t : Text) → Lacks d s → split d (s ++ (d ∷ t)) ≡ s ∷ split d t
unfolding split
split-append d [] t h = ground arith
split-append d (c ∷ s) t h = ground (arith, split-append d s t)

-- The decimal digits of a number; fuel of the number itself is enough, as `digits_lem` states.
digits_from : ℕ → ℕ → Text
digits_from zero n = (n + 48) ∷ []
digits_from (suc f) n =
    let more = digits_from f (n / 10) ++ (n % 10 + 48) ∷ [] in
    if ltb n 10 then (n + 48) ∷ [] else more

-- `String(n)`
unfoldable pub digits : ℕ → Text
unfolding digits_from
digits n = digits_from n n

digits_from_stable : (f g n : ℕ) → n ≤ f → n ≤ g → digits_from f n ≡ digits_from g n
unfolding digits_from
digits_from_stable zero zero n h k = refl
digits_from_stable zero (suc g) n h k = ground arith
digits_from_stable (suc f) zero n h k = ground arith
digits_from_stable (suc f) (suc g) n h k = ground (arith, digits_from_stable f g (n / 10))

pub digits_lem :
    (n : ℕ) → digits n ≡ (if ltb n 10 then (n + 48) ∷ [] else digits (n / 10) ++ (n % 10 + 48) ∷ [])
unfolding digits
digits_lem zero = refl
digits_lem (suc n) = ground (arith, digits_from_stable n (suc n / 10) (suc n / 10))

-- `s.padStart(2, '0')`
unfoldable pub pad2 : Text → Text
pad2 s = replicate (2 - length s) 48 ++ s

-- `\d`
abbrev pub is_digit : ℕ → Bool
is_digit c = leb 48 c && leb c 57

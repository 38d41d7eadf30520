-- ===== src/Codes/Parts.antt =====
-- Lemmas on the parts of a code: splitting at dashes, joining again, and the parts of a date.
use xeno_reconciliation.Prelude.{
  ℕ, zero, suc, ◌+◌, ◌/◌, ◌%◌, ◌≤◌, ◌<◌, ◌≡◌, refl, sym, ap, inl, inr, true, List, [], ◌∷◌, ◌++◌,
  arith, length, take, nat_eq, ◌==◌, ==_iff, Bool-cases, if◌then◌else◌,
}
use xeno_reconciliation.Prelude.Text.{
  Text, Lacks, split, join, extend, split_of_Lacks, split-append, digits, digits_lem, pad2,
  is_digit,
}
use xeno_reconciliation.Codes.{CalendarDate, format_date, dash, is_date_text, date_part, part}

extend-append :
    (c : ℕ) (p : Text) (ps qs : List Text) → extend c ((p ∷ ps) ++ qs) ≡ extend c (p ∷ ps) ++ qs
extend-append c p ps qs = refl

pub split-ne-nil : (d : ℕ) (s : Text) → 1 ≤ length (split d s)
unfolding split
split-ne-nil d [] = omega arith
split-ne-nil d (c ∷ s) = ground (arith, split-ne-nil d s)

-- A separator between two texts separates their parts.
pub split-concat : (d : ℕ) (s t : Text) → split d (s ++ d ∷ t) ≡ split d s ++ split d t
unfolding split
split-concat d [] t = ground arith
split-concat d (c ∷ s) t = ground (arith, split-concat d s t, split-ne-nil d s)

join-extend : (d c : ℕ) (ps : List Text) → join d (extend c ps) ≡ c ∷ join d ps
unfolding join
join-extend d c [] = refl
join-extend d c (p ∷ []) = refl
join-extend d c (p ∷ q ∷ ps) = refl

join-start : (d : ℕ) (ps : List Text) → 1 ≤ length ps → join d ([] ∷ ps) ≡ d ∷ join d ps
unfolding join
join-start d [] h = absurd (omega arith)
join-start d (p ∷ ps) h = refl

split-cons :
    (d c : ℕ) (s : Text)
    → split d (c ∷ s) ≡ (if c == d then [] ∷ split d s else extend c (split d s))
unfolding split
split-cons d c s = refl

-- Joining the parts gives the text back.
pub join-split : (d : ℕ) (s : Text) → join d (split d s) ≡ s
join-split d [] = unfold split join in refl
join-split d (c ∷ s) = elim (Bool-cases (c == d)) [
  | inl same ↦
      rw (split-cons d c s, same, join-start d (split d s) (split-ne-nil d s), join-split d s)
        (ap (λ x. x ∷ s) (sym ((==_iff c d).0 same)))
  | inr other ↦ rw (split-cons d c s, other, join-extend d c (split d s), join-split d s)
]

pub take_prefix : (ps qs : List Text) (i : ℕ) → i ≡ length ps → take i (ps ++ qs) ≡ ps
take_prefix [] qs zero e = refl
take_prefix [] qs (suc i) e = absurd (omega arith)
take_prefix (p ∷ ps) qs zero e = absurd (omega arith)
take_prefix (p ∷ ps) qs (suc i) e = rw (take_prefix ps qs i (omega arith))

pub part_skip : (ps qs : List Text) (j i : ℕ) → i ≡ length ps + j → part (ps ++ qs) i ≡ part qs j
part_skip [] qs j i e = let same : i ≡ j = omega arith in rw same
part_skip (p ∷ ps) qs j zero e = absurd (omega arith)
part_skip (p ∷ ps) qs j (suc i) e = part_skip ps qs j i (omega arith)

-- A date of four digits of year, which is what `validate` expects.
pub record IsDate (d : CalendarDate) : Type 0 where
  pub year_low : 1000 ≤ d.year
  pub year_high : d.year < 10000
  pub month_high : d.month ≤ 12
  pub day_high : d.day ≤ 31

digits4 :
    (y : ℕ)
    → 1000 ≤ y
    → y < 10000
    → digits y
      ≡ (y / 10 / 10 / 10 + 48) ∷ (y / 10 / 10 % 10 + 48) ∷ (y / 10 % 10 + 48) ∷ (y % 10 + 48) ∷ []
digits4 y h k = ground (
  arith,
  digits_lem y,
  digits_lem (y / 10),
  digits_lem (y / 10 / 10),
  digits_lem (y / 10 / 10 / 10),
)

pad2-digits : (m : ℕ) → m < 100 → pad2 (digits m) ≡ (m / 10 + 48) ∷ (m % 10 + 48) ∷ []
unfolding pad2
pad2-digits m h = ground (arith, digits_lem m, digits_lem (m / 10))

is_digit_lem : (x : ℕ) → x < 10 → is_digit (x + 48) ≡ true
is_digit_lem x h = ground arith

Lacks-pad2 : (m : ℕ) → m < 100 → Lacks dash (pad2 (digits m))
Lacks-pad2 m h = rw (pad2-digits m h) (ground arith)

-- The parts of a formatted date, and what `validate` finds of them.
module _ (d : CalendarDate) (h : IsDate d) where
  split-format_date :
      split dash (format_date d) ≡ digits d.year ∷ pad2 (digits d.month) ∷ pad2 (digits d.day) ∷ []
  unfolding format_date
  split-format_date =
      let month = Lacks-pad2 d.month (omega (arith, h.month_high)) in
      let day = Lacks-pad2 d.day (omega (arith, h.day_high)) in
      let year : Lacks dash (digits d.year) =
        rw (digits4 d.year h.year_low h.year_high) (ground arith) in
      rw (
        split-append dash (digits d.year) (pad2 (digits d.month) ++ dash ∷ pad2 (digits d.day))
            year,
        split-append dash (pad2 (digits d.month)) (pad2 (digits d.day)) month,
        split_of_Lacks dash (pad2 (digits d.day)) day,
      )

  -- What follows the date does not change its parts.
  pub date_part-parts :
      (ps : List Text) → date_part (split dash (format_date d) ++ ps) ≡ format_date d
  unfolding format_date
  date_part-parts ps = rw split-format_date

  pub length-date : length (split dash (format_date d)) ≡ 3
  length-date = rw split-format_date

  pub is_date_text-format_date : is_date_text (format_date d) ≡ true
  unfolding format_date
  is_date_text-format_date =
      rw
        (
          digits4 d.year h.year_low h.year_high,
          pad2-digits d.month (omega (arith, h.month_high)),
          pad2-digits d.day (omega (arith, h.day_high)),
        )
        (ground (
          arith,
          is_digit_lem (d.year / 10 / 10 / 10),
          is_digit_lem (d.year / 10 / 10 % 10),
          is_digit_lem (d.year / 10 % 10),
          is_digit_lem (d.year % 10),
          is_digit_lem (d.month / 10),
          is_digit_lem (d.month % 10),
          is_digit_lem (d.day / 10),
          is_digit_lem (d.day % 10),
        ))

-- ===== src/Codes/Tests.antt =====
-- Tests and examples for the codes of
-- src/services/fund-upload/calculators/GoalTransactionCodeGenerator.ts.
use xeno_reconciliation.Prelude.Text.{pad2}
use xeno_reconciliation.Prelude.Text.{digits}
use mathlib.Core.List.{Perm}
use xeno_reconciliation.Prelude.{
  ◌≡◌, refl, inl, some, false, List, [], ◌∷◌, ◌==◌, filter_by, All, list_eq, nat_eq, arith,
}
use xeno_reconciliation.Prelude.Text.{Text, codes, split, trim}
use xeno_reconciliation.Prelude.Dict.{keys, Distinct, grouped, group_of}
use xeno_reconciliation.Prelude.Dict.Groups.{IsGroup}
use xeno_reconciliation.Codes.{CalendarDate, format_date, generate, validate, parse, group_by_code}
use xeno_reconciliation.Codes.Parts.{IsDate}
use xeno_reconciliation.Codes.Roundtrip.{
  parse-generate, parse-generate_historical, parse-generate_misread,
}
use xeno_reconciliation.Codes.Grouping.{group_by_code_partitions}

abbrev new_year : CalendarDate
new_year = record { year = 2025; month = 1; day = 5 }

new_year-IsDate : IsDate new_year
new_year-IsDate = record {
  year_low = omega arith;
  year_high = omega arith;
  month_high = omega arith;
  day_high = omega arith;
}

generate_test :
    generate new_year (codes "701-2") (codes "G9") (codes "TX1") (codes "MTN")
    ≡ codes "2025-01-05-701-2-G9-TX1-MTN"
unfolding generate format_date trim digits pad2
generate_test = refl

validate_test : validate (codes "2025-1-5-701-G9") ≡ false
unfolding validate split
validate_test = refl

parse-generate_example :
    parse (generate new_year (codes "701-2") (codes "G9") (codes "TX1") (codes "MTN"))
    ≡ some (record {
      transaction_date = format_date new_year;
      account_number = codes "701-2";
      goal_number = codes "G9";
      transaction_id = codes "TX1";
      source = codes "MTN";
    })
unfolding trim
parse-generate_example =
    parse-generate new_year (codes "701-2") (codes "G9") (codes "TX1") (codes "MTN") new_year-IsDate
      (record {
        account_trimmed = refl;
        goal_trimmed = refl;
        id_trimmed = refl;
        source_trimmed = refl;
      })
      (inl (λ p. cc)) (ground arith) (ground arith) (ground arith)

parse-generate_historical_example :
    parse (generate new_year (codes "701-2") (codes "G9") [] [])
    ≡ some (record {
      transaction_date = format_date new_year;
      account_number = codes "701-2";
      goal_number = codes "G9";
      transaction_id = [];
      source = [];
    })
unfolding trim split
parse-generate_historical_example =
    parse-generate_historical new_year (codes "701-2") (codes "G9") new_year-IsDate refl refl
      (omega arith) (ground arith)

parse-generate_misread_example :
    parse (generate new_year (codes "701-2") (codes "G-9") [] [])
    ≡ some (record {
      transaction_date = format_date new_year;
      account_number = codes "701";
      goal_number = codes "2";
      transaction_id = codes "G";
      source = codes "9";
    })
unfolding trim
parse-generate_misread_example =
    parse-generate_misread new_year (codes "701") (codes "2") (codes "G") (codes "9")
      new_year-IsDate refl refl (ground arith) (ground arith) (ground arith)

abbrev row_codes : List Text
row_codes = codes "A" ∷ codes "B" ∷ codes "A" ∷ []

abbrev itself : Text → Text
itself t = t

group_by_code_partitions_example :
    Perm (grouped (group_by_code itself row_codes)) row_codes
    × Distinct (keys (group_by_code itself row_codes))
    × All (IsGroup itself) (group_by_code itself row_codes)
    × ((code : Text)
        → group_of code (group_by_code itself row_codes)
          ≡ filter_by (λ t. itself t == code) row_codes)
group_by_code_partitions_example = group_by_code_partitions itself row_codes

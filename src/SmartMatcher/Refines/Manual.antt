-- ===== src/SmartMatcher/Refines/Manual.antt =====
-- The pass over the matches made by hand takes only steps of `Steps`.
use mathlib.Core.List.{Memᴰ}
use xeno_reconciliation.Prelude.{
  ◌≡◌, inl, inr, true, not, ◌&&◌, some, List, [], ◌∷◌, map, flatten, arith, ◌==◌, ==_iff, nat_eq,
  list_eq, filter_by, length, ltb, all, drop, Bool-cases, Option-cases, All, All-append, All-mono,
  All-filter_by,
}
use xeno_reconciliation.Prelude.Text.{Text, split, starts_with}
use xeno_reconciliation.Prelude.Dict.{Dict, push_group}
use xeno_reconciliation.Prelude.Dict.Groups.{AllGroups, AllGroups-push_group}
use xeno_reconciliation.Store.{BankTransaction}
use xeno_reconciliation.SmartMatcher.Groups.{Group}
use xeno_reconciliation.SmartMatcher.Passes.{
  Matching, is_taken, is_open, manual_prefix, group_manual, after_colon, groups_of_codes,
  match_manual, manual_step, manual_pass, group_ids,
}
use xeno_reconciliation.SmartMatcher.Steps.{
  Steps, by_hand, rest, add, Steps-trans, IsMarked, IsNamed,
}
use xeno_reconciliation.SmartMatcher.Refines.{AreBanks, AreGroups}

module _ (banks : List BankTransaction) (groups : List Group) where
  -- A listed bank transaction that the code marks.
  pub record IsMarkedBank (code : Text) (b : BankTransaction) : Type 0 where
    pub listed : Memᴰ b banks
    pub code_is : b.matched_goal_transaction_code ≡ some code
    pub prefix : starts_with code manual_prefix ≡ true

  group_manual-IsMarkedBank :
      (d : Dict Text (List BankTransaction)) (bs : List BankTransaction)
      → AreBanks banks groups bs
      → AllGroups IsMarkedBank d
      → AllGroups IsMarkedBank (group_manual d bs)
  unfolding group_manual
  group_manual-IsMarkedBank d [] hb h = h
  group_manual-IsMarkedBank d (b ∷ bs) (here, hb) h =
      elim (Option-cases b.matched_goal_transaction_code) [
        | inl unmatched ↦ rw (unmatched, group_manual) (group_manual-IsMarkedBank d bs hb h)
        | inr (code, code_is) ↦ elim (Bool-cases (starts_with code manual_prefix)) [
          | inl prefix ↦
              rw (code_is, prefix)
                (group_manual-IsMarkedBank (push_group code b d) bs hb (
                  AllGroups-push_group IsMarkedBank code b d
                    (record { listed = here; code_is = code_is; prefix = prefix }) h))
          | inr other ↦ rw (code_is, other) (group_manual-IsMarkedBank d bs hb h)
        ]
      ]

  groups_of_codes-IsNamed :
      (s : Matching) (gs : List Group) (goal_codes : List Text)
      → AreGroups banks groups gs
      → All (IsNamed banks groups s goal_codes) (groups_of_codes s gs goal_codes)
  unfolding groups_of_codes
  groups_of_codes-IsNamed s gs [] hg = tt
  groups_of_codes-IsNamed s gs (code ∷ goal_codes) hg =
      All-append _ _ _
        (All-mono (λ g h. first g h) _
          (All-filter_by (λ g. Memᴰ g groups) (λ g. g.original_code == code && is_open s g) gs hg))
        (All-mono (λ g h. later g h) _ (groups_of_codes-IsNamed s gs goal_codes hg))
    where
      first :
          (g : Group)
          → Memᴰ g groups × ((g.original_code == code && is_open s g) ≡ true)
          → IsNamed banks groups s (code ∷ goal_codes) g
      first g (listed, passed) = record {
        group = record { listed = listed; free = ground arith };
        named = ground (arith, ==_iff g.original_code code, ==_iff code g.original_code);
      }

      later :
          (g : Group)
          → IsNamed banks groups s goal_codes g
          → IsNamed banks groups s (code ∷ goal_codes) g
      later g h = record { group = h.group; named = ground (arith, h.named) }

  match_manual-Steps :
      (code rest_of_code : Text) (s : Matching) (gs : List Group) (bs : List BankTransaction)
      → after_colon (drop 7 code) ≡ some rest_of_code
      → AreGroups banks groups gs
      → All (IsMarkedBank code) bs
      → Steps banks groups s (match_manual s gs bs (split b',' rest_of_code))
  unfolding match_manual
  match_manual-Steps code rest_of_code s gs bs e hg hb =
      elim (Bool-cases (
        ltb 0
          (length (flatten (map group_ids (groups_of_codes s gs (split b',' rest_of_code))))))) [
            | inl found ↦ rw found (
                add rest (
                  by_hand code rest_of_code (filter_by (λ b. not (is_taken s b)) bs)
                    (groups_of_codes s gs (split b',' rest_of_code)) e
                    (All-mono (λ b h. marked b h) _
                      (All-filter_by (IsMarkedBank code) (λ b. not (is_taken s b)) bs hb))
                    (groups_of_codes-IsNamed s gs (split b',' rest_of_code) hg)))
            | inr missed ↦ rw missed rest
          ]
    where
      marked :
          (b : BankTransaction)
          → IsMarkedBank code b × (not (is_taken s b) ≡ true)
          → IsMarked banks groups s code b
      marked b (h, free) = record {
        bank = record { listed = h.listed; untaken = ground arith };
        code_is = h.code_is;
        prefix = h.prefix;
      }

  manual_step-Steps :
      (gs : List Group) (code : Text) (bs : List BankTransaction) (s : Matching)
      → AreGroups banks groups gs
      → All (IsMarkedBank code) bs
      → Steps banks groups s (manual_step gs (code, bs) s)
  unfolding manual_step
  manual_step-Steps gs code bs s hg hb = elim (Bool-cases (all (is_taken s) bs)) [
    | inl taken ↦ rw taken rest
    | inr untaken ↦ elim (Option-cases (after_colon (drop 7 code))) [
      | inl no_colon ↦ rw (untaken, no_colon, manual_step) rest
      | inr (rest_of_code, e) ↦
          rw (untaken, e, manual_step) (match_manual-Steps code rest_of_code s gs bs e hg hb)
    ]
  ]

  manual_pass-Steps :
      (gs : List Group) (d : Dict Text (List BankTransaction)) (s : Matching)
      → AreGroups banks groups gs
      → AllGroups IsMarkedBank d
      → Steps banks groups s (manual_pass gs d s)
  unfolding manual_pass
  manual_pass-Steps gs [] s hg hd = rest
  manual_pass-Steps gs ((code, bs) ∷ d) s hg (here, hd) =
      Steps-trans banks groups (manual_step-Steps gs code bs s hg here)
        (manual_pass-Steps gs d (manual_step gs (code, bs) s) hg hd)

  pub manual-Steps :
      (gs : List Group) (bs : List BankTransaction) (s : Matching)
      → AreGroups banks groups gs
      → AreBanks banks groups bs
      → Steps banks groups s (manual_pass gs (group_manual [] bs) s)
  manual-Steps gs bs s hg hb =
      manual_pass-Steps gs (group_manual [] bs) s hg (group_manual-IsMarkedBank [] bs hb tt)

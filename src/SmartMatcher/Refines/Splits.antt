-- ===== src/SmartMatcher/Refines/Splits.antt =====
-- The split detection takes only steps of `Steps`.
use mathlib.Core.List.{Memᴰ}
use xeno_reconciliation.Prelude.{
  ◌≡◌, ◌≢◌, refl, inl, inr, true, not, List, [], ◌∷◌, map, arith, ◌==◌, ==_iff, nat_eq, list_eq,
  pair_eq, filter_by, length, ltb, Bool-cases, All, All-mono, All-filter_by, All-map,
}
use xeno_reconciliation.Prelude.Dict.{group_by, group_of}
use xeno_reconciliation.Prelude.Dict.Groups.{group_of-group_by}
use xeno_reconciliation.Store.{BankTransaction, type_eq}
use xeno_reconciliation.SmartMatcher.Tolerance.{tolerance}
use xeno_reconciliation.SmartMatcher.Combination.Laws.{
  find_combination_sum_sound, All-find_combination_sum,
}
use xeno_reconciliation.SmartMatcher.Groups.{Group}
use xeno_reconciliation.SmartMatcher.Passes.{Matching, is_taken, is_open}
use xeno_reconciliation.SmartMatcher.Splits.{
  bank_key, bank_item, bank_combination, bank_split_step, bank_split_pass, group_item, is_candidate,
  fund_combination, fund_split_step, fund_split_pass,
}
use xeno_reconciliation.SmartMatcher.Steps.{
  Steps, by_bank_split, by_fund_split, rest, add, Steps-trans, IsBankItem, IsGroupItem,
}
use xeno_reconciliation.SmartMatcher.Refines.{AreBanks, AreGroups}

long-ne-nil {ℓ} : {A : Type ℓ} (xs : List A) → ltb 1 (length xs) ≡ true → xs ≢ []
long-ne-nil [] h e = ground (arith, h)
long-ne-nil (x ∷ xs) h e = cc

module _ (banks : List BankTransaction) (groups : List Group) where
  -- The bank transactions of a key, from the map of those that a pass starts from.
  candidates-IsBankItem :
      (bs : List BankTransaction) (g : Group) (s : Matching)
      → AreBanks banks groups bs
      → All (IsBankItem banks groups s g) (
          map bank_item (
            filter_by (λ b. not (is_taken s b)) (group_of (g.date, g.type) (group_by bank_key bs))))
  candidates-IsBankItem bs g s hb = rw (group_of-group_by bank_key (g.date, g.type) bs) (
      All-map (IsBankItem banks groups s g) bank_item _ (
        All-mono (λ b h. candidate b h) _
          (All-filter_by (λ b. Memᴰ b banks × ((bank_key b == (g.date, g.type)) ≡ true))
            (λ b. not (is_taken s b)) _
            (All-filter_by (λ b. Memᴰ b banks) (λ b. bank_key b == (g.date, g.type)) bs hb))))
    where
      candidate :
          (b : BankTransaction)
          → (Memᴰ b banks × ((bank_key b == (g.date, g.type)) ≡ true)) × (not (is_taken s b) ≡ true)
          → IsBankItem banks groups s g (bank_item b)
      candidate b ((listed, key), free) = record {
        b = b;
        bank = record { listed = listed; untaken = ground arith };
        item = refl;
        date = ground arith;
        type = (==_iff b.transaction_type g.type).0 (ground arith);
      }

  bank_split_step-Steps :
      (bs : List BankTransaction) (g : Group) (s : Matching)
      → AreBanks banks groups bs
      → Memᴰ g groups
      → Steps banks groups s (bank_split_step (group_by bank_key bs) g s)
  unfolding bank_split_step
  bank_split_step-Steps bs g s hb hg = elim (Bool-cases (is_open s g)) [
    | inr matched ↦ rw matched rest
    | inl free ↦ elim (Bool-cases (ltb 1 (length (bank_combination (group_by bank_key bs) s g)))) [
      | inr short ↦ rw (free, short) rest
      | inl long ↦
          let full = long-ne-nil (bank_combination (group_by bank_key bs) s g) long in
          let (_, _, near) = find_combination_sum_sound _ g.total (tolerance g.total) full in
          rw (free, long)
            (add rest (
              by_bank_split g (bank_combination (group_by bank_key bs) s g)
                (record { listed = hg; free = free })
                (All-find_combination_sum (IsBankItem banks groups s g) _ g.total
                  (tolerance g.total) full (candidates-IsBankItem bs g s hb))
                (ground arith) near))
    ]
  ]

  pub bank_split_pass-Steps :
      (bs : List BankTransaction) (gs : List Group) (s : Matching)
      → AreBanks banks groups bs
      → AreGroups banks groups gs
      → Steps banks groups s (bank_split_pass (group_by bank_key bs) gs s)
  unfolding bank_split_pass
  bank_split_pass-Steps bs [] s hb hg = rest
  bank_split_pass-Steps bs (g ∷ gs) s hb (here, hg) =
      Steps-trans banks groups (bank_split_step-Steps bs g s hb here)
        (bank_split_pass-Steps bs gs (bank_split_step (group_by bank_key bs) g s) hb hg)

  candidates-IsGroupItem :
      (gs : List Group) (b : BankTransaction) (s : Matching)
      → AreGroups banks groups gs
      → All (IsGroupItem banks groups s b) (map group_item (filter_by (is_candidate s b) gs))
  candidates-IsGroupItem gs b s hg = All-map (IsGroupItem banks groups s b) group_item _ (
      All-mono (λ g h. candidate g h) _
        (All-filter_by (λ g. Memᴰ g groups) (is_candidate s b) gs hg))
    where
      candidate :
          (g : Group)
          → Memᴰ g groups × (is_candidate s b g ≡ true)
          → IsGroupItem banks groups s b (group_item g)
      candidate g (listed, passed) = record {
        g = g;
        group = record { listed = listed; free = ground arith };
        item = refl;
        date = ground arith;
        type = (==_iff g.type b.transaction_type).0 (ground arith);
      }

  fund_split_step-Steps :
      (gs : List Group) (b : BankTransaction) (s : Matching)
      → AreGroups banks groups gs
      → Memᴰ b banks
      → Steps banks groups s (fund_split_step gs b s)
  unfolding fund_split_step
  fund_split_step-Steps gs b s hg hb = elim (Bool-cases (is_taken s b)) [
    | inl taken ↦ rw taken rest
    | inr untaken ↦ elim (Bool-cases (ltb 1 (length (fund_combination gs s b)))) [
      | inr short ↦ rw (untaken, short) rest
      | inl long ↦
          let full = long-ne-nil (fund_combination gs s b) long in
          let (_, _, near) =
            find_combination_sum_sound _ b.total_amount (tolerance b.total_amount) full in
          rw (untaken, long)
            (add rest (
              by_fund_split b (fund_combination gs s b) (record { listed = hb; untaken = untaken })
                (All-find_combination_sum (IsGroupItem banks groups s b) _ b.total_amount
                  (tolerance b.total_amount) full (candidates-IsGroupItem gs b s hg))
                (ground arith) near))
    ]
  ]

  pub fund_split_pass-Steps :
      (gs : List Group) (bs : List BankTransaction) (s : Matching)
      → AreGroups banks groups gs
      → AreBanks banks groups bs
      → Steps banks groups s (fund_split_pass gs bs s)
  unfolding fund_split_pass
  fund_split_pass-Steps gs [] s hg hb = rest
  fund_split_pass-Steps gs (b ∷ bs) s hg (here, hb) =
      Steps-trans banks groups (fund_split_step-Steps gs b s hg here)
        (fund_split_pass-Steps gs bs (fund_split_step gs b s) hg hb)

-- ===== src/Links/Reversal.antt =====
-- `unlinkReversal` after `linkReversal`, src/services/reconciliation/SmartMatcher.ts.
use xeno_reconciliation.Prelude.{
  ==_iff, sym, ◌||◌, ◌∙◌, ap, Bool, ℕ, ◌≡◌, refl, true, false, Option, none, some, [], ◌∷◌, all,
  Bool-cases, inl, inr, nat_eq, list_eq, ◌==◌,
}
use xeno_reconciliation.Prelude.Text.{Text}
use xeno_reconciliation.Store.{BankTransaction, type_eq, update_many}
use xeno_reconciliation.Links.Operations.{Outcome, err, ok, LinkError, Table, find_unique, has_id}
use xeno_reconciliation.Links.Pairs.{
  pair_of, is_netted, unlink_pair, unlink_reversal, link_reversal, unlink_found, set_pair,
  clear_review, check_pair, is_id_char,
}
use xeno_reconciliation.Links.Lookup.{find_unique-id, find_unique-update, paired_id-pair_notes}

-- A pair that passes the checks is found, and the two are of different types.
record IsPair (o1 o2 : Option BankTransaction) : Type 0 where
  txn1 : BankTransaction
  txn2 : BankTransaction
  found1 : o1 ≡ some txn1
  found2 : o2 ≡ some txn2
  types : (txn1.transaction_type == txn2.transaction_type) ≡ false

check_pair-IsPair : (o1 o2 : Option BankTransaction) → check_pair o1 o2 ≡ none → IsPair o1 o2
unfolding check_pair
check_pair-IsPair (some txn1) (some txn2) h = record {
  txn1 = txn1;
  txn2 = txn2;
  found1 = refl;
  found2 = refl;
  types = elim (Bool-cases (txn1.transaction_type == txn2.transaction_type)) [
    | inr differ ↦ differ
    | inl same ↦ elim (Bool-cases (txn1.goal_number == txn2.goal_number)) [
      | inl goal ↦ absurd (clash (rw (goal, same) at h))
      | inr goal ↦ absurd (clash (rw goal at h))
    ]
  ];
}
  where
    clash : {e : LinkError} → some e ≡ none → ⊥
    clash p = cc
check_pair-IsPair none o2 h = absurd (clash h)
  where
    clash : {e : LinkError} → some e ≡ none → ⊥
    clash p = cc
check_pair-IsPair (some txn1) none h = absurd (clash h)
  where
    clash : {e : LinkError} → some e ≡ none → ⊥
    clash p = cc

-- The rows of a pair.
abbrev pub in_pair : Text → Text → BankTransaction → Bool
in_pair id1 id2 b = has_id id1 b || has_id id2 b

-- Tagging the two rows and clearing the two rows is clearing them.
cleared :
    (now now' : ℕ) (id1 id2 by : Text) (table : Table)
    → update_many (has_id id2) (clear_review now') (
        update_many (has_id id1) (clear_review now') (
          update_many
            (has_id id2)
            (set_pair now id1 by)
            (update_many (has_id id1) (set_pair now id2 by) table)))
      ≡ update_many (in_pair id1 id2) (clear_review now') table
unfolding update_many
cleared now now' id1 id2 by [] = refl
cleared now now' id1 id2 by (b ∷ table) = elim (Bool-cases (b.id == id1)) [
  | inl first ↦ elim (Bool-cases (b.id == id2)) [
    | inl second ↦ rw (first, second, first, second, cleared now now' id1 id2 by table)
    | inr other ↦ rw (first, other, first, other, cleared now now' id1 id2 by table)
  ]
  | inr unlike ↦ elim (Bool-cases (b.id == id2)) [
    | inl second ↦ rw (unlike, second, unlike, second, cleared now now' id1 id2 by table)
    | inr other ↦ rw (unlike, other, unlike, other, cleared now now' id1 id2 by table)
  ]
]

unlink_found-netted :
    (now : ℕ) (id : Text) (txn : BankTransaction) (table : Table) (other : Text)
    (paired : BankTransaction)
    → is_netted txn ≡ true
    → pair_of txn ≡ some other
    → find_unique other (update_many (has_id id) (clear_review now) table) ≡ some paired
    → is_netted paired ≡ true
    → unlink_found now id (some txn) table ≡ (
      ok 2,
      update_many
          (has_id other)
          (clear_review now)
          (update_many (has_id id) (clear_review now) table),
    )
unfolding unlink_found unlink_pair
unlink_found-netted now id txn table other paired netted pair found netted' =
    rw (netted, pair, unlink_pair, found, netted')

some_inj {ℓ} : {A : Type ℓ} {a b : A} → some a ≡ some b → a ≡ b
some_inj e = cc

not_true : {d : Bool} → d ≡ false → d ≡ true → ⊥
not_true p q = cc

-- Two rows that are found under two ids and are of different types have different ids.
apart :
    (table : Table) (id1 id2 : Text) (b1 b2 : BankTransaction)
    → find_unique id1 table ≡ some b1
    → find_unique id2 table ≡ some b2
    → (b1.transaction_type == b2.transaction_type) ≡ false
    → (b1.id == id2) ≡ false
apart table id1 id2 b1 b2 found1 found2 types = elim (Bool-cases (b1.id == id2)) [
  | inr other ↦ other
  | inl same ↦
      let ids : id1 ≡ id2 =
        sym ((==_iff b1.id id1).0 (find_unique-id id1 table b1 found1))
        ∙ (==_iff b1.id id2).0 same in
      let rows : b1 ≡ b2 = some_inj (sym found1 ∙ ap (λ i. find_unique i table) ids ∙ found2) in
      absurd (
        not_true types
          ((==_iff b1.transaction_type b2.transaction_type).1 (ap (λ b. b.transaction_type) rows)))
]

module _ (now now' : ℕ) (c : ℕ) (s id1 by : Text) (table : Table) where
  -- The table after the link.
  abbrev linked : Table
  linked =
      update_many (has_id (c ∷ s)) (set_pair now id1 by)
        (update_many (has_id id1) (set_pair now (c ∷ s) by) table)

  unlink_of_pair :
      (b1 b2 : BankTransaction)
      → find_unique id1 table ≡ some b1
      → find_unique (c ∷ s) table ≡ some b2
      → (b1.transaction_type == b2.transaction_type) ≡ false
      → all is_id_char (c ∷ s) ≡ true
      → unlink_reversal now' id1 linked
        ≡ (ok 2, update_many (in_pair id1 (c ∷ s)) (clear_review now') table)
  unfolding unlink_reversal
  unlink_of_pair b1 b2 found1 found2 types k =
      let id2 = c ∷ s in
      let at1 = find_unique-id id1 table b1 found1 in
      let at2 = find_unique-id id2 table b2 found2 in
      let apart1 = apart table id1 id2 b1 b2 found1 found2 types in
      let apart2 = apart table id2 id1 b2 b1 found2 found1 (flip types) in
      let tagged : Table = update_many (has_id id1) (set_pair now id2 by) table in
      let first1 : find_unique id1 tagged ≡ some (set_pair now id2 by b1) =
        find_unique-update id1 id1 (set_pair now id2 by) (λ b. refl) table b1 found1 ∙ rw at1 in
      let first2 : find_unique id2 tagged ≡ some b2 =
        find_unique-update id2 id1 (set_pair now id2 by) (λ b. refl) table b2 found2 ∙ rw apart2 in
      let second1 : find_unique id1 linked ≡ some (set_pair now id2 by b1) =
        find_unique-update id1 id2 (set_pair now id1 by) (λ b. refl) tagged _ first1 ∙ rw apart1 in
      let second2 : find_unique id2 linked ≡ some (set_pair now id1 by b2) =
        find_unique-update id2 id2 (set_pair now id1 by) (λ b. refl) tagged b2 first2 ∙ rw at2 in
      let third2 : find_unique id2 (update_many (has_id id1) (clear_review now') linked)
          ≡ some (set_pair now id1 by b2) =
        find_unique-update id2 id1 (clear_review now') (λ b. refl) linked _ second2 ∙ rw apart2 in
      rw second1 (
        unlink_found-netted now' id1 (set_pair now id2 by b1) linked id2 (set_pair now id1 by b2)
          refl (paired_id-pair_notes c s k) third2 refl
        ∙ rw (cleared now now' id1 id2 by table))
    where
      flip :
          (b1.transaction_type == b2.transaction_type) ≡ false
          → (b2.transaction_type == b1.transaction_type) ≡ false
      flip h = elim (Bool-cases (b2.transaction_type == b1.transaction_type)) [
        | inr differ ↦ differ
        | inl same ↦ absurd (
            not_true h (
              (==_iff b1.transaction_type b2.transaction_type).1
                (sym ((==_iff b2.transaction_type b1.transaction_type).0 same))))
      ]

  link_reversal-linked :
      (link_reversal now id1 (c ∷ s) by table).0 ≡ ok true
      → (check_pair (find_unique id1 table) (find_unique (c ∷ s) table) ≡ none)
        × ((link_reversal now id1 (c ∷ s) by table).1 ≡ linked)
  unfolding link_reversal
  link_reversal-linked h =
      cases (check_pair (find_unique id1 table) (find_unique (c ∷ s) table)) refl
    where
      refused : LinkError → Outcome Bool
      refused error = err error

      failed : {error : LinkError} → refused error ≡ ok true → ⊥
      failed e = cc

      cases :
          (o : Option LinkError)
          → check_pair (find_unique id1 table) (find_unique (c ∷ s) table) ≡ o
          → (check_pair (find_unique id1 table) (find_unique (c ∷ s) table) ≡ none)
            × ((link_reversal now id1 (c ∷ s) by table).1 ≡ linked)
      cases none e = (e, rw (link_reversal, e))
      cases (some error) e = absurd (failed (rw (link_reversal, e) at h))

  -- Where two rows were linked as a reversal pair, and the second id is made of the characters of a
  -- UUID, unlinking the first row clears the review of both rows and of no other, and answers 2:
  -- apart from the review fields of the two rows and the time of the change the table is as before.
  pub unlink_reversal-link_reversal :
      (link_reversal now id1 (c ∷ s) by table).0 ≡ ok true
      → all is_id_char (c ∷ s) ≡ true
      → unlink_reversal now' id1 (link_reversal now id1 (c ∷ s) by table).1
        ≡ (ok 2, update_many (in_pair id1 (c ∷ s)) (clear_review now') table)
  unlink_reversal-link_reversal h k =
      let (checked, same) = link_reversal-linked h in
      let pair = check_pair-IsPair (find_unique id1 table) (find_unique (c ∷ s) table) checked in
      rw same (unlink_of_pair pair.txn1 pair.txn2 pair.found1 pair.found2 pair.types k)

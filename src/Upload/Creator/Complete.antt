-- ===== src/Upload/Creator/Complete.antt =====
-- What the detection reported is enough: after its creation every transaction has its entities.
use xeno_reconciliation.Prelude.{
  ℕ, ◌≡◌, refl, ap, ◌∙◌, true, none, List, [], ◌∷◌, map, nat_eq, list_eq, includes, all, arith, All,
  All-mono, All-listed,
}
use mathlib.Core.List.{Memᴰ}
use xeno_reconciliation.Prelude.Text.{Text}
use xeno_reconciliation.Validation.Types.{ParsedFundTransaction}
use xeno_reconciliation.Validation.GoalGroups.{client_of, account_of, goal_of}
use xeno_reconciliation.Upload.Records.{Database}
use xeno_reconciliation.Upload.Detector.{
  name_of, number_of, goal_number, account_info, goal_info, detect_new_clients, detect_new_accounts,
  detect_new_goals, detect_new_entities,
}
use xeno_reconciliation.Upload.Creator.{
  create_clients, create_goals, create_approved_entities, fits_account,
}
use xeno_reconciliation.Upload.Creator.Laws.{
  added_accounts, create_approved_entities-added, added_entities, client_names, account_numbers,
  goal_numbers, number_of_info, goal_number_of_info, create_clients-names, added_accounts-names,
  create_goals-names,
}
use xeno_reconciliation.Upload.Creator.Report.{clients_reported, names_reported, All-reported}
use xeno_reconciliation.Upload.Repository.Known.{has_entities}
use xeno_reconciliation.Upload.Repository.Resolve.{includes-map}

-- Nothing that the first tables name has been deleted in the second.
pub record Grown (old new : Database) : Type 0 where
  pub clients :
      (n : Text) → includes (client_names old) n ≡ true → includes (client_names new) n ≡ true
  pub accounts :
      (n : Text) → includes (account_numbers old) n ≡ true → includes (account_numbers new) n ≡ true
  pub goals :
      (n : Text) → includes (goal_numbers old) n ≡ true → includes (goal_numbers new) n ≡ true

module _ (new_id : ℕ → Text) (old db : Database) (ts : List ParsedFundTransaction)
    (grown : Grown old db) where
  abbrev with_clients : Database
  with_clients = create_clients new_id (detect_new_clients old.clients ts) db

  abbrev with_accounts : Database
  with_accounts = added_accounts new_id (detect_new_accounts old.accounts ts) with_clients

  abbrev with_goals : Database
  with_goals = create_goals new_id (detect_new_goals old.goals ts) with_accounts

  clients_there :
      (n : Text)
      → includes (map client_of ts) n ≡ true
      → includes (client_names with_clients) n ≡ true
  clients_there n listed =
      let (names, same_accounts, same_goals) =
        create_clients-names new_id (detect_new_clients old.clients ts) db n in
      names ∙ ground (arith, clients_reported old.clients ts n, listed, grown.clients n)

  clients_known :
      All
        (λ i. includes (client_names with_clients) i.client_name ≡ true)
        (detect_new_accounts old.accounts ts)
  unfolding detect_new_accounts
  clients_known =
      All-mono (λ i listed. clients_there i.client_name listed) _
        (All-reported number_of old.accounts account_of (account_info ts) number_of_info
          (λ k t. refl) ts client_of (λ i. i.client_name) (λ k t. refl))

  accounts_there :
      (n : Text)
      → includes (map account_of ts) n ≡ true
      → includes (account_numbers with_accounts) n ≡ true
  unfolding detect_new_accounts
  accounts_there n listed =
      let (numbers, same_clients, same_goals) =
        added_accounts-names new_id (detect_new_accounts old.accounts ts) with_clients n
          clients_known in
      let (names, before, goals) =
        create_clients-names new_id (detect_new_clients old.clients ts) db n in
      numbers
      ∙ ground (
        arith,
        ap (λ rows. includes (map number_of rows) n) before,
        names_reported number_of old.accounts account_of (account_info ts) number_of_info
            (λ k t. refl) ts n,
        listed,
        grown.accounts n,
      )

  accounts_known :
      All
        (λ i. includes (account_numbers with_accounts) i.account_number ≡ true)
        (detect_new_goals old.goals ts)
  unfolding detect_new_goals
  accounts_known =
      All-mono (λ i listed. accounts_there i.account_number listed) _
        (All-reported goal_number old.goals goal_of (goal_info ts) goal_number_of_info (λ k t. refl)
          ts account_of (λ i. i.account_number) (λ k t. refl))

  goals_there :
      (n : Text) → includes (map goal_of ts) n ≡ true → includes (goal_numbers with_goals) n ≡ true
  unfolding detect_new_goals
  goals_there n listed =
      let (numbers, same_clients, same_accounts) =
        create_goals-names new_id (detect_new_goals old.goals ts) with_accounts n accounts_known in
      let (names, unchanged, before) =
        create_clients-names new_id (detect_new_clients old.clients ts) db n in
      let (others, clients, middle) =
        added_accounts-names new_id (detect_new_accounts old.accounts ts) with_clients n
          clients_known in
      numbers
      ∙ ground (
        arith,
        ap (λ rows. includes (map goal_number rows) n) (middle ∙ before),
        names_reported goal_number old.goals goal_of (goal_info ts) goal_number_of_info
            (λ k t. refl) ts n,
        listed,
        grown.goals n,
      )

  same_clients : client_names with_goals ≡ client_names with_clients
  same_clients =
      let (numbers, clients, accounts) =
        create_goals-names new_id (detect_new_goals old.goals ts) with_accounts [] accounts_known in
      let (others, before, goals) =
        added_accounts-names new_id (detect_new_accounts old.accounts ts) with_clients []
          clients_known in
      ap (map name_of) (clients ∙ before)

  same_accounts : account_numbers with_goals ≡ account_numbers with_accounts
  same_accounts =
      let (numbers, clients, accounts) =
        create_goals-names new_id (detect_new_goals old.goals ts) with_accounts [] accounts_known in
      ap (map number_of) accounts

  has_entities-listed : (t : ParsedFundTransaction) → Memᴰ t ts → has_entities with_goals t ≡ true
  has_entities-listed t m =
      rw
        (
          same_clients,
          same_accounts,
          clients_there t.client_name (includes-map client_of ts t m),
          accounts_there t.account_number (includes-map account_of ts t m),
          goals_there t.goal_number (includes-map goal_of ts t m),
        )
        refl

  all-listed :
      (us : List ParsedFundTransaction)
      → All (λ t. has_entities with_goals t ≡ true) us
      → all (has_entities with_goals) us ≡ true
  all-listed [] h = refl
  all-listed (u ∷ us) (here, h) = ground (arith, here, all-listed us h)

  pub added_entities-has_entities :
      all (has_entities (added_entities new_id (detect_new_entities old ts) db)) ts ≡ true
  unfolding detect_new_entities
  added_entities-has_entities = all-listed ts (All-mono has_entities-listed ts (All-listed ts))

  -- The creation of the new entities that were detected throws nothing and leaves each transaction
  -- with its client, its account and its goal, where each account that was detected has a type and a
  -- category of the enumerations, and no client, account or goal was deleted since the detection;
  -- others may have been created.
  pub create_approved_entities-has_entities :
      all fits_account (detect_new_entities old ts).accounts ≡ true
      → let run = create_approved_entities new_id (detect_new_entities old ts) db in
        (run.error ≡ none) × (all (has_entities run.database) ts ≡ true)
  create_approved_entities-has_entities fits =
      rw (create_approved_entities-added new_id (detect_new_entities old ts) db fits)
        (refl, added_entities-has_entities)

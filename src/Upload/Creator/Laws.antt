-- ===== src/Upload/Creator/Laws.antt =====
-- After the creation of what the detection reported, every transaction has its entities.
use xeno_reconciliation.Prelude.{Bool, ◌&&◌}
use xeno_reconciliation.Upload.Records.{NewEntitiesReport, finish}
use xeno_reconciliation.Prelude.{
  ℕ, ◌+◌, none, some, if◌then◌else◌, all, ◌≡◌, refl, ap, ◌∙◌, true, ◌||◌, List, [], ◌∷◌, ◌++◌, map,
  ◌==◌, nat_eq, list_eq, includes, Bool-cases, Option-cases, ==_iff, arith, inl, inr, All, All-mono,
}
use xeno_reconciliation.Prelude.Text.{Text}
use xeno_reconciliation.Upload.Records.{
  Database, NewClientInfo, NewAccountInfo, NewGoalInfo, Client, Account,
}
use xeno_reconciliation.Upload.Detector.{name_of, number_of, goal_number}
use xeno_reconciliation.Upload.Creator.{
  account_row, client_row, goal_row, find_client, find_account, create_client, create_clients,
  create_account, create_accounts, create_approved_entities, fits_account, create_goal,
  create_goals,
}
use xeno_reconciliation.Upload.Repository.Known.{is_there}

abbrev pub client_name_of_info : NewClientInfo → Text
client_name_of_info i = i.client_name

abbrev pub number_of_info : NewAccountInfo → Text
number_of_info i = i.account_number

abbrev pub goal_number_of_info : NewGoalInfo → Text
goal_number_of_info i = i.goal_number

-- The names that the tables hold.
abbrev pub client_names : Database → List Text
client_names db = map name_of db.clients

abbrev pub account_numbers : Database → List Text
account_numbers db = map number_of db.accounts

abbrev pub goal_numbers : Database → List Text
goal_numbers db = map goal_number db.goals

includes-map_last {ℓ} :
    {A : Type ℓ} (name : A → Text) (rows : List A) (row : A) (n : Text)
    → includes (map name (rows ++ row ∷ [])) n ≡ includes (map name rows) n || (name row == n)
includes-map_last name [] row n = ground (arith)
includes-map_last name (r ∷ rows) row n = ground (arith, includes-map_last name rows row n)

find_client-includes :
    (n : Text) (rows : List Client) → is_there (find_client n rows) ≡ includes (map name_of rows) n
unfolding find_client
find_client-includes n [] = refl
find_client-includes n (c ∷ rows) = ground (arith, find_client-includes n rows)

pub find_account-includes :
    (n : Text) (rows : List Account)
    → is_there (find_account n rows) ≡ includes (map number_of rows) n
unfolding find_account
find_account-includes n [] = refl
find_account-includes n (a ∷ rows) = ground (arith, find_account-includes n rows)

split_true : (p q : Bool) → p && q ≡ true → (p ≡ true) × (q ≡ true)
split_true p q h = ground (arith, h)

module _ (new_id : ℕ → Text) where
  -- The creation of accounts that all fit, with nothing thrown.
  unfoldable pub added_account : NewAccountInfo → Database → Database
  added_account info db = elim (find_client info.client_name db.clients) [
    | none ↦ db
    | some client ↦
        if includes (map number_of db.accounts) info.account_number then db else record db {
          accounts = db.accounts ++ account_row (new_id db.created) client.id info ∷ [];
          created = db.created + 1;
        }
  ]

  unfoldable pub added_accounts : List NewAccountInfo → Database → Database
  unfolding added_account
  added_accounts [] db = db
  added_accounts (info ∷ infos) db = added_accounts infos (added_account info db)

  abbrev pub added_entities : NewEntitiesReport → Database → Database
  added_entities report db =
      create_goals new_id report.goals
        (added_accounts report.accounts (create_clients new_id report.clients db))

  create_account-added :
      (i : NewAccountInfo) (db : Database)
      → fits_account i ≡ true
      → create_account new_id i db ≡ finish (added_account i db)
  unfolding create_account added_account
  create_account-added i db fits = elim (Option-cases (find_client i.client_name db.clients)) [
    | inl e ↦ rw (create_account, added_account, e) refl
    | inr (c, e) ↦ elim (Bool-cases (includes (map number_of db.accounts) i.account_number)) [
      | inl taken ↦ rw (create_account, added_account, e, fits, taken) refl
      | inr free ↦ rw (create_account, added_account, e, fits, free) refl
    ]
  ]

  create_accounts-added :
      (infos : List NewAccountInfo) (db : Database)
      → all fits_account infos ≡ true
      → create_accounts new_id infos db ≡ finish (added_accounts infos db)
  unfolding create_accounts added_accounts
  create_accounts-added [] db h = refl
  create_accounts-added (i ∷ infos) db h =
      let (here, later) = split_true (fits_account i) (all fits_account infos) h in
      rw (create_account-added i db here) (create_accounts-added infos (added_account i db) later)

  -- Where each reported account fits, nothing is thrown.
  pub create_approved_entities-added :
      (report : NewEntitiesReport) (db : Database)
      → all fits_account report.accounts ≡ true
      → create_approved_entities new_id report db ≡ finish (added_entities report db)
  unfolding create_approved_entities
  create_approved_entities-added report db fits =
      rw (create_accounts-added report.accounts (create_clients new_id report.clients db) fits) refl

  -- What the creation of clients leaves: more clients, and the same accounts and goals.
  pub create_clients-names :
      (infos : List NewClientInfo) (db : Database) (n : Text)
      → (includes (client_names (create_clients new_id infos db)) n
          ≡ includes (client_names db) n || includes (map client_name_of_info infos) n)
        × ((create_clients new_id infos db).accounts ≡ db.accounts)
        × ((create_clients new_id infos db).goals ≡ db.goals)
  unfolding create_clients create_client
  create_clients-names [] db n = (ground (arith), refl, refl)
  create_clients-names (i ∷ infos) db n =
      let (names, accounts, goals) = create_clients-names infos (create_client new_id i db) n in
      (
        names
            ∙ ground
                (arith, includes-map_last name_of db.clients (client_row (new_id db.created) i) n),
        accounts,
        goals,
      )

  added_account-names :
      (i : NewAccountInfo) (db : Database) (n : Text)
      → includes (client_names db) i.client_name ≡ true
      → (includes (account_numbers (added_account i db)) n
          ≡ includes (account_numbers db) n || (i.account_number == n))
        × ((added_account i db).clients ≡ db.clients)
        × ((added_account i db).goals ≡ db.goals)
  unfolding added_account
  added_account-names i db n known = elim (Option-cases (find_client i.client_name db.clients)) [
    | inl e ↦ ground (arith, e, find_client-includes i.client_name db.clients, known)
    | inr (c, e) ↦
        rw (added_account, e)
          (elim (Bool-cases (includes (account_numbers db) i.account_number)) [
            | inl taken ↦ rw taken (ground (arith, taken, ==_iff i.account_number n), refl, refl)
            | inr free ↦ rw free (
              includes-map_last number_of db.accounts (account_row (new_id db.created) c.id i) n,
              refl,
              refl,
            )
          ])
  ]

  create_goal-names :
      (i : NewGoalInfo) (db : Database) (n : Text)
      → includes (account_numbers db) i.account_number ≡ true
      → (includes (goal_numbers (create_goal new_id i db)) n
          ≡ includes (goal_numbers db) n || (i.goal_number == n))
        × ((create_goal new_id i db).clients ≡ db.clients)
        × ((create_goal new_id i db).accounts ≡ db.accounts)
  unfolding create_goal
  create_goal-names i db n known = elim (Option-cases (find_account i.account_number db.accounts)) [
    | inl e ↦ ground (arith, e, find_account-includes i.account_number db.accounts, known)
    | inr (a, e) ↦
        rw (create_goal, e)
          (elim (Bool-cases (includes (goal_numbers db) i.goal_number)) [
            | inl taken ↦ rw taken (ground (arith, taken, ==_iff i.goal_number n), refl, refl)
            | inr free ↦ rw free (
              includes-map_last goal_number db.goals (goal_row (new_id db.created) a.id i) n,
              refl,
              refl,
            )
          ])
  ]

  pub added_accounts-names :
      (infos : List NewAccountInfo) (db : Database) (n : Text)
      → All (λ i. includes (client_names db) i.client_name ≡ true) infos
      → (includes (account_numbers (added_accounts infos db)) n
          ≡ includes (account_numbers db) n || includes (map number_of_info infos) n)
        × ((added_accounts infos db).clients ≡ db.clients)
        × ((added_accounts infos db).goals ≡ db.goals)
  unfolding added_accounts
  added_accounts-names [] db n h = (ground (arith), refl, refl)
  added_accounts-names (i ∷ infos) db n (here, h) =
      let (number, clients, goals) = added_account-names i db n here in
      let (numbers, all_clients, all_goals) = added_accounts-names infos (added_account i db) n (
        All-mono (λ j known. ap (λ cs. includes (map name_of cs) j.client_name) clients ∙ known)
          infos h) in
      (numbers ∙ ground (arith, number), all_clients ∙ clients, all_goals ∙ goals)

  pub create_goals-names :
      (infos : List NewGoalInfo) (db : Database) (n : Text)
      → All (λ i. includes (account_numbers db) i.account_number ≡ true) infos
      → (includes (goal_numbers (create_goals new_id infos db)) n
          ≡ includes (goal_numbers db) n || includes (map goal_number_of_info infos) n)
        × ((create_goals new_id infos db).clients ≡ db.clients)
        × ((create_goals new_id infos db).accounts ≡ db.accounts)
  unfolding create_goals
  create_goals-names [] db n h = (ground (arith), refl, refl)
  create_goals-names (i ∷ infos) db n (here, h) =
      let (number, clients, accounts) = create_goal-names i db n here in
      let (numbers, all_clients, all_accounts) =
        create_goals-names infos (create_goal new_id i db) n (
          All-mono
            (λ j known. ap (λ rs. includes (map number_of rs) j.account_number) accounts ∙ known)
            infos h) in
      (numbers ∙ ground (arith, number), all_clients ∙ clients, all_accounts ∙ accounts)

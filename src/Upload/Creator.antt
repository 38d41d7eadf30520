-- ===== src/Upload/Creator.antt =====
-- `EntityCreator.createApprovedEntities`,
-- src/services/fund-upload/entity-management/EntityCreator.ts.
pub mod Laws
pub mod Report
pub mod Complete
use xeno_reconciliation.Prelude.{
  ℕ, ◌+◌, Bool, not, ◌&&◌, Option, none, some, List, [], ◌∷◌, ◌++◌, map, if◌then◌else◌, ◌==◌,
  nat_eq, list_eq, includes,
}
use xeno_reconciliation.Prelude.Text.{Text, codes}
use xeno_reconciliation.Upload.Records.{
  NewClientInfo, NewAccountInfo, NewGoalInfo, NewEntitiesReport, Client, Account, Goal, Database,
  invalid_value, Run, finish, fail_with, and_then,
}
use xeno_reconciliation.Upload.Detector.{number_of, goal_number}

-- `client.findFirst({ where: { clientName } })`
unfoldable pub find_client : Text → List Client → Option Client
find_client name [] = none
find_client name (c ∷ clients) =
    let rest = find_client name clients in if c.client_name == name then some c else rest

-- `account.findUnique({ where: { accountNumber } })`
unfoldable pub find_account : Text → List Account → Option Account
find_account number [] = none
find_account number (a ∷ accounts) =
    let rest = find_account number accounts in if a.account_number == number then some a else rest

-- `sponsorCode || null`
abbrev pub or_null : Option Text → Option Text
or_null none = none
or_null (some []) = none
or_null (some (c ∷ s)) = some (c ∷ s)

-- The values of the enumerations AccountType and AccountCategory.
abbrev pub account_types : List Text
account_types =
    codes "PERSONAL"
    ∷ codes "CORPORATE"
    ∷ codes "JOINT"
    ∷ codes "POOLED"
    ∷ codes "LINKED"
    ∷ codes "SPONSOR"
    ∷ []

abbrev pub account_categories : List Text
account_categories =
    codes "GENERAL"
    ∷ codes "RETIREMENT"
    ∷ codes "EDUCATION"
    ∷ codes "TRUST"
    ∷ codes "INVESTMENT_CLUBS"
    ∷ codes "RETIREMENTS_BENEFIT_SCHEME"
    ∷ codes "FAMILY"
    ∷ codes "SACCO"
    ∷ []

unfoldable pub fits_account : NewAccountInfo → Bool
fits_account info =
    includes account_types info.account_type && includes account_categories info.account_category

abbrev pub client_row : Text → NewClientInfo → Client
client_row id info = record { id = id; client_name = info.client_name }

abbrev pub account_row : Text → Text → NewAccountInfo → Account
account_row id client_id info = record {
  id = id;
  client_id = client_id;
  account_number = info.account_number;
  account_type = info.account_type;
  account_category = info.account_category;
  sponsor_code = or_null info.sponsor_code;
}

abbrev pub goal_row : Text → Text → NewGoalInfo → Goal
goal_row id account_id info = record {
  id = id;
  account_id = account_id;
  goal_number = info.goal_number;
  goal_title = info.goal_title;
  fund_distribution = info.fund_distribution;
}

module _ (new_id : ℕ → Text) where
  -- Names of clients are not unique, so the creation of one does not fail.
  unfoldable pub create_client : NewClientInfo → Database → Database
  create_client info db = record db {
    clients = db.clients ++ client_row (new_id db.created) info ∷ [];
    created = db.created + 1;
  }

  unfoldable pub create_clients : List NewClientInfo → Database → Database
  unfolding create_client
  create_clients [] db = db
  create_clients (info ∷ infos) db = create_clients infos (create_client info db)

  -- An account without its client is passed over, and so is one whose number is taken. One whose
  -- type or category the enumerations lack is refused by the client of the database, which is thrown
  -- again.
  unfoldable pub create_account : NewAccountInfo → Database → Run
  unfolding find_client fits_account
  create_account info db = elim (find_client info.client_name db.clients) [
    | none ↦ finish db
    | some client ↦
        if not (fits_account info)
        then fail_with invalid_value db
        else (if includes (map number_of db.accounts) info.account_number
            then finish db
            else finish (record db {
              accounts = db.accounts ++ account_row (new_id db.created) client.id info ∷ [];
              created = db.created + 1;
            }))
  ]

  -- What was created before an error stays: the loops are no transaction of the database.
  unfoldable pub create_accounts : List NewAccountInfo → Database → Run
  unfolding create_account
  create_accounts [] db = finish db
  create_accounts (info ∷ infos) db = and_then (create_account info db) (create_accounts infos)

  -- A goal without its account is passed over, and so is one whose number is taken.
  unfoldable pub create_goal : NewGoalInfo → Database → Database
  unfolding find_account
  create_goal info db = elim (find_account info.account_number db.accounts) [
    | none ↦ db
    | some account ↦
        if includes (map goal_number db.goals) info.goal_number then db else record db {
          goals = db.goals ++ goal_row (new_id db.created) account.id info ∷ [];
          created = db.created + 1;
        }
  ]

  unfoldable pub create_goals : List NewGoalInfo → Database → Database
  unfolding create_goal
  create_goals [] db = db
  create_goals (info ∷ infos) db = create_goals infos (create_goal info db)

  unfoldable pub create_approved_entities : NewEntitiesReport → Database → Run
  unfolding create_clients create_accounts create_goals
  create_approved_entities report db =
      and_then (create_accounts report.accounts (create_clients report.clients db))
        (λ after. finish (create_goals report.goals after))

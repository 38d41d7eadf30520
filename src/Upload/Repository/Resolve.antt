-- ===== src/Upload/Repository/Resolve.antt =====
-- `resolveForeignKeys`: the maps of a slice give a transaction of the slice the ids that the maps of
-- all rows give.
use xeno_reconciliation.Prelude.{
  inr, inl, ◌≡◌, refl, ap, ◌∙◌, HasEq, true, ◌||◌, List, [], ◌∷◌, ◌++◌, map, nat_eq, list_eq,
  filter_by, includes, includes-append, Bool-cases, ==_iff, ==_refl, arith, All, All-listed,
  All-mono,
}
use mathlib.Core.List.{Memᴰ}
use xeno_reconciliation.Prelude.Text.{Text}
use xeno_reconciliation.Prelude.Dict.{Dict, lookup, insert, lookup-insert}
use xeno_reconciliation.Validation.Types.{ParsedFundTransaction}
use xeno_reconciliation.Validation.GoalGroups.{set_from, client_of, account_of, goal_of, fund_of}
use xeno_reconciliation.Upload.Records.{Database}
use xeno_reconciliation.Upload.Detector.{name_of, number_of, goal_number}
use xeno_reconciliation.Upload.Repository.{
  map_from, ids_of, References, references, client_id, account_id, goal_id, fund_id, fund_code,
  with_ids, resolve_one, resolve_all, resolve_foreign_keys,
}

pub includes-set_from {ℓ} :
    {A : Type ℓ} ⦃e : HasEq A⦄ (seen xs : List A) (a : A)
    → includes (set_from seen xs) a ≡ includes seen a || includes xs a
unfolding set_from
includes-set_from seen [] a = ground (arith)
includes-set_from seen (x ∷ xs) a = elim (Bool-cases (includes seen x)) [
  | inl old ↦ rw old (includes-set_from seen xs a ∙ ground (arith, old, ==_iff x a))
  | inr new ↦
      rw new
        (includes-set_from (seen ++ x ∷ []) xs a ∙ ground (arith, includes-append seen (x ∷ []) a))
]

pub includes-map :
    (f : ParsedFundTransaction → Text) (us : List ParsedFundTransaction) (t : ParsedFundTransaction)
    → Memᴰ t us
    → includes (map f us) (f t) ≡ true
includes-map f [] t m = elim m [ ]
includes-map f (u ∷ us) t (Memᴰ.head same) = ground (arith, ap f same, ==_refl (f t))
includes-map f (u ∷ us) t (Memᴰ.tail m) = ground (arith, includes-map f us t m)

module _ {ℓ} {A : Type ℓ} (name id : A → Text) (names : List Text) (n : Text) where
  lookup-map_from :
      includes names n ≡ true
      → (rows : List A) (d e : Dict Text Text) → lookup n d ≡ lookup n e
      → lookup n (map_from name id d (filter_by (λ row. includes names (name row)) rows))
        ≡ lookup n (map_from name id e rows)
  unfolding map_from
  lookup-map_from listed [] d e h = h
  lookup-map_from listed (row ∷ rows) d e h = elim (Bool-cases (includes names (name row))) [
    | inl kept ↦ rw kept (
        lookup-map_from listed rows (insert (name row) (id row) d) (insert (name row) (id row) e)
          (rw (lookup-insert (name row) n (id row) d, lookup-insert (name row) n (id row) e, h)))
    | inr left ↦ rw left (
        lookup-map_from listed rows d (insert (name row) (id row) e) (
          rw (lookup-insert (name row) n (id row) e)
            (ground (arith, h, left, listed, ==_iff (name row) n))))
  ]

-- A name that is asked for is found as among all rows.
pub lookup-ids_of {ℓ} :
    {A : Type ℓ} (name id : A → Text) (rows : List A) (names : List Text) (n : Text)
    → includes names n ≡ true
    → lookup n (ids_of name id rows names) ≡ lookup n (map_from name id [] rows)
unfolding ids_of
lookup-ids_of name id rows names n listed =
    lookup-map_from name id (set_from [] names) n (rw (includes-set_from [] names n) listed) rows []
      [] refl

-- The maps of all rows.
abbrev pub all_references : Database → References
all_references db = record {
  client_map = map_from name_of client_id [] db.clients;
  account_map = map_from number_of account_id [] db.accounts;
  goal_map = map_from goal_number goal_id [] db.goals;
  fund_map = map_from fund_code fund_id [] db.funds;
}

resolve_one-same :
    (r s : References) (t : ParsedFundTransaction)
    → lookup t.client_name r.client_map ≡ lookup t.client_name s.client_map
    → lookup t.account_number r.account_map ≡ lookup t.account_number s.account_map
    → lookup t.goal_number r.goal_map ≡ lookup t.goal_number s.goal_map
    → lookup t.fund_code r.fund_map ≡ lookup t.fund_code s.fund_map
    → resolve_one r t ≡ resolve_one s t
unfolding resolve_one
resolve_one-same r s t c a g f i = with_ids t (c i) (a i) (g i) (f i)

abbrev Same : References → References → ParsedFundTransaction → Type 0
Same r s t = resolve_one r t ≡ resolve_one s t

resolve_all-Same :
    (r s : References) (ts : List ParsedFundTransaction)
    → All (Same r s) ts
    → resolve_all r ts ≡ resolve_all s ts
unfolding resolve_all
resolve_all-Same r s [] h = refl
resolve_all-Same r s (t ∷ ts) (here, h) = ground (arith, here, resolve_all-Same r s ts h)

-- A slice is resolved as by the maps of all rows.
pub resolve_foreign_keys-all :
    (db : Database) (ts : List ParsedFundTransaction)
    → resolve_foreign_keys db ts ≡ resolve_all (all_references db) ts
unfolding resolve_foreign_keys references
resolve_foreign_keys-all db ts = resolve_all-Same (references db ts) (all_references db) ts (
    All-mono
      (λ t m.
        resolve_one-same (references db ts) (all_references db) t
          (lookup-ids_of name_of client_id db.clients (map client_of ts) t.client_name
            (includes-map client_of ts t m))
          (lookup-ids_of number_of account_id db.accounts (map account_of ts) t.account_number
            (includes-map account_of ts t m))
          (lookup-ids_of goal_number goal_id db.goals (map goal_of ts) t.goal_number
            (includes-map goal_of ts t m))
          (lookup-ids_of fund_code fund_id db.funds (map fund_of ts) t.fund_code
            (includes-map fund_of ts t m)))
      ts (All-listed ts))

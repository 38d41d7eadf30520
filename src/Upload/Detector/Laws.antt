-- ===== src/Upload/Detector/Laws.antt =====
-- Which names the detection of new entities finds.
use xeno_reconciliation.Prelude.{
  ◌≡◌, refl, sym, ap, ◌∙◌, Bool, true, false, not, ◌&&◌, ◌||◌, none, List, [], ◌∷◌, ◌++◌, map,
  if◌then◌else◌, ◌==◌, nat_eq, list_eq, filter_by, includes, all, any, any-append, length, ltb,
  Bool-cases, Option-cases, ==_iff, ==_refl, arith, inl, inr, All, All-mono, All-listed,
}
use mathlib.Core.List.{Memᴰ}
use xeno_reconciliation.Prelude.Text.{Text}
use xeno_reconciliation.Prelude.Dict.{Dict, keys, lookup, has, ensure, has-keys}
use xeno_reconciliation.Validation.Types.{ParsedFundTransaction}
use xeno_reconciliation.Validation.GoalGroups.{set_from, client_of, account_of, goal_of}
use xeno_reconciliation.Upload.Records.{Database}
use xeno_reconciliation.Upload.Detector.{
  name_of, number_of, goal_number, new_names, first_from, found_at, client_info, account_info,
  goal_info, detect_new_clients, detect_new_accounts, detect_new_goals, detect_new_entities,
  has_new_entities,
}
use xeno_reconciliation.Upload.Repository.Known.{has_entities}

pub includes-filter_by :
    (p : Text → Bool) (names : List Text) (n : Text)
    → includes (filter_by p names) n ≡ includes names n && p n
includes-filter_by p [] n = refl
includes-filter_by p (m ∷ names) n = elim (Bool-cases (m == n)) [
  | inl same ↦ ground (arith, ap p ((==_iff m n).0 same), same, includes-filter_by p names n)
  | inr other ↦ ground (arith, other, includes-filter_by p names n)
]

nonempty-filter_by :
    (p : Text → Bool) (names : List Text) → ltb 0 (length (filter_by p names)) ≡ any p names
nonempty-filter_by p [] = refl
nonempty-filter_by p (n ∷ names) = ground (arith, nonempty-filter_by p names)

any_of_includes :
    (p : Text → Bool) (names : List Text) (n : Text)
    → includes names n ≡ true
    → p n ≡ true
    → any p names ≡ true
any_of_includes p [] n listed passed = ground (arith, listed)
any_of_includes p (m ∷ names) n listed passed = elim (Bool-cases (m == n)) [
  | inl same ↦ ground (arith, ap p ((==_iff m n).0 same), passed)
  | inr other ↦ ground (arith, other, listed, any_of_includes p names n)
]

any-set_from :
    (p : Text → Bool) (seen names : List Text)
    → any p (set_from seen names) ≡ any p seen || any p names
unfolding set_from
any-set_from p seen [] = ground (arith)
any-set_from p seen (n ∷ names) = elim (Bool-cases (includes seen n)) [
  | inl old ↦ rw old (any-set_from p seen names ∙ ground (arith, any_of_includes p seen n old))
  | inr new ↦
      rw new (any-set_from p (seen ++ n ∷ []) names ∙ ground (arith, any-append p seen (n ∷ [])))
]

abbrev pub is_new {ℓ} : {A : Type ℓ} → (A → Text) → List A → Text → Bool
is_new name rows n = not (includes (map name rows) n)

includes-existing {ℓ} :
    {A : Type ℓ} (name : A → Text) (names : List Text) (n : Text)
    → includes names n ≡ true
    → (rows : List A)
    → includes (map name (filter_by (λ row. includes names (name row)) rows)) n
      ≡ includes (map name rows) n
includes-existing name names n listed [] = refl
includes-existing name names n listed (row ∷ rows) = elim (Bool-cases (includes names (name row))) [
  | inl kept ↦ rw kept (ground (arith, includes-existing name names n listed rows))
  | inr left ↦ rw left (
      ground (arith, includes-existing name names n listed rows, left, listed, ==_iff (name row) n))
]

filter_by-same :
    (p q : Text → Bool) (names : List Text)
    → All (λ n. p n ≡ q n) names
    → filter_by p names ≡ filter_by q names
filter_by-same p q [] h = refl
filter_by-same p q (n ∷ names) (here, h) = ground (arith, here, filter_by-same p q names h)

includes_listed : (names : List Text) (n : Text) → Memᴰ n names → includes names n ≡ true
includes_listed [] n m = elim m [ ]
includes_listed (k ∷ names) n (Memᴰ.head same) = ground (arith, ==_iff k n, same)
includes_listed (k ∷ names) n (Memᴰ.tail m) = ground (arith, includes_listed names n m)

-- The names that no row has.
pub new_names-filter {ℓ} :
    {A : Type ℓ} (name : A → Text) (rows : List A) (names : List Text)
    → new_names name rows names ≡ filter_by (is_new name rows) names
unfolding new_names
new_names-filter name rows names = filter_by-same _ _ names (
    All-mono (λ n m. ap not (includes-existing name names n (includes_listed names n m) rows)) names
      (All-listed names))

module _ {ℓ} {B : Type ℓ} (k : Text) (v : B) where
  keys-last : (d : Dict Text B) → keys (d ++ (k, v) ∷ []) ≡ keys d ++ k ∷ []
  keys-last [] = refl
  keys-last ((j, w) ∷ d) = ground (arith, keys-last d)

  keys-ensure :
      (d : Dict Text B) → keys (ensure k v d) ≡ (if has k d then keys d else keys d ++ k ∷ [])
  keys-ensure d = elim (Bool-cases (has k d)) [ inl e ↦ rw e refl | inr e ↦ rw e (keys-last d) ]

  has-last : (j : Text) (d : Dict Text B) → has j (d ++ (k, v) ∷ []) ≡ has j d || (k == j)
  has-last j [] = ground (arith)
  has-last j ((i, w) ∷ d) = ground (arith, has-last j d)

  has-old : (j : Text) (d : Dict Text B) → has k d ≡ true → has j d ≡ has j d || (k == j)
  has-old j [] h = ground (arith, h)
  has-old j ((i, w) ∷ d) h =
      ground (arith, h, has-old j d, ==_iff k j, ==_iff i j, ==_iff i k, ==_refl j)

  has-ensure : (j : Text) (d : Dict Text B) → has j (ensure k v d) ≡ has j d || (k == j)
  has-ensure j d = elim (Bool-cases (has k d)) [
    | inl e ↦ rw e (has-old j d e)
    | inr e ↦ rw e (has-last j d)
  ]

-- The keys of the map of first transactions.
any-first_from :
    (p : Text → Bool) (key : ParsedFundTransaction → Text) (d : Dict Text ParsedFundTransaction)
    (ts : List ParsedFundTransaction)
    → any p (keys (first_from key d ts)) ≡ any p (keys d) || any p (map key ts)
unfolding first_from
any-first_from p key d [] = ground (arith)
any-first_from p key d (t ∷ ts) =
    any-first_from p key (ensure (key t) t d) ts
    ∙ rw (keys-ensure (key t) t d) (elim (Bool-cases (has (key t) d)) [
      | inl e ↦
          rw e (ground (arith, any_of_includes p (keys d) (key t) (sym (has-keys (key t) d) ∙ e)))
      | inr e ↦ rw e (ground (arith, any-append p (keys d) (key t ∷ [])))
    ])

pub has-first_from :
    (key : ParsedFundTransaction → Text) (d : Dict Text ParsedFundTransaction)
    (ts : List ParsedFundTransaction) (k : Text)
    → has k (first_from key d ts) ≡ has k d || includes (map key ts) k
unfolding first_from
has-first_from key d [] k = ground (arith)
has-first_from key d (t ∷ ts) k =
    has-first_from key (ensure (key t) t d) ts k ∙ ground (arith, has-ensure (key t) t k d)

-- Each key that is asked for is there.
length-found_at :
    {A : Type 0} (info : Text → ParsedFundTransaction → A) (d : Dict Text ParsedFundTransaction)
    (ks : List Text)
    → all (λ k. has k d) ks ≡ true
    → length (found_at info d ks) ≡ length ks
length-found_at info d [] h = refl
length-found_at info d (k ∷ ks) h = elim (Option-cases (lookup k d)) [
  | inl e ↦ ground (arith, h, lookup-has d k e)
  | inr (t, e) ↦ ground (arith, e, h, length-found_at info d ks)
]
  where
    lookup-has :
        (c : Dict Text ParsedFundTransaction) (j : Text) → lookup j c ≡ none → has j c ≡ false
    lookup-has [] j h = refl
    lookup-has ((i, w) ∷ c) j h = ground (arith, h, lookup-has c j)

pub all-keys :
    (d : Dict Text ParsedFundTransaction) (p : Text → Bool)
    → all (λ k. has k d) (filter_by p (keys d)) ≡ true
all-keys d p = kept (keys d) (λ k h. has-keys k d ∙ h)
  where
    kept :
        (ks : List Text)
        → ((k : Text) → includes ks k ≡ true → has k d ≡ true)
        → all (λ k. has k d) (filter_by p ks) ≡ true
    kept [] h = refl
    kept (k ∷ ks) h =
        ground (arith, h k (ground (arith, ==_refl k)), kept ks (λ j m. h j (ground (arith, m))))

any-map-all :
    (p : Text → Bool) (key : ParsedFundTransaction → Text) (ts : List ParsedFundTransaction)
    → any (λ n. not (p n)) (map key ts) ≡ not (all (λ t. p (key t)) ts)
any-map-all p key [] = refl
any-map-all p key (t ∷ ts) = ground (arith, any-map-all p key ts)

length-map {ℓ κ} :
    {A : Type ℓ} {B : Type κ} (f : A → B) (xs : List A) → length (map f xs) ≡ length xs
length-map f [] = refl
length-map f (x ∷ xs) = ground (arith, length-map f xs)

-- Names are found among those of the transactions: as a set, or by their first occurrence.
nonempty-new_names {ℓ} :
    {A : Type ℓ} (name : A → Text) (rows : List A) (names : List Text)
    → ltb 0 (length (new_names name rows names)) ≡ any (is_new name rows) names
nonempty-new_names name rows names =
    ap (λ ns. ltb 0 (length ns)) (new_names-filter name rows names)
    ∙ nonempty-filter_by (is_new name rows) names

module _ {ℓ} {A : Type ℓ} {B : Type 0} (name : A → Text) (rows : List A)
    (ts : List ParsedFundTransaction) (key : ParsedFundTransaction → Text) where
  nonempty-first_from :
      (info : Text → ParsedFundTransaction → B)
      → ltb 0 (
          length (
            found_at info
              (first_from key [] ts)
              (new_names name rows (keys (first_from key [] ts)))))
        ≡ not (all (λ t. includes (map name rows) (key t)) ts)
  nonempty-first_from info =
      let d = first_from key [] ts in
      ap (λ ns. ltb 0 (length (found_at info d ns))) (new_names-filter name rows (keys d))
      ∙ ap (ltb 0) (
          length-found_at info d (filter_by (is_new name rows) (keys d))
            (all-keys d (is_new name rows)))
      ∙ nonempty-filter_by (is_new name rows) (keys d)
      ∙ any-first_from (is_new name rows) key [] ts
      ∙ any-map-all (includes (map name rows)) key ts

-- The detection finds a new entity exactly where the client, the account or the goal of some
-- transaction has no row.
pub has_new_entities-has_entities :
    (db : Database) (ts : List ParsedFundTransaction)
    → has_new_entities (detect_new_entities db ts) ≡ not (all (has_entities db) ts)
unfolding has_new_entities detect_new_entities detect_new_clients detect_new_accounts
    detect_new_goals
has_new_entities-has_entities db ts =
    let clients =
      ap (ltb 0) (
        length-map (client_info ts) (new_names name_of db.clients (set_from [] (map client_of ts))))
      ∙ nonempty-new_names name_of db.clients (set_from [] (map client_of ts))
      ∙ any-set_from (is_new name_of db.clients) [] (map client_of ts)
      ∙ any-map-all (includes (map name_of db.clients)) client_of ts in
    let accounts = nonempty-first_from number_of db.accounts ts account_of (account_info ts) in
    let goals = nonempty-first_from goal_number db.goals ts goal_of (goal_info ts) in
    rw (clients, accounts, goals) (three ts)
  where
    three :
        (us : List ParsedFundTransaction)
        → not (all (λ t. includes (map name_of db.clients) t.client_name) us)
            || not (all (λ t. includes (map number_of db.accounts) t.account_number) us)
            || not (all (λ t. includes (map goal_number db.goals) t.goal_number) us)
          ≡ not (all (has_entities db) us)
    three [] = refl
    three (u ∷ us) = ground (arith, three us)

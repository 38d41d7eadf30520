-- ===== src/Upload/Creator/Report.antt =====
-- The names in the report of the detection, and the transactions that its data is from.
use xeno_reconciliation.Prelude.{
  ◌⊎◌, ◌≡◌, refl, sym, ap, ◌∙◌, true, false, ◌&&◌, none, some, List, [], ◌∷◌, ◌++◌, map, nat_eq,
  list_eq, filter_by, includes, all, Bool-cases, Option-cases, arith, inl, inr, All, All-mono,
  All-listed,
}
use xeno_reconciliation.Prelude.Text.{Text}
use xeno_reconciliation.Prelude.Dict.{Dict, keys, lookup, has, ensure, has-keys}
use xeno_reconciliation.Validation.Types.{ParsedFundTransaction}
use xeno_reconciliation.Validation.GoalGroups.{set_from, client_of}
use xeno_reconciliation.Upload.Records.{Client}
use xeno_reconciliation.Upload.Detector.{
  name_of, new_names, first_from, found_at, client_info, detect_new_clients,
}
use xeno_reconciliation.Upload.Detector.Laws.{
  is_new, new_names-filter, includes-filter_by, all-keys, has-first_from,
}
use xeno_reconciliation.Upload.Creator.Laws.{client_name_of_info}
use xeno_reconciliation.Upload.Repository.Resolve.{includes-set_from, includes-map}

names-client_info :
    (ts : List ParsedFundTransaction) (ns : List Text)
    → map client_name_of_info (map (client_info ts) ns) ≡ ns
names-client_info ts [] = refl
names-client_info ts (n ∷ ns) = ground (arith, names-client_info ts ns)

pub clients_reported :
    (clients : List Client) (ts : List ParsedFundTransaction) (n : Text)
    → includes (map client_name_of_info (detect_new_clients clients ts)) n
      ≡ includes (map client_of ts) n && is_new name_of clients n
unfolding detect_new_clients
clients_reported clients ts n =
    let names = set_from [] (map client_of ts) in
    ap (λ ns. includes ns n) (names-client_info ts (new_names name_of clients names))
    ∙ ap (λ ns. includes ns n) (new_names-filter name_of clients names)
    ∙ includes-filter_by (is_new name_of clients) names n
    ∙ ap (λ b. b && is_new name_of clients n) (includes-set_from [] (map client_of ts) n)

module _ {B : Type 0} (info : Text → ParsedFundTransaction → B) where
  -- The names in what is found are the keys.
  names-found_at :
      (name : B → Text)
      → ((k : Text) (t : ParsedFundTransaction) → name (info k t) ≡ k)
      → (d : Dict Text ParsedFundTransaction) (ks : List Text) → all (λ k. has k d) ks ≡ true
      → map name (found_at info d ks) ≡ ks
  names-found_at name named d [] h = refl
  names-found_at name named d (k ∷ ks) h = elim (Option-cases (lookup k d)) [
    | inl e ↦ ground (arith, h, missing d e)
    | inr (t, e) ↦
        rw (map, found_at, e) (ground (arith, h, named k t, names-found_at name named d ks))
  ]
    where
      missing : (c : Dict Text ParsedFundTransaction) → lookup k c ≡ none → has k c ≡ false
      missing [] e = refl
      missing ((j, t) ∷ c) e = ground (arith, e, missing c)

  -- What is found was made from a transaction of the map.
  All-found_at :
      (P : B → Type 0) (Q : ParsedFundTransaction → Type 0)
      → ((k : Text) (t : ParsedFundTransaction) → Q t → P (info k t))
      → (d : Dict Text ParsedFundTransaction)
      → ((k : Text) (t : ParsedFundTransaction) → lookup k d ≡ some t → Q t)
      → (ks : List Text) → All P (found_at info d ks)
  All-found_at P Q made d good [] = tt
  All-found_at P Q made d good (k ∷ ks) = elim (Option-cases (lookup k d)) [
    | inl e ↦ rw (found_at, e) (All-found_at P Q made d good ks)
    | inr (t, e) ↦ rw (found_at, e) (made k t (good k t e), All-found_at P Q made d good ks)
  ]

module _ (Q : ParsedFundTransaction → Type 0) (key : ParsedFundTransaction → Text) where
  lookup-ensure :
      (d : Dict Text ParsedFundTransaction) (j k : Text) (t u : ParsedFundTransaction)
      → lookup k (ensure j t d) ≡ some u
      → (lookup k d ≡ some u) ⊎ (t ≡ u)
  lookup-ensure d j k t u h = elim (Bool-cases (has j d)) [
    | inl e ↦ inl (ground (arith, e, h))
    | inr e ↦ last d (ground (arith, e, h))
  ]
    where
      last :
          (c : Dict Text ParsedFundTransaction)
          → lookup k (c ++ (j, t) ∷ []) ≡ some u
          → (lookup k c ≡ some u) ⊎ (t ≡ u)
      last [] e = ground (arith, e)
      last ((i, v) ∷ c) e = ground (arith, e, last c)

  lookup-first_from :
      (d : Dict Text ParsedFundTransaction) (ts : List ParsedFundTransaction)
      → All Q ts
      → ((k : Text) (u : ParsedFundTransaction) → lookup k d ≡ some u → Q u)
      → (k : Text) (u : ParsedFundTransaction) → lookup k (first_from key d ts) ≡ some u
      → Q u
  unfolding first_from
  lookup-first_from d [] all_good good k u h = good k u h
  lookup-first_from d (t ∷ ts) (here, all_good) good k u h =
      lookup-first_from (ensure (key t) t d) ts all_good
        (λ j v e. elim (lookup-ensure d (key t) j t v e) [
          | inl old ↦ good j v old
          | inr same ↦ rw⁻¹ same here
        ])
        k u h

module _ {ℓ} {A : Type ℓ} {B : Type 0} (name : A → Text) (rows : List A)
    (key : ParsedFundTransaction → Text) (info : Text → ParsedFundTransaction → B)
    (named : B → Text) (same : (k : Text) (t : ParsedFundTransaction) → named (info k t) ≡ k)
    (ts : List ParsedFundTransaction) where
  abbrev first_map : Dict Text ParsedFundTransaction
  first_map = first_from key [] ts

  abbrev reported : List B
  reported = found_at info first_map (new_names name rows (keys first_map))

  pub names_reported :
      (n : Text) → includes (map named reported) n ≡ includes (map key ts) n && is_new name rows n
  names_reported n =
      ap (λ ns. includes (map named (found_at info first_map ns)) n)
        (new_names-filter name rows (keys first_map))
      ∙ ap (λ ns. includes ns n)
          (names-found_at info named same first_map (filter_by (is_new name rows) (keys first_map))
            (all-keys first_map (is_new name rows)))
      ∙ includes-filter_by (is_new name rows) (keys first_map) n
      ∙ ap (λ b. b && is_new name rows n) (sym (has-keys n first_map) ∙ has-first_from key [] ts n)

  -- What is reported carries the data of a transaction of the list.
  pub All-reported :
      (other : ParsedFundTransaction → Text) (of_info : B → Text)
      → ((k : Text) (t : ParsedFundTransaction) → of_info (info k t) ≡ other t)
      → All (λ i. includes (map other ts) (of_info i) ≡ true) reported
  All-reported other of_info made =
      All-found_at info _ (λ t. includes (map other ts) (other t) ≡ true)
        (λ k t h. ap (includes (map other ts)) (made k t) ∙ h) first_map
        (lookup-first_from _ key [] ts (All-mono (includes-map other ts) ts (All-listed ts))
          (λ k u h. ground (arith, h)))
        (new_names name rows (keys first_map))

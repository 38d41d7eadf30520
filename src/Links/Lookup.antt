-- ===== src/Links/Lookup.antt =====
-- What a search for an id and the reading of the notes of a pair find.
use xeno_reconciliation.Prelude.{
  ◌∙◌, ==_refl, ◌++◌, ap, ℕ, ◌≡◌, refl, true, false, none, some, [], ◌∷◌, all, if◌then◌else◌,
  Bool-cases, inl, inr, nat_eq, list_eq, ◌==◌,
}
use xeno_reconciliation.Prelude.Text.{codes, Text}
use xeno_reconciliation.Store.{BankTransaction, type_eq, update_many}
use xeno_reconciliation.Links.Operations.{Table, find_unique, has_id}
use xeno_reconciliation.Links.Pairs.{pair_notes, is_id_char, id_run, pair_here, paired_id}

abbrev change_at : Text → (BankTransaction → BankTransaction) → BankTransaction → BankTransaction
change_at id f b = if b.id == id then f b else b

pub find_unique-id :
    (id : Text) (table : Table) (b : BankTransaction)
    → find_unique id table ≡ some b
    → (b.id == id) ≡ true
unfolding find_unique
find_unique-id id [] b h = absurd (clash h)
  where
    clash : none ≡ some b → ⊥
    clash e = cc
find_unique-id id (c ∷ table) b h = elim (Bool-cases (c.id == id)) [
  | inl here ↦ rw (← some_inj (rw here at h)) here
  | inr there ↦ find_unique-id id table b (rw there at h)
]
  where
    some_inj : {a d : BankTransaction} → some a ≡ some d → a ≡ d
    some_inj e = cc

-- A change that keeps the ids is seen by a later search, and by no other.
pub find_unique-update :
    (id other : Text) (f : BankTransaction → BankTransaction)
    (keeps : (b : BankTransaction) → (f b).id ≡ b.id) (table : Table) (b : BankTransaction)
    → find_unique id table ≡ some b
    → find_unique id (update_many (has_id other) f table) ≡ some (change_at other f b)
unfolding find_unique update_many
find_unique-update id other f keeps [] b h = absurd (clash h)
  where
    clash : none ≡ some b → ⊥
    clash e = cc
find_unique-update id other f keeps (c ∷ table) b h = elim (Bool-cases (c.id == other)) [
  | inl changed ↦ elim (Bool-cases (c.id == id)) [
    | inl here ↦
        let kept_id : ((f c).id == id) ≡ true = ap (λ i. i == id) (keeps c) ∙ here in
        rw (changed, kept_id, ← some_inj (rw here at h), changed)
    | inr there ↦
        let kept_id : ((f c).id == id) ≡ false = ap (λ i. i == id) (keeps c) ∙ there in
        rw (changed, kept_id) (find_unique-update id other f keeps table b (rw there at h))
  ]
  | inr kept ↦ elim (Bool-cases (c.id == id)) [
    | inl here ↦ rw (kept, here, ← some_inj (rw here at h), kept)
    | inr there ↦ rw (kept, there) (find_unique-update id other f keeps table b (rw there at h))
  ]
]
  where
    some_inj : {a d : BankTransaction} → some a ≡ some d → a ≡ d
    some_inj e = cc

id_run-all : (s : Text) → all is_id_char s ≡ true → id_run s ≡ s
unfolding id_run
id_run-all [] h = refl
id_run-all (c ∷ s) h = elim (Bool-cases (is_id_char c)) [
  | inl good ↦ rw (good, id_run-all s (rw good at h))
  | inr bad ↦ absurd (clash (rw bad at h))
]
  where
    clash : false ≡ true → ⊥
    clash e = cc

pair_here-prefix : (ps s : Text) → pair_here ps (ps ++ s) ≡ pair_here [] s
unfolding pair_here
pair_here-prefix [] s = refl
pair_here-prefix (p ∷ ps) s = rw (==_refl p) (pair_here-prefix ps s)

pair_here-run :
    (c : ℕ) (s : Text) → all is_id_char (c ∷ s) ≡ true → pair_here [] (c ∷ s) ≡ some (c ∷ s)
unfolding pair_here
pair_here-run c s h = rw (pair_here, id_run-all (c ∷ s) h)

paired_id-pair_here :
    (s id : Text) → pair_here (codes "Reversal pair with: ") s ≡ some id → paired_id s ≡ some id
unfolding paired_id
paired_id-pair_here (c ∷ s) id h = rw (paired_id, h)
paired_id-pair_here [] id h = absurd (clash h)
  where
    clash : none ≡ some id → ⊥
    clash e = cc

pub paired_id-pair_notes :
    (c : ℕ) (s : Text)
    → all is_id_char (c ∷ s) ≡ true
    → paired_id (pair_notes (c ∷ s)) ≡ some (c ∷ s)
paired_id-pair_notes c s h =
    paired_id-pair_here (pair_notes (c ∷ s)) (c ∷ s)
      (pair_here-prefix (codes "Reversal pair with: ") (c ∷ s) ∙ pair_here-run c s h)

-- ===== src/Upload/Batches/Laws.antt =====
-- What an update of a batch does to the batch with its id.
use xeno_reconciliation.Prelude.{
  inr, inl, ◌≡◌, refl, ap, ◌∙◌, true, none, some, List, [], ◌∷◌, map, any, nat_eq, list_eq,
  Bool-cases, arith, ◌==◌,
}
use xeno_reconciliation.Prelude.Text.{Text}
use xeno_reconciliation.Upload.Records.{UploadBatch, Database}
use xeno_reconciliation.Upload.Batches.{is_batch, get_batch, change_batch, update_batch}

-- There is a batch with the id, and the first one has the property.
abbrev pub HasBatch : Text → (UploadBatch → Type 0) → Database → Type 0
HasBatch id P db = (b : UploadBatch) × (get_batch id db.batches ≡ some b) × P b

-- An update that keeps the id.
abbrev pub KeepsId : (UploadBatch → UploadBatch) → Type 0
KeepsId change = (b : UploadBatch) → (change b).id ≡ b.id

any_of_get_batch :
    (id : Text) (bs : List UploadBatch) (b : UploadBatch)
    → get_batch id bs ≡ some b
    → any (is_batch id) bs ≡ true
unfolding get_batch
any_of_get_batch id [] b h = ground (arith, h)
any_of_get_batch id (c ∷ bs) b h = ground (arith, h, any_of_get_batch id bs b)

get_batch_of_any :
    (id : Text) (bs : List UploadBatch)
    → any (is_batch id) bs ≡ true
    → (b : UploadBatch) × (get_batch id bs ≡ some b)
unfolding get_batch
get_batch_of_any id [] h = ground (arith, h)
get_batch_of_any id (c ∷ bs) h = elim (Bool-cases (is_batch id c)) [
  | inl here ↦ (c, ground (arith, here))
  | inr there ↦
      let (b, e) = get_batch_of_any id bs (ground (arith, h, there)) in
      (b, ground (arith, there, e))
]

module _ (id : Text) (change : UploadBatch → UploadBatch) (keeps : KeepsId change) where
  get_batch-map :
      (bs : List UploadBatch) (b : UploadBatch)
      → get_batch id bs ≡ some b
      → get_batch id (map (change_batch id change) bs) ≡ some (change b)
  unfolding get_batch
  get_batch-map [] b h = ground (arith, h)
  get_batch-map (c ∷ bs) b h = elim (Bool-cases (is_batch id c)) [
    | inl here ↦
        let kept : is_batch id (change c) ≡ true = ap (λ i. i == id) (keeps c) ∙ here in
        ground (arith, here, kept, h)
    | inr there ↦ ground (arith, there, h, get_batch-map bs b)
  ]

  -- The update does not throw, and the batch has the property that the change gives it.
  pub update_batch-HasBatch :
      (P : UploadBatch → Type 0) (db : Database)
      → HasBatch id (λ b. P (change b)) db
      → ((update_batch id change db).error ≡ none)
        × HasBatch id P (update_batch id change db).database
  unfolding update_batch
  update_batch-HasBatch P db (b, h, p) =
      rw (any_of_get_batch id db.batches b h) (refl, (change b, get_batch-map db.batches b h, p))

-- ===== src/SmartMatcher/Once.antt =====
-- No bank transaction and no fund transaction is matched twice: an invariant of the steps, and
-- with the refinement of the passes.
use xeno_reconciliation.Prelude.{
  All-mono, ℕ, ◌+◌, ◌≤◌, ◌≡◌, refl, sym, ◌∙◌, inl, inr, true, false, not, List, [], ◌∷◌, ◌++◌, map,
  flatten, arith, ==_iff, nat_eq, list_eq, any, any-append, includes, includes-append,
  if◌then◌else◌, Bool-cases, All,
}
use xeno_reconciliation.Prelude.Text.{Text}
use xeno_reconciliation.Store.{BankTransaction}
use xeno_reconciliation.SmartMatcher.Combination.{Item}
use xeno_reconciliation.SmartMatcher.Groups.{Group}
use xeno_reconciliation.SmartMatcher.Steps.{push_match}
use xeno_reconciliation.SmartMatcher.Passes.{MatchResult, Matching, no_matches, bank_id, group_ids}
use xeno_reconciliation.SmartMatcher.Splits.{item_id, run_passes}
use xeno_reconciliation.SmartMatcher.Steps.{
  Steps, rest, add, Allowed, by_hand, by_id, by_amount, by_bank_split, by_fund_split, IsFreeGroup,
  IsBankItem, IsGroupItem,
}
use xeno_reconciliation.SmartMatcher.Refines.Run.{run_passes-Steps}

-- How many of the matches hold the id.
abbrev pub claims : (MatchResult → List Text) → Text → List MatchResult → ℕ
claims ids x [] = 0
claims ids x (m ∷ ms) = (if includes (ids m) x then 1 else 0) + claims ids x ms

abbrev pub bank_ids_of : MatchResult → List Text
bank_ids_of m = m.bank_ids

abbrev pub fund_ids_of : MatchResult → List Text
fund_ids_of m = m.fund_ids

claims-snoc :
    (ids : MatchResult → List Text) (x : Text) (ms : List MatchResult) (m : MatchResult)
    → claims ids x (ms ++ m ∷ []) ≡ claims ids x ms + (if includes (ids m) x then 1 else 0)
claims-snoc ids x [] m = omega arith
claims-snoc ids x (n ∷ ms) m = omega (arith, claims-snoc ids x ms m)

-- An id that no match holds is claimed by none.
claims_of_missing :
    (ids : MatchResult → List Text) (x : Text) (ms : List MatchResult)
    → any (λ m. includes (ids m) x) ms ≡ false
    → claims ids x ms ≡ 0
claims_of_missing ids x [] h = refl
claims_of_missing ids x (m ∷ ms) h = ground (arith, claims_of_missing ids x ms)

-- The ids of the list are not in the set.
abbrev IsFresh : List Text → List Text → Type 0
IsFresh seen ids = (x : Text) → includes ids x ≡ true → includes seen x ≡ false

IsFresh-of_open : (seen ids : List Text) → not (any (includes seen) ids) ≡ true → IsFresh seen ids
IsFresh-of_open seen (i ∷ ids) h x here =
    ground (arith, ==_iff i x, IsFresh-of_open seen ids (ground arith) x)
IsFresh-of_open seen [] h x here = cc

IsFresh-append :
    (seen ids more : List Text) → IsFresh seen ids → IsFresh seen more → IsFresh seen (ids ++ more)
IsFresh-append seen ids more h k x here = ground (arith, includes-append ids more x, h x, k x)

IsFresh-single : (seen : List Text) (i : Text) → includes seen i ≡ false → IsFresh seen (i ∷ [])
IsFresh-single seen i h x here = ground (arith, ==_iff i x)

module _ {ℓ} {A : Type ℓ} (seen : List Text) where
  IsFresh-map :
      (f : A → Text) (xs : List A)
      → All (λ a. includes seen (f a) ≡ false) xs
      → IsFresh seen (map f xs)
  IsFresh-map f [] h = λ x here. cc
  IsFresh-map f (a ∷ xs) (p, h) =
      IsFresh-append seen (f a ∷ []) (map f xs) (IsFresh-single seen (f a) p) (IsFresh-map f xs h)

  IsFresh-flatten :
      (f : A → List Text) (xs : List A)
      → All (λ a. IsFresh seen (f a)) xs
      → IsFresh seen (flatten (map f xs))
  IsFresh-flatten f [] h = λ x here. cc
  IsFresh-flatten f (a ∷ xs) (p, h) =
      IsFresh-append seen (f a) (flatten (map f xs)) p (IsFresh-flatten f xs h)

-- One kind of ids: the set holds the ids of the matches, and each id stands in one match at most.
record IsKept (ids : MatchResult → List Text) (seen : List Text) (ms : List MatchResult)
    : Type 0 where
  pub held : (x : Text) → includes seen x ≡ any (λ m. includes (ids m) x) ms
  pub once : (x : Text) → claims ids x ms ≤ 1

IsKept-push :
    (ids : MatchResult → List Text) (seen : List Text) (ms : List MatchResult) (m : MatchResult)
    → IsKept ids seen ms
    → IsFresh seen (ids m)
    → IsKept ids (seen ++ ids m) (ms ++ m ∷ [])
IsKept-push ids seen ms m h fresh = record {
  held = λ x.
      includes-append seen (ids m) x
      ∙ ground (arith, h.held x, any-append (λ n. includes (ids n) x) ms (m ∷ []));
  once = λ x. elim (Bool-cases (includes (ids m) x)) [
    | inl here ↦
        let unseen = fresh x here in
        let unclaimed = claims_of_missing ids x ms (sym (h.held x) ∙ unseen) in
        rw (claims-snoc ids x ms m, here) (omega (arith, unclaimed))
    | inr away ↦ rw (claims-snoc ids x ms m, away) (omega (arith, h.once x))
  ];
}

-- What holds of the matching at any time.
abbrev IsOnce : Matching → Type 0
IsOnce s = IsKept bank_ids_of s.bank_ids s.matches × IsKept fund_ids_of s.fund_ids s.matches

no_matches-IsOnce : IsOnce no_matches
no_matches-IsOnce = (
  record { held = λ x. refl; once = λ x. omega arith },
  record { held = λ x. refl; once = λ x. omega arith },
)

module _ (banks : List BankTransaction) (groups : List Group) (s : Matching) where
  IsFreeGroup-IsFresh : (g : Group) → IsFreeGroup banks groups s g → IsFresh s.fund_ids g.ids
  IsFreeGroup-IsFresh g h = IsFresh-of_open s.fund_ids g.ids h.free

  IsBankItem-untaken :
      (g : Group) (i : Item Text)
      → IsBankItem banks groups s g i
      → includes s.bank_ids (item_id i) ≡ false
  IsBankItem-untaken g i h = rw h.item h.bank.untaken

  IsGroupItem-IsFresh :
      (b : BankTransaction) (i : Item (List Text))
      → IsGroupItem banks groups s b i
      → IsFresh s.fund_ids (item_id i)
  IsGroupItem-IsFresh b i h = rw h.item (IsFreeGroup-IsFresh h.g h.group)

  Allowed-IsFresh :
      {m : MatchResult}
      → Allowed banks groups s m
      → IsFresh s.bank_ids m.bank_ids × IsFresh s.fund_ids m.fund_ids
  Allowed-IsFresh (by_hand code rest_of_code bs gs e hb hg) = (
    IsFresh-map s.bank_ids bank_id bs (All-mono (λ b h. h.bank.untaken) bs hb),
    IsFresh-flatten s.fund_ids group_ids gs (All-mono (λ g h. IsFreeGroup-IsFresh g h.group) gs hg),
  )
  Allowed-IsFresh (by_id b g hb hg e t a) =
      (IsFresh-single s.bank_ids b.id hb.untaken, IsFreeGroup-IsFresh g hg)
  Allowed-IsFresh (by_amount b g hb hg t d a) =
      (IsFresh-single s.bank_ids b.id hb.untaken, IsFreeGroup-IsFresh g hg)
  Allowed-IsFresh (by_bank_split g items hg hb n a) = (
    IsFresh-map s.bank_ids item_id items (All-mono (IsBankItem-untaken g) items hb),
    IsFreeGroup-IsFresh g hg,
  )
  Allowed-IsFresh (by_fund_split b items hb hg n a) = (
    IsFresh-single s.bank_ids b.id hb.untaken,
    IsFresh-flatten s.fund_ids item_id items (All-mono (IsGroupItem-IsFresh b) items hg),
  )

push_match-IsOnce :
    (banks : List BankTransaction) (groups : List Group) (s : Matching) {m : MatchResult}
    → Allowed banks groups s m
    → IsOnce s
    → IsOnce (push_match m s)
push_match-IsOnce banks groups s {m} a (hb, hf) =
    let (fresh_banks, fresh_funds) = Allowed-IsFresh banks groups s a in
    (
      IsKept-push bank_ids_of s.bank_ids s.matches m hb fresh_banks,
      IsKept-push fund_ids_of s.fund_ids s.matches m hf fresh_funds,
    )

Steps-IsOnce :
    (banks : List BankTransaction) (groups : List Group) {s t : Matching}
    → Steps banks groups s t
    → IsOnce s
    → IsOnce t
Steps-IsOnce banks groups rest h = h
Steps-IsOnce banks groups (add {t} r a) h =
    push_match-IsOnce banks groups t a (Steps-IsOnce banks groups r h)

-- However the passes go, an id of a bank transaction, and an id of a fund transaction, stands in
-- at most one of the matches.
pub run_passes_once :
    (banks : List BankTransaction) (groups : List Group) (x : Text)
    → (claims bank_ids_of x (run_passes banks groups).matches ≤ 1)
      × (claims fund_ids_of x (run_passes banks groups).matches ≤ 1)
run_passes_once banks groups x =
    let (hb, hf) = Steps-IsOnce banks groups (run_passes-Steps banks groups) no_matches-IsOnce in
    (hb.once x, hf.once x)

-- The two sets of matched ids hold exactly the ids that some match holds: no pass forgets to add the
-- ids of a match to one of them, and none adds another id.
pub run_passes_held :
    (banks : List BankTransaction) (groups : List Group) (x : Text)
    → let s = run_passes banks groups in
      (includes s.bank_ids x ≡ any (λ m. includes m.bank_ids x) s.matches)
      × (includes s.fund_ids x ≡ any (λ m. includes m.fund_ids x) s.matches)
run_passes_held banks groups x =
    let (hb, hf) = Steps-IsOnce banks groups (run_passes-Steps banks groups) no_matches-IsOnce in
    (hb.held x, hf.held x)

-- ===== src/Persistence/Ledger/Rows.antt =====
-- src/persistence/registrationLedger.ts: how each mutation changes the row of a key.
use online_seller_control_hu.Common.{
  ◌≡◌, ◌≢◌, refl, ap, sym, ◌∙◌, inl, inr, true, false, ◌&&◌, not, some, List, [], ◌∷◌, ◌++◌, map,
  ◌==◌, Text, text_eq, filter, arith, Bool-cases,
}
use online_seller_control_hu.Core.Types.{market_eq}
use online_seller_control_hu.Persistence.Registrations.{RecordRow, ClaimKey, is_row, find_row}
use online_seller_control_hu.Persistence.Ledger.{key_of, update_row, recover_row, Resolver}

pub is_row-key_of : (k : ClaimKey) (row : RecordRow) → is_row k row ≡ true → key_of row ≡ k
is_row-key_of k row h = ground arith

pub is_row_self : (row : RecordRow) → is_row (key_of row) row ≡ true
is_row_self row = ground arith

-- A row has one key.
is_row_ne : (j k : ClaimKey) (row : RecordRow) → j ≢ k → is_row k row ≡ true → is_row j row ≡ false
is_row_ne j k row ne h = elim (Bool-cases (is_row j row)) [
  | inl e ↦ absurd (ne (sym (is_row-key_of j row e) ∙ is_row-key_of k row h))
  | inr e ↦ e
]

pub find_row-key_of :
    (k : ClaimKey) (rows : List RecordRow) (row : RecordRow)
    → find_row k rows ≡ some row
    → is_row k row ≡ true
find_row-key_of k [] row h = cc
find_row-key_of k (r ∷ rows) row h = ground (arith, find_row-key_of k rows row)

-- The new row of a key is found, and the rows of other keys are found as before.
pub find_row-added :
    (k : ClaimKey) (row : RecordRow) (rows : List RecordRow)
    → is_row k row ≡ true
    → find_row k (filter (λ r. not (is_row k r)) rows ++ (row ∷ [])) ≡ some row
find_row-added k row [] h = ground arith
find_row-added k row (r ∷ rows) h = ground (arith, find_row-added k row rows h)

pub find_row-added_other :
    (j k : ClaimKey) (row : RecordRow) (rows : List RecordRow)
    → j ≢ k
    → is_row k row ≡ true
    → find_row j (filter (λ r. not (is_row k r)) rows ++ (row ∷ [])) ≡ find_row j rows
find_row-added_other j k row [] ne h = ground (arith, is_row_ne j k row ne h)
find_row-added_other j k row (r ∷ rows) ne h = elim (Bool-cases (is_row k r)) [
  | inl e ↦ ground (arith, is_row_ne j k r ne e, find_row-added_other j k row rows ne h)
  | inr e ↦ ground (arith, find_row-added_other j k row rows ne h)
]

is_row_cong : (j : ClaimKey) (a b : RecordRow) → key_of a ≡ key_of b → is_row j a ≡ is_row j b
is_row_cong j a b e =
    ap
      (λ k.
        k.tenant_id == j.tenant_id
        && k.market == j.market
        && k.idempotency_key == j.idempotency_key)
      e

-- An update of the row of a key that keeps the key.
module _ (k : ClaimKey) (f : RecordRow → RecordRow)
    (keeps : (r : RecordRow) → key_of (f r) ≡ key_of r) where
  is_row-kept : (j : ClaimKey) (r : RecordRow) → is_row j (f r) ≡ is_row j r
  is_row-kept j r = is_row_cong j (f r) r (keeps r)

  pub find_row-update :
      (rows : List RecordRow) (row : RecordRow)
      → find_row k rows ≡ some row
      → find_row k (update_row k f rows) ≡ some (f row)
  unfolding update_row
  find_row-update [] row h = cc
  find_row-update (r ∷ rows) row h = ground (arith, is_row-kept k r, find_row-update rows row)

  pub find_row-update_other :
      (j : ClaimKey) (rows : List RecordRow)
      → j ≢ k
      → find_row j (update_row k f rows) ≡ find_row j rows
  unfolding update_row
  find_row-update_other j [] ne = refl
  find_row-update_other j (r ∷ rows) ne = elim (Bool-cases (is_row k r)) [
    | inl e ↦ ground (arith, is_row_ne j k r ne e, is_row-kept j r, find_row-update_other j rows ne)
    | inr e ↦ ground (arith, find_row-update_other j rows ne)
  ]

recover_row-key_of :
    (resolve : Resolver) (now : Text) (r : RecordRow)
    → key_of (recover_row resolve now r) ≡ key_of r
unfolding recover_row
recover_row-key_of resolve now r = ground arith

pub find_row-recover :
    (k : ClaimKey) (resolve : Resolver) (now : Text) (rows : List RecordRow) (row : RecordRow)
    → find_row k rows ≡ some row
    → find_row k (map (recover_row resolve now) rows) ≡ some (recover_row resolve now row)
find_row-recover k resolve now [] row h = cc
find_row-recover k resolve now (r ∷ rows) row h = ground (
  arith,
  is_row_cong k (recover_row resolve now r) r (recover_row-key_of resolve now r),
  find_row-recover k resolve now rows row,
)

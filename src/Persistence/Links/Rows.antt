-- ===== src/Persistence/Links/Rows.antt =====
-- src/persistence/marketLinkStore.ts: what the mutations of the rows do to the record of a tenant and market.
use online_seller_control_hu.Common.{
  ℕ, ◌≤◌, ◌≡◌, refl, inl, inr, Bool, true, ◌&&◌, not, none, some, List, [], ◌∷◌, ◌++◌, ◌==◌,
  ==_refl, eq_of_==, Text, text_eq, if◌then◌else◌, filter, length, arith, Bool-cases, ok,
}
use online_seller_control_hu.Core.Types.{Market, market_eq}
use online_seller_control_hu.Persistence.LinkRecords.{
  EncryptedRecord, LinkPayload, Cipher, IsFaithful, is_record, find_record,
}
use online_seller_control_hu.Persistence.Links.{
  new_record, link_of, link_found, parse_payload, opened, read_payload, get_from_records,
}

-- Whether a record of one tenant and market is that of another.
abbrev pub is_same : Text → Market → Text → Market → Bool
is_same t m t' m' = t == t' && m == m'

-- A record belongs to one tenant and market.
is_record_same :
    (t t' : Text) (m m' : Market) (r : EncryptedRecord)
    → is_record t m r ≡ true
    → is_record t' m' r ≡ is_same t m t' m'
is_record_same t t' m m' r h = ground (arith, eq_of_== r.tenant_id t, eq_of_== r.market m)

pub find_record-dropped :
    (t t' : Text) (m m' : Market) (rows : List EncryptedRecord)
    → find_record t' m' (filter (λ r. not (is_record t m r)) rows)
      ≡ (if is_same t m t' m' then none else find_record t' m' rows)
find_record-dropped t t' m m' [] = ground arith
find_record-dropped t t' m m' (r ∷ rows) = elim (Bool-cases (is_record t m r)) [
  | inl e ↦ ground (arith, e, is_record_same t t' m m' r e, find_record-dropped t t' m m' rows)
  | inr e ↦ elim (Bool-cases (is_same t m t' m')) [
    | inl s ↦ ground (arith, e, s, find_record-dropped t t' m m' rows)
    | inr s ↦ ground (arith, e, s, find_record-dropped t t' m m' rows)
  ]
]

-- The new record is found, and those of other tenants and markets are found as before.
pub find_record-replaced :
    (t t' : Text) (m m' : Market) (new : EncryptedRecord) (rows : List EncryptedRecord)
    → is_record t m new ≡ true
    → find_record t' m' (filter (λ r. not (is_record t m r)) rows ++ (new ∷ []))
      ≡ (if is_same t m t' m' then some new else find_record t' m' rows)
find_record-replaced t t' m m' new [] h = ground (arith, is_record_same t t' m m' new h)
find_record-replaced t t' m m' new (r ∷ rows) h = elim (Bool-cases (is_record t m r)) [
  | inl e ↦ elim (Bool-cases (is_same t m t' m')) [
    | inl s ↦ ground (arith, e, s, find_record-replaced t t' m m' new rows h)
    | inr s ↦
        ground
          (arith, e, s, is_record_same t t' m m' r e, find_record-replaced t t' m m' new rows h)
  ]
  | inr e ↦ elim (Bool-cases (is_same t m t' m')) [
    | inl s ↦ ground (arith, e, s, find_record-replaced t t' m m' new rows h)
    | inr s ↦ ground (arith, e, s, find_record-replaced t t' m m' new rows h)
  ]
]

length-dropped-le :
    (t : Text) (m : Market) (rows : List EncryptedRecord)
    → length (filter (λ r. not (is_record t m r)) rows) ≤ length rows
length-dropped-le t m [] = omega arith
length-dropped-le t m (r ∷ rows) = ground (arith, length-dropped-le t m rows)

-- Where nothing was dropped there was no such record.
pub find_record-kept :
    (t : Text) (m : Market) (rows : List EncryptedRecord)
    → length (filter (λ r. not (is_record t m r)) rows) ≡ length rows
    → find_record t m rows ≡ none
find_record-kept t m [] h = refl
find_record-kept t m (r ∷ rows) h =
    ground (arith, length-dropped-le t m rows, find_record-kept t m rows)

module _ (c : Cipher) (faithful : IsFaithful c) (key : List ℕ) where
  -- A valid payload is read back from its record.
  pub read_payload-new :
      (t : Text) (m : Market) (p : LinkPayload) (iv now : Text)
      → parse_payload p ≡ ok p
      → read_payload c key (new_record c key t m p iv now) ≡ ok p
  unfolding read_payload opened
  read_payload-new t m p iv now h = rw (faithful key iv p) h

  -- What `get` answers after a record was replaced.
  pub get_from_records-replaced :
      (t t' : Text) (m m' : Market) (p : LinkPayload) (iv now : Text) (rows : List EncryptedRecord)
      → parse_payload p ≡ ok p
      → get_from_records c key
          (filter (λ r. not (is_record t m r)) rows ++ (new_record c key t m p iv now ∷ []))
          t'
          m'
        ≡ (if is_same t m t' m'
            then ok (some (link_of (new_record c key t m p iv now) p))
            else get_from_records c key rows t' m')
  unfolding get_from_records link_found
  get_from_records-replaced t t' m m' p iv now rows h =
      let new = new_record c key t m p iv now in
      let mine : is_record t m new ≡ true = rw (==_refl t, ==_refl m) refl in
      rw (find_record-replaced t t' m m' new rows mine) (elim (Bool-cases (is_same t m t' m')) [
        | inl s ↦ rw (s, read_payload-new t m p iv now h) refl
        | inr s ↦ rw s refl
      ])

  pub get_from_records-dropped :
      (t t' : Text) (m m' : Market) (rows : List EncryptedRecord)
      → get_from_records c key (filter (λ r. not (is_record t m r)) rows) t' m'
        ≡ (if is_same t m t' m' then ok none else get_from_records c key rows t' m')
  unfolding get_from_records link_found
  get_from_records-dropped t t' m m' rows =
      rw (find_record-dropped t t' m m' rows)
        (elim (Bool-cases (is_same t m t' m')) [ inl s ↦ rw s refl | inr s ↦ rw s refl ])

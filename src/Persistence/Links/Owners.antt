-- ===== src/Persistence/Links/Owners.antt =====
-- src/persistence/marketLinkStore.ts: the tenant that has a seller account.
use online_seller_control_hu.Common.{
  ℕ, ◌≡◌, refl, ap, subst, inl, inr, Bool, length, nat_eq, true, false, ◌||◌, not, Option, none,
  some, List, [], ◌∷◌, ◌++◌, map, Text, text_eq, filter, arith, Bool-cases, Result, ok, throw,
  ok_injective, ◌==◌, eq_of_==, returned-first, includes, IsUnique, pair_eq, All, All-filter,
  is_empty, filter-IsUnique, includes-filter,
}
use online_seller_control_hu.Core.Types.{Market, market_eq}
use online_seller_control_hu.Persistence.Files.{Mutation}
use online_seller_control_hu.Persistence.LinkRecords.{
  EncryptedRecord, LinkPayload, Cipher, LinkError, is_record,
}
use online_seller_control_hu.Persistence.Links.{
  read_payload, set_rows, remove_rows, is_other_owner, tenant_for_external_account_id_in,
}

module _ {ℓ} {B : Type ℓ} (k : B → Market × Text) where
  includes-append_one :
      (m : Market × Text) (xs : List B) (x : B)
      → includes m (map k (xs ++ (x ∷ []))) ≡ (includes m (map k xs) || (m == k x))
  includes-append_one m [] x = ground arith
  includes-append_one m (y ∷ xs) x = ground (arith, includes-append_one m xs x)

  pub IsUnique-append_one :
      (xs : List B) (x : B)
      → IsUnique k xs
      → includes (k x) (map k xs) ≡ false
      → IsUnique k (xs ++ (x ∷ []))
  IsUnique-append_one [] x u h = (refl, tt)
  IsUnique-append_one (y ∷ xs) x u h =
      ground (arith, includes-append_one (k y) xs x, IsUnique-append_one xs x u.1)

module _ (c : Cipher) (key : List ℕ) where
  abbrev pub account_in : Result LinkError LinkPayload → Text
  account_in (ok p) = p.external_account_id
  account_in (throw e) = []

  -- The market and the account of a record; no valid account is empty.
  abbrev pub seller_account : EncryptedRecord → Market × Text
  seller_account r = (r.market, account_in (read_payload c key r))

  abbrev pub HasTenant : EncryptedRecord → Type 0
  HasTenant r = is_empty r.tenant_id ≡ false

  -- No two records are about one seller account.
  pub record IsExclusive (rows : List EncryptedRecord) : Type 0 where
    pub unique : IsUnique seller_account rows
    pub tenants : All HasTenant rows

  owner_none :
      (m : Market) (account : Text) (rows : List EncryptedRecord)
      → tenant_for_external_account_id_in c key m account rows ≡ ok none
      → includes (m, account) (map seller_account rows) ≡ false
  unfolding tenant_for_external_account_id_in
  owner_none m account [] h = refl
  owner_none m account (r ∷ rows) h = elim (Bool-cases (r.market == m)) [
    | inr e ↦ ground (arith, e, owner_none m account rows (rw e at h))
    | inl e ↦
        let (p, found, opens) = returned-first _ (read_payload c key r) (rw e at h) in
        elim (Bool-cases (p.external_account_id == account)) [
          | inl f ↦ absurd (ground (arith, rw f at found))
          | inr f ↦
              let rest = owner_none m account rows (rw f at found) in
              let account_is = ap account_in opens in ground (arith, f, rest, account_is)
        ]
  ]

  owner_some :
      (m : Market) (account t : Text) (rows : List EncryptedRecord)
      → tenant_for_external_account_id_in c key m account rows ≡ ok (some t)
      → IsUnique seller_account rows
      → includes (m, account) (map seller_account (filter (λ r. not (is_record t m r)) rows))
        ≡ false
  unfolding tenant_for_external_account_id_in
  owner_some m account t [] h u = refl
  owner_some m account t (r ∷ rows) h u = elim (Bool-cases (r.market == m)) [
    | inr e ↦ ground (arith, e, owner_some m account t rows (rw e at h) u.1)
    | inl e ↦
        let (p, found, opens) = returned-first _ (read_payload c key r) (rw e at h) in
        let account_is = ap account_in opens in
        elim (Bool-cases (p.external_account_id == account)) [
          | inr f ↦
              let rest = owner_some m account t rows (rw f at found) u.1 in
              ground (arith, f, rest, account_is)
          | inl f ↦
              let tenant : some r.tenant_id ≡ some t = ok_injective (rw f at found) in
              let mine : is_record t m r ≡ true = ground (arith, tenant, e) in
              let key_is : seller_account r ≡ (m, account) = ground (
                arith,
                account_is,
                eq_of_== r.market m e,
                eq_of_== p.external_account_id account f,
              ) in
              rw mine (
                subst
                  (λ k.
                    includes k (map seller_account (filter (λ x. not (is_record t m x)) rows))
                    ≡ false)
                  key_is
                  (includes-filter (seller_account r) seller_account (λ x. not (is_record t m x))
                    rows u.0))
        ]
  ]

  owner_named :
      (m : Market) (account o : Text) (rows : List EncryptedRecord)
      → tenant_for_external_account_id_in c key m account rows ≡ ok (some o)
      → All HasTenant rows
      → is_empty o ≡ false
  unfolding tenant_for_external_account_id_in
  owner_named m account o [] h a = cc
  owner_named m account o (r ∷ rows) h a = elim (Bool-cases (r.market == m)) [
    | inr e ↦ owner_named m account o rows (rw e at h) a.1
    | inl e ↦
        let (p, found, _) = returned-first _ (read_payload c key r) (rw e at h) in
        elim (Bool-cases (p.external_account_id == account)) [
          | inr f ↦ owner_named m account o rows (rw f at found) a.1
          | inl f ↦
              let tenant : some r.tenant_id ≡ some o = ok_injective (rw f at found) in
              ground (arith, tenant, a.0)
        ]
  ]

  pub filter-IsExclusive :
      (p : EncryptedRecord → Bool) (rows : List EncryptedRecord)
      → IsExclusive rows
      → IsExclusive (filter p rows)
  filter-IsExclusive p rows x = record {
    unique = filter-IsUnique seller_account p rows x.unique;
    tenants = All-filter p HasTenant rows x.tenants;
  }

  pub remove_rows-IsExclusive :
      (t : Text) (m : Market) (rows : List EncryptedRecord)
      → IsExclusive rows
      → IsExclusive (remove_rows t m rows).rows
  unfolding remove_rows
  remove_rows-IsExclusive t m rows x =
      elim (Bool-cases (length (filter (λ r. not (is_record t m r)) rows) == length rows)) [
        | inl e ↦ rw e x
        | inr e ↦ rw e (filter-IsExclusive (λ r. not (is_record t m r)) rows x)
      ]

  owner_free :
      (t : Text) (m : Market) (account : Text) (rows : List EncryptedRecord) (owner : Option Text)
      → IsExclusive rows
      → tenant_for_external_account_id_in c key m account rows ≡ ok owner
      → is_other_owner owner t ≡ false
      → includes (m, account) (map seller_account (filter (λ r. not (is_record t m r)) rows))
        ≡ false
  owner_free t m account rows none x asked same =
      includes-filter (m, account) seller_account (λ r. not (is_record t m r)) rows
        (owner_none m account rows asked)
  owner_free t m account rows (some o) x asked same =
      let named = owner_named m account o rows asked x.tenants in
      let o_is : o ≡ t = eq_of_== o t (ground (arith, named, same)) in
      owner_some m account t rows
        (subst (λ y. tenant_for_external_account_id_in c key m account rows ≡ ok (some y)) o_is
          asked)
        x.unique

  -- Where `set` is not refused, no other tenant has the account.
  pub set_rows-free :
      (t : Text) (m : Market) (p : LinkPayload) (iv now : Text) (rows : List EncryptedRecord)
      (n : Mutation (List EncryptedRecord) (Unit {0}))
      → IsExclusive rows
      → set_rows c key t m p iv now rows ≡ ok n
      → includes
          (m, p.external_account_id)
          (map seller_account (filter (λ r. not (is_record t m r)) rows))
        ≡ false
  unfolding set_rows
  set_rows-free t m p iv now rows n x h =
      let (owner, rest, asked) =
        returned-first _ (tenant_for_external_account_id_in c key m p.external_account_id rows) h in
      elim (Bool-cases (is_other_owner owner t)) [
        | inl e ↦ absurd (ground (arith, rw e at rest))
        | inr e ↦ owner_free t m p.external_account_id rows owner x asked e
      ]

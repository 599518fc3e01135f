-- ===== src/Persistence/Links/Exclusive.antt =====
-- src/persistence/marketLinkStore.ts: no seller account of a marketplace has two tenants.
use online_seller_control_hu.Common.{
  Option-cases, ℕ, ◌≡◌, sym, ap, subst, ◌∙◌, inl, inr, Bool, nat_eq, true, false, not, some, List,
  [], ◌∷◌, map, Text, text_eq, filter, arith, Bool-cases, Result, Result-cases, ok, ok_injective,
  ==_refl, returned-first, includes, IsUnique, pair_eq, All, All-append, is_empty,
}
use online_seller_control_hu.Core.Types.{Market, market_eq}
use online_seller_control_hu.Persistence.Files.{Writes, Mutation}
use online_seller_control_hu.Persistence.Files.Sync.{enqueue_mutation_rows}
use online_seller_control_hu.Persistence.LinkRecords.{
  EncryptedRecord, LinkPayload, Cipher, IsFaithful, LinkError, MarketplaceLink, is_record,
  find_record,
}
use online_seller_control_hu.Persistence.Links.{
  LinkStore, new_record, link_of, link_found, parse_payload, read_payload, get_from_records,
  set_rows, remove_rows, set_parsed, set_link, remove_link, get_link,
}
use online_seller_control_hu.Persistence.Links.Rows.{read_payload-new}
use online_seller_control_hu.Persistence.Links.Owners.{
  account_in, seller_account, IsExclusive, IsUnique-append_one, HasTenant, filter-IsExclusive,
  remove_rows-IsExclusive, set_rows-free,
}
use online_seller_control_hu.Persistence.Links.Calls.{LinkCall, set_call, remove_call}
use online_seller_control_hu.Persistence.Links.View.{
  parse_payload_same, set_rows-ok, serve_link, run_links,
}

abbrev pub tenant_of : LinkCall → Text
tenant_of (set_call w t m p iv now) = t
tenant_of (remove_call w t m) = t

module _ (c : Cipher) (key : List ℕ) (faithful : IsFaithful c) where
  set_rows-IsExclusive :
      (t : Text) (m : Market) (p : LinkPayload) (iv now : Text) (rows : List EncryptedRecord)
      (n : Mutation (List EncryptedRecord) (Unit {0}))
      → is_empty t ≡ false
      → parse_payload p ≡ ok p
      → IsExclusive c key rows
      → set_rows c key t m p iv now rows ≡ ok n
      → IsExclusive c key n.rows
  set_rows-IsExclusive t m p iv now rows n named valid x h =
      let new = new_record c key t m p iv now in
      let left = filter (λ r. not (is_record t m r)) rows in
      let kept = filter-IsExclusive c key (λ r. not (is_record t m r)) rows x in
      let account : (seller_account c key) new ≡ (m, p.external_account_id) =
        ap (λ a. (m, account_in c key a)) (read_payload-new c faithful key t m p iv now valid) in
      subst (IsExclusive c key) (sym (set_rows-ok c faithful key t m p iv now rows n h).1) (record {
        unique = IsUnique-append_one (seller_account c key) left new kept.unique (
            subst (λ k. includes k (map (seller_account c key) left) ≡ false) (sym account)
              (set_rows-free c key t m p iv now rows n x h));
        tenants = All-append (HasTenant c key) left (new ∷ []) kept.tenants (named, tt);
      })

  set_parsed-IsExclusive :
      (w : Writes) (t : Text) (m : Market) (p : LinkPayload) (iv now : Text) (s : LinkStore)
      → is_empty t ≡ false
      → IsExclusive c key s.rows
      → IsExclusive c key (set_parsed c key w t m iv now (parse_payload p) s).1.rows
  unfolding set_parsed
  set_parsed-IsExclusive w t m p iv now s named x = elim (Result-cases (parse_payload p)) [
    | inr (e, bad) ↦ rw bad x
    | inl (q, good) ↦
        let valid = subst (λ y. parse_payload y ≡ ok q) (parse_payload_same p q good) good in
        rw good (elim (enqueue_mutation_rows w (set_rows c key t m q iv now) s) [
          | inl old ↦ rw old x
          | inr (n, made, new) ↦
              rw new (set_rows-IsExclusive t m q iv now s.rows n named valid x made)
        ])
  ]

  serve_link-IsExclusive :
      (call : LinkCall) (s : LinkStore)
      → is_empty (tenant_of call) ≡ false
      → IsExclusive c key s.rows
      → IsExclusive c key (serve_link c (some key) call s).1.rows
  unfolding serve_link set_link remove_link
  serve_link-IsExclusive (set_call w t m p iv now) s named x =
      set_parsed-IsExclusive w t m p iv now s named x
  serve_link-IsExclusive (remove_call w t m) s named x =
      let mutate : List EncryptedRecord → Result LinkError (Mutation (List EncryptedRecord) Bool) =
        λ rows. ok (remove_rows t m rows) in
      elim (enqueue_mutation_rows w mutate s) [
        | inl old ↦ rw old x
        | inr (n, made, new) ↦
            rw
              (
                new,
                sym (ap (λ (y : Mutation (List EncryptedRecord) Bool). y.rows) (ok_injective made)),
              )
              (remove_rows-IsExclusive c key t m s.rows x)
      ]

  pub run_links-IsExclusive :
      (calls : List LinkCall) (s : LinkStore)
      → All (λ call. is_empty (tenant_of call) ≡ false) calls
      → IsExclusive c key s.rows
      → IsExclusive c key (run_links c (some key) calls s).rows
  unfolding run_links
  run_links-IsExclusive [] s named x = x
  run_links-IsExclusive (call ∷ calls) s named x =
      run_links-IsExclusive calls (serve_link c (some key) call s).1 named.1
        (serve_link-IsExclusive call s named.0 x)

module _ (c : Cipher) (key : List ℕ) where
  found-account :
      (t : Text) (m : Market) (r : EncryptedRecord) (rows : List EncryptedRecord)
      → find_record t m rows ≡ some r
      → includes (seller_account c key r) (map (seller_account c key) rows) ≡ true
  found-account t m r [] h = cc
  found-account t m r (x ∷ rows) h = elim (Bool-cases (is_record t m x)) [
    | inl e ↦
        let same : some x ≡ some r = rw e at h in
        ground (arith, same, ==_refl (seller_account c key r))
    | inr e ↦ ground (arith, found-account t m r rows (rw e at h))
  ]

  found-record :
      (t : Text) (m : Market) (r : EncryptedRecord) (rows : List EncryptedRecord)
      → find_record t m rows ≡ some r
      → is_record t m r ≡ true
  found-record t m r [] h = cc
  found-record t m r (x ∷ rows) h = ground (arith, found-record t m r rows)

  -- Two records about one seller account are one.
  one_owner :
      (t u : Text) (m : Market) (r q : EncryptedRecord) (rows : List EncryptedRecord)
      → IsUnique (seller_account c key) rows
      → find_record t m rows ≡ some r
      → find_record u m rows ≡ some q
      → seller_account c key r ≡ seller_account c key q
      → t ≡ u
  one_owner t u m r q [] n h k e = cc
  one_owner t u m r q (x ∷ rows) n h k e = elim (Bool-cases (is_record t m x)) [
    | inl a ↦ elim (Bool-cases (is_record u m x)) [
      | inl b ↦ ground (arith, a, b)
      | inr b ↦
          let first : some x ≡ some r = rw a at h in
          absurd (ground (arith, first, e, n.0, found-account u m q rows (rw b at k)))
    ]
    | inr a ↦ elim (Bool-cases (is_record u m x)) [
      | inl b ↦
          let first : some x ≡ some q = rw b at k in
          absurd (ground (arith, first, e, n.0, found-account t m r rows (rw a at h)))
      | inr b ↦ one_owner t u m r q rows n.1 (rw a at h) (rw b at k) e
    ]
  ]

  got-account :
      (t : Text) (m : Market) (link : MarketplaceLink) (rows : List EncryptedRecord)
      → get_from_records c key rows t m ≡ ok (some link)
      → (r : EncryptedRecord) × (find_record t m rows ≡ some r)
        × (seller_account c key r ≡ (m, link.external_account_id))
  unfolding get_from_records link_found
  got-account t m link rows h = elim (Option-cases (find_record t m rows)) [
    | inl e ↦ absurd (ground (arith, rw e at h))
    | inr (r, e) ↦
        let (p, made, opens) = returned-first _ (read_payload c key r) (rw e at h) in
        let account = ap (account_in c key) opens in
        let link_is : link_of r p ≡ link = ground (arith, made) in
        (r, e, ground (arith, account, link_is, found-record t m r rows e))
  ]

  -- After any calls for tenants that have a name, of which some are refused and some cannot be written,
  -- two tenants that see the same account of a marketplace are one; given that before the calls no
  -- two records were about one account, that each record had a tenant's name, and that what is
  -- encrypted is decrypted to itself.
  pub account_has_one_tenant :
      (faithful : IsFaithful c) (calls : List LinkCall) (s : LinkStore)
      → All (λ call. is_empty (tenant_of call) ≡ false) calls
      → IsExclusive c key s.rows
      → (t u : Text) (m : Market) (k l : MarketplaceLink)
      → get_link c (some key) t m (run_links c (some key) calls s) ≡ ok (some k)
      → get_link c (some key) u m (run_links c (some key) calls s) ≡ ok (some l)
      → k.external_account_id ≡ l.external_account_id
      → t ≡ u
  unfolding get_link
  account_has_one_tenant faithful calls s named x t u m k l h j e =
      let after = run_links-IsExclusive c key faithful calls s named x in
      let rows = (run_links c (some key) calls s).rows in
      let (r, found_r, account_r) = got-account t m k rows h in
      let (q, found_q, account_q) = got-account u m l rows j in
      one_owner t u m r q rows after.unique found_r found_q
        (account_r ∙ ap (λ (a : Text). (m, a)) e ∙ sym account_q)

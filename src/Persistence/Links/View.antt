-- ===== src/Persistence/Links/View.antt =====
-- src/persistence/marketLinkStore.ts: what `get` shows after any calls, whether or not they succeed.
use online_seller_control_hu.Common.{
  ℕ, ◌≡◌, refl, sym, ap, subst, ◌∙◌, ◌⊎◌, inl, inr, Bool, true, not, Option, none, some, List, [],
  ◌∷◌, ◌++◌, Text, text_eq, if◌then◌else◌, filter, arith, Bool-cases, Result, Result-cases, ok,
  ok_injective, length, nat_eq, ◌==◌, eq_of_==, returned-first,
}
use mathlib.Core.Path.{fun_ext}
use online_seller_control_hu.Core.Types.{Market, market_eq}
use online_seller_control_hu.Persistence.Files.{Writes, Mutation, enqueue_mutation}
use online_seller_control_hu.Persistence.Files.Sync.{
  enqueue_mutation_answer, enqueue_mutation_rows, enqueue_mutation_throws,
}
use online_seller_control_hu.Persistence.LinkRecords.{
  EncryptedRecord, LinkPayload, Cipher, IsFaithful, LinkError, is_record, find_record,
}
use online_seller_control_hu.Persistence.Links.{
  LinkStore, new_record, link_found, parse_payload, get_from_records, set_rows, remove_rows,
  set_parsed, set_link, remove_link, get_link, is_other_owner, is_other_account,
  tenant_for_external_account_id_in,
}
use online_seller_control_hu.Persistence.Links.Rows.{
  is_same, find_record-kept, get_from_records-replaced, get_from_records-dropped,
}
use online_seller_control_hu.Persistence.Links.Calls.{
  LinkCall, View, is_ok, remove_call, replay_call, set_call,
}

pub parse_payload_same : (p q : LinkPayload) → parse_payload p ≡ ok q → p ≡ q
unfolding parse_payload
parse_payload_same p q h = ground arith

module _ (c : Cipher) (faithful : IsFaithful c) where
  -- The rows of a set that is not refused.
  pub set_rows-ok :
      (key : List ℕ) (t : Text) (m : Market) (p : LinkPayload) (iv now : Text)
      (rows : List EncryptedRecord) (n : Mutation (List EncryptedRecord) (Unit {0}))
      → set_rows c key t m p iv now rows ≡ ok n
      → (n.persist ≡ true)
        × (n.rows
            ≡ filter (λ r. not (is_record t m r)) rows ++ (new_record c key t m p iv now ∷ []))
  unfolding set_rows
  set_rows-ok key t m p iv now rows n h =
      let (owner, rest, _) =
        returned-first _ (tenant_for_external_account_id_in c key m p.external_account_id rows) h in
      elim (Bool-cases (is_other_owner owner t)) [
        | inl e ↦ absurd (ground (arith, rw e at rest))
        | inr e ↦
            let (current, made, _) =
              returned-first _ (get_from_records c key rows t m) (rw e at rest) in
            elim (Bool-cases (is_other_account current p.external_account_id)) [
              | inl f ↦ absurd (ground (arith, rw f at made))
              | inr f ↦
                  let n_is = ok_injective (rw f at made) in
                  (
                    ap (λ (x : Mutation (List EncryptedRecord) (Unit {0})). x.persist) (sym n_is),
                    ap (λ (x : Mutation (List EncryptedRecord) (Unit {0})). x.rows) (sym n_is),
                  )
            ]
      ]

  set_enqueued_view :
      (key : List ℕ) (w : Writes) (t t' : Text) (m m' : Market) (p : LinkPayload) (iv now : Text)
      (s : LinkStore)
      → parse_payload p ≡ ok p
      → let r = enqueue_mutation w (set_rows c key t m p iv now) s in
        get_from_records c key r.1.rows t' m'
        ≡ replay_call (set_call w t m p iv now) (is_ok r.0) (get_from_records c key s.rows) t' m'
  set_enqueued_view key w t t' m m' p iv now s valid =
      let mutate = set_rows c key t m p iv now in
      elim (Result-cases (enqueue_mutation w mutate s).0) [
        | inl (a, done) ↦
            let (n, made, _, kept) = enqueue_mutation_answer w mutate s done in
            let (persists, rows) = set_rows-ok key t m p iv now s.rows n made in
            rw (done, kept persists, rows)
              (get_from_records-replaced c faithful key t t' m m' p iv now s.rows valid)
        | inr (e, failed) ↦ rw (failed, (enqueue_mutation_throws [] w mutate s e failed).0) refl
      ]

  remove_rows-cases :
      (t : Text) (m : Market) (rows : List EncryptedRecord)
      → let n = remove_rows t m rows in
        let left = filter (λ r. not (is_record t m r)) rows in
        ((length left ≡ length rows) × (n.rows ≡ rows)) ⊎ ((n.persist ≡ true) × (n.rows ≡ left))
  unfolding remove_rows
  remove_rows-cases t m rows =
      let left = filter (λ r. not (is_record t m r)) rows in
      elim (Bool-cases (length left == length rows)) [
        | inl e ↦ rw e (inl (eq_of_== (length left) (length rows) e, refl))
        | inr e ↦ rw e (inr (refl, refl))
      ]

  -- Where nothing is dropped there was nothing to see.
  kept_view :
      (key : List ℕ) (t t' : Text) (m m' : Market) (rows : List EncryptedRecord)
      → length (filter (λ r. not (is_record t m r)) rows) ≡ length rows
      → get_from_records c key rows t' m'
        ≡ (if is_same t m t' m' then ok none else get_from_records c key rows t' m')
  unfolding get_from_records link_found
  kept_view key t t' m m' rows h = elim (Bool-cases (is_same t m t' m')) [
    | inl s ↦
        let t_is = eq_of_== t t' (ground (arith, s)) in
        let m_is = eq_of_== m m' (ground (arith, s)) in
        let gone : find_record t' m' rows ≡ none =
          rw (sym t_is, sym m_is) (find_record-kept t m rows h) in
        rw (s, gone) refl
    | inr s ↦ rw s refl
  ]

  remove_enqueued_view :
      (key : List ℕ) (w : Writes) (t t' : Text) (m m' : Market) (s : LinkStore)
      → let r = enqueue_mutation {E = LinkError} w (λ rows. ok (remove_rows t m rows)) s in
        get_from_records c key r.1.rows t' m'
        ≡ replay_call (remove_call w t m) (is_ok r.0) (get_from_records c key s.rows) t' m'
  remove_enqueued_view key w t t' m m' s =
      let mutate : List EncryptedRecord → Result LinkError (Mutation (List EncryptedRecord) Bool) =
        λ rows. ok (remove_rows t m rows) in
      elim (Result-cases (enqueue_mutation w mutate s).0) [
        | inr (e, failed) ↦ rw (failed, (enqueue_mutation_throws [] w mutate s e failed).0) refl
        | inl (a, done) ↦ rw done (elim (remove_rows-cases t m s.rows) [
          | inl (none_left, same) ↦ elim (enqueue_mutation_rows w mutate s) [
            | inl old ↦ rw old (kept_view key t t' m m' s.rows none_left)
            | inr (n, made, new) ↦
                let rows_are =
                  new
                  ∙ ap (λ (x : Mutation (List EncryptedRecord) Bool). x.rows)
                      (sym (ok_injective made))
                  ∙ same in
                rw rows_are (kept_view key t t' m m' s.rows none_left)
          ]
          | inr (persists, left) ↦
              let (n, made, _, kept) = enqueue_mutation_answer w mutate s done in
              let n_is = ok_injective made in
              rw
                (
                  kept (
                      subst (λ (x : Mutation (List EncryptedRecord) Bool). x.persist ≡ true) n_is
                        persists),
                  ap (λ (x : Mutation (List EncryptedRecord) Bool). x.rows) (sym n_is),
                  left,
                )
                (get_from_records-dropped c faithful key t t' m m' s.rows)
        ])
      ]

module _ (c : Cipher) (key : Option (List ℕ)) where
  -- One call: whether it was answered, and the store after it.
  unfoldable pub serve_link : LinkCall → LinkStore → Bool × LinkStore
  serve_link (set_call w t m p iv now) s =
      let (r, s') = set_link c key w t m p iv now s in (is_ok r, s')
  serve_link (remove_call w t m) s = let (r, s') = remove_link key w t m s in (is_ok r, s')

  unfoldable pub run_links : List LinkCall → LinkStore → LinkStore
  run_links [] s = s
  run_links (call ∷ calls) s = run_links calls (serve_link call s).1

  -- The calls of a run, each with whether it was answered.
  unfoldable pub log_links : List LinkCall → LinkStore → List (LinkCall × Bool)
  log_links [] s = []
  log_links (call ∷ calls) s =
      let (answered, s') = serve_link call s in (call, answered) ∷ log_links calls s'

-- The answered calls on what was seen before them, with no store and no cipher.
unfoldable pub replay_links : List (LinkCall × Bool) → View → View
replay_links [] v = v
replay_links ((call, answered) ∷ log) v = replay_links log (replay_call call answered v)

abbrev pub view_of : Cipher → Option (List ℕ) → LinkStore → View
view_of c key s = λ t m. get_link c key t m s

module _ (c : Cipher) (faithful : IsFaithful c) where
  serve_set_view :
      (k : List ℕ) (w : Writes) (t t' : Text) (m m' : Market) (p : LinkPayload) (iv now : Text)
      (s : LinkStore)
      → let r = set_parsed c k w t m iv now (parse_payload p) s in
        get_from_records c k r.1.rows t' m'
        ≡ replay_call (set_call w t m p iv now) (is_ok r.0) (get_from_records c k s.rows) t' m'
  unfolding set_parsed
  serve_set_view k w t t' m m' p iv now s = elim (Result-cases (parse_payload p)) [
    | inr (e, bad) ↦ rw bad refl
    | inl (q, good) ↦
        let same = parse_payload_same p q good in
        rw (good, sym same)
          (set_enqueued_view c faithful k w t t' m m' p iv now s (good ∙ ap ok (sym same)))
  ]

  serve_link_view :
      (key : Option (List ℕ)) (call : LinkCall) (s : LinkStore) (t : Text) (m : Market)
      → view_of c key (serve_link c key call s).1 t m
        ≡ replay_call call (serve_link c key call s).0 (view_of c key s) t m
  unfolding serve_link set_link remove_link get_link
  serve_link_view none (set_call w t' m' p iv now) s t m = refl
  serve_link_view none (remove_call w t' m') s t m = refl
  serve_link_view (some k) (set_call w t' m' p iv now) s t m =
      serve_set_view k w t' t m' m p iv now s
  serve_link_view (some k) (remove_call w t' m') s t m =
      remove_enqueued_view c faithful k w t' t m' m s

  -- After any calls, of which some are refused and some cannot be written, each tenant sees for each
  -- marketplace what the answered calls leave in a table of links in the clear: the account, source
  -- and instant of its last link if no removal came after it, and otherwise what was seen
  -- before or nothing. What is encrypted has to be decrypted to itself; a key may be configured
  -- or not.
  pub run_links_refines :
      (key : Option (List ℕ)) (calls : List LinkCall) (s : LinkStore)
      → view_of c key (run_links c key calls s)
        ≡ replay_links (log_links c key calls s) (view_of c key s)
  unfolding run_links log_links replay_links
  run_links_refines key [] s = refl
  run_links_refines key (call ∷ calls) s =
      run_links_refines key calls (serve_link c key call s).1
      ∙ ap (replay_links (log_links c key calls (serve_link c key call s).1))
          (fun_ext (λ t. fun_ext (λ m. serve_link_view key call s t m)))

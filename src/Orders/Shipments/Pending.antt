-- ===== src/Orders/Shipments/Pending.antt =====
-- src/orders/shipmentBatch.ts, `resumeShipmentApiBatches`, and src/orders/shipmentExecutionPlan.ts,
-- `pendingBatchesFor`: the calls that are left after some of them succeeded. An empty text for the
-- last key counts as none there, and is none here.
use online_seller_control_hu.Common.{
  ℕ, ◌≡◌, refl, sym, ◌∙◌, ap, subst, inl, inr, false, ◌&&◌, ◌||◌, not, Option, none, some, List, [],
  ◌∷◌, ◌++◌, map, ◌==◌, eq_of_==, Text, text_eq, nat_eq, if◌then◌else◌, Result, ok, throw, ◌>>=◌,
  filter, arith, Bool-cases, returned-first, ok_injective, includes, Eq, pair_eq,
}
use online_seller_control_hu.Core.Types.{Market, market_eq}
use online_seller_control_hu.Orders.Shipments.{RetryKey, ShipmentApiBatch}

abbrev pub parts : RetryKey → Market × (ℕ × (ℕ × Text))
parts k = (k.market, (k.number, (k.batch_count, k.fingerprint)))

pub of_parts : (k j : RetryKey) → parts k ≡ parts j → k ≡ j
of_parts k j e =
    ap (λ p. record { market = p.0; number = p.1.0; batch_count = p.1.1.0; fingerprint = p.1.1.1 })
      e

unfoldable pub retry_key_discrete : (k j : RetryKey) → Dec (k ≡ j)
retry_key_discrete k j = elim (market_eq.dec_eq k.market j.market) [
  | no n ↦ no (λ h. n (ap (λ r. r.market) h))
  | yes a ↦ elim (nat_eq.dec_eq k.number j.number) [
    | no n ↦ no (λ h. n (ap (λ r. r.number) h))
    | yes b ↦ elim (nat_eq.dec_eq k.batch_count j.batch_count) [
      | no n ↦ no (λ h. n (ap (λ r. r.batch_count) h))
      | yes c ↦ elim (text_eq.dec_eq k.fingerprint j.fingerprint) [
        | no n ↦ no (λ h. n (ap (λ r. r.fingerprint) h))
        | yes d ↦ yes (of_parts k j (cc))
      ]
    ]
  ]
]

instance abbrev pub retry_key_eq : Eq RetryKey
retry_key_eq = record { dec_eq = retry_key_discrete }

pub data ResumeError : Type 0 where
  unknown_resume_key both_resumes unknown_completed_key repeated_completed_key : ResumeError

abbrev pub keys_of : List ShipmentApiBatch → List RetryKey
keys_of = map (λ b. b.retry_key)

-- `findIndex`, and the slice after that index.
unfoldable pub after_key :
    RetryKey → List ShipmentApiBatch → Result ResumeError (List ShipmentApiBatch)
after_key k [] = throw unknown_resume_key
after_key k (b ∷ bs) = let rest = after_key k bs in if b.retry_key == k then ok bs else rest

unfoldable pub resume_shipment_api_batches :
    List ShipmentApiBatch → Option RetryKey → Result ResumeError (List ShipmentApiBatch)
resume_shipment_api_batches batches none = ok batches
resume_shipment_api_batches batches (some k) = after_key k batches

unfoldable pub collect_completed :
    List RetryKey → List RetryKey → List RetryKey → Result ResumeError (List RetryKey)
collect_completed valid completed [] = ok completed
collect_completed valid completed (k ∷ ks) =
    let rest = collect_completed valid (k ∷ completed) ks in
    if not (includes k valid)
    then throw unknown_completed_key
    else if includes k completed
    then throw repeated_completed_key
    else rest

unfoldable pub pending_batches_for :
    List ShipmentApiBatch
    → Option RetryKey
    → List RetryKey
    → Result ResumeError (List ShipmentApiBatch)
pending_batches_for batches (some k) (c ∷ cs) = throw both_resumes
pending_batches_for batches none (c ∷ cs) =
    collect_completed (keys_of batches) [] (c ∷ cs) >>= λ completed.
    ok (filter (λ b. not (includes b.retry_key completed)) batches)
pending_batches_for batches none [] = resume_shipment_api_batches batches none
pending_batches_for batches (some k) [] = resume_shipment_api_batches batches (some k)

after_key-split :
    (k : RetryKey) (batches pending : List ShipmentApiBatch)
    → after_key k batches ≡ ok pending
    → (sent : List ShipmentApiBatch) × (last : ShipmentApiBatch) × (batches
        ≡ sent ++ (last ∷ pending))
      × (last.retry_key ≡ k)
      × (includes k (keys_of sent) ≡ false)
unfolding after_key
after_key-split k [] pending h = absurd (cc)
after_key-split k (b ∷ bs) pending h = elim (Bool-cases (b.retry_key == k)) [
  | inl e ↦ ([], b, ap (λ xs. b ∷ xs) (ok_injective (rw e at h)), eq_of_== b.retry_key k e, refl)
  | inr e ↦
      let (sent, last, whole, same, fresh) = after_key-split k bs pending (rw e at h) in
      (b ∷ sent, last, rw whole refl, same, ground (arith, e, fresh))
]

collect_completed-includes :
    (x : RetryKey) (valid completed ks done : List RetryKey)
    → collect_completed valid completed ks ≡ ok done
    → includes x done ≡ (includes x ks || includes x completed)
unfolding collect_completed
collect_completed-includes x valid completed [] done h = ap (includes x) (sym (ok_injective h))
collect_completed-includes x valid completed (k ∷ ks) done h =
    elim (Bool-cases (includes k valid)) [
      | inr v ↦ absurd (ground (arith, rw v at h))
      | inl v ↦ elim (Bool-cases (includes k completed)) [
        | inl r ↦ absurd (ground (arith, rw (v, r) at h))
        | inr r ↦
            let rest =
              collect_completed-includes x valid (k ∷ completed) ks done (rw (v, r) at h) in
            ground (arith, rest)
      ]
    ]

filter-includes :
    (x : RetryKey) (done : List RetryKey) (batches : List ShipmentApiBatch)
    → includes x (keys_of (filter (λ b. not (includes b.retry_key done)) batches))
      ≡ (includes x (keys_of batches) && not (includes x done))
filter-includes x done [] = refl
filter-includes x done (b ∷ bs) =
    let rest = filter-includes x done bs in
    elim (Bool-cases (x == b.retry_key)) [
      | inl e ↦
          let same = ap (λ k. includes k done) (eq_of_== x b.retry_key e) in
          ground (arith, rest, e, same)
      | inr e ↦ ground (arith, rest, e)
    ]

-- What is left of a plan, told without the loops.
abbrev pub Remains :
    List ShipmentApiBatch
    → (last : Option RetryKey) → (completed : List RetryKey) → List ShipmentApiBatch
    → Type 0
Remains batches none [] pending = pending ≡ batches
Remains batches (some k) [] pending =
    (sent : List ShipmentApiBatch) × (last : ShipmentApiBatch) × (batches
      ≡ sent ++ (last ∷ pending))
    × (last.retry_key ≡ k)
    × (includes k (keys_of sent) ≡ false)
Remains batches none (c ∷ cs) pending =
    (x : RetryKey)
    → includes x (keys_of pending) ≡ (includes x (keys_of batches) && not (includes x (c ∷ cs)))
Remains batches (some k) (c ∷ cs) pending = ⊥

-- Of a plan that is resumed there remains: all of it where nothing is named; what follows the first
-- call with the key of the last success, which the plan has; or, where the completed calls are
-- named in any order, the keys of the plan that are not named. Both together are refused.
pub pending_batches_for-Remains :
    (batches : List ShipmentApiBatch) (last : Option RetryKey) (completed : List RetryKey)
    (pending : List ShipmentApiBatch)
    → pending_batches_for batches last completed ≡ ok pending
    → Remains batches last completed pending
unfolding pending_batches_for resume_shipment_api_batches
pending_batches_for-Remains batches none [] pending h = sym (ok_injective h)
pending_batches_for-Remains batches (some k) [] pending h = after_key-split k batches pending h
pending_batches_for-Remains batches (some k) (c ∷ cs) pending h = cc
pending_batches_for-Remains batches none (c ∷ cs) pending h = λ x.
    let (done, kept, collected) =
      returned-first _ (collect_completed (keys_of batches) [] (c ∷ cs)) h in
    let inside = collect_completed-includes x (keys_of batches) [] (c ∷ cs) done collected in
    subst
      (λ p. includes x (keys_of p) ≡ (includes x (keys_of batches) && not (includes x (c ∷ cs))))
      (ok_injective kept) (filter-includes x done batches ∙ ground (arith, inside))

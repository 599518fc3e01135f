-- ===== src/Web/AbuseGuard/Eviction.antt =====
-- src/web/authAbuseGuard.ts: `evictOldest` keeps a map within its size and drops what was seen least
-- recently.
use online_seller_control_hu.Common.{
  ℕ, ◌+◌, ◌-◌, ◌≤◌, ◌≡◌, refl, subst, ◌⊎◌, inl, inr, false, none, some, [], ◌∷◌, Text, text_eq,
  length, ltb, arith, Bool-cases, All, zero, suc, includes, ◌==◌, is_empty, eq_of_==,
}
use online_seller_control_hu.Common.Dicts.{
  Dict, get, delete, keys, HasUniqueKeys, delete-HasUniqueKeys, get-delete, get-none, All-delete,
  All-get,
}
use online_seller_control_hu.Web.AbuseGuard.{
  Bucket, oldest_from, evict_found, evict_from, evict_oldest,
}

-- An entry of the map: its key and when it was seen.
abbrev IsEntry : Dict Text Bucket → Text × ℕ → Type 0
IsEntry buckets (k, t) = (b : Bucket) × (get k buckets ≡ some b) × (b.last_seen_at ≡ t)

later-IsEntry :
    (j : Text) (b : Bucket) (buckets : Dict Text Bucket) (r : Text × ℕ)
    → includes j (keys buckets) ≡ false
    → IsEntry buckets r
    → IsEntry ((j, b) ∷ buckets) r
unfolding get
later-IsEntry j b buckets (k, t) new (c, found, seen) =
    (c, ground (arith, get-none j buckets new), seen)

first-IsEntry :
    (j : Text) (b : Bucket) (buckets : Dict Text Bucket) (r : Text × ℕ)
    → r ≡ (j, b.last_seen_at)
    → IsEntry ((j, b) ∷ buckets) r
unfolding get
first-IsEntry j b buckets (k, t) e = (b, ground arith, ground arith)

-- The loop ends with what it had, or with an entry; nothing was seen before that.
oldest_from-lem :
    (k : Text) (t : ℕ) (buckets : Dict Text Bucket)
    → HasUniqueKeys buckets
    → (r : Text × ℕ) × (oldest_from (some (k, t)) buckets ≡ some r)
      × (r.1 ≤ t)
      × All (λ e. r.1 ≤ e.1.last_seen_at) buckets
      × ((r ≡ (k, t)) ⊎ IsEntry buckets r)
unfolding oldest_from
oldest_from-lem k t [] u = ((k, t), refl, omega arith, tt, inl refl)
oldest_from-lem k t ((j, b) ∷ buckets) u = elim (Bool-cases (ltb b.last_seen_at t)) [
  | inl e ↦
      let (r, found, le, all, entry) = oldest_from-lem j b.last_seen_at buckets u.1 in
      (
        r,
        rw e found,
        ground (arith, le),
        (le, all),
        inr (elim entry [
          | inl start ↦ first-IsEntry j b buckets r start
          | inr later ↦ later-IsEntry j b buckets r u.0 later
        ]),
      )
  | inr e ↦
      let (r, found, le, all, entry) = oldest_from-lem k t buckets u.1 in
      (
        r,
        rw e found,
        le,
        (ground (arith, le), all),
        elim entry [
          | inl start ↦ inl start
          | inr later ↦ inr (later-IsEntry j b buckets r u.0 later)
        ],
      )
]

-- Of a map that is not empty, the loop finds an entry that was seen first.
oldest_found :
    (buckets : Dict Text Bucket)
    → HasUniqueKeys buckets
    → 1 ≤ length buckets
    → (r : Text × ℕ) × (oldest_from none buckets ≡ some r)
      × IsEntry buckets r
      × All (λ e. r.1 ≤ e.1.last_seen_at) buckets
unfolding oldest_from
oldest_found [] u h = absurd (omega (arith, h))
oldest_found ((j, b) ∷ buckets) u h =
    let (r, found, le, all, entry) = oldest_from-lem j b.last_seen_at buckets u.1 in
    (
      r,
      found,
      elim entry [
        | inl start ↦ first-IsEntry j b buckets r start
        | inr later ↦ later-IsEntry j b buckets r u.0 later
      ],
      (le, all),
    )

delete_absent :
    (k : Text) (buckets : Dict Text Bucket)
    → includes k (keys buckets) ≡ false
    → delete k buckets ≡ buckets
unfolding delete
delete_absent k [] h = refl
delete_absent k ((j, b) ∷ buckets) h = ground (arith, delete_absent k buckets)

length-delete :
    (k : Text) (b : Bucket) (buckets : Dict Text Bucket)
    → HasUniqueKeys buckets
    → get k buckets ≡ some b
    → length (delete k buckets) + 1 ≡ length buckets
unfolding get delete
length-delete k b [] u h = cc
length-delete k b ((j, c) ∷ buckets) u h =
    ground (arith, length-delete k b buckets u.1, delete_absent k buckets)

-- No key of the map is empty: they are hashes.
abbrev pub HasNames : Dict Text Bucket → Type 0
HasNames buckets = All (λ e. is_empty e.0 ≡ false) buckets

get-named :
    (k : Text) (b : Bucket) (buckets : Dict Text Bucket)
    → HasNames buckets
    → get k buckets ≡ some b
    → is_empty k ≡ false
unfolding get
get-named k b [] n h = cc
get-named k b ((j, c) ∷ buckets) n h = elim (Bool-cases (j == k)) [
  | inl e ↦ subst (λ x. is_empty x ≡ false) (eq_of_== j k e) n.0
  | inr e ↦ get-named k b buckets n.1 (rw e at h)
]

-- What is kept is unchanged, and was seen no earlier than what is dropped.
pub record IsEvicted (buckets after : Dict Text Bucket) : Type 0 where
  pub kept : (j : Text) (b : Bucket) → get j after ≡ some b → get j buckets ≡ some b
  pub recent :
      (j k : Text) (b c : Bucket)
      → get j after ≡ some b
      → get k buckets ≡ some c
      → get k after ≡ none
      → c.last_seen_at ≤ b.last_seen_at

unchanged-IsEvicted : (buckets : Dict Text Bucket) → IsEvicted buckets buckets
unchanged-IsEvicted buckets = record { kept = λ j b h. h; recent = λ j k b c h g n. cc }

-- One round, and the rounds after it.
module _ (buckets after : Dict Text Bucket) (k : Text) (t : ℕ) (entry : IsEntry buckets (k, t))
    (first : All (λ e. t ≤ e.1.last_seen_at) buckets)
    (rest : IsEvicted (delete k buckets) after) where
  kept-delete : (j : Text) (b : Bucket) → get j after ≡ some b → get j buckets ≡ some b
  kept-delete j b h = ground (arith, rest.kept j b h, get-delete k j buckets)

  recent-delete :
      (j m : Text) (b c : Bucket)
      → get j after ≡ some b
      → get m buckets ≡ some c
      → get m after ≡ none
      → c.last_seen_at ≤ b.last_seen_at
  recent-delete j m b c h g n = elim (Bool-cases (k == m)) [
    | inl e ↦
        let (x, found, seen) = entry in
        let same : get m buckets ≡ some x =
          subst (λ i. get i buckets ≡ some x) (eq_of_== k m e) found in
        let bound : t ≤ b.last_seen_at =
          All-get (λ v. t ≤ v.last_seen_at) j b buckets first (kept-delete j b h) in
        ground (arith, same, seen, bound, g)
    | inr e ↦ rest.recent j m b c h (rw (get-delete k m buckets, e) g) n
  ]

  delete-IsEvicted : IsEvicted buckets after
  delete-IsEvicted = record { kept = kept-delete; recent = recent-delete }

evict_from-IsEvicted :
    (n max_size : ℕ) (buckets : Dict Text Bucket)
    → HasUniqueKeys buckets
    → HasNames buckets
    → IsEvicted buckets (evict_from n max_size buckets)
      × (length buckets ≤ n + max_size → length (evict_from n max_size buckets) ≤ max_size)
unfolding evict_from evict_found
evict_from-IsEvicted zero max_size buckets u names =
    (unchanged-IsEvicted buckets, λ h. omega (arith, h))
evict_from-IsEvicted (suc n) max_size buckets u names =
    elim (Bool-cases (ltb max_size (length buckets))) [
      | inr e ↦ rw e (unchanged-IsEvicted buckets, λ h. ground (arith, e))
      | inl e ↦
          let (r, found, entry, all) = oldest_found buckets u (ground (arith, e)) in
          let (b, here, seen) = entry in
          let named = get-named r.0 b buckets names here in
          let (rest, size) =
            evict_from-IsEvicted n max_size (delete r.0 buckets)
              (delete-HasUniqueKeys r.0 buckets u)
              (All-delete (λ x. is_empty x.0 ≡ false) r.0 buckets names) in
          let less = length-delete r.0 b buckets u here in
          rw (e, found, named)
            (
              delete-IsEvicted buckets (evict_from n max_size (delete r.0 buckets)) r.0 r.1 entry
                  all rest,
              λ h. size (omega (arith, h, less)),
            )
    ]

-- Eviction leaves no more than the given number of buckets. Those that it leaves are unchanged,
-- and each was seen no earlier than any that it drops. The keys of the map differ and are not empty.
pub evict_oldest-IsEvicted :
    (buckets : Dict Text Bucket) (max_size : ℕ)
    → HasUniqueKeys buckets
    → HasNames buckets
    → (length (evict_oldest buckets max_size) ≤ max_size)
      × IsEvicted buckets (evict_oldest buckets max_size)
unfolding evict_oldest
evict_oldest-IsEvicted buckets max_size u names =
    let (evicted, size) =
      evict_from-IsEvicted (length buckets - max_size) max_size buckets u names in
    (size (omega arith), evicted)

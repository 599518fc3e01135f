-- ===== src/Persistence/Accounts/Sessions.antt =====
-- src/persistence/accountStore.ts: a user has no more than five sessions.
use online_seller_control_hu.Common.{
  ℕ, ◌+◌, ◌-◌, ◌≤◌, ◌≡◌, refl, subst, inl, inr, true, false, some, List, [], ◌∷◌, map, Text,
  text_eq, length, arith, Bool-cases, All, includes, ◌==◌, ==_refl, eq_of_==, filter, count_if,
  take, All-take, length-take, take-IsUnique, IsUnique, filter-IsUnique,
}
use online_seller_control_hu.Common.Dicts.{
  Dict, get, delete, keys, values, HasUniqueKeys, get-delete, get-none, delete-HasUniqueKeys,
}
use online_seller_control_hu.Common.Indexes.{values-IsUnique}
use online_seller_control_hu.Common.Sorting.{sort, sort-IsUnique, All-sort, length-sort}
use online_seller_control_hu.Persistence.Accounts.{
  Session, of_user, not_after, delete_sessions, enforce_session_limit,
}

-- Each session stands under its own identifier, once.
pub record IsKeyed (sessions : Dict Text Session) : Type 0 where
  pub unique : HasUniqueKeys sessions
  pub keyed : All (λ e. e.1.session_id ≡ e.0) sessions

abbrev pub sessions_of : Text → Dict Text Session → ℕ
sessions_of user_id sessions = count_if (of_user user_id) (values sessions)

-- A session of the user that is found under its identifier.
abbrev pub IsStored : Text → Dict Text Session → Session → Type 0
IsStored user_id sessions s = (get s.session_id sessions ≡ some s) × (of_user user_id s ≡ true)

module _ (user_id : Text) where
  delete_absent : (k : Text) (d : Dict Text Session) → includes k (keys d) ≡ false → delete k d ≡ d
  unfolding delete
  delete_absent k [] h = refl
  delete_absent k ((j, s) ∷ d) h = ground (arith, delete_absent k d)

  sessions_of-delete :
      (k : Text) (s : Session) (d : Dict Text Session)
      → HasUniqueKeys d
      → get k d ≡ some s
      → of_user user_id s ≡ true
      → sessions_of user_id (delete k d) + 1 ≡ sessions_of user_id d
  unfolding get delete
  sessions_of-delete k s [] u h m = cc
  sessions_of-delete k s ((j, r) ∷ d) u h m = elim (Bool-cases (j == k)) [
    | inl e ↦
        let gone =
          delete_absent k d (subst (λ x. includes x (keys d) ≡ false) (eq_of_== j k e) u.0) in
        let found : some r ≡ some s = rw e at h in
        let same : r ≡ s = cc in
        let mine : of_user user_id r ≡ true = rw same m in rw (e, gone, mine) (omega arith)
    | inr e ↦
        let rest = sessions_of-delete k s d u.1 (rw e at h) m in
        rw e (elim (Bool-cases (of_user user_id r)) [
          | inl mine ↦ rw mine (omega (arith, rest))
          | inr other ↦ rw other rest
        ])
  ]

  IsStored-delete :
      (k : Text) (d : Dict Text Session) (ss : List Session)
      → includes k (map (λ s. s.session_id) ss) ≡ false
      → All (IsStored user_id d) ss
      → All (IsStored user_id (delete k d)) ss
  IsStored-delete k d [] n a = tt
  IsStored-delete k d (s ∷ ss) n a = (
    (ground (arith, get-delete k s.session_id d, a.0), a.0.1),
    IsStored-delete k d ss (ground arith) a.1,
  )

  sessions_of-delete_sessions :
      (ss : List Session) (d : Dict Text Session)
      → HasUniqueKeys d
      → IsUnique (λ s. s.session_id) ss
      → All (IsStored user_id d) ss
      → sessions_of user_id (delete_sessions ss d) + length ss ≡ sessions_of user_id d
  unfolding delete_sessions
  sessions_of-delete_sessions [] d u v a = omega arith
  sessions_of-delete_sessions (s ∷ ss) d u v a = omega (
    arith,
    sessions_of-delete s.session_id s d u a.0.0 a.0.1,
    sessions_of-delete_sessions ss (delete s.session_id d) (delete-HasUniqueKeys s.session_id d u)
        v.1 (IsStored-delete s.session_id d ss v.0 a.1),
  )

-- The sessions of a user, as the store finds them.
module _ (user_id : Text) where
  later-IsStored :
      (j : Text) (r : Session) (d : Dict Text Session) (ss : List Session)
      → includes j (keys d) ≡ false
      → All (IsStored user_id d) ss
      → All (IsStored user_id ((j, r) ∷ d)) ss
  unfolding get
  later-IsStored j r d [] n a = tt
  later-IsStored j r d (s ∷ ss) n a =
      ((ground (arith, get-none j d n, a.0), a.0.1), later-IsStored j r d ss n a.1)

  values-IsStored :
      (d : Dict Text Session)
      → IsKeyed d
      → All (IsStored user_id d) (filter (of_user user_id) (values d))
  unfolding get
  values-IsStored [] k = tt
  values-IsStored ((j, r) ∷ d) k =
      let rest =
        later-IsStored j r d _ k.unique.0
          (values-IsStored d (record { unique = k.unique.1; keyed = k.keyed.1 })) in
      elim (Bool-cases (of_user user_id r)) [
        | inl mine ↦
            let key : r.session_id ≡ j = k.keyed.0 in
            rw mine ((rw (key, ==_refl j) refl, mine), rest)
        | inr other ↦ rw other rest
      ]

  -- As many sessions are left as were asked for.
  pub enforce_session_limit_lem :
      (max_existing : ℕ) (d : Dict Text Session)
      → IsKeyed d
      → sessions_of user_id (enforce_session_limit user_id max_existing d) ≤ max_existing
  unfolding enforce_session_limit
  enforce_session_limit_lem max_existing d k =
      let mine = sort not_after (filter (of_user user_id) (values d)) in
      let n = length mine - max_existing in
      let unique : IsUnique (λ s. s.session_id) mine =
        sort-IsUnique (λ s. s.session_id) not_after _
          (filter-IsUnique (λ s. s.session_id) (of_user user_id) (values d)
            (values-IsUnique (λ s. s.session_id) d k.keyed k.unique)) in
      let stored : All (IsStored user_id d) mine =
        All-sort (IsStored user_id d) not_after _ (values-IsStored d k) in
      omega (
        arith,
        sessions_of-delete_sessions user_id (take n mine) d k.unique
            (take-IsUnique (λ s. s.session_id) n mine unique)
            (All-take (IsStored user_id d) n mine stored),
        length-take n mine (omega arith),
        length-sort not_after (filter (of_user user_id) (values d)),
      )

-- ===== src/Markets/Tokens/Requests.antt =====
-- src/markets/accessTokenCache.ts: what a request gets, and how calls come to an end.
use online_seller_control_hu.Common.{
  ℕ, ◌≤◌, ◌≡◌, length, zero, refl, sym, ap, subst, ◌∙◌, inl, inr, suc, true, false, not, Option,
  none, some, List, [], ◌∷◌, map, ◌==◌, nat_eq, ==_refl, Text, text_eq, leb, filter, is_empty,
  throw, IsUnique, includes, arith, Bool-cases, Option-cases,
}
use online_seller_control_hu.Common.Dicts.{get, delete}
use online_seller_control_hu.Markets.Tokens.{
  TokenEntry, Flight, TokenState, Answer, is_flight, cached, waits, creates, cached_entry,
  get_cached_access_token, join_or_create, answer_cached, get_or_create_access_token, stopped,
  settle_create, forget_promise, clean_up,
}
use online_seller_control_hu.Markets.Tokens.Steps.{
  has_flight, has_call, IsSingle, settle, clean, Reach, here, next,
}
use online_seller_control_hu.Markets.Tokens.Single.{IsSingle-cache, no_flight, Reach-IsSingle}

-- What the answer to a request says of the calls before and after it.
abbrev pub Fits : Text → TokenState → Answer → TokenState → Type 0
Fits key s (cached token) s' = s'.flights ≡ s.flights
Fits key s (waits promise) s' = (has_flight promise key s.flights ≡ true) × (s'.flights ≡ s.flights)
Fits key s (creates promise) s' =
    (includes key (map (λ f. f.key) s.flights) ≡ false)
    × (s'.flights ≡ record { id = promise; key = key; running = true } ∷ s.flights)

join_or_create-Fits :
    (key : Text) (s : TokenState) (o : Option ℕ)
    → get key s.in_flight ≡ o
    → IsSingle s
    → Fits key s (join_or_create key s o).0 (join_or_create key s o).1
unfolding join_or_create
join_or_create-Fits key s (some p) h x = (x.flown key p h, refl)
join_or_create-Fits key s none h x = (no_flight key s.in_flight s.flights h x.known, refl)

answer_cached-Fits :
    (key : Text) (s : TokenState) (o : Option Text)
    → IsSingle s
    → Fits key s (answer_cached key s o).0 (answer_cached key s o).1
unfolding answer_cached
answer_cached-Fits key s none x = join_or_create-Fits key s (get key s.in_flight) refl x
answer_cached-Fits key s (some token) x = elim (Bool-cases (is_empty token)) [
  | inl e ↦ rw e (join_or_create-Fits key s (get key s.in_flight) refl x)
  | inr e ↦ rw e refl
]

cached_entry-Fits :
    (key : Text) (now : ℕ) (s : TokenState) (o : Option TokenEntry)
    → IsSingle s
    → let r = cached_entry key now s o in
      Fits key s (answer_cached key r.1 r.0).0 (answer_cached key r.1 r.0).1
unfolding cached_entry answer_cached join_or_create
cached_entry-Fits key now s none x = answer_cached-Fits key s none x
cached_entry-Fits key now s (some entry) x = elim (Bool-cases (leb entry.expires_at now)) [
  | inr e ↦ rw e (answer_cached-Fits key s (some entry.access_token) x)
  | inl e ↦
      let emptied = record s { cache = delete key s.cache } in
      rw e (
        join_or_create-Fits key emptied (get key s.in_flight) refl
          (IsSingle-cache s (delete key s.cache) x))
]

-- In any state that calls can lead to, in whatever order they are made, end and are cleaned up: no key has
-- two open calls of `create`; a request with no cached token waits for the open call of its key,
-- and starts a call only if its key has none.
pub request-Fits :
    (start s : TokenState) (key : Text) (now : ℕ)
    → IsSingle start
    → Reach start s
    → IsUnique (λ f. f.key) s.flights
      × Fits key s (get_or_create_access_token key now s).0 (get_or_create_access_token key now s).1
unfolding get_or_create_access_token get_cached_access_token
request-Fits start s key now x r =
    let single = Reach-IsSingle x r in
    (single.unique, cached_entry-Fits key now s (get key s.cache) single)

has_call_head : (f : Flight) (fs : List Flight) → has_call f.running f.id f.key (f ∷ fs) ≡ true
has_call_head f fs = ground (arith, ==_refl f.id, ==_refl f.key)

-- To clean up a flight takes it off the list.
length-cleaned-le :
    (f : Flight) (fs : List Flight)
    → length (filter (λ g. not (is_flight f.id f.key g)) fs) ≤ length fs
length-cleaned-le f [] = omega arith
length-cleaned-le f (g ∷ fs) = ground (arith, length-cleaned-le f fs)

stopped-dropped :
    (f : Flight) (fs : List Flight)
    → filter (λ g. not (is_flight f.id f.key g)) (map (stopped f) fs)
      ≡ filter (λ g. not (is_flight f.id f.key g)) fs
stopped-dropped f [] = refl
stopped-dropped f (g ∷ fs) = ground (arith, stopped-dropped f fs)

flights-clean_up :
    (f : Flight) (s : TokenState)
    → (clean_up f s).flights ≡ filter (λ g. not (is_flight f.id f.key g)) s.flights
unfolding clean_up forget_promise
flights-clean_up f s = forgotten (get f.key s.in_flight)
  where
    forgotten :
        (o : Option ℕ)
        → (forget_promise f
            (record s { flights = filter (λ g. not (is_flight f.id f.key g)) s.flights })
            o).flights
          ≡ filter (λ g. not (is_flight f.id f.key g)) s.flights
    forgotten none = refl
    forgotten (some p) = elim (Bool-cases (p == f.id)) [ inl e ↦ rw e refl | inr e ↦ rw e refl ]

Reach-trans : {s t u : TokenState} → Reach s t → Reach t u → Reach s u
Reach-trans r here = r
Reach-trans r (next q st) = next (Reach-trans r q) st

length-dropped-le :
    (f : Flight) (fs gs : List Flight)
    → gs ≡ f ∷ fs
    → length (filter (λ g. not (is_flight f.id f.key g)) gs) ≤ length fs
length-dropped-le f fs gs e = rw (e, ==_refl f.id, ==_refl f.key) (length-cleaned-le f fs)

cleaned_down :
    (s : TokenState) (f : Flight) (fs : List Flight)
    → s.flights ≡ f ∷ fs
    → f.running ≡ false
    → (t : TokenState) × Reach s t × (length t.flights ≤ length fs)
cleaned_down s f fs e off =
    let open_call : has_call false f.id f.key s.flights ≡ true =
      rw e (ground (arith, off, ==_refl f.id, ==_refl f.key)) in
    (
      clean_up f s,
      next here (clean f open_call),
      subst (λ gs. length gs ≤ length fs) (sym (flights-clean_up f s))
          (length-dropped-le f fs s.flights e),
    )

-- The first open call can end and be cleaned up.
one_down :
    (s : TokenState) (f : Flight) (fs : List Flight)
    → s.flights ≡ f ∷ fs
    → (t : TokenState) × Reach s t × (length t.flights ≤ length fs)
unfolding settle_create
one_down s f fs e = elim (Bool-cases f.running) [
  | inr off ↦ cleaned_down s f fs e off
  | inl on ↦
      let failed = record s { flights = map (stopped f) s.flights } in
      let running : has_call true f.id f.key s.flights ≡ true =
        rw e (ground (arith, on, ==_refl f.id, ==_refl f.key)) in
      let ended : has_call false f.id f.key failed.flights ≡ true =
        subst (λ gs. has_call false f.id f.key (map (stopped f) gs) ≡ true) (sym e)
          (ground (arith, ==_refl f.id, ==_refl f.key)) in
      (
        clean_up f failed,
        next (next here (settle f (throw []) 0 running)) (clean f ended),
        subst (λ gs. length gs ≤ length fs)
            (sym (flights-clean_up f failed ∙ stopped-dropped f s.flights))
            (length-dropped-le f fs s.flights e),
      )
]

drained :
    (n : ℕ) (s : TokenState)
    → length s.flights ≤ n
    → (t : TokenState) × Reach s t × (t.flights ≡ [])
drained n s h = down n s s.flights refl h
  where
    down :
        (n : ℕ) (s : TokenState) (gs : List Flight)
        → s.flights ≡ gs
        → length s.flights ≤ n
        → (t : TokenState) × Reach s t × (t.flights ≡ [])
    down n s [] e h = (s, here, e)
    down zero s (f ∷ fs) e h = absurd (omega (arith, ap length e, h))
    down (suc n) s (f ∷ fs) e h =
        let (t, r, less) = one_down s f fs e in
        let (u, q, done) = down n t t.flights refl (omega (arith, ap length e, h, less)) in
        (u, Reach-trans r q, done)

-- From any state that calls can lead to, the open calls of `create` can end and be cleaned up; then no
-- promise is left in flight, so that no key keeps waiting.
pub promises_can_end :
    (start s : TokenState)
    → IsSingle start
    → Reach start s
    → (t : TokenState) × Reach s t × (t.flights ≡ []) × ((key : Text) → get key t.in_flight ≡ none)
promises_can_end start s x r =
    let (t, q, done) = drained (length s.flights) s (omega arith) in
    let single = Reach-IsSingle x (Reach-trans r q) in
    (
      t,
      q,
      done,
      λ key. elim (Option-cases (get key t.in_flight)) [
        | inl e ↦ e
        | inr (id, e) ↦
            let flown : has_flight id key [] ≡ true =
              subst (λ fs. has_flight id key fs ≡ true) done (single.flown key id e) in
            cc
      ],
    )

-- ===== src/Markets/Tokens/Single.antt =====
-- src/markets/accessTokenCache.ts: one call of `create` for a key at a time.
use online_seller_control_hu.Common.{
  ℕ, ◌≡◌, refl, sym, ap, subst, ◌∙◌, inl, inr, Bool, true, false, not, Option, none, some, List, [],
  ◌∷◌, map, ◌==◌, nat_eq, ==_refl, eq_of_==, Text, text_eq, leb, filter, is_empty, Result, ok,
  throw, All, IsUnique, includes, arith, Bool-cases, filter-IsUnique,
}
use online_seller_control_hu.Common.Dicts.{Dict, get, set, delete, get-set, get-delete}
use online_seller_control_hu.Markets.Tokens.{
  TokenEntry, CreatedToken, Flight, TokenState, is_flight, cached_entry, get_cached_access_token,
  set_cached_access_token, join_or_create, answer_cached, get_or_create_access_token, stopped,
  settle_create, forget_promise, clean_up, invalidate_cached_access_token,
}
use online_seller_control_hu.Markets.Tokens.Steps.{
  IsSingle, Reach, Step, clean, has_call, has_flight, here, invalidate, next, request, settle,
}

-- A change of the cache alone.
pub IsSingle-cache :
    (s : TokenState) (c : Dict Text TokenEntry) → IsSingle s → IsSingle (record s { cache = c })
IsSingle-cache s c x = record { known = x.known; unique = x.unique; flown = x.flown }

-- A key without a promise has no flight.
pub no_flight :
    (key : Text) (d : Dict Text ℕ) (fs : List Flight)
    → get key d ≡ none
    → All (λ f. get f.key d ≡ some f.id) fs
    → includes key (map (λ f. f.key) fs) ≡ false
no_flight key d [] h k = refl
no_flight key d (f ∷ fs) h k = elim (Bool-cases (key == f.key)) [
  | inr e ↦ ground (arith, e, no_flight key d fs h k.1)
  | inl e ↦
      let same = ap (λ (j : Text). get j d) (eq_of_== key f.key e) in
      absurd (ground (arith, same, k.0, h))
]

known-set :
    (key : Text) (id : ℕ) (d : Dict Text ℕ) (fs : List Flight)
    → includes key (map (λ f. f.key) fs) ≡ false
    → All (λ f. get f.key d ≡ some f.id) fs
    → All (λ f. get f.key (set key id d) ≡ some f.id) fs
known-set key id d [] h k = tt
known-set key id d (f ∷ fs) h k =
    (ground (arith, get-set key f.key id d, k.0, h), known-set key id d fs (ground (arith, h)) k.1)

join_or_create-IsSingle :
    (key : Text) (s : TokenState) (o : Option ℕ)
    → get key s.in_flight ≡ o
    → IsSingle s
    → IsSingle (join_or_create key s o).1
unfolding join_or_create
join_or_create-IsSingle key s (some p) h x = x
join_or_create-IsSingle key s none h x =
    let fresh = no_flight key s.in_flight s.flights h x.known in
    record {
      known = (
        ground (arith, get-set key key s.next s.in_flight),
        known-set key s.next s.in_flight s.flights fresh x.known,
      );
      unique = (fresh, x.unique);
      flown = λ k id g. ground (arith, get-set key k s.next s.in_flight, x.flown k id);
    }

answer_cached-IsSingle :
    (key : Text) (s : TokenState) (o : Option Text)
    → IsSingle s
    → IsSingle (answer_cached key s o).1
unfolding answer_cached
answer_cached-IsSingle key s none x = join_or_create-IsSingle key s (get key s.in_flight) refl x
answer_cached-IsSingle key s (some token) x = elim (Bool-cases (is_empty token)) [
  | inl e ↦ rw e (join_or_create-IsSingle key s (get key s.in_flight) refl x)
  | inr e ↦ rw e x
]

cached_entry-IsSingle :
    (key : Text) (now : ℕ) (s : TokenState) (o : Option TokenEntry)
    → IsSingle s
    → IsSingle (cached_entry key now s o).1
unfolding cached_entry
cached_entry-IsSingle key now s none x = x
cached_entry-IsSingle key now s (some entry) x = elim (Bool-cases (leb entry.expires_at now)) [
  | inl e ↦ rw e (IsSingle-cache s (delete key s.cache) x)
  | inr e ↦ rw e x
]

request-IsSingle :
    (key : Text) (now : ℕ) (s : TokenState)
    → IsSingle s
    → IsSingle (get_or_create_access_token key now s).1
unfolding get_or_create_access_token get_cached_access_token
request-IsSingle key now s x =
    let r = cached_entry key now s (get key s.cache) in
    answer_cached-IsSingle key r.1 r.0 (cached_entry-IsSingle key now s (get key s.cache) x)

stopped-known :
    (f : Flight) (d : Dict Text ℕ) (fs : List Flight)
    → All (λ g. get g.key d ≡ some g.id) fs
    → All (λ g. get g.key d ≡ some g.id) (map (stopped f) fs)
stopped-known f d [] h = tt
stopped-known f d (g ∷ fs) h = (ground (arith, h.0), stopped-known f d fs h.1)

stopped-keys :
    (f : Flight) (fs : List Flight) → map (λ g. g.key) fs ≡ map (λ g. g.key) (map (stopped f) fs)
stopped-keys f [] = refl
stopped-keys f (g ∷ fs) = ground (arith, stopped-keys f fs)

IsUnique-stopped :
    (f : Flight) (fs : List Flight)
    → IsUnique (λ g. g.key) fs
    → IsUnique (λ g. g.key) (map (stopped f) fs)
IsUnique-stopped f [] u = tt
IsUnique-stopped f (g ∷ fs) u =
    let same : (stopped f g).key ≡ g.key = ground arith in
    (
      rw same (subst (λ ks. includes g.key ks ≡ false) (stopped-keys f fs) u.0),
      IsUnique-stopped f fs u.1,
    )

has_flight-stopped :
    (f : Flight) (id : ℕ) (key : Text) (fs : List Flight)
    → has_flight id key (map (stopped f) fs) ≡ has_flight id key fs
has_flight-stopped f id key [] = refl
has_flight-stopped f id key (g ∷ fs) = ground (arith, has_flight-stopped f id key fs)

stopped-IsSingle :
    (f : Flight) (s : TokenState)
    → IsSingle s
    → IsSingle (record s { flights = map (stopped f) s.flights })
stopped-IsSingle f s x = record {
  known = stopped-known f s.in_flight s.flights x.known;
  unique = IsUnique-stopped f s.flights x.unique;
  flown = λ key id g. has_flight-stopped f id key s.flights ∙ x.flown key id g;
}

settle-IsSingle :
    (f : Flight) (r : Result Text CreatedToken) (now : ℕ) (s : TokenState)
    → IsSingle s
    → IsSingle (settle_create f r now s)
unfolding settle_create set_cached_access_token
settle-IsSingle f (ok token) now s x =
    IsSingle-cache (record s { flights = map (stopped f) s.flights }) _ (stopped-IsSingle f s x)
settle-IsSingle f (throw e) now s x = stopped-IsSingle f s x

-- The promise of an ended call is still in flight until it is cleaned up.
call-known :
    (b : Bool) (f : Flight) (d : Dict Text ℕ) (fs : List Flight)
    → has_call b f.id f.key fs ≡ true
    → All (λ g. get g.key d ≡ some g.id) fs
    → get f.key d ≡ some f.id
call-known b f d [] h k = cc
call-known b f d (g ∷ fs) h k = elim (Bool-cases (is_flight f.id f.key g)) [
  | inr e ↦ call-known b f d fs (ground (arith, h, e)) k.1
  | inl e ↦
      let id_is = eq_of_== g.id f.id (ground (arith, e)) in
      let key_is = eq_of_== g.key f.key (ground (arith, e)) in
      ap (λ (j : Text). get j d) (sym key_is) ∙ k.0 ∙ ap some id_is
]

cleaned-known :
    (f : Flight) (d : Dict Text ℕ) (fs : List Flight)
    → get f.key d ≡ some f.id
    → All (λ g. get g.key d ≡ some g.id) fs
    → All
        (λ g. get g.key (delete f.key d) ≡ some g.id)
        (filter (λ g. not (is_flight f.id f.key g)) fs)
cleaned-known f d [] h k = tt
cleaned-known f d (g ∷ fs) h k = elim (Bool-cases (f.key == g.key)) [
  | inr e ↦ elim (Bool-cases (is_flight f.id f.key g)) [
    | inl a ↦ rw a (cleaned-known f d fs h k.1)
    | inr a ↦ rw a ((ground (arith, get-delete f.key g.key d, e, k.0)), cleaned-known f d fs h k.1)
  ]
  | inl e ↦
      let key_is = eq_of_== f.key g.key e in
      let id_is : some f.id ≡ some g.id = sym h ∙ ap (λ (j : Text). get j d) key_is ∙ k.0 in
      let same : is_flight f.id f.key g ≡ true = ground (arith, key_is, id_is) in
      rw same (cleaned-known f d fs h k.1)
]

cleaned-flown :
    (f : Flight) (id : ℕ) (key : Text) (fs : List Flight)
    → (f.key == key) ≡ false
    → has_flight id key fs ≡ true
    → has_flight id key (filter (λ g. not (is_flight f.id f.key g)) fs) ≡ true
cleaned-flown f id key [] ne h = h
cleaned-flown f id key (g ∷ fs) ne h = ground (arith, cleaned-flown f id key fs ne)

clean-IsSingle :
    (f : Flight) (s : TokenState)
    → has_call false f.id f.key s.flights ≡ true
    → IsSingle s
    → IsSingle (clean_up f s)
unfolding clean_up forget_promise
clean-IsSingle f s h x =
    let mine = call-known false f s.in_flight s.flights h x.known in
    rw (mine, ==_refl f.id)
      (record {
        known = cleaned-known f s.in_flight s.flights mine x.known;
        unique =
            filter-IsUnique (λ g. g.key) (λ g. not (is_flight f.id f.key g)) s.flights x.unique;
        flown = λ key id g. elim (Bool-cases (f.key == key)) [
          | inl e ↦ absurd (ground (arith, get-delete f.key key s.in_flight, e, g))
          | inr e ↦
              cleaned-flown f id key s.flights e
                (x.flown key id (sym (get-delete f.key key s.in_flight ∙ rw e refl) ∙ g))
        ];
      })

Step-IsSingle : {s t : TokenState} → Step s t → IsSingle s → IsSingle t
unfolding invalidate_cached_access_token
Step-IsSingle {s} (request key now) x = request-IsSingle key now s x
Step-IsSingle {s} (settle f r now h) x = settle-IsSingle f r now s x
Step-IsSingle {s} (clean f h) x = clean-IsSingle f s h x
Step-IsSingle {s} (invalidate token) x = IsSingle-cache s _ x

pub Reach-IsSingle : {s t : TokenState} → IsSingle s → Reach s t → IsSingle t
Reach-IsSingle x here = x
Reach-IsSingle x (next r st) = Step-IsSingle st (Reach-IsSingle x r)

-- ===== src/Markets/Tokens/Steps.antt =====
-- src/markets/accessTokenCache.ts: the calls of the cache in any order, and what holds between them.
use online_seller_control_hu.Common.{
  ℕ, ◌≡◌, Bool, true, false, ◌&&◌, ◌||◌, not, some, List, [], ◌∷◌, nat_eq, Text, text_eq,
  if◌then◌else◌, Result, All, IsUnique,
}
use online_seller_control_hu.Common.Dicts.{get}
use online_seller_control_hu.Markets.Tokens.{
  CreatedToken, Flight, TokenState, is_flight, get_or_create_access_token, settle_create, clean_up,
  invalidate_cached_access_token,
}

abbrev pub has_flight : ℕ → Text → List Flight → Bool
has_flight id key [] = false
has_flight id key (f ∷ fs) = is_flight id key f || has_flight id key fs

-- Whether such a flight is running (or its call has ended).
abbrev pub has_call : Bool → ℕ → Text → List Flight → Bool
has_call b id key [] = false
has_call b id key (f ∷ fs) =
    (is_flight id key f && (if b then f.running else not f.running)) || has_call b id key fs

-- The flights are the promises in flight, one for a key, with numbers below the next.
pub record IsSingle (s : TokenState) : Type 0 where
  pub known : All (λ f. get f.key s.in_flight ≡ some f.id) s.flights
  pub unique : IsUnique (λ f. f.key) s.flights
  pub flown :
      (key : Text) (id : ℕ) → get key s.in_flight ≡ some id → has_flight id key s.flights ≡ true

-- What can happen next, in any order.
pub data Step (s : TokenState) : TokenState → Type 0 where
  request : (key : Text) (now : ℕ) → Step s (get_or_create_access_token key now s).1
  settle :
      (f : Flight) (r : Result Text CreatedToken) (now : ℕ)
      → has_call true f.id f.key s.flights ≡ true
      → Step s (settle_create f r now s)
  clean : (f : Flight) → has_call false f.id f.key s.flights ≡ true → Step s (clean_up f s)
  invalidate : (token : Text) → Step s (invalidate_cached_access_token token s)

pub data Reach (s : TokenState) : TokenState → Type 0 where
  here : Reach s s
  next : {t u : TokenState} → Reach s t → Step t u → Reach s u

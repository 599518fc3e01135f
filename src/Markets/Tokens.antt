-- ===== src/Markets/Tokens.antt =====
-- src/markets/accessTokenCache.ts: access tokens, and the calls that create them. A promise is the number of
-- the call that made it; `create` itself is the environment, which settles a call at some
-- later step. The cache key, a text, is an input.
pub mod Steps
pub mod Single
pub mod Requests
mod Examples
use online_seller_control_hu.Common.{
  ℕ, ◌+◌, ◌-◌, ◌*◌, ◌/◌, ◌≡◌, suc, Bool, true, false, ◌&&◌, not, Option, none, some, List, [], ◌∷◌,
  map, ◌==◌, nat_eq, Text, text_eq, if◌then◌else◌, leb, min, max, filter, is_empty, Eq, Result, ok,
  throw,
}
use online_seller_control_hu.Common.Dicts.{Dict, get, set, delete}

pub record TokenEntry : Type 0 where
  pub access_token : Text
  pub expires_at : ℕ

pub record CreatedToken : Type 0 where
  pub access_token : Text
  pub expires_in_seconds : ℕ

-- A call of `create` whose caller has not run its `finally` yet.
pub record Flight : Type 0 where
  pub id : ℕ
  pub key : Text
  pub running : Bool

pub record TokenState : Type 0 where
  pub cache : Dict Text TokenEntry
  pub in_flight : Dict Text ℕ
  pub flights : List Flight
  -- The number of the next promise.
  pub next : ℕ

-- What a request gets: a token, the promise of another call, or that of its own.
pub data Answer : Type 0 where
  cached : Text → Answer
  waits creates : (promise : ℕ) → Answer

unfoldable pub cached_entry :
    Text → (now : ℕ) → TokenState → Option TokenEntry → Option Text × TokenState
cached_entry key now s none = (none, s)
cached_entry key now s (some entry) =
    if leb entry.expires_at now
    then (none, record s { cache = delete key s.cache })
    else (some entry.access_token, s)

unfoldable pub get_cached_access_token : Text → (now : ℕ) → TokenState → Option Text × TokenState
get_cached_access_token key now s = cached_entry key now s (get key s.cache)

-- The product with 0.05 is a whole number, since a lifetime is a multiple of 1000.
unfoldable pub set_cached_access_token : Text → CreatedToken → (now : ℕ) → TokenState → TokenState
set_cached_access_token key token now s =
    let ttl_ms = max 60 token.expires_in_seconds * 1000 in
    let safety_ms = min 60000 (max 5000 (ttl_ms / 20)) in
    record s {
      cache =
          set key
            (record { access_token = token.access_token; expires_at = now + ttl_ms - safety_ms })
            s.cache;
    }

-- The rest of `getOrCreateAccessToken` up to the first wait, where no token was cached.
unfoldable pub join_or_create : Text → TokenState → Option ℕ → Answer × TokenState
join_or_create key s (some promise) = (waits promise, s)
join_or_create key s none = (
  creates s.next,
  record s {
    in_flight = set key s.next s.in_flight;
    flights = record { id = s.next; key = key; running = true } ∷ s.flights;
    next = suc s.next;
  },
)

unfoldable pub answer_cached : Text → TokenState → Option Text → Answer × TokenState
answer_cached key s none = join_or_create key s (get key s.in_flight)
answer_cached key s (some token) =
    if is_empty token then join_or_create key s (get key s.in_flight) else (cached token, s)

unfoldable pub get_or_create_access_token : Text → (now : ℕ) → TokenState → Answer × TokenState
get_or_create_access_token key now s =
    let (token, s') = get_cached_access_token key now s in answer_cached key s' token

abbrev pub is_flight : ℕ → Text → Flight → Bool
is_flight id key f = f.id == id && f.key == key

abbrev pub stopped : Flight → Flight → Flight
stopped f g = if is_flight f.id f.key g then record g { running = false } else g

-- The end of a call of `create`: its token is cached, or it failed.
unfoldable pub settle_create :
    Flight → Result Text CreatedToken → (now : ℕ) → TokenState → TokenState
settle_create f (ok token) now s =
    set_cached_access_token f.key token now (record s { flights = map (stopped f) s.flights })
settle_create f (throw e) now s = record s { flights = map (stopped f) s.flights }

-- The `finally` of the caller that made the promise.
unfoldable pub forget_promise : Flight → TokenState → Option ℕ → TokenState
forget_promise f s none = s
forget_promise f s (some promise) =
    if promise == f.id then record s { in_flight = delete f.key s.in_flight } else s

unfoldable pub clean_up : Flight → TokenState → TokenState
clean_up f s =
    forget_promise f (record s { flights = filter (λ g. not (is_flight f.id f.key g)) s.flights })
      (get f.key s.in_flight)

unfoldable pub without_token : Text → Dict Text TokenEntry → Dict Text TokenEntry
without_token token [] = []
without_token token ((k, entry) ∷ rest) =
    if entry.access_token == token
    then without_token token rest
    else (k, entry) ∷ without_token token rest

unfoldable pub invalidate_cached_access_token : Text → TokenState → TokenState
invalidate_cached_access_token token s = record s { cache = without_token token s.cache }

-- ===== src/Markets/Tokens/Examples.antt =====
-- src/markets/accessTokenCache.ts: two requests for one key at a time.
use online_seller_control_hu.Common.{
  ◌≡◌, refl, none, true, [], ok, codes, running, Text, text_eq, IsUnique,
}
use online_seller_control_hu.Common.Dicts.{get}
use online_seller_control_hu.Markets.Tokens.{
  TokenState, Flight, CreatedToken, cached, waits, creates, cached_entry, get_cached_access_token,
  set_cached_access_token, join_or_create, answer_cached, get_or_create_access_token, settle_create,
  forget_promise, clean_up, without_token, invalidate_cached_access_token,
}
use online_seller_control_hu.Markets.Tokens.Steps.{IsSingle, Reach, here, next, request}
use online_seller_control_hu.Markets.Tokens.Requests.{Fits, request-Fits, promises_can_end}

program : Unit {0}
unfolding running cached_entry get_cached_access_token set_cached_access_token join_or_create
    answer_cached get_or_create_access_token settle_create forget_promise clean_up without_token
    invalidate_cached_access_token
program = tt

abbrev empty_state : TokenState
empty_state = record { cache = []; in_flight = []; flights = []; next = 0 }

abbrev key : Text
key = codes "naver:t1"

abbrev asked : TokenState
asked = (get_or_create_access_token key 0 empty_state).1

abbrev flight : Flight
flight = record { id = 0; key = key; running = true }

abbrev token : CreatedToken
token = record { access_token = codes "abc"; expires_in_seconds = 3600 }

abbrev settled : TokenState
settled = settle_create flight (ok token) 1000 asked

second_waits : (get_or_create_access_token key 5 asked).0 ≡ waits 0
unfolding program
second_waits = refl

-- One hour, less a minute.
served_until_shortly_before :
    ((get_or_create_access_token key 3540999 settled).0 ≡ cached (codes "abc"))
    × ((get_or_create_access_token key 3541000 (clean_up flight settled)).0 ≡ creates 1)
unfolding program
served_until_shortly_before = (refl, refl)

-- A token for ten seconds is served for fifty-five.
short_token_served_on :
    (get_or_create_access_token key 54999
      (settle_create flight (ok (record token { expires_in_seconds = 10 })) 0 asked)).0
    ≡ cached (codes "abc")
unfolding program
short_token_served_on = refl

invalidated_is_created_again :
    (get_or_create_access_token key 2000
      (invalidate_cached_access_token (codes "abc") (clean_up flight settled))).0
    ≡ creates 1
unfolding program
invalidated_is_created_again = refl

empty_state-IsSingle : IsSingle empty_state
unfolding program
empty_state-IsSingle = record { known = tt; unique = tt; flown = λ k id g. cc }

asked_reached : Reach empty_state asked
asked_reached = next here (request key 0)

request-Fits_example :
    IsUnique (λ f. f.key) asked.flights
    × Fits key asked
        (get_or_create_access_token key 5 asked).0
        (get_or_create_access_token key 5 asked).1
request-Fits_example = request-Fits empty_state asked key 5 empty_state-IsSingle asked_reached

promises_can_end_example :
    (t : TokenState) × Reach asked t × (t.flights ≡ []) × ((k : Text) → get k t.in_flight ≡ none)
promises_can_end_example = promises_can_end empty_state asked empty_state-IsSingle asked_reached

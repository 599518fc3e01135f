-- ===== src/Persistence/Accounts/Administration.antt =====
-- src/persistence/accountStore.ts: the decisions on sign-up requests, and the administrator.
use online_seller_control_hu.Common.{
  ℕ, true, Option, none, some, List, ◌++◌, map, Text, text_eq, nat_eq, codes, if◌then◌else◌, Result,
  ok, throw, ◌>>=◌, filter, leb, length,
}
use online_seller_control_hu.Common.Dicts.{get, set, values}
use online_seller_control_hu.Common.Sorting.{sort}
use online_seller_control_hu.Persistence.Files.{enqueue_mutation}
use online_seller_control_hu.Persistence.Accounts.{
  Env, SellerAccount, StoreData, AccountIdentity, SignupRequest, AccountError, pro, admin, active,
  rejected, signup_not_found, signup_settled, public_identity, signup_request, is_pending,
  normalize_username, validate_password, find_by_username, revoke_sessions,
}
use online_seller_control_hu.Persistence.Accounts.Calls.{
  AccountCall, AccountStore, Draft, Reply, add_account, new_account, put_account, save, settle,
}

unfoldable pub list_signup_requests : StoreData → List SignupRequest
list_signup_requests d = map signup_request (
    sort (λ a b. leb a.created_at b.created_at)
      (filter (λ a. is_pending a.status) (values d.accounts)))

unfoldable pub approve_found :
    AccountCall → Text → StoreData → Option SellerAccount → Draft SignupRequest
approve_found call id d none = throw signup_not_found
approve_found call id d (some a) =
    if is_pending a.status
    then (let a' : SellerAccount = record a {
      status = active;
      enabled = true;
      updated_at = call.now;
    } in
        save (put_account id a' d) (signup_request a'))
    else throw signup_settled

unfoldable pub approve_signup : AccountCall → (user_id : Text) → AccountStore → Reply SignupRequest
approve_signup call id s =
    enqueue_mutation call.writes (λ d. approve_found call id d (get id d.accounts)) s

unfoldable pub reject_found :
    AccountCall → Text → StoreData → Option SellerAccount → Draft SignupRequest
reject_found call id d none = throw signup_not_found
reject_found call id d (some a) =
    if is_pending a.status
    then (let a' : SellerAccount = record a { status = rejected; updated_at = call.now } in
        save
          (record {
            accounts = set id a' d.accounts;
            sessions = revoke_sessions a.user_id d.sessions;
          })
          (signup_request a'))
    else throw signup_settled

unfoldable pub reject_signup : AccountCall → (user_id : Text) → AccountStore → Reply SignupRequest
reject_signup call id s =
    enqueue_mutation call.writes (λ d. reject_found call id d (get id d.accounts)) s

abbrev pub admin_email : Text → Text
admin_email username = username ++ codes "@admin.sellerhub.local"

-- The account that is found is changed in place, under its own identifier.
unfoldable pub bootstrap_found :
    Env
    → AccountCall
    → (username password : Text) → StoreData
    → Option SellerAccount
    → Draft AccountIdentity
bootstrap_found env call username password d none =
    add_account call (new_account call (admin_email username) (some username) pro admin active) d
bootstrap_found env call username password d (some existing) =
    let matches = env.compare password existing.password_hash in
    let a' : SellerAccount = record existing {
      password_hash = if matches then existing.password_hash else call.password_hash;
      role = admin;
      plan = pro;
      status = active;
      enabled = true;
      updated_at = call.now;
    } in
    save
      (record {
        accounts = set existing.user_id a' d.accounts;
        sessions = if matches then d.sessions else revoke_sessions existing.user_id d.sessions;
      })
      (public_identity a')

abbrev pub bootstrap_checked :
    Env
    → AccountCall
    → (username password : Text) → Result AccountError (StoreData → Draft AccountIdentity)
bootstrap_checked env call username_input password =
    normalize_username username_input >>= λ username. validate_password password >>= λ _.
    ok (λ d. bootstrap_found env call username password d (find_by_username env d username))

unfoldable pub bootstrap_admin :
    Env → AccountCall → (username password : Text) → AccountStore → Reply AccountIdentity
bootstrap_admin env call username password s =
    settle call (bootstrap_checked env call username password) s

abbrev pub account_count : StoreData → ℕ
account_count d = length d.accounts

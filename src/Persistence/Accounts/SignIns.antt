-- ===== src/Persistence/Accounts/SignIns.antt =====
-- src/persistence/accountStore.ts: signing in and out, and the account of a session.
use online_seller_control_hu.Common.{
  ℕ, ◌+◌, ◌-◌, Bool, true, false, ◌&&◌, ◌||◌, Option, none, some, ◌==◌, Text, text_eq, nat_eq,
  if◌then◌else◌, Result, ok, throw, ◌>>=◌, find, ltb, leb, length, includes,
}
use online_seller_control_hu.Common.Dicts.{get, set, delete, values}
use online_seller_control_hu.Persistence.Files.{enqueue_mutation}
use online_seller_control_hu.Persistence.Accounts.{
  signup_rejected, waiting_for_approval, bad_credentials, Env, SellerAccount, Session, StoreData,
  AccountIdentity, AccountError, max_active_sessions_per_user, public_identity, is_active,
  is_pending, is_rejected, normalize_identifier, find_by_email, find_by_username,
  prune_expired_sessions, enforce_session_limit,
}
use online_seller_control_hu.Persistence.Accounts.Calls.{
  AccountCall, LoginReply, AccountStore, Reply, Draft, save, settle,
}

abbrev pub new_session : Env → AccountCall → (ttl_ms : ℕ) → SellerAccount → Session
new_session env call ttl_ms a = record {
  session_id = call.session_id;
  user_id = a.user_id;
  token_hash = env.sha256 call.token;
  created_at = call.now;
  expires_at = call.now + ttl_ms;
  last_seen_at = call.now;
}

abbrev pub logged_in : Env → AccountCall → (ttl_ms : ℕ) → SellerAccount → StoreData → StoreData
logged_in env call ttl_ms a d = record d {
  sessions = set call.session_id (new_session env call ttl_ms a) (
      enforce_session_limit a.user_id (max_active_sessions_per_user - 1)
        (prune_expired_sessions call.now d.sessions));
}

-- An account that cannot sign in is told why only to who knows its password.
unfoldable pub login_found :
    Env
    → AccountCall
    → (ttl_ms : ℕ) → (password : Text) → StoreData
    → Option SellerAccount
    → Draft LoginReply
login_found env call ttl_ms password d none = throw bad_credentials
login_found env call ttl_ms password d (some a) =
    let valid = env.compare password a.password_hash in
    if a.enabled && is_active a.status && valid
    then save (logged_in env call ttl_ms a d) (record {
      identity = public_identity a;
      token = call.token;
      expires_at = call.now + ttl_ms;
    })
    else if is_pending a.status && valid
    then throw waiting_for_approval
    else if is_rejected a.status && valid
    then throw signup_rejected
    else throw bad_credentials

abbrev pub find_account : Env → StoreData → Text → Option SellerAccount
find_account env d identifier =
    if includes b'@' identifier
    then find_by_email d identifier
    else find_by_username env d identifier

abbrev pub login_checked :
    Env
    → AccountCall
    → (ttl_ms : ℕ) → (identifier password : Text)
    → Result AccountError (StoreData → Draft LoginReply)
login_checked env call ttl_ms identifier_input password =
    normalize_identifier env identifier_input >>= λ identifier.
    ok (λ d. login_found env call ttl_ms password d (find_account env d identifier))

unfoldable pub login :
    Env
    → AccountCall
    → (ttl_ms : ℕ) → (identifier password : Text) → AccountStore
    → Reply LoginReply
login env call ttl_ms identifier password s =
    settle call (login_checked env call ttl_ms identifier password) s

-- The account of a session.
unfoldable pub session_account : Option SellerAccount → Option AccountIdentity
session_account none = none
session_account (some a) =
    if a.enabled && is_active a.status then some (public_identity a) else none

unfoldable pub session_found : ℕ → StoreData → Option Session → Option AccountIdentity
session_found now d none = none
session_found now d (some session) =
    if leb session.expires_at now then none else session_account (get session.user_id d.accounts)

unfoldable pub authenticate : Env → (token : Text) → (now : ℕ) → StoreData → Option AccountIdentity
authenticate env token now d =
    if ltb (length token) 32 || ltb 512 (length token)
    then none
    else session_found now d (find (λ s. s.token_hash == env.sha256 token) (values d.sessions))

unfoldable pub logout_found : StoreData → Option Session → Draft Bool
logout_found d none = save d false
logout_found d (some session) =
    save (record d { sessions = delete session.session_id d.sessions }) true

unfoldable pub logout : Env → AccountCall → (token : Text) → AccountStore → Reply Bool
logout env call token s =
    enqueue_mutation call.writes
      (λ d. logout_found d (find (λ x. x.token_hash == env.sha256 token) (values d.sessions))) s

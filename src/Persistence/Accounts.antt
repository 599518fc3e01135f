-- ===== src/Persistence/Accounts.antt =====
-- src/persistence/accountStore.ts: accounts, sign-up requests and sessions. A date text is the instant
-- that it stands for. The hashes of node:crypto and bcryptjs, the pattern of e-mail addresses and
-- `toLowerCase` are fields of `Env`; a new identifier, token or password hash is an input of
-- the call that makes it.
pub mod SignIns
pub mod Calls
pub mod Administration
pub mod Sessions
pub mod Access
pub mod Signups
pub mod Decisions
mod Examples
use online_seller_control_hu.Common.{
  ℕ, ◌+◌, ◌-◌, ◌≡◌, Bool, true, false, ◌&&◌, ◌||◌, not, Option, none, some, List, [], ◌∷◌, ◌++◌,
  map, ◌==◌, Text, text_eq, nat_eq, codes, if◌then◌else◌, Result, ok, throw, ◌>>=◌, filter, find,
  is_empty, trim, ltb, leb, take, length, includes, every, is_letter, is_digit,
}
use online_seller_control_hu.Common.Dicts.{Dict, get, set, delete, values}
use online_seller_control_hu.Common.Sorting.{sort}

pub record Env : Type 0 where
  pub lower : Text → Text
  pub is_email : Text → Bool
  pub sha256 : Text → Text
  pub compare : (password password_hash : Text) → Bool

pub data AccountPlan : Type 0 where
  beta free pro : AccountPlan

pub data AccountRole : Type 0 where
  owner member admin : AccountRole

pub data AccountStatus : Type 0 where
  pending active rejected : AccountStatus

pub record SellerAccount : Type 0 where
  pub user_id : Text
  pub tenant_id : Text
  pub email : Text
  pub username : Option Text
  pub password_hash : Text
  pub plan : AccountPlan
  pub role : AccountRole
  pub status : AccountStatus
  pub enabled : Bool
  pub created_at : ℕ
  pub updated_at : ℕ

pub record Session : Type 0 where
  pub session_id : Text
  pub user_id : Text
  pub token_hash : Text
  pub created_at : ℕ
  pub expires_at : ℕ
  pub last_seen_at : ℕ

pub record StoreData : Type 0 where
  pub accounts : Dict Text SellerAccount
  pub sessions : Dict Text Session

pub record AccountIdentity : Type 0 where
  pub user_id : Text
  pub tenant_id : Text
  pub email : Text
  pub username : Option Text
  pub plan : AccountPlan
  pub role : AccountRole
  pub status : AccountStatus

pub record SignupRequest : Type 0 where
  pub user_id : Text
  pub email : Text
  pub username : Option Text
  pub status : AccountStatus
  pub created_at : ℕ
  pub updated_at : ℕ

pub data AccountError : Type 0 where
  invalid_email invalid_username invalid_identifier password_length password_classes : AccountError
  email_taken username_taken waiting_for_approval signup_rejected bad_credentials : AccountError
  signup_not_found signup_settled : AccountError

abbrev pub max_active_sessions_per_user : ℕ
max_active_sessions_per_user = 5

abbrev pub missing_account_hash : Text
missing_account_hash = codes "$2b$12$1coRGR9HP0n4u0K2m91E9OdQMOi/7yOJdGWTVcqjqBAzBxn93w4iS"

abbrev pub present_name : Option Text → Option Text
present_name none = none
present_name (some s) = if is_empty s then none else some s

abbrev pub public_identity : SellerAccount → AccountIdentity
public_identity a = record {
  user_id = a.user_id;
  tenant_id = a.tenant_id;
  email = a.email;
  username = present_name a.username;
  plan = a.plan;
  role = a.role;
  status = a.status;
}

abbrev pub signup_request : SellerAccount → SignupRequest
signup_request a = record {
  user_id = a.user_id;
  email = a.email;
  username = present_name a.username;
  status = a.status;
  created_at = a.created_at;
  updated_at = a.updated_at;
}

abbrev pub is_active : AccountStatus → Bool
is_active active = true
is_active _ = false

abbrev pub is_pending : AccountStatus → Bool
is_pending pending = true
is_pending _ = false

abbrev pub is_rejected : AccountStatus → Bool
is_rejected rejected = true
is_rejected _ = false

abbrev pub normalize_email : Env → Text → Result AccountError Text
normalize_email env value =
    let email = env.lower (trim value) in
    if env.is_email email && leb (length email) 254 then ok email else throw invalid_email

abbrev pub is_username_unit : ℕ → Bool
is_username_unit c = is_letter c || is_digit c || c == b'.' || c == b'_' || c == b'-'

abbrev pub normalize_username : Text → Result AccountError Text
normalize_username value =
    let name = trim value in
    if leb 3 (length name) && leb (length name) 64 && every is_username_unit name
    then ok name
    else throw invalid_username

abbrev pub normalize_identifier : Env → Text → Result AccountError Text
normalize_identifier env value =
    let s = trim value in
    if leb 3 (length s) && leb (length s) 254
    then ok (if includes b'@' s then env.lower s else s)
    else throw invalid_identifier

abbrev some_unit : (ℕ → Bool) → Text → Bool
some_unit p s = not (every (λ c. not (p c)) s)

abbrev pub validate_password : Text → Result AccountError (Unit {0})
validate_password value =
    if ltb (length value) 10 || ltb 128 (length value)
    then throw password_length
    else if not (some_unit is_letter value) || not (some_unit is_digit value)
    then throw password_classes
    else ok tt

abbrev pub find_by_email : StoreData → Text → Option SellerAccount
find_by_email d email = find (λ a. a.email == email) (values d.accounts)

abbrev has_name : Env → Text → Option Text → Bool
has_name env normalized none = false
has_name env normalized (some name) = env.lower name == normalized

abbrev pub find_by_username : Env → StoreData → Text → Option SellerAccount
find_by_username env d username =
    find (λ a. has_name env (env.lower username) a.username) (values d.accounts)

-- `delete` of the entries that a test on their sessions picks.
unfoldable pub drop_sessions : (Session → Bool) → Dict Text Session → Dict Text Session
drop_sessions p sessions = filter (λ e. not (p e.1)) sessions

abbrev pub revoke_sessions : Text → Dict Text Session → Dict Text Session
revoke_sessions user_id sessions = drop_sessions (λ s. s.user_id == user_id) sessions

abbrev pub prune_expired_sessions : ℕ → Dict Text Session → Dict Text Session
prune_expired_sessions now sessions = drop_sessions (λ s. leb s.expires_at now) sessions

unfoldable pub delete_sessions : List Session → Dict Text Session → Dict Text Session
delete_sessions [] sessions = sessions
delete_sessions (s ∷ ss) sessions = delete_sessions ss (delete s.session_id sessions)

abbrev pub of_user : Text → Session → Bool
of_user user_id s = s.user_id == user_id

abbrev pub not_after : Session → Session → Bool
not_after a b = leb a.created_at b.created_at

unfoldable pub enforce_session_limit : Text → ℕ → Dict Text Session → Dict Text Session
enforce_session_limit user_id max_existing sessions =
    let mine = sort not_after (filter (of_user user_id) (values sessions)) in
    delete_sessions (take (length mine - max_existing) mine) sessions

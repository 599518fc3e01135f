-- ===== src/Persistence/Accounts/Calls.antt =====
-- src/persistence/accountStore.ts: registering and requesting a sign-up.
use online_seller_control_hu.Common.{
  ℕ, Bool, true, false, ◌||◌, Option, none, some, [], Text, text_eq, nat_eq, if◌then◌else◌, Result,
  ok, throw, ◌>>=◌, ltb,
}
use online_seller_control_hu.Common.Dicts.{set}
use online_seller_control_hu.Persistence.Files.{
  Mutation, Store, Writes, QueueError, refused, enqueue_mutation, load, Disk, LoadError,
}
use online_seller_control_hu.Persistence.Accounts.{
  username_taken, Env, AccountPlan, AccountRole, AccountStatus, SellerAccount, StoreData,
  AccountIdentity, SignupRequest, AccountError, free, owner, pending, active, email_taken,
  public_identity, signup_request, normalize_email, normalize_username, validate_password,
  find_by_email, find_by_username, present_name,
}

-- What a call gets from the outside.
pub record AccountCall : Type 0 where
  pub now : ℕ
  pub user_id : Text
  pub tenant_id : Text
  pub session_id : Text
  pub token : Text
  pub password_hash : Text
  pub writes : Writes

pub record RegisterInput : Type 0 where
  pub email : Text
  pub password : Text
  pub username : Option Text
  pub plan : Option AccountPlan
  pub role : Option AccountRole
  pub status : Option AccountStatus

pub record LoginReply : Type 0 where
  pub identity : AccountIdentity
  pub token : Text
  pub expires_at : ℕ

abbrev pub AccountStore : Type 0
AccountStore = Store StoreData

abbrev pub Reply : Type 0 → Type 0
Reply T = Result (QueueError AccountError) T × AccountStore

pub data OpenError : Type 0 where
  bad_session_days : OpenError
  not_loaded : LoadError → OpenError

abbrev loaded :
    Result LoadError (StoreData × Disk StoreData) → Result OpenError (StoreData × Disk StoreData)
loaded (ok r) = ok r
loaded (throw e) = throw (not_loaded e)

-- The lifetime of a session is a number of days.
abbrev pub open_accounts :
    (session_ttl_days : ℕ) (written : Bool)
    → Disk StoreData
    → Result OpenError (StoreData × Disk StoreData)
open_accounts days written disk =
    if ltb days 1 || ltb 90 days
    then throw bad_session_days
    else loaded (load (record { accounts = []; sessions = [] }) written disk)

abbrev pub Draft : Type 0 → Type 0
Draft T = Result AccountError (Mutation StoreData T)

abbrev pub save : {T : Type 0} → StoreData → T → Draft T
save d result = ok (record { rows = d; result = result; persist = true })

abbrev pub put_account : Text → SellerAccount → StoreData → StoreData
put_account id a d = record d { accounts = set id a d.accounts }

abbrev pub or_else : {A : Type 0} → A → Option A → A
or_else d none = d
or_else d (some a) = a

abbrev pub new_account :
    AccountCall → Text → Option Text → AccountPlan → AccountRole → AccountStatus → SellerAccount
new_account call email username plan role status = record {
  user_id = call.user_id;
  tenant_id = call.tenant_id;
  email = email;
  username = username;
  password_hash = call.password_hash;
  plan = plan;
  role = role;
  status = status;
  enabled = true;
  created_at = call.now;
  updated_at = call.now;
}

abbrev pub add_account : AccountCall → SellerAccount → StoreData → Draft AccountIdentity
add_account call a d = save (put_account call.user_id a d) (public_identity a)

abbrev pub is_taken : Env → Option Text → StoreData → Bool
is_taken env none d = false
is_taken env (some name) d = elim (find_by_username env d name) [ some _ ↦ true | none ↦ false ]

unfoldable pub register_found :
    Env
    → AccountCall
    → RegisterInput
    → Text
    → Option Text
    → StoreData
    → Option SellerAccount
    → Draft AccountIdentity
register_found env call input email username d (some _) = throw email_taken
register_found env call input email username d none =
    if is_taken env username d
    then throw username_taken
    else add_account call
        (new_account call email username (or_else free input.plan) (or_else owner input.role)
          (or_else active input.status))
        d

abbrev pub normal_name : Option Text → Result AccountError (Option Text)
normal_name none = ok none
normal_name (some s) = normalize_username s >>= λ name. ok (some name)

unfoldable pub settle :
    {T : Type 0} → AccountCall → Result AccountError (StoreData → Draft T) → AccountStore → Reply T
settle call (throw e) s = (throw (refused e), s)
settle call (ok mutate) s = enqueue_mutation call.writes mutate s

abbrev pub register_checked :
    Env → AccountCall → RegisterInput → Result AccountError (StoreData → Draft AccountIdentity)
register_checked env call input = normalize_email env input.email >>= λ email.
    normal_name (present_name input.username) >>= λ username.
    validate_password input.password >>= λ _.
    ok (λ d. register_found env call input email username d (find_by_email d email))

unfoldable pub register : Env → AccountCall → RegisterInput → AccountStore → Reply AccountIdentity
register env call input s = settle call (register_checked env call input) s

unfoldable pub signup_found :
    AccountCall → Text → StoreData → Option SellerAccount → Draft SignupRequest
signup_found call email d (some _) = throw email_taken
signup_found call email d none =
    let a = new_account call email none free owner pending in
    save (put_account call.user_id a d) (signup_request a)

abbrev pub signup_checked :
    Env
    → AccountCall
    → (email password : Text) → Result AccountError (StoreData → Draft SignupRequest)
signup_checked env call email_input password = normalize_email env email_input >>= λ email.
    validate_password password >>= λ _. ok (λ d. signup_found call email d (find_by_email d email))

unfoldable pub request_signup :
    Env → AccountCall → (email password : Text) → AccountStore → Reply SignupRequest
request_signup env call email password s = settle call (signup_checked env call email password) s

-- ===== src/Auth.antt =====
-- services/auth: the Auth service.
--
-- The model of services/auth/internal/domain/domain.go. A UUID, a token and a hash are numbers, a
-- time is a number of microseconds, an e-mail address and a password are lists of code points, and a user agent
-- is a list of bytes. Of Go's libraries, the lower case of a text (strings.ToLower) and the address
-- that net/mail reads in it are parameters.
pub mod Repository
pub mod Service
pub mod History
pub mod Throttle
mod Tests
use icyre.Prelude.{
  ℕ, ◌+◌, Bool, true, false, not, ◌&&◌, ◌||◌, Option, none, some, List, [], ◌∷◌, ◌++◌, ltb,
  if◌then◌else◌, length, take, any,
}
use icyre.Prelude.Unicode.{is_space, trim_space, utf8_size, texts_equal}
use icyre.Platform.Postgres.{Result, ok, err}

-- What a ValidationError says of a field.
pub data Field : Type 0 where
  bad_email short_password long_password blank_password : Field

pub data Error : Type 0 where
  email_taken invalid_credentials account_not_found session_not_found session_inactive : Error
  refresh_reuse invalid_refresh too_many_attempts concurrent_update : Error
  validation : List Field → Error

pub data Reason : Type 0 where
  logout revoked token_reuse : Reason

abbrev pub min_password_length : ℕ
min_password_length = 10

abbrev pub max_password_length : ℕ
max_password_length = 128

-- RoleUser, granted to every new account
pub data Role : Type 0 where
  role_user : Role

pub record Account : Type 0 where
  pub id : ℕ
  pub email : List ℕ
  pub password_hash : ℕ
  pub roles : List Role
  pub created_at : ℕ
  pub updated_at : ℕ

pub record Session : Type 0 where
  pub id : ℕ
  pub user_id : ℕ
  pub refresh_hash : ℕ
  pub previous_hash : Option ℕ
  pub user_agent : List ℕ
  pub created_at : ℕ
  pub last_used_at : ℕ
  pub expires_at : ℕ
  pub revoked_at : Option ℕ
  pub revoke_reason : Option Reason

-- unicode.ToLower on a text, and the Address of mail.ParseAddress
pub record Mail : Type 0 where
  pub to_lower : List ℕ → List ℕ
  pub parse_address : List ℕ → Option (List ℕ)

unfoldable pub normalize_email : Mail → List ℕ → List ℕ
normalize_email mail email = mail.to_lower (trim_space email)

abbrev is_address : List ℕ → Option (List ℕ) → Bool
is_address email none = false
is_address email (some address) = texts_equal address email

abbrev email_fields : Mail → List ℕ → List Field
email_fields mail email =
    if not (is_address email (mail.parse_address email)) || ltb 254 (utf8_size email)
    then bad_email ∷ []
    else []

abbrev password_fields : List ℕ → List Field
password_fields password =
    if ltb (length password) min_password_length
    then short_password ∷ []
    else if ltb max_password_length (length password)
    then long_password ∷ []
    else if not (any (λ c. not (is_space c)) password)
    then blank_password ∷ []
    else []

abbrev refuse : List Field → Result Error (Unit {0})
refuse [] = ok tt
refuse (f ∷ fs) = err (validation (f ∷ fs))

unfoldable pub validate_credentials : Mail → List ℕ → List ℕ → Result Error (Unit {0})
validate_credentials mail email password =
    refuse (email_fields mail email ++ password_fields password)

unfoldable pub new_account : ℕ → List ℕ → ℕ → ℕ → Account
new_account id email password_hash now = record {
  id = id;
  email = email;
  password_hash = password_hash;
  roles = role_user ∷ [];
  created_at = now;
  updated_at = now;
}

unfoldable pub new_session : ℕ → ℕ → ℕ → List ℕ → ℕ → ℕ → Session
new_session id user_id refresh_hash user_agent now ttl = record {
  id = id;
  user_id = user_id;
  refresh_hash = refresh_hash;
  previous_hash = none;
  user_agent = take 256 user_agent;
  created_at = now;
  last_used_at = now;
  expires_at = now + ttl;
  revoked_at = none;
  revoke_reason = none;
}

abbrev pub is_none : {A : Type 0} → Option A → Bool
is_none none = true
is_none (some a) = false

unfoldable pub active : Session → ℕ → Bool
active s now = is_none s.revoked_at && ltb now s.expires_at

unfoldable pub rotate : Session → ℕ → ℕ → ℕ → Result Error Session
unfolding active
rotate s new_hash now ttl =
    if not (active s now)
    then err session_inactive
    else ok (record s {
      previous_hash = some s.refresh_hash;
      refresh_hash = new_hash;
      last_used_at = now;
      expires_at = now + ttl;
    })

-- Revoke, with `none` for a session that was revoked before.
unfoldable pub revoke : Session → Reason → ℕ → Option Session
revoke s reason now =
    if not (is_none s.revoked_at)
    then none
    else some (record s { revoked_at = some now; revoke_reason = some reason })

pub data Event : Type 0 where
  user_registered : Account → Event
  session_created session_revoked : Session → Event

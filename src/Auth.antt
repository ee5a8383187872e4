-- ===== src/Auth.antt =====
-- backend/app/services/auth.py and core/security.py, with get_current_user of core/deps.py:
-- registration, login, tokens. argon2, PyJWT, `uuid` and the methods of `str` are the interface
-- `Library`; a salt, a fresh uuid and the moment of a call are arguments. A moment is a number of
-- microseconds, the dates in a token are seconds.
pub mod Tokens
pub mod Login
pub mod Handlers
mod Samples
use interview_trainer.Prelude.{
  ℕ, ◌+◌, ◌*◌, ◌/◌, Bool, true, false, not, ◌&&◌, ◌||◌, List, [], ◌∷◌, ◌++◌, Option, none, some,
  String, if◌then◌else◌, ◌==◌, nat_eq, string_eq, find, any,
}
use interview_trainer.Exceptions.{
  Error, Result, ok, err, conflict, authentication, value_error, ensure, require, ◌>>=◌, ◌>>◌,
}
use interview_trainer.Float.{Float}
use interview_trainer.Models.{Database, User}
use interview_trainer.Session.{Session, Action, update}
use interview_trainer.Scheduler.{days}

pub data TokenType : Type 0 where
  access refresh : TokenType

abbrev pub token_value : TokenType → String
token_value access = "access"
token_value refresh = "refresh"

-- the claims of a token; `IdText` is the type of the text of a uuid
pub record Claims (IdText : Type 0) : Type 0 where
  pub sub : IdText
  pub type : String
  pub jti : IdText
  pub iat : ℕ
  pub exp : ℕ

pub record TokenPayload : Type 0 where
  pub subject : ℕ
  pub token_type : TokenType
  pub jti : ℕ
  pub expires_at : ℕ

pub record TokenPair (Token : Type 0) : Type 0 where
  pub access_token : Token
  pub refresh_token : Token

-- how `PasswordHasher.verify` ends
pub data Verified : Type 0 where
  matches mismatch invalid_hash verification_error : Verified

-- how `jwt.decode` ends
pub data Decoded (IdText : Type 0) : Type 0 where
  decoded : Claims IdText → Decoded IdText
  expired_signature invalid_token : Decoded IdText

-- why a token is refused
pub data TokenError : Type 0 where
  expired malformed wrong_type broken : TokenError

-- The code outside the repository. A token and the text of a uuid are only handed on.
pub record Library : Type 1 where
  pub Token : Type 0
  pub IdText : Type 0
  -- `PasswordHasher.hash`, with its salt
  pub hash : ℕ → String → String
  -- `PasswordHasher.verify(hash, password)`
  pub verify : String → String → Verified
  -- `check_needs_rehash`, none for an InvalidHashError
  pub check_needs_rehash : String → Option Bool
  -- `jwt.encode` and `jwt.decode` with a key, and the moment of the call
  pub encode : Claims IdText → String → Token
  pub decode : Token → String → ℕ → Decoded IdText
  -- `str(uuid)` and `uuid.UUID(text)`
  pub uuid_text : ℕ → IdText
  pub uuid_of : IdText → Option ℕ
  pub strip : String → String
  pub lower : String → String

-- the settings that are read
pub record Settings : Type 0 where
  pub secret_key : String
  pub access_token_ttl_minutes : ℕ
  pub refresh_token_ttl_days : ℕ

abbrev pub second : ℕ
second = 1000000

module _ (lib : Library) (settings : Settings) where
  open lib use {
    Token, IdText, hash, verify, check_needs_rehash, encode, decode, uuid_text, uuid_of, strip,
    lower,
  }
  open settings use {secret_key, access_token_ttl_minutes, refresh_token_ttl_days}

  unfoldable pub hash_password : ℕ → String → String
  hash_password salt password = hash salt password

  -- an error of argon2 that is not caught is none of the domain's
  unfoldable pub verify_password : String → String → Result Error Bool
  verify_password password password_hash = elim (verify password_hash password) [
    | matches ↦ ok true
    | mismatch ↦ ok false
    | invalid_hash ↦ ok false
    | verification_error ↦ err value_error
  ]

  unfoldable pub needs_rehash : String → Bool
  needs_rehash password_hash = elim (check_needs_rehash password_hash) [ none ↦ true | some b ↦ b ]

  abbrev pub lifetime : TokenType → ℕ
  lifetime access = access_token_ttl_minutes * 60 * second
  lifetime refresh = days refresh_token_ttl_days

  unfoldable pub create_token : ℕ → ℕ → ℕ → TokenType → Token
  create_token now jti subject token_type =
      encode
        record {
          sub = uuid_text subject;
          type = token_value token_type;
          jti = uuid_text jti;
          iat = now / second;
          exp = (now + lifetime token_type) / second;
        }
        secret_key

  unfoldable pub read_claims : Claims IdText → TokenType → Result TokenError TokenPayload
  read_claims raw expected_type =
      ensure (raw.type == token_value expected_type) wrong_type
      >> (require (uuid_of raw.sub) broken >>= λ (subject : ℕ).
          require (uuid_of raw.jti) broken >>= λ (jti : ℕ). ok record {
            subject = subject;
            token_type = expected_type;
            jti = jti;
            expires_at = raw.exp * second;
          })

  unfoldable pub decode_token : ℕ → Token → TokenType → Result TokenError TokenPayload
  unfolding read_claims
  decode_token now token expected_type = elim (decode token secret_key now) [
    | decoded raw ↦ read_claims raw expected_type
    | expired_signature ↦ err expired
    | invalid_token ↦ err malformed
  ]

  unfoldable pub issue_tokens : ℕ → ℕ → ℕ → ℕ → TokenPair Token
  unfolding create_token
  issue_tokens now access_jti refresh_jti user = record {
    access_token = create_token now access_jti user access;
    refresh_token = create_token now refresh_jti user refresh;
  }

  -- `email.strip().lower()`
  abbrev pub normalized : String → String
  normalized email = lower (strip email)

  abbrev pub new_user : ℕ → ℕ → String → String → User
  new_user id salt email password = record {
    id = id;
    email = normalized email;
    password_hash = hash salt password;
    is_active = true;
    is_premium = false;
  }

  -- `_DUMMY_HASH`
  abbrev pub dummy_hash : ℕ → String
  dummy_hash salt = hash salt "dummy-password-for-constant-time-check"

  abbrev pub has_email : String → User → Bool
  has_email email u = u.email == email

  abbrev pub hash_or : String → Option User → String
  hash_or dummy none = dummy
  hash_or dummy (some u) = u.password_hash

  module _ {fl : Float} where
    -- The flush fails if the email is taken.
    unfoldable pub register : ℕ → ℕ → String → String → Action fl User
    unfolding any
    register id salt email password s =
        if any (has_email (normalized email)) s.current.users
        then (err conflict, record s { current = s.committed })
        else (
          ok (new_user id salt email password),
          record s {
            current = record s.current {
              users = s.current.users ++ new_user id salt email password ∷ [];
            };
          },
        )

    -- the new hash of an old one
    unfoldable pub rehash : ℕ → String → User → Session fl → Result Error User × Session fl
    unfolding needs_rehash update hash_password
    rehash salt password u s =
        if needs_rehash u.password_hash
        then (
          ok record u { password_hash = hash_password salt password },
          record s {
            current = record s.current {
              users =
                  update (λ (x : User). x.id == u.id)
                    (λ x. record x { password_hash = hash_password salt password }) s.current.users;
            };
          },
        )
        else (ok u, s)

    -- the guards after the password was checked
    unfoldable pub admit :
        ℕ → String → Option User → Bool → Session fl → Result Error User × Session fl
    unfolding rehash
    admit salt password none matched s = (err authentication, s)
    admit salt password (some u) false s = (err authentication, s)
    admit salt password (some u) true s =
        if u.is_active then rehash salt password u s else (err authentication, s)

    unfoldable pub authenticate : ℕ → ℕ → String → String → Action fl User
    unfolding find verify_password admit
    authenticate dummy_salt salt email password s =
        let user = find (has_email (normalized email)) s.current.users in
        elim (verify_password password (hash_or (dummy_hash dummy_salt) user)) [
          | ok matched ↦ admit salt password user matched s
          | err e ↦ (err e, s)
        ]

    -- `session.get(User, subject)`, and whether the account may be used
    unfoldable pub available_user : ℕ → Database fl → Result Error User
    unfolding find
    available_user subject db =
        require (find (λ (u : User). u.id == subject) db.users) authentication >>= λ (u : User).
        ensure u.is_active authentication >>= λ _. ok u

    unfoldable pub user_of_token : ℕ → Token → TokenType → Database fl → Result Error User
    unfolding decode_token available_user
    user_of_token now token expected_type db = elim (decode_token now token expected_type) [
      | ok payload ↦ available_user payload.subject db
      | err _ ↦ err authentication
    ]

    -- `AuthService.refresh`
    unfoldable pub refresh_tokens : ℕ → ℕ → ℕ → Token → Database fl → Result Error (TokenPair Token)
    unfolding user_of_token issue_tokens
    refresh_tokens now access_jti refresh_jti token db =
        user_of_token now token refresh db >>= λ (u : User).
        ok (issue_tokens now access_jti refresh_jti u.id)

    -- the 401 of `_unauthorized` is the one of an authentication error
    unfoldable pub get_current_user : ℕ → Option Token → Database fl → Result Error User
    unfolding user_of_token
    get_current_user now none db = err authentication
    get_current_user now (some token) db = user_of_token now token access db

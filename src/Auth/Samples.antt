-- ===== src/Auth/Samples.antt =====
-- Registration, login and tokens at concrete inputs.
use interview_trainer.Prelude.{
  ℕ, ◌+◌, ◌*◌, ◌≡◌, refl, arith, true, false, some, String, if◌then◌else◌, ◌==◌, ==_self, string_eq,
  nat_eq, leb, find, distinct,
}
use interview_trainer.Float.Fixed.{fixed}
use interview_trainer.Exceptions.{Error, Result, ok, err, authentication, conflict}
use interview_trainer.Models.{User}
use interview_trainer.Session.{Session}
use interview_trainer.Auth.{
  access, refresh, Claims, decoded, expired_signature, invalid_token, matches, mismatch, Library,
  Settings, second, create_token, decode_token, get_current_user, refresh_tokens, register,
  authenticate, has_email, normalized, new_user, expired, wrong_type,
}
use interview_trainer.Prelude.Int.{pos}
use interview_trainer.RateLimit.{Redis}
use interview_trainer.Auth.{TokenPair, issue_tokens}
use interview_trainer.Auth.Handlers.{
  Call, Response, register_handler, register_handler-get_current_user,
}
use interview_trainer.Auth.Tokens.{
  LibraryLaws, account, admitted, renewed, expiry, payload_of, same_type, decode_token-create_token,
  get_current_user-create_token,
}
use interview_trainer.Auth.Login.{register-register, register-authenticate, authenticate_lem}
use interview_trainer.Sample.{ann, sample_db, sample_session}

-- A token is its claims with their key, and a hash is the password.
abbrev library : Library
library = record {
  Token = Claims ℕ × String;
  IdText = ℕ;
  hash = λ salt password. password;
  verify = λ password_hash password. if password_hash == password then matches else mismatch;
  check_needs_rehash = λ password_hash. some false;
  encode = λ c key. (c, key);
  decode = λ token key now.
      if token.1 == key
      then (if leb (token.0.exp * second) now then expired_signature else decoded token.0)
      else invalid_token;
  uuid_text = λ n. n;
  uuid_of = λ n. some n;
  strip = λ t. t;
  lower = λ t. t;
}

library_laws : LibraryLaws library
library_laws = record {
  decode-encode = λ c key now h. ground (arith, ==_self key);
  uuid_of-uuid_text = λ n. refl;
  verify-hash = λ salt password other. refl;
  check_needs_rehash-hash = λ salt password. refl;
}

abbrev settings : Settings
settings = record {
  secret_key = "secret";
  access_token_ttl_minutes = 30;
  refresh_token_ttl_days = 30;
}

abbrev noon : ℕ
noon = 1000000000

-- A minute later the token of an account lets it in, and half an hour later it does not.
decode_token-create_token_example :
    decode_token library settings 1060000000 (create_token library settings noon 5 1 access) access
    ≡ (if leb (expiry library settings noon access) 1060000000
        then err expired
        else if same_type access access
        then ok (payload_of library settings noon 5 1 access)
        else err wrong_type)
decode_token-create_token_example =
    decode_token-create_token library settings library_laws noon 1060000000 5 1 access access
      (omega arith)

get_current_user-create_token_example :
    (get_current_user library settings 1060000000
        (some (create_token library settings noon 5 1 access))
        sample_db
      ≡ (if leb (expiry library settings noon access) 1060000000
          then err authentication
          else admitted (account 1 sample_db)))
    × (refresh_tokens library settings 1060000000 7 8
          (create_token library settings noon 5 1 refresh)
          sample_db
        ≡ (if leb (expiry library settings noon refresh) 1060000000
            then err authentication
            else renewed (issue_tokens library settings 1060000000 7 8 1) (account 1 sample_db)))
    × (get_current_user library settings 1060000000
          (some (create_token library settings noon 5 1 refresh))
          sample_db
        ≡ err authentication)
    × (refresh_tokens library settings 1060000000 7 8
          (create_token library settings noon 5 1 access)
          sample_db
        ≡ err authentication)
get_current_user-create_token_example =
    get_current_user-create_token library settings library_laws noon 1060000000 5 1 7 8 sample_db
      (omega arith)

abbrev tiger : String
tiger = "tiger"

abbrev lion : String
lion = "lion"

abbrev registered : Result Error User × Session fixed
registered = register library settings 2 0 "bob@example.org" tiger sample_session

register_bob : registered.0 ≡ ok (new_user library settings 2 0 "bob@example.org" tiger)
unfolding register
register_bob = refl

register-authenticate_example :
    authenticate library settings 3 4 "bob@example.org" lion registered.1 ≡ (
      if tiger == lion
      then (ok (new_user library settings 2 0 "bob@example.org" tiger), registered.1)
      else (err authentication, registered.1))
register-authenticate_example =
    register-authenticate library settings library_laws 2 0 3 4 "bob@example.org" "bob@example.org"
      tiger lion sample_session (new_user library settings 2 0 "bob@example.org" tiger) register_bob
      refl

-- the session after the commit of the registration
abbrev committed : Session fixed
committed = record registered.1 { committed = registered.1.current }

register-register_example :
    register library settings 3 0 "bob@example.org" lion committed
    ≡ (err conflict, record committed { current = committed.committed })
register-register_example =
    register-register library settings 2 0 3 0 "bob@example.org" tiger "bob@example.org" lion
      sample_session committed (new_user library settings 2 0 "bob@example.org" tiger) register_bob
      refl refl

ann_logs_in : (authenticate library settings 3 4 "ann@example.org" "" sample_session).0 ≡ ok ann
unfolding authenticate
ann_logs_in = refl

authenticate_lem_example :
    (v : User) × (find
        (has_email library settings (normalized library settings "ann@example.org"))
        sample_db.users
      ≡ some v)
    × (v.is_active ≡ true)
    × (library.verify v.password_hash "" ≡ matches)
    × (1 ≡ v.id)
authenticate_lem_example =
    authenticate_lem library settings 3 4 "ann@example.org" "" sample_session ann ann_logs_in

-- A counter of all attempts stands for Redis.
abbrev counter : Redis
counter = record {
  Store = ℕ;
  incr = λ now key s. (s + 1, s + 1);
  expire = λ now key seconds s. s;
  ttl = λ now key s. pos 0;
}

abbrev call : Call
call = record { now = noon; access_jti = 5; refresh_jti = 6; client = "10.0.0.1" }

abbrev answered : Response library settings counter fixed
answered =
    register_handler library settings counter fixed call 2 0 "bob@example.org" tiger sample_session
      0

abbrev bob_tokens : TokenPair (Claims ℕ × String)
bob_tokens = issue_tokens library settings noon 5 6 2

bob_answered : answered.0 ≡ ok bob_tokens
unfolding register_handler
bob_answered = refl

register_handler-get_current_user_example :
    get_current_user library settings 1060000000 (some bob_tokens.access_token) answered.1.committed
    ≡ ok (new_user library settings 2 0 "bob@example.org" tiger)
unfolding interview_trainer.Prelude.any
register_handler-get_current_user_example =
    register_handler-get_current_user library settings counter fixed library_laws call 2 0
      1060000000 "bob@example.org" tiger sample_session 0 bob_tokens bob_answered refl (omega arith)
      refl

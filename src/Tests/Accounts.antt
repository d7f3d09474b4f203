-- ===== src/Tests/Accounts.antt =====
-- The theorems on accounts and sessions at a concrete state.
use be.Prelude.{String, ◌≡◌, ◌≢◌, refl, arith, false, str_eq, str_eq_iff, none, some, [], ◌∷◌}
use mathlib.Core.List.{Memᴰ}
use be.Store.{Provider, TokenPayload, ok, err, unauthorized, duplicate_account_id, record_not_found}
use be.Users.Service.{change_account_id, withdraw}
use be.Users.AccountIds.{change_account_id-verdict}
use be.Users.Withdrawal.{withdraw-verdict}
use be.Auth.Service.{LoginInput, Tokens, login, refresh_access_token, logout}
use be.Auth.Refresh.{HasOnly, refresh_access_token-HasOnly, refresh_access_token-other}
use be.Auth.Login.{LoggedIn, login-LoggedIn}
use be.Auth.Logout.{logout-verdict}
use be.Tests.Tables.{tables}
use be.Tests.States.{small, account}

abbrev payload : TokenPayload
payload = record { user_id = 1; device_id = "phone" }

abbrev tokens : Tokens
tokens = record { access_token = "1h"; refresh_token = "30d" }

verified : tables.verify "30d" (tables.clock 5) ≡ some payload
unfolding tables
verified = refl

refreshed : (refresh_access_token (some "30d") (some "phone") small).0 ≡ ok tokens
unfolding tables refresh_access_token
refreshed = refl

refresh_access_token-HasOnly_example :
    HasOnly 1 "phone" "30d" (refresh_access_token (some "30d") (some "phone") small).1
refresh_access_token-HasOnly_example =
    refresh_access_token-HasOnly "30d" "phone" payload tokens small verified refreshed

stored : HasOnly 1 "phone" "30d" small
stored = (λ _. refl, tt)

differ : (s t : String) → str_eq s t ≡ false → s ≢ t
differ s t e same = ground (arith, str_eq_iff s t)

old_verified : tables.verify "old" (tables.clock 5) ≡ some payload
unfolding tables
old_verified = refl

refresh_access_token-other_example :
    (refresh_access_token (some "old") (some "phone") small).0 ≡ err unauthorized
refresh_access_token-other_example =
    refresh_access_token-other "30d" "old" "phone" payload small old_verified stored
      (differ "old" "30d" refl) (differ "old" "" refl)

logout-verdict_example : logout 2 (some "phone") small ≡ (err record_not_found, small)
logout-verdict_example = logout-verdict 2 "phone" small

withdraw-verdict_example : withdraw 1 none small ≡ (
  ok tt,
  record small {
    users =
        record (account 1 "a@b.c" (some 5000)) { notification_token = none }
        ∷ account 2 "b" none
        ∷ account 3 "c" none
        ∷ account 4 "d" (some 5)
        ∷ [];
    refresh_tokens = [];
    ticks = 6;
  },
)
unfolding tables
withdraw-verdict_example = withdraw-verdict 1 none small

change_account_id-verdict_example :
    change_account_id 2 "d" 4000 small ≡ (err duplicate_account_id, record small { ticks = 6 })
unfolding tables
change_account_id-verdict_example =
    change_account_id-verdict 2 "d" 4000 (account 2 "b" none) small (ground arith)
      (Memᴰ.tail (Memᴰ.head refl)) refl (ground arith)

abbrev credentials : LoginInput
credentials = record {
  provider = Provider.google;
  provider_access_token = "x";
  device_id = some "tablet";
}

login-LoggedIn_example : LoggedIn credentials 4000 small (login credentials 4000 small)
login-LoggedIn_example = login-LoggedIn credentials 4000 small

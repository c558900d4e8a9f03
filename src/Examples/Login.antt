-- ===== src/Examples/Login.antt =====
-- Logins, and who passes as an administrator after one.
use deko.Prelude.{nat_eq, ◌≡◌, ◌≤◌, refl, true, none, some, [], ◌∷◌, arith, string_eq}
use deko.Prelude.Text.{trim, trim_start, trim_end, is_whitespace, strip_prefix, show_nat, show_int}
use deko.Prelude.Parse.{split}
use deko.Errors.{ok}
use deko.Models.{pending}
use deko.World.{World, pure, select, execute, statement, gets, draw, for_some, ◌>>=◌}
use deko.Webhook.{fold_equal}
use deko.Session.{hash_token, validate, check_session, create, random_token}
use deko.Admin.Login.{LoginThrottle, extract_session_token, constant_time_eq, verify_admin, log_in}
use deko.Admin.Throttle.{admitted_of, admitted_of-bound}
use deko.Admin.Access.{IsAdmin, verify_admin-IsAdmin, verify_admin-log_in}
use deko.Examples.{test_platform}
use deko.Examples.Verdicts.{a_world}
use deko.Examples.Access.{at_noon, guarded_world}

abbrev one_login : LoginThrottle
one_login = record { max_attempts = 1; window = 60 }

admitted_of-bound_example :
    admitted_of one_login "a" ((100, "a") ∷ (110, "b") ∷ (159, "a") ∷ []) (λ j. 70 ∷ []) ≤ 1
admitted_of-bound_example =
    admitted_of-bound one_login "a" 100 ((100, "a") ∷ (110, "b") ∷ (159, "a") ∷ []) (λ j. 70 ∷ [])
      (omega arith)

verify_admin-IsAdmin_example :
    IsAdmin at_noon (some "pw") (some "a=b; deko_session=t1") none guarded_world "t1"
unfolding verify_admin extract_session_token validate check_session hash_token for_some select
    statement gets pure split trim trim_start trim_end is_whitespace strip_prefix string_eq nat_eq
    ◌>>=◌
verify_admin-IsAdmin_example =
    verify_admin-IsAdmin at_noon (some "pw") (some "a=b; deko_session=t1") none guarded_world "t1"
      refl

abbrev idle_world : World test_platform.Number
idle_world = record (a_world pending) { faults = [] }

verify_admin-log_in_example :
    (verify_admin test_platform
      (some "correct horse")
      (some "deko_session=01")
      none
      (record (log_in test_platform (some "correct horse") true "correct horse" idle_world).1 {
        faults = [];
      })).0
    ≡ ok "01"
unfolding extract_session_token log_in create random_token hash_token constant_time_eq fold_equal
    execute statement gets draw pure split trim trim_start trim_end is_whitespace strip_prefix
    string_eq nat_eq show_nat show_int ◌>>=◌
verify_admin-log_in_example =
    verify_admin-log_in test_platform (some "correct horse") (some "deko_session=01") none
      "correct horse" "01" idle_world refl refl refl refl

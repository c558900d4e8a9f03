-- ===== src/Examples/Control.antt =====
-- The rate limiter and the overrides on concrete inputs.
use deko.Prelude.{ℕ, ◌≡◌, true, none, List, [], ◌∷◌, min, arith, string_eq, nat_eq, String}
use deko.Models.{pending, escalated}
use deko.RateLimiter.{RateLimiter}
use deko.RateLimiter.Window.{requests_of, allowed_of, allowed_of-min}
use deko.Admin.Form
use deko.Admin.Recorded.{RecordedOrNot, override_action-RecordedOrNot}
use deko.Admin.Api
use deko.Admin.Transitions.{Steps, override_action-Steps}
use deko.Examples.{test_platform}
use deko.Examples.Verdicts.{a_world}

-- Two requests in a minute.
abbrev a_limiter : RateLimiter
a_limiter = record { max_requests = 2; window_secs = 60 }

-- Three requests of one key and one of another, within a second.
abbrev some_requests : List (ℕ × String)
some_requests = (10, "a") ∷ (20, "b") ∷ (30, "a") ∷ (40, "a") ∷ []

allowed_of-min_example :
    allowed_of a_limiter "a" some_requests (λ j. none) ≡ min 2 (requests_of "a" some_requests)
allowed_of-min_example = allowed_of-min a_limiter "a" 10 some_requests (
  (omega arith, omega arith),
  ((omega arith, omega arith), ((omega arith, omega arith), ((omega arith, omega arith), tt))),
)

override_action-RecordedOrNot_example :
    RecordedOrNot test_platform "a1" "checked by hand"
      (a_world escalated)
      (Form.override_action test_platform true "a1" "checked by hand" (a_world escalated))
override_action-RecordedOrNot_example =
    override_action-RecordedOrNot test_platform true "a1" "checked by hand" (a_world escalated)

override_action-Steps_example :
    Steps test_platform "a1" "denied" "checked by hand"
      (a_world pending)
      (Api.override_action test_platform "a1" "denied" "checked by hand" (a_world pending))
override_action-Steps_example =
    override_action-Steps test_platform "a1" "denied" "checked by hand" (a_world pending)

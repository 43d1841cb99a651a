-- ===== src/Device/Tests.antt =====
-- Device sessions at concrete statements.
-- About src/db/queries/devices.ts.
use keyforge.Prelude.{
  String, Bool, ◌≤◌, ◌≡◌, refl, false, none, some, List, [], ◌∷◌, arith, string_eq, option_eq,
  nat_eq,
}
use keyforge.Device.{
  Row, CreateInput, new_row, Call, creates, approves, denies, consumes, expires, slow_polls,
  retires, forgets_session, step, run, succeeds, successes, create_device_session, approve_device,
  deny_device, consume_approved_device, mark_device_expired, record_device_slow_poll, consumed,
}
use keyforge.Device.Removal.{Event, statement, cleans_up, deletes_client}
use keyforge.Device.Once.{successes_once}

abbrev asked : CreateInput
asked = record {
  device_code_hash = "d1";
  user_code_hash = "u1";
  client_id = "tv";
  resource_uri = some "https://api.example";
  scope = "read";
  expires_at = 700;
  poll_interval_seconds = 5;
  max_active_sessions = 2;
}

abbrev session : Row
session = new_row "dev_1" asked 100

abbrev calls : List Call
calls =
    slow_polls "dev_1" 103
    ∷ approves "dev_1" "usr_1" "ses_1" 90 110
    ∷ denies "dev_1" 111
    ∷ consumes "dev_1"
    ∷ consumes "dev_1"
    ∷ expires "dev_1"
    ∷ []

created : step (creates "dev_1" asked 100) [] ≡ session ∷ []
unfolding step create_device_session
created = refl

full :
    create_device_session "dev_2" (record asked { max_active_sessions = 1 }) 100 (session ∷ [])
    ≡ some (false, session ∷ [])
unfolding create_device_session
full = refl

repeated_code : create_device_session "dev_2" asked 100 (session ∷ []) ≡ none
unfolding create_device_session
repeated_code = refl

ends_consumed :
    run calls (session ∷ [])
    ≡ record session {
      status = consumed;
      user_id = some "usr_1";
      session_id = some "ses_1";
      auth_time = some 90;
      approved_at = some 110;
      last_polled_at = some 103;
      poll_count = 1;
      poll_interval_seconds = 10;
    }
      ∷ []
unfolding run step approve_device deny_device consume_approved_device mark_device_expired
    record_device_slow_poll
ends_consumed = refl

one_success : successes "dev_1" calls (session ∷ []) ≡ 1
unfolding successes succeeds step approve_device deny_device consume_approved_device
    mark_device_expired record_device_slow_poll
one_success = refl

-- Statements and cleanups, none of which reaches the session.
abbrev events : List Event
events =
    statement (approves "dev_1" "usr_1" "ses_1" 90 110)
    ∷ cleans_up 90 10
    ∷ statement (forgets_session "ses_1")
    ∷ deletes_client "app"
    ∷ statement (retires "https://api.example" 120)
    ∷ []

abbrev ordered : String → String → Bool
ordered a b = false

successes_once_example : successes "dev_1" calls (session ∷ []) ≤ 1
successes_once_example = successes_once "dev_1" calls (session ∷ []) (omega arith)

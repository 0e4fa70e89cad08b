-- ===== src/Analytics.antt =====
-- internal/analytics: the redirect event, the port of its recorder, and the recorder in memory,
-- over a state that holds the events.
use url_shortner.Prelude.{List, [], ◌∷◌, ◌++◌}
use url_shortner.Text.{Text, is_empty, trim_space}
use url_shortner.Time.{Time, is_zero}
use url_shortner.Errors.{
  Result, ok, fail_if, ◌>>◌, analytics_empty_code, analytics_zero_occurred_at,
}
use url_shortner.Io.{Io}
use url_shortner.Ports.{Context, context_error}
use url_shortner.Io

pub record RedirectEvent : Type 0 where
  pub code : Text
  pub occurred_at : Time
  pub user_agent : Text
  pub referer : Text
  pub ip : Text

unfoldable pub new_redirect_event : Text → Time → Text → Text → Text → Result RedirectEvent
new_redirect_event code occurred_at user_agent referer ip = do
  fail_if (is_empty (trim_space code)) analytics_empty_code
  fail_if (is_zero occurred_at) analytics_zero_occurred_at
  ok (record {
    code = code;
    occurred_at = occurred_at;
    user_agent = user_agent;
    referer = referer;
    ip = ip;
  })

pub record RedirectEventRecorder (S : Type 0) : Type 0 where
  pub record_event : Context → RedirectEvent → Io S (Unit {0})

abbrev pub Events : Type 0
Events = List RedirectEvent

-- NewRedirectEventRecorder, in memory
abbrev pub new_events : Events
new_events = []

-- Record, in memory
unfoldable pub append_event : Context → RedirectEvent → Io Events (Unit {0})
append_event ctx event =
    Io.◌>>◌ (Io.lift (context_error ctx)) (Io.assign (λ events. events ++ event ∷ []))

-- Events, in memory: a copy of the events, which is a value here.
unfoldable pub recorded_events : Events → List RedirectEvent
recorded_events events = events

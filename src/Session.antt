-- ===== src/Session.antt =====
-- Session states and their transitions (wsd/crates/ws-core/src/state.rs).
pub mod Lifecycle
use dotfile.Prelude.{String, Result, ok, err}

pub data SessionState : Type 0 where
  created running blocked finished failed reopened : SessionState

pub record TransitionError : Type 0 where
  pub from : SessionState
  pub to : SessionState

abbrev refuse : SessionState → SessionState → Result TransitionError SessionState
refuse from to = err (record { from = from; to = to })

unfoldable pub transition : SessionState → SessionState → Result TransitionError SessionState
transition created running = ok running
transition created finished = ok finished
transition created failed = ok failed
transition reopened running = ok running
transition reopened finished = ok finished
transition reopened failed = ok failed
transition running blocked = ok blocked
transition running finished = ok finished
transition running failed = ok failed
transition blocked running = ok running
transition blocked finished = ok finished
transition blocked failed = ok failed
transition finished reopened = ok reopened
transition failed reopened = ok reopened
transition from to = refuse from to

unfoldable pub event_type : SessionState → String
event_type created = "session.created"
event_type running = "session.running"
event_type blocked = "session.blocked"
event_type finished = "session.finished"
event_type failed = "session.failed"
event_type reopened = "session.reopened"

-- `Display`: the event type without the prefix "session."
unfoldable pub display : SessionState → String
display created = "created"
display running = "running"
display blocked = "blocked"
display finished = "finished"
display failed = "failed"
display reopened = "reopened"

-- ===== src/Session/Events/Refresh/Reach.antt =====
-- connection-session.ts: the snapshot loop over whole runs of a session.
use herdr_connect.Common.{◌≡◌, true, List, [], ◌∷◌}
use herdr_connect.Session.{Session, Env}
use herdr_connect.Session.Events.{Event, step, stream_tells}

-- What is relied on: a stream tells something only while the session holds its handle.
abbrev pub IsHeard : Event → Session → Type 0
IsHeard (stream_tells service) s = s.stream_handle ≡ true
IsHeard _ s = Unit {0}

abbrev pub AreHeard : Session → List (Env × Event) → Type 0
AreHeard s [] = Unit {0}
AreHeard s ((env, event) ∷ events) = IsHeard event s × AreHeard (step env s event) events

-- ===== src/Runtime/Calls.antt =====
-- The calls of the client and of the event recorder as actions. A read leaves the writes alone, a
-- write is noted before it is sent.
use rcs_ocm_deployer.Common.{String, [], ◌∷◌, ◌++◌}
use rcs_ocm_deployer.Runtime.Outcome.{Reply, ok}
use rcs_ocm_deployer.Runtime.Action.{Action, Write, EventType}

-- `EventRecorder.Event`
abbrev pub record_event : {W : Type 0} → EventType → String → String → Action W (Unit {0})
record_event type reason message s = (
  ok tt,
  record s { events = s.events ++ record { type = type; reason = reason; message = message } ∷ [] },
)

abbrev pub query : {W A : Type 0} → (W → Reply A × W) → Action W (Reply A)
query q s = let (r, w) = q s.cluster in (ok r, record s { cluster = w })

abbrev pub send : {W A : Type 0} → Write → (W → Reply A × W) → Action W (Reply A)
send call q s =
    let (r, w) = q s.cluster in (ok r, record s { cluster = w; writes = s.writes ++ call ∷ [] })

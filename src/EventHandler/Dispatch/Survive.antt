-- ===== src/EventHandler/Dispatch/Survive.antt =====
-- src/event_handler.rs: the state behind a handler that does not panic.
use parsip.Base.{◌≡◌, Bool, true, false, some, some_injective, arith}
use parsip.EventHandler.{DaemonContext}
use parsip.EventHandler.Dispatch.{survive}

pub survive_lem :
    (call_panics : Bool) (ctx ctx' : DaemonContext)
    → survive call_panics ctx ≡ some ctx'
    → ctx ≡ ctx'
survive_lem false ctx ctx' e = some_injective ctx ctx' e
survive_lem true ctx ctx' e = absurd (ground (arith, e))

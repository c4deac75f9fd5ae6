-- ===== src/Service.antt =====
-- The life of the function (pkg/service/init.go, internal/sbi/server.go, nrf_heartbeat.go of
-- internal/sbi/consumer): what its goroutines do in turn, and the requests that the NRF gets from them.
pub mod Order
mod Tests
use chf.Base.{◌≡◌, ◌≢◌, Bool, true, false, List, [], ◌∷◌}

pub data Request : Type 0 where
  register : Request
  heartbeat : Request
  deregister : Request

-- `Run` in the goroutine of `Start`: the loop of the registration is at its test, or waits for an
-- answer, or has a profile; then the start-up is over.
pub data Startup : Type 0 where
  at_test : Startup
  in_flight : Startup
  accepted : Startup
  over : Startup

-- The heartbeat has not been started, runs, or has returned.
pub data Heartbeat : Type 0 where
  never : Heartbeat
  beating : Heartbeat
  returned : Heartbeat

-- `listenShutdownEvent`, and the calls of `terminateProcedure`.
pub data Shutdown : Type 0 where
  listening : Shutdown
  stopping : Shutdown
  waiting : Shutdown
  deregistering : Shutdown
  terminated : Shutdown

-- `cancelled` is whether the context of the function is done; `sent` has the latest request first.
pub record State : Type 0 where
  pub cancelled : Bool
  pub startup : Startup
  pub beat : Heartbeat
  pub shutdown : Shutdown
  pub sent : List Request

abbrev pub initial : State
initial = record {
  cancelled = false;
  startup = at_test;
  beat = never;
  shutdown = listening;
  sent = [];
}

-- `Run` with `RegisterNFInstance`: where there is no client, or the context is done, there is no
-- heartbeat.
pub data RunStep (s : State) : State → Type 0 where
  no_client : s.startup ≡ at_test → RunStep s (record s { startup = over })
  aborts : s.startup ≡ at_test → s.cancelled ≡ true → RunStep s (record s { startup = over })
  sends : s.startup ≡ at_test → s.cancelled ≡ false → RunStep s (record s { startup = in_flight })
  fails :
      s.startup ≡ in_flight → RunStep s (record s { startup = at_test; sent = register ∷ s.sent })
  succeeds :
      s.startup ≡ in_flight → RunStep s (record s { startup = accepted; sent = register ∷ s.sent })
  starts_heartbeat : s.startup ≡ accepted → RunStep s (record s { startup = over; beat = beating })

-- The heartbeat updates or registers, until it sees that the context is done.
pub data HeartbeatStep (s : State) : State → Type 0 where
  beats : s.beat ≡ beating → HeartbeatStep s (record s { sent = heartbeat ∷ s.sent })
  returns : s.beat ≡ beating → s.cancelled ≡ true → HeartbeatStep s (record s { beat = returned })

-- `Terminate`, `listenShutdownEvent` and `terminateProcedure`. `WaitHeartbeatStopped` ends when the
-- heartbeat has returned, or at once if it was never started. The deregistration is not sent where
-- there is no client or no token.
pub data ShutdownStep (s : State) : State → Type 0 where
  cancels : ShutdownStep s (record s { cancelled = true })
  notices :
      s.shutdown ≡ listening
      → s.cancelled ≡ true
      → ShutdownStep s (record s { shutdown = stopping })
  stops_servers : s.shutdown ≡ stopping → ShutdownStep s (record s { shutdown = waiting })
  has_waited :
      s.shutdown ≡ waiting
      → s.beat ≢ beating
      → ShutdownStep s (record s { shutdown = deregistering })
  deregisters :
      s.shutdown ≡ deregistering
      → ShutdownStep s (record s { shutdown = terminated; sent = deregister ∷ s.sent })
  gives_up : s.shutdown ≡ deregistering → ShutdownStep s (record s { shutdown = terminated })

pub data Step : State → State → Type 0 where
  run : {s t : State} → RunStep s t → Step s t
  beat_step : {s t : State} → HeartbeatStep s t → Step s t
  shut_down : {s t : State} → ShutdownStep s t → Step s t

-- Steps of the goroutines in any order.
pub data Steps : State → State → Type 0 where
  stay : {s : State} → Steps s s
  then_step : {s t u : State} → Steps s t → Step t u → Steps s u

-- ===== src/Service/Order.antt =====
-- The order of the requests at a shutdown (pkg/service/init.go).
use chf.Base.{◌≡◌, ◌≢◌, refl, sym, false, List, [], ◌∷◌, All}
use mathlib.Core.Path.{subst}
use chf.Service.{
  Request, heartbeat, deregister, over, Heartbeat, beating, returned, Shutdown, listening, stopping,
  waiting, deregistering, terminated, State, initial, RunStep, no_client, aborts, sends, fails,
  succeeds, starts_heartbeat, HeartbeatStep, beats, returns, ShutdownStep, cancels, notices,
  stops_servers, has_waited, deregisters, gives_up, Step, run, beat_step, shut_down, Steps, stay,
  then_step,
}

abbrev pub HasNone : List Request → Type 0
HasNone requests = All (λ r. r ≢ deregister) requests

-- Only the latest request can be the deregistration.
abbrev pub IsLastAtMost : List Request → Type 0
IsLastAtMost [] = Unit
IsLastAtMost (r ∷ requests) = HasNone requests

-- The shutdown begins when the context is done, and until then there is no deregistration.
abbrev Before : State → Type 0
Before s =
    (s.cancelled ≡ false → s.shutdown ≡ listening) × (s.shutdown ≡ listening → HasNone s.sent)

Before-run : {s t : State} → RunStep s t → Before s → Before t
Before-run (no_client e) h = h
Before-run (aborts e c) h = h
Before-run (sends e c) h = h
Before-run (fails e) h = (h.0, λ l. (λ p. cc, h.1 l))
Before-run (succeeds e) h = (h.0, λ l. (λ p. cc, h.1 l))
Before-run (starts_heartbeat e) h = h

Before-beat : {s t : State} → HeartbeatStep s t → Before s → Before t
Before-beat (beats e) h = (h.0, λ l. (λ p. cc, h.1 l))
Before-beat (returns e c) h = h

Before-terminate : {s t : State} → ShutdownStep s t → Before s → Before t
Before-terminate cancels h = (λ c. cc, h.1)
Before-terminate (notices e c) h = (λ c'. cc, λ l. cc)
Before-terminate (stops_servers e) h = (λ c. let l = h.0 c in cc, λ l. cc)
Before-terminate (has_waited e b) h = (λ c. let l = h.0 c in cc, λ l. cc)
Before-terminate (deregisters e) h = (λ c. let l = h.0 c in cc, λ l. cc)
Before-terminate (gives_up e) h = (λ c. let l = h.0 c in cc, λ l. cc)

Before-each : {s t : State} → Step s t → Before s → Before t
Before-each (run a) h = Before-run a h
Before-each (beat_step a) h = Before-beat a h
Before-each (shut_down a) h = Before-terminate a h

Before-every : {s t : State} → Steps s t → Before s → Before t
Before-every stay h = h
Before-every (then_step more a) h = Before-each a (Before-every more h)

-- What holds of the heartbeat and the requests in each phase of the shutdown, once the start-up is
-- over.
abbrev Phase : Shutdown → Heartbeat → List Request → Type 0
Phase listening b requests = HasNone requests
Phase stopping b requests = HasNone requests
Phase waiting b requests = HasNone requests
Phase deregistering b requests = (b ≢ beating) × HasNone requests
Phase terminated b requests = (b ≢ beating) × IsLastAtMost requests

Phase-beats :
    (p : Shutdown) (b : Heartbeat) (requests : List Request)
    → b ≡ beating
    → Phase p b requests
    → Phase p b (heartbeat ∷ requests)
Phase-beats listening b requests e h = (λ q. cc, h)
Phase-beats stopping b requests e h = (λ q. cc, h)
Phase-beats waiting b requests e h = (λ q. cc, h)
Phase-beats deregistering b requests e h = absurd (h.0 e)
Phase-beats terminated b requests e h = absurd (h.0 e)

Phase-returns :
    (p : Shutdown) (b : Heartbeat) (requests : List Request)
    → Phase p b requests
    → Phase p returned requests
Phase-returns listening b requests h = h
Phase-returns stopping b requests h = h
Phase-returns waiting b requests h = h
Phase-returns deregistering b requests h = (λ q. cc, h.1)
Phase-returns terminated b requests h = (λ q. cc, h.1)

HasNone-IsLastAtMost : (requests : List Request) → HasNone requests → IsLastAtMost requests
HasNone-IsLastAtMost [] h = tt
HasNone-IsLastAtMost (r ∷ requests) h = h.1

Phase-IsLastAtMost :
    (p : Shutdown) (b : Heartbeat) (requests : List Request)
    → Phase p b requests
    → IsLastAtMost requests
Phase-IsLastAtMost listening b requests h = HasNone-IsLastAtMost requests h
Phase-IsLastAtMost stopping b requests h = HasNone-IsLastAtMost requests h
Phase-IsLastAtMost waiting b requests h = HasNone-IsLastAtMost requests h
Phase-IsLastAtMost deregistering b requests h = HasNone-IsLastAtMost requests (h.1)
Phase-IsLastAtMost terminated b requests h = h.1

abbrev IsOrdered : State → Type 0
IsOrdered s = (s.startup ≡ over) × Phase s.shutdown s.beat s.sent

IsOrdered-run : {s t : State} → RunStep s t → IsOrdered s → IsOrdered t
IsOrdered-run (no_client e) h = let o = h.0 in absurd (cc)
IsOrdered-run (aborts e c) h = let o = h.0 in absurd (cc)
IsOrdered-run (sends e c) h = let o = h.0 in absurd (cc)
IsOrdered-run (fails e) h = let o = h.0 in absurd (cc)
IsOrdered-run (succeeds e) h = let o = h.0 in absurd (cc)
IsOrdered-run (starts_heartbeat e) h = let o = h.0 in absurd (cc)

IsOrdered-beat : {s t : State} → HeartbeatStep s t → IsOrdered s → IsOrdered t
IsOrdered-beat {s} (beats e) h = (h.0, Phase-beats s.shutdown s.beat s.sent e (h.1))
IsOrdered-beat {s} (returns e c) h = (h.0, Phase-returns s.shutdown s.beat s.sent (h.1))

IsOrdered-terminate : {s t : State} → ShutdownStep s t → IsOrdered s → IsOrdered t
IsOrdered-terminate cancels h = h
IsOrdered-terminate {s} (notices e c) h = (h.0, subst (λ p. Phase p s.beat s.sent) e (h.1))
IsOrdered-terminate {s} (stops_servers e) h = (h.0, subst (λ p. Phase p s.beat s.sent) e (h.1))
IsOrdered-terminate {s} (has_waited e b) h = (h.0, (b, subst (λ p. Phase p s.beat s.sent) e (h.1)))
IsOrdered-terminate {s} (deregisters e) h =
    let phase : Phase deregistering s.beat s.sent = subst (λ p. Phase p s.beat s.sent) e (h.1) in
    (h.0, phase)
IsOrdered-terminate {s} (gives_up e) h =
    let phase : Phase deregistering s.beat s.sent = subst (λ p. Phase p s.beat s.sent) e (h.1) in
    (h.0, (phase.0, HasNone-IsLastAtMost s.sent (phase.1)))

IsOrdered-each : {s t : State} → Step s t → IsOrdered s → IsOrdered t
IsOrdered-each (run a) h = IsOrdered-run a h
IsOrdered-each (beat_step a) h = IsOrdered-beat a h
IsOrdered-each (shut_down a) h = IsOrdered-terminate a h

IsOrdered-every : {s t : State} → Steps s t → IsOrdered s → IsOrdered t
IsOrdered-every stay h = h
IsOrdered-every (then_step more a) h = IsOrdered-each a (IsOrdered-every more h)

-- Where the start-up is over before the context is done, no request of the heartbeat or of a
-- registration reaches the NRF behind the deregistration, in whatever order the goroutines run,
-- and there is at most one deregistration.
pub deregister-IsLastAtMost :
    (s t : State)
    → Steps initial s
    → s.startup ≡ over
    → s.cancelled ≡ false
    → Steps s t
    → IsLastAtMost t.sent
deregister-IsLastAtMost s t before started running after =
    let none_yet = Before-every before (λ c. refl, λ l. tt) in
    let l = none_yet.0 running in
    let start : IsOrdered s =
      (started, subst (λ p. Phase p s.beat s.sent) (sym l) (none_yet.1 l)) in
    Phase-IsLastAtMost t.shutdown t.beat t.sent ((IsOrdered-every after start).1)

-- ===== src/Service/Tests.antt =====
-- A function that registers, sends a heartbeat and is shut down (pkg/service/init.go).
use chf.Base.{refl, true, [], ◌∷◌}
use chf.Service.{
  register, heartbeat, deregister, over, beating, returned, terminated, State, initial, sends,
  succeeds, starts_heartbeat, beats, returns, cancels, notices, stops_servers, has_waited,
  deregisters, run, beat_step, shut_down, Steps, stay, then_step,
}
use chf.Service.Order.{IsLastAtMost, deregister-IsLastAtMost}

abbrev running : State
running = record initial { startup = over; beat = beating; sent = register ∷ [] }

abbrev ended : State
ended = record {
  cancelled = true;
  startup = over;
  beat = returned;
  shutdown = terminated;
  sent = deregister ∷ heartbeat ∷ register ∷ [];
}

started : Steps initial running
started =
    then_step (then_step (then_step stay (run (sends refl refl))) (run (succeeds refl)))
      (run (starts_heartbeat refl))

shut : Steps running ended
shut =
    then_step
      (then_step
        (then_step
          (then_step
            (then_step (then_step (then_step stay (beat_step (beats refl))) (shut_down cancels))
              (shut_down (notices refl refl)))
            (shut_down (stops_servers refl)))
          (beat_step (returns refl refl)))
        (shut_down (has_waited refl (λ q. cc))))
      (shut_down (deregisters refl))

deregister-IsLastAtMost_example : IsLastAtMost ended.sent
deregister-IsLastAtMost_example = deregister-IsLastAtMost running ended started refl refl shut

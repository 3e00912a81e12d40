-- ===== src/Bench/Msg/Tests.antt =====
-- The driver of the message benchmark at concrete requests (micro-benchmark_Msg/driver).
use dmacftu.Prelude.{
  Option, ℕ, zero, suc, ◌+◌, ◌≡◌, refl, List, [], ◌∷◌, none, some, ℤ, pos, negsuc, arith, replicate,
}
use dmacftu.Request.{RequestCopy}
use dmacftu.Engine.{to_user, Reply, Engine}
use dmacftu.Bench.Msg.{buff_measure, zero_unit, Machine, dma_copy, size_of}
use dmacftu.Bench.Msg.Driver.{DeviceState, benchmark_driver_write, benchmark_driver_lseek}
use dmacftu.Channels.{copy_dma_get_channel_excl}
use dmacftu.Copy.{dma_copy_pages}
use dmacftu.Pin.{dma_pin_user_pages}
use dmacftu.Pin.Balance.{pinned_request}
use dmacftu.UserCopy.{exclusive, policy_channel, dma_copy_policy}
use dmacftu.UserCopy.Cases.{
  request, env-IsDocumented, answer, last_poll, engine, channels, env, empty_log,
}
use dmacftu.Bench.Msg.Measuring.{run_copies}
use dmacftu.Bench.Msg.Started.{CanMeasure, Measured, request_of}
use dmacftu.Bench.Msg.Written.{asked, benchmark_driver_write-Measured}

-- Copies to the user by the exclusive policy.
abbrev machine : Machine
machine = record {
  type_measure = 1;
  channels = channels;
  env = env;
  get_cpu = λ k. 1;
  start = λ k. 100 + k;
  end = λ k. 101 + k;
  left = λ k. 0;
}

-- The answers of the engine to that many copies, of two pieces each.
replies : ℕ → List Reply
replies zero = []
replies (suc n) = answer (some 5) ∷ answer (some 6) ∷ replies n

abbrev engine_for : ℕ → Engine
engine_for n = record engine { replies = replies n; polls = replicate n last_poll }

abbrev device : DeviceState
device = record {
  b_data = record {
    user_size = 0;
    user_buf = 0;
    kernel_size = 64;
    kernel_buf = 1000;
    type = 2;
    results = record { count = 0; buffer = replicate buff_measure zero_unit };
  };
  engine = engine_for (suc buff_measure);
  log = empty_log;
  flushed = [];
}

abbrev no_bytes_left : List ℤ
no_bytes_left = replicate buff_measure (pos 0)

-- What the copies leave of the request and the engine.
abbrev left_by : Option (List ℤ × RequestCopy × Engine) → RequestCopy × Engine
left_by none = (request, engine)
left_by (some (rets, q, e)) = (q, e)

abbrev at_end : RequestCopy × Engine
at_end = left_by (
    run_copies machine (dma_copy exclusive to_user) (suc buff_measure) 0
      (pinned_request env (request_of (asked 4090 10 device))) device.engine)

copies :
    run_copies machine
      (dma_copy exclusive to_user)
      (suc buff_measure)
      0
      (pinned_request env (request_of (asked 4090 10 device)))
      device.engine
    ≡ some (pos 0 ∷ no_bytes_left, at_end.0, at_end.1)
unfolding run_copies policy_channel copy_dma_get_channel_excl dma_copy_policy dma_copy_pages replies
copies = refl

can_measure :
    CanMeasure machine
      (dma_copy exclusive to_user)
      (asked 4090 10 device)
      (pos 0)
      no_bytes_left
      at_end.0
      at_end.1
unfolding dma_pin_user_pages
can_measure = record {
  room = refl;
  fits = omega arith;
  documented = λ h. env-IsDocumented none;
  pinned = λ h. refl;
  ends = copies;
}

benchmark_driver_write-Measured_example :
    Measured machine
      (asked 4090 10 device)
      no_bytes_left
      at_end.1
      10
      (benchmark_driver_write machine 4090 10 device)
benchmark_driver_write-Measured_example =
    benchmark_driver_write-Measured machine (dma_copy exclusive to_user) 4090 10 device (pos 0)
      no_bytes_left at_end.0 at_end.1 (omega arith) (omega arith) (omega arith) (omega arith)
      (omega arith) refl can_measure

-- A negative result counts as more bytes than were asked for.
failed-size : size_of 10 (negsuc 15) ≡ 26
failed-size = refl

seeks : benchmark_driver_lseek 5 (pos 7) 1 ≡ (pos 12, 12)
unfolding benchmark_driver_lseek
seeks = refl

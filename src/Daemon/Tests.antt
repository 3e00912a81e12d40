-- ===== src/Daemon/Tests.antt =====
-- The daemon of trace/daemon on a device file that gives prepared regions, and on the trace driver with
-- two CPUs.
use dmacftu.Prelude.{
  ℕ, ◌<◌, ◌≡◌, refl, true, false, List, [], ◌∷◌, ◌++◌, none, some, All, pos, negsuc, arith, inr,
  subst,
}
use mathlib.Core.Option.{some-injective}
use dmacftu.CircularBuffer.{UnitBuff, CircularBuffer, zero_unit, op_copy_dma}
use dmacftu.CircularBuffer.Contents.{IsValid, contents}
use dmacftu.Trace.{RegionMem, TraceData}
use dmacftu.Daemon.{DaemonTrace, Uses, Device, World, Host, init_daemon, take_one, give_back}
use dmacftu.Daemon.Text.{codes, decimal, hexadecimal, diff_time, line_of, lines_of, first_row}
use dmacftu.Daemon.Mapping.{holds}
use dmacftu.Daemon.Save.{measures, save_measure}
use dmacftu.Daemon.Saving.{Records, AreCounted, Saved, save_measure-Saved}
use dmacftu.Daemon.Copying.{copy_normal_file}
use dmacftu.Daemon.Copied.{
  Transfers, moved, complete, IsDocumented, CopyEnded, copy_normal_file-CopyEnded,
}
use dmacftu.Daemon.Cleaning.{trace_device, clean_kernel_buffer, clean_kernel_buffer-empties}
use dmacftu.Daemon.Record.{record_measures}
use dmacftu.Daemon.Rounds.{IsSteady}
use dmacftu.Daemon.Ending.{IsClosed, Finished}
use dmacftu.Daemon.Session.{report, record_measures-Finished}
use dmacftu.Daemon.Driven.{trace_session-Finished}
use dmacftu.Daemon.Missed.{Prepares, DidNothing, record_measures-DidNothing}

-- One measure: 4096 bytes by DMA, in 250 ns.
abbrev measure : UnitBuff
measure = record {
  index_cpu_event = 1;
  count_event = 7;
  addr = 0xabc;
  size = 4096;
  type_op = op_copy_dma;
  index_cpu = 0;
  clock_cpu_start = 1000;
  clock_cpu_end = 1250;
}

line :
    line_of measure
    ≡ codes
        "1                7             4096         0                 1000                 1250            250                   0xabc          DMA\n"
unfolding line_of decimal hexadecimal diff_time
line = refl

max_size : (init_daemon 2 10).size_max ≡ 3_000_000
unfolding init_daemon
max_size = refl

-- A device that gives the regions of a list, one element to a read.
abbrev scripted : Device
scripted = record {
  State = List (List RegionMem);
  read = λ s. elim s [ [] ↦ (none, []) | rs ∷ rest ↦ (some rs, rest) ];
  lseek = λ s. pos 0;
}

abbrev empty_region : RegionMem
empty_region = record { count = 0; buffer = [] }

abbrev full_region : RegionMem
full_region = record { count = 2; buffer = measure ∷ measure ∷ measure ∷ [] }

abbrev empties : List RegionMem
empties = empty_region ∷ empty_region ∷ []

abbrev regions : List RegionMem
regions = full_region ∷ empty_region ∷ []

abbrev script : List (List RegionMem)
script = empties ∷ empties ∷ empties ∷ regions ∷ empties ∷ []

scripted-keeps : (s : List (List RegionMem)) → All AreCounted s → All AreCounted (scripted.read s).1
scripted-keeps [] g = tt
scripted-keeps (rs ∷ rest) g = g.1

scripted-counts :
    (s : List (List RegionMem)) (rs : List RegionMem)
    → All AreCounted s
    → (scripted.read s).0 ≡ some rs
    → AreCounted rs
scripted-counts [] rs g e = ground (arith, e)
scripted-counts (x ∷ rest) rs g e = subst AreCounted (some-injective x rs e) g.0

scripted-IsSteady : IsSteady scripted (All AreCounted)
scripted-IsSteady = record { keeps = scripted-keeps; counts = scripted-counts }

empties-AreCounted : AreCounted empties
unfolding measures
empties-AreCounted = record { stored = omega arith; few = omega arith }

regions-AreCounted : AreCounted regions
unfolding measures
regions-AreCounted = record { stored = omega arith; few = omega arith }

-- Reads of one byte at a time, and whole writes.
abbrev host : Host
host = record {
  open_sp = pos 3;
  seek_end = pos 3_000_000;
  write_end = pos 1;
  mmap_first = true;
  munmap_first = true;
  malloc_region = true;
  open_dev = pos 4;
  mmap = λ i. true;
  munmap = λ i. true;
  open_fl = pos 5;
  seek_start = pos 0;
  malloc_page = true;
  stale = pos 0;
  read = λ i n. pos 1;
  write = λ i n. pos n;
  remove = pos 0;
}

host-reads : (i n : ℕ) → 0 < n → Transfers n (host.read i n)
host-reads i n h = moved 1 (omega arith) h

host-IsDocumented : IsDocumented host
host-IsDocumented = record { reads = host-reads; writes = λ i n. complete }

abbrev unused : Uses
unused = record { opened = 0; closed = 0 }

abbrev world : {S : Type 0} → S → World S
world s = record {
  sparse = [];
  size = 0;
  position = 0;
  regular = [];
  has_sparse = false;
  sp = unused;
  fl = unused;
  dev = unused;
  memory = unused;
  device = s;
}

abbrev daemon : DaemonTrace
daemon = record { fd_sp = negsuc 0; fd_fl = negsuc 0; size_max = 3_000_000; offset_map = 0 }

world-IsClosed : IsClosed (world script)
world-IsClosed = record { sp = refl; fl = refl; dev = refl; memory = refl }

record_measures-Finished_example :
    Finished (report scripted 2 script) (record_measures scripted host 2 daemon (world script))
unfolding clean_kernel_buffer measures
record_measures-Finished_example =
    record_measures-Finished scripted host 2 daemon (world script) scripted-IsSteady
      (
        empties-AreCounted,
        (empties-AreCounted, (empties-AreCounted, (regions-AreCounted, (empties-AreCounted, tt)))),
      )
      (omega arith) world-IsClosed host-IsDocumented refl refl refl refl

-- The report of that run: the first row and two lines.
report-lines : report scripted 2 script ≡ first_row ++ lines_of (measure ∷ measure ∷ [])
unfolding clean_kernel_buffer measures
report-lines = refl

short_text : Records (65 ∷ 66 ∷ []) (record daemon { offset_map = 2 }) (65 ∷ 66 ∷ 0 ∷ [])
short_text = record { chars = omega arith; bytes = holds 1 refl; offset = refl }

abbrev text_world : World (List (List RegionMem))
text_world = record (world (regions ∷ [])) { sparse = 65 ∷ 66 ∷ 0 ∷ []; size = 3_000_001 }

save_measure-Saved_example :
    Saved
      ((65 ∷ 66 ∷ []) ++ lines_of (measures regions))
      (record daemon { offset_map = 2 })
      text_world
      []
      (save_measure scripted host 0 (record daemon { offset_map = 2 }) text_world)
unfolding measures
save_measure-Saved_example =
    save_measure-Saved scripted host 0 regions (65 ∷ 66 ∷ []) (record daemon { offset_map = 2 })
      text_world refl regions-AreCounted short_text (omega arith)

abbrev five : List ℕ
five = 65 ∷ 66 ∷ 67 ∷ 68 ∷ 69 ∷ []

copies-five :
    copy_normal_file host 6 (record daemon { offset_map = 5 }) (record (world tt) { sparse = five })
    ≡ some (
      pos 0,
      daemon,
      record (world tt) {
        sparse = five;
        position = 5;
        regular = five;
        memory = give_back (take_one unused);
      },
    )
unfolding copy_normal_file
copies-five = refl

copy_normal_file-CopyEnded_example :
    CopyEnded
      (record daemon { offset_map = 5 })
      (record (world tt) { sparse = five; memory = give_back (take_one unused) })
      (copy_normal_file host 6
        (record daemon { offset_map = 5 })
        (record (world tt) { sparse = five }))
copy_normal_file-CopyEnded_example =
    copy_normal_file-CopyEnded host 6 (record daemon { offset_map = 5 })
      (record (world tt) { sparse = five }) host-IsDocumented refl (omega arith)

-- The device file cannot be opened.
abbrev no_device : Host
no_device = record host { open_dev = negsuc 1 }

no_device-Prepares : Prepares no_device
no_device-Prepares = record {
  created = refl;
  extended = refl;
  wrote = refl;
  mapped = refl;
  unmapped = refl;
}

record_measures-DidNothing_example :
    DidNothing (world script) (record_measures scripted no_device 2 daemon (world script))
record_measures-DidNothing_example =
    record_measures-DidNothing scripted no_device 2 daemon (world script) no_device-Prepares
      (inr (1, refl))

abbrev buffer : CircularBuffer
buffer = record {
  count_event = 2;
  start = 0;
  end = 2;
  size = 3;
  array_element = measure ∷ measure ∷ zero_unit ∷ [];
}

buffer-IsValid : IsValid buffer
buffer-IsValid = record {
  small = omega arith;
  storage = refl;
  start_in = omega arith;
  end_in = omega arith;
}

abbrev driver_data : TraceData
driver_data = record {
  count_region = 2;
  ptr_region = λ j. record { count = 0; buffer = [] };
  ptr_cb = λ j. buffer;
}

clean_kernel_buffer-empties_example :
    ((clean_kernel_buffer (trace_device (0 ∷ 1 ∷ []) 4096 4096 (λ k. 0)) (0, driver_data)).0
      ≡ pos 0)
    × (contents (
          (clean_kernel_buffer
              (trace_device (0 ∷ 1 ∷ []) 4096 4096 (λ k. 0))
              (0, driver_data)).1.1.ptr_cb
            1)
        ≡ [])
clean_kernel_buffer-empties_example =
    clean_kernel_buffer-empties (0 ∷ 1 ∷ []) 4096 (λ k. 0) 0 1 driver_data
      (((λ e. absurd (omega (arith, e))), tt), (tt, tt)) (λ n. refl) (λ i. buffer-IsValid)
      (omega arith, (omega arith, tt)) refl (omega arith)

-- Two reads of the trace driver on two CPUs.
abbrev trace_world : World (ℕ × TraceData)
trace_world = world (0, driver_data)

trace_session-Finished_example :
    Finished (report (trace_device (0 ∷ 1 ∷ []) 4096 4096 (λ k. 0)) 2 trace_world.device) (
      record_measures
        (trace_device (0 ∷ 1 ∷ []) 4096 4096 (λ k. 0))
        host
        2
        (init_daemon 2 2)
        trace_world)
trace_session-Finished_example =
    trace_session-Finished (0 ∷ 1 ∷ []) 4096 4096 (λ k. 0) host 2 trace_world
      (((λ e. absurd (omega (arith, e))), tt), (tt, tt)) (omega arith) (omega arith) (omega arith)
      ((λ i. buffer-IsValid), (omega arith, (omega arith, tt)))
      (record { sp = refl; fl = refl; dev = refl; memory = refl }) host-IsDocumented refl refl refl
      refl

-- ===== src/Daemon.antt =====
-- The daemon that drains the trace driver into text files: trace/daemon/core_daemon.c,
-- trace/daemon/daemon_operation.c and trace/daemon/daemon.h. What the C library and the kernel answer
-- stands in a record, and the device file is a parameter; page sizes are those of x86.
pub mod Text
pub mod Lines
pub mod Mapping
pub mod Save
pub mod Saving
pub mod Copying
pub mod Copied
pub mod Cleaning
pub mod Record
pub mod Rounds
pub mod Ending
pub mod Session
pub mod Steady
pub mod Driven
pub mod Missed
mod Tests
use dmacftu.Prelude.{
  ℕ, ◌+◌, ◌-◌, ◌*◌, ◌%◌, ◌^◌, Bool, List, Option, none, some, ltb, if◌then◌else◌, ℤ, pos, negsuc,
}
use dmacftu.Trace.{RegionMem}

-- N_CHAR_LINE, PLUS_CHAR_LINE, KERNEL_UNIT_BUFFER and N_UNIT.
abbrev pub n_char_line : ℕ
n_char_line = 200

abbrev pub plus_char_line : ℕ
plus_char_line = 5

abbrev pub kernel_unit_buffer : ℕ
kernel_unit_buffer = 1024

abbrev pub n_unit : ℕ
n_unit = 500

-- `-EFAULT`, `-EINVAL`, and the -1 of save_measure.
abbrev pub efault : ℤ
efault = negsuc 13

abbrev pub einval : ℤ
einval = negsuc 21

-- `struct daemon_trace`, without the two paths.
pub record DaemonTrace : Type 0 where
  pub fd_sp : ℤ
  pub fd_fl : ℤ
  pub size_max : ℕ
  pub offset_map : ℕ

-- The conversion of an `int`, given by its bits, to `size_t`.
abbrev pub to_size : ℕ → ℕ
to_size n = if ltb (n % 2 ^ 32) (2 ^ 31) then n % 2 ^ 32 else n % 2 ^ 32 + (2 ^ 64 - 2 ^ 32)

-- init_daemon, with MAX_SIZE_SP computed as an `int`.
unfoldable pub init_daemon : ℕ → ℕ → DaemonTrace
init_daemon n_cpu n_read = record {
  fd_sp = negsuc 0;
  fd_fl = negsuc 0;
  size_max = to_size ((n_read + plus_char_line) * n_unit * n_char_line * n_cpu);
  offset_map = 0;
}

-- How often something was opened or allocated, and how often closed or freed.
pub record Uses : Type 0 where
  pub opened : ℕ
  pub closed : ℕ

abbrev pub take_one : Uses → Uses
take_one u = record u { opened = u.opened + 1 }

abbrev pub give_back : Uses → Uses
give_back u = record u { closed = u.closed + 1 }

-- The device file: `read` of N_UNIT measures for each CPU, `none` when it does not return the size of
-- the regions, and `lseek` to the start.
pub record Device : Type 1 where
  pub State : Type 0
  pub read : State → Option (List RegionMem) × State
  pub lseek : State → ℤ

-- The sparse file, all zero after the bytes listed up to its size, and the position of its descriptor; the
-- regular file; whether the name of the sparse file is there; the descriptors, the memory and the device.
pub record World (S : Type 0) : Type 0 where
  pub sparse : List ℕ
  pub size : ℕ
  pub position : ℕ
  pub regular : List ℕ
  pub has_sparse : Bool
  pub sp : Uses
  pub fl : Uses
  pub dev : Uses
  pub memory : Uses
  pub device : S

-- What the system calls answer: negative numbers for errors, false for MAP_FAILED, -1 and NULL. Those
-- of the loops are told the round; `read` and `write` are also told the number of bytes asked for.
-- `stale` is what the variable `ret` of copy_normal_file holds at first.
pub record Host : Type 0 where
  pub open_sp : ℤ
  pub seek_end : ℤ
  pub write_end : ℤ
  pub mmap_first : Bool
  pub munmap_first : Bool
  pub malloc_region : Bool
  pub open_dev : ℤ
  pub mmap : ℕ → Bool
  pub munmap : ℕ → Bool
  pub open_fl : ℤ
  pub seek_start : ℤ
  pub malloc_page : Bool
  pub stale : ℤ
  pub read : ℕ → ℕ → ℤ
  pub write : ℕ → ℕ → ℤ
  pub remove : ℤ

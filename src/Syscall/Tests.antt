-- ===== src/Syscall/Tests.antt =====
-- kernel/src/syscall/dispatch.rs at concrete inputs: a kernel with one task, of user 7.
use mathlib.Core.Option.{some-injective}
use alaphi_os.Base.{
  ℕ, ◌≡◌, ◌⊎◌, refl, sym, ap, Bool, true, false, none, some, [], ◌∷◌, arith, replicate,
  if◌then◌else◌, ◌==◌, length, take, length-take, ok, err,
}
use alaphi_os.Base.Bytes.{Bytes}
use alaphi_os.Fs.Access.{check_perm}
use alaphi_os.Fs.Overlay.{verify}
use alaphi_os.Fs.Volume.{Fat, permission_denied}
use alaphi_os.Ipc.Pipe
use alaphi_os.Ipc.Table
use alaphi_os.Lifecycle.{System, registry_get, current_tid}
use alaphi_os.Process.Task.{Task, running}
use alaphi_os.Syscall.{
  Kernel, Args, returns, pipe, from_raw_parts, str_from_user, uid_gid_of, answer, with_tid,
  or_panic,
}
use alaphi_os.Syscall.Channels.{sys_read_channel, sys_write_channel}
use alaphi_os.Syscall.Errno.{pos, as_isize}
use alaphi_os.Memory.Area.{anonymous, set_heap_end, move_end, add_area}
use alaphi_os.Memory.Paging.{Mapper}
use alaphi_os.Scheduler.{update}
use alaphi_os.Syscall.Memory.{Space, sys_brk, brk_by, brk_of, moved, resized, align_up, write_back}
use alaphi_os.Syscall.Memory.Bounds.{Grown, sys_brk-Grown}
use alaphi_os.Syscall.Modes.{sys_chmod_locks_owner_out}
use alaphi_os.Syscall.Overruns.{Within}
use alaphi_os.Syscall.Paths.{sys_chmod, sys_getdents}
use alaphi_os.Syscall.Privileges.{sys_logout_gives_root, sys_login_needs_password}
use alaphi_os.Syscall.Reads.{reads_stay_in_buffer, ReadsBounded}
use alaphi_os.Syscall.Files.{sys_read}
use alaphi_os.Syscall.Transfers.{pipe_carries_buffer}
use alaphi_os.Syscall.Users.{sys_login, sys_logout, set_user}
use alaphi_os.Syscall.Utf8.{from_utf8, is_utf8, follow}

abbrev task : Task
task = record {
  pid = 5;
  tid = 5;
  thread_group = 5;
  state = running;
  cr3 = 0;
  priority = 0;
  parent = none;
  exit_code = none;
  vmm = record { areas = []; swapped = [] };
  user_entry = 0;
  user_stack = 0;
  uid = 7;
  gid = 7;
  heap_start = 0;
  brk = 0;
  signals = record { pending = 0; handlers = [] };
}

abbrev system : System
system = record {
  heap = λ _. task;
  next_arc = 2;
  table = (5, 1) ∷ [];
  sched = record {
    queues = replicate 8 [];
    current = some 1;
    ticks_remaining = 1;
    total_ticks = 7;
    needs_reschedule = false;
  };
  preempt_count = 0;
}

-- A volume of one file, whose state is its bytes.
abbrev volume : Fat Bytes
volume = record {
  open_file = λ d p. true;
  seek_read = λ d p cursor len. (d, some (take len d));
  seek_write = λ d p cursor buf. (buf, true);
  file_size = λ d p. some (length d);
  open_dir = λ d p. some ((b'f' ∷ [], false) ∷ []);
  create_file = λ d p. (d, true);
  remove_entry = λ d p. (d, true);
  rename_entry = λ d p q. (d, true);
  create_dir = λ d p. (d, true);
}

-- Two bytes are 47 and 102, the path `/f`; handle 0 is a pipe.
abbrev kernel : Kernel Bytes
kernel = record {
  system = system;
  ids = record { next_pid = 6; next_tid = 6 };
  fs = record {
    fcbs = [];
    fds = [];
    perms =
        (47 ∷ 102 ∷ [], record { uid = 7; gid = 7; owner_rwx = 7; group_rwx = 5; world_rwx = 5 })
        ∷ [];
    auth = (7, record { uid = 7; salt = []; hash = 1 ∷ [] }) ∷ [];
    disk = some (9 ∷ []);
  };
  channels = record {
    next_handle = 1;
    map = (0, pipe (record { buf = []; is_closed = false })) ∷ [];
  };
  shm_registry = [];
  resources = record { next_handle = 0; map = [] };
  control = record { acl = record { objects = [] }; roles = []; user_roles = [] };
  devices = record { entries = [] };
  console = record { line_buf = []; line_len = 0; ready_buf = []; ready_len = 0; ready_pos = 0 };
  scancodes = [];
  serial = [];
  memory = λ a. if a == 100 then 47 else (if a == 101 then 102 else 0);
}

-- `arg0` and `arg1` name the path, and the mode is 0o700.
abbrev chmod_args : Args
chmod_args = record { arg0 = 100; arg1 = 2; arg2 = 448; arg3 = 0 }

the_path : str_from_user kernel.memory 100 2 ≡ some (47 ∷ 102 ∷ [])
unfolding str_from_user from_raw_parts from_utf8 is_utf8 follow
the_path = refl

sys_chmod_locks_owner_out_example :
    (k' : Kernel Bytes) × (sys_chmod chmod_args kernel ≡ some (k', returns (pos 0)))
    × (check_perm k'.fs.perms (47 ∷ 102 ∷ []) 7 7 false ≡ err permission_denied)
sys_chmod_locks_owner_out_example =
    sys_chmod_locks_owner_out kernel chmod_args (47 ∷ 102 ∷ [])
      (record { uid = 7; gid = 7; owner_rwx = 7; group_rwx = 5; world_rwx = 5 }) 7 the_path refl
      (omega arith)

the_task : current_tid system ≡ some 5
unfolding current_tid
the_task = refl

in_table : registry_get system.table 5 ≡ some 1
unfolding registry_get
in_table = refl

sys_logout_gives_root_example :
    (k' : Kernel Bytes) × (sys_logout chmod_args kernel ≡ some (k', returns (pos 0)))
    × (uid_gid_of k'.system (registry_get k'.system.table 5) ≡ (0, 0))
    × ((path : Bytes) (want_write : Bool)
        → let (uid, gid) = uid_gid_of k'.system (registry_get k'.system.table 5) in
          check_perm k'.fs.perms path uid gid want_write ≡ ok tt)
sys_logout_gives_root_example = sys_logout_gives_root kernel chmod_args 5 1 the_task in_table

-- A login with a hash function that gives every password the one hash kept.
abbrev one_hash : Bytes → Bytes
one_hash _ = 1 ∷ []

abbrev login_args : Args
login_args = record { arg0 = 7; arg1 = 100; arg2 = 2; arg3 = 0 }

logged_in : sys_login one_hash login_args kernel ≡ some (set_user 7 5 kernel, returns (pos 0))
unfolding sys_login verify from_raw_parts with_tid or_panic current_tid answer
logged_in = refl

sys_login_needs_password_example :
    ((b : ℕ) → ((set_user 7 5 kernel).system.heap b).uid ≡ (kernel.system.heap b).uid)
    ⊎ ((verify one_hash kernel.fs.auth 7 (from_raw_parts kernel.memory 100 2) ≡ true)
        × (returns (pos 0) ≡ returns (pos 0)))
sys_login_needs_password_example =
    sys_login_needs_password one_hash kernel (set_user 7 5 kernel) login_args (returns (pos 0))
      logged_in

bounded : ReadsBounded volume
bounded d path cursor len bytes h =
    omega (arith, length-take len d, sym (ap (λ (b : Bytes). length b) (some-injective _ _ h)))

abbrev read_args : Args
read_args = record { arg0 = 0; arg1 = 200; arg2 = 3; arg3 = 0 }

reads_stay_in_buffer_example :
    Within kernel 200 3 (sys_read volume (λ p. p) read_args kernel)
    × Within kernel 200 3 (sys_read_channel read_args kernel)
    × Within kernel 3 0 (sys_getdents volume (λ p. p) read_args kernel)
reads_stay_in_buffer_example = reads_stay_in_buffer volume (λ p. p) kernel read_args bounded

empty_pipe : Table.get kernel.channels 0 ≡ some (pipe Pipe.new)
unfolding Table.get Pipe.new
empty_pipe = refl

pipe_carries_buffer_example :
    (k' k'' : Kernel Bytes) × (sys_write_channel
        (record { arg0 = 0; arg1 = 100; arg2 = 2; arg3 = 0 })
        kernel
      ≡ some (k', returns (pos 0)))
    × (sys_read_channel (record { arg0 = 0; arg1 = 300; arg2 = 2; arg3 = 0 }) k'
        ≡ some (k'', returns (as_isize 2)))
    × (from_raw_parts k''.memory 300 2 ≡ from_raw_parts kernel.memory 100 2)
pipe_carries_buffer_example =
    pipe_carries_buffer kernel 0 100 300 2 0 empty_pipe (omega arith) (omega arith) (omega arith)
      (omega arith)

-- A mapper that maps nothing.
abbrev no_pages : Mapper (Unit {0})
no_pages = record {
  translate_addr = λ p a. none;
  map_page = λ p f page frame flags. none;
  unmap_page = λ p page. none;
  remap_flags = λ p page flags. none;
}

abbrev no_space : Space (Unit {0})
no_space = (
  tt,
  record {
    words = λ _. 0;
    allocator = record { head = none; free_count = 0; phys_offset = 0 };
    bytes = λ _. 0;
  },
)

abbrev brk_args : Args
brk_args = record { arg0 = 5000; arg1 = 0; arg2 = 0; arg3 = 0 }

abbrev grown : Kernel Bytes
grown = record kernel {
  system = record system {
    heap = update system.heap 1 (record task {
      vmm = record {
        areas = record { start = 0; end = 8192; flags = 7; kind = anonymous } ∷ [];
        swapped = [];
      };
      brk = 8192;
    });
  };
}

grows : sys_brk no_pages brk_args kernel no_space ≡ some (grown, no_space, returns (pos 8192))
unfolding sys_brk brk_by current_tid registry_get brk_of moved resized align_up write_back as_isize
    set_heap_end move_end add_area
grows = refl

sys_brk-Grown_example : Grown kernel grown 1 (returns (pos 8192))
sys_brk-Grown_example =
    sys_brk-Grown no_pages brk_args kernel grown no_space no_space (returns (pos 8192)) 5 1 the_task
      in_table grows

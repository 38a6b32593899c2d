-- ===== src/Process/Task.antt =====
-- kernel/src/process/task.rs and pid.rs: the control block of a task and its constructors. The
-- kernel stack and the saved registers (`rsp`, `kernel_stack`, `kernel_stack_top`, `scratch`) are
-- machine state and no field here.
use alaphi_os.Base.{ℕ, ◌+◌, ◌%◌, ◌^◌, Option, none, some}
use alaphi_os.Memory.Area
use alaphi_os.Memory.Area.{Vmm}
use alaphi_os.Process.Signal
use alaphi_os.Process.Signal.{SignalState}

pub data TaskState : Type 0 where
  running ready blocked zombie : TaskState

-- `i32` values are their bit patterns.
pub record Task : Type 0 where
  pub pid : ℕ
  pub tid : ℕ
  pub thread_group : ℕ
  pub state : TaskState
  pub cr3 : ℕ
  pub priority : ℕ  -- u8
  pub parent : Option ℕ
  pub exit_code : Option ℕ
  pub vmm : Vmm
  pub user_entry : ℕ
  pub user_stack : ℕ
  pub uid : ℕ
  pub gid : ℕ
  pub heap_start : ℕ
  pub brk : ℕ
  pub signals : SignalState

-- `NEXT_PID` and `NEXT_TID`; `fetch_add` wraps.
pub record Ids : Type 0 where
  pub next_pid : ℕ
  pub next_tid : ℕ

unfoldable pub take_pid : Ids → ℕ × Ids
take_pid ids = (ids.next_pid, record ids { next_pid = (ids.next_pid + 1) % 2 ^ 64 })

unfoldable pub take_tid : Ids → ℕ × Ids
take_tid ids = (ids.next_tid, record ids { next_tid = (ids.next_tid + 1) % 2 ^ 64 })

-- `Task::new`; `cr3` is what the register holds.
unfoldable pub new : Ids → ℕ → ℕ → Option ℕ → Task × Ids
new ids cr3 priority parent =
    let (pid, ids') = take_pid ids in
    let (tid, ids'') = take_tid ids' in
    (
      record {
        pid = pid;
        tid = tid;
        thread_group = pid;
        state = ready;
        cr3 = cr3;
        priority = priority;
        parent = parent;
        exit_code = none;
        vmm = Area.new;
        user_entry = 0;
        user_stack = 0;
        uid = 0;
        gid = 0;
        heap_start = 0;
        brk = 0;
        signals = Signal.new;
      },
      ids'',
    )

unfoldable pub clone_thread : Ids → Task → ℕ → Task × Ids
clone_thread ids self priority =
    let (tid, ids') = take_tid ids in
    (
      record {
        pid = self.pid;
        tid = tid;
        thread_group = self.thread_group;
        state = ready;
        cr3 = self.cr3;
        priority = priority;
        parent = self.parent;
        exit_code = none;
        vmm = Area.new;
        user_entry = 0;
        user_stack = 0;
        uid = self.uid;
        gid = self.gid;
        heap_start = 0;
        brk = 0;
        signals = Signal.new;
      },
      ids',
    )

unfoldable pub fork_kernel : Ids → Task → ℕ → Task × Ids
fork_kernel ids self priority =
    let (pid, ids') = take_pid ids in
    let (tid, ids'') = take_tid ids' in
    (
      record {
        pid = pid;
        tid = tid;
        thread_group = pid;
        state = ready;
        cr3 = 0;
        priority = priority;
        parent = some self.pid;
        exit_code = none;
        vmm = Area.new;
        user_entry = 0;
        user_stack = 0;
        uid = self.uid;
        gid = self.gid;
        heap_start = self.heap_start;
        brk = self.brk;
        signals = record { pending = 0; handlers = self.signals.handlers };
      },
      ids'',
    )

unfoldable pub new_user : Ids → ℕ → ℕ → ℕ → Vmm → ℕ → Task × Ids
new_user ids entry user_stack cr3 vmm priority =
    let (pid, ids') = take_pid ids in
    let (tid, ids'') = take_tid ids' in
    (
      record {
        pid = pid;
        tid = tid;
        thread_group = pid;
        state = ready;
        cr3 = cr3;
        priority = priority;
        parent = none;
        exit_code = none;
        vmm = vmm;
        user_entry = entry;
        user_stack = user_stack;
        uid = 0;
        gid = 0;
        heap_start = 0;
        brk = 0;
        signals = Signal.new;
      },
      ids'',
    )

-- ===== src/Ipc/Tests.antt =====
-- Runs of the channels.
use alaphi_os.Base.{ℕ, ◌≡◌, ◌≤◌, refl, true, false, some, [], ◌∷◌, ◌++◌, length, arith, replicate}
use alaphi_os.Base.Map.{nat_key}
use alaphi_os.Ipc.Channel.{closed, returns, fails}
use alaphi_os.Ipc.Pipe.{Pipe, pipe_buf, send_loop}
use alaphi_os.Ipc.Pipe as Pipe
use alaphi_os.Ipc.Pipe.Sections.{sent, send-sent}
use alaphi_os.Ipc.Pipe.Stream.{Sections, begins, sends, receives, taken, given, Sections-fifo}
use alaphi_os.Ipc.MsgQueue as MsgQueue
use alaphi_os.Ipc.MsgQueue.Fifo.{Valid, calls-Valid}
use alaphi_os.Ipc.Table.{IpcTable, get}
use alaphi_os.Ipc.Table.Handles.{Below}

-- One byte of room.
abbrev nearly_full : Pipe
nearly_full = record { buf = replicate 4095 1; is_closed = false }

send-sent_example : Pipe.send (7 ∷ 8 ∷ []) nearly_full ≡ some (sent (7 ∷ 8 ∷ []) nearly_full)
send-sent_example = send-sent (7 ∷ 8 ∷ []) nearly_full

abbrev empty_pipe : Pipe
empty_pipe = record { buf = []; is_closed = false }

abbrev holds_three : Pipe
holds_three = record { buf = 1 ∷ 2 ∷ 3 ∷ []; is_closed = false }

send_three : Pipe.send (1 ∷ 2 ∷ 3 ∷ []) empty_pipe ≡ some (holds_three, returns tt)
unfolding Pipe.send send_loop
send_three = refl

-- Three bytes in, two out.
in_three_out_two :
    Sections empty_pipe
      ([] ++ taken (1 ∷ 2 ∷ 3 ∷ []) (returns tt))
      ([] ++ given (Pipe.recv 2 holds_three).1)
      (Pipe.recv 2 holds_three).0
in_three_out_two =
    receives _ [] 2 holds_three
      (sends [] [] (1 ∷ 2 ∷ 3 ∷ []) empty_pipe holds_three (returns tt) begins send_three)

Sections-fifo_example :
    (1 ∷ 2 ∷ 3 ∷ [] ≡ (1 ∷ 2 ∷ []) ++ (Pipe.recv 2 holds_three).0.buf)
    × (length (Pipe.recv 2 holds_three).0.buf ≤ pipe_buf)
unfolding taken given Pipe.recv
Sections-fifo_example = Sections-fifo empty_pipe _ _ _ (omega arith) in_three_out_two

abbrev shut_pipe : Pipe
shut_pipe = record { buf = 4 ∷ []; is_closed = true }

send_shut : Pipe.send (9 ∷ []) shut_pipe ≡ some (shut_pipe, fails closed)
unfolding Pipe.send send_loop
send_shut = refl

refused_section : Sections shut_pipe ([] ++ taken (9 ∷ []) (fails closed)) [] shut_pipe
refused_section = sends [] [] (9 ∷ []) shut_pipe shut_pipe (fails closed) begins send_shut

abbrev empty_queue : MsgQueue.MsgQueue
empty_queue = record { queue = []; is_closed = false }

calls-Valid_example :
    Valid (MsgQueue.send (5 ∷ []) empty_queue).0
    × Valid (MsgQueue.recv 4 empty_queue).0
    × Valid (MsgQueue.close empty_queue)
calls-Valid_example = calls-Valid (5 ∷ []) 4 empty_queue (record { sizes = tt; fits = omega arith })

abbrev no_channels : IpcTable ℕ
no_channels = record { next_handle = 0; map = [] }

no_channels-Below : Below no_channels
unfolding get
no_channels-Below h c e = ground arith

-- ===== src/Client.antt =====
-- client/client.go: the goroutine that sends commands (sendCommands), the one that waits for their
-- replies (handleCommands), and the channel between them. What the input and the replicas answer is
-- an argument. An interleaving of the two goroutines is a list of actions, one for each stretch of
-- code between two points where a goroutine can wait; a goroutine that is not at the point, or that
-- the channel blocks, stays where it is.

pub mod Windows
pub mod Flow
pub mod Answers
pub mod Runs
pub mod Finishes
pub mod Replies
pub mod Blocks
use hotstuff_repbased_leader.Prelude.{
  ℕ, suc, ◌+◌, ◌%◌, Bool, true, false, ◌&&◌, List, [], ◌∷◌, ◌++◌, ltb, leb, ◌==◌, if◌then◌else◌,
  length,
}
use hotstuff_repbased_leader.Sizes.{num_faulty}
use hotstuff_repbased_leader.CmdCache.{ClientCommand}

-- `qspec.ExecCommandQF` on a number of replies: is the call answered?
unfoldable pub exec_command_qf : ℕ → ℕ → Bool
exec_command_qf faulty signatures = if ltb signatures (faulty + 1) then false else true

-- `Connect`: the faulty replicas that the calls of a client of `n` replicas allow for.
unfoldable pub calls_faulty : ℕ → ℕ
unfolding num_faulty
calls_faulty n = num_faulty n

-- The promise is that of the call for this command.
pub record PendingCmd : Type 0 where
  pub sequence_number : ℕ
  pub promise : ClientCommand

-- What `c.reader.Read` returns: `data[:n]`, and the error.
pub data ReadError : Type 0 where
  no_error : ReadError
  eof : ReadError
  read_failed : ReadError

pub record ReadResult : Type 0 where
  pub bytes : List ℕ
  pub error : ReadError

-- What `c.limiter.Wait` returns.
pub data Wait : Type 0 where
  may_send : Wait
  wait_canceled : Wait
  wait_failed : Wait

-- What `promise.Get` returns: a reply, the error of a call that was canceled, or another.
pub data Reply : Type 0 where
  replied : Reply
  canceled : Reply
  call_failed : Reply

-- Where `sendCommands` is: at the head of its loop, before the read, before the send on the channel,
-- or returned, which it does when its context ended, when it is done, or with an error.
pub data Sender : Type 0 where
  at_loop : Sender
  reading : Sender
  pushing : PendingCmd → Sender
  ctx_ended : Sender
  finished : Sender
  failed_with_error : Sender

-- Where `handleCommands` is: at its `select`, at `promise.Get`, or returned.
pub data Handler : Type 0 where
  selecting : Handler
  getting : PendingCmd → Handler
  returned : Handler

pub record Client : Type 0 where
  pub id : ℕ
  pub max_concurrent : ℕ
  pub pending_cmds : List PendingCmd
  pub highest_committed : ℕ
  pub sender : Sender
  pub num : ℕ
  pub last_command : ℕ
  -- how often the reader was read
  pub reads : ℕ
  pub handler : Handler
  pub executed : ℕ
  pub failed : ℕ
  -- the commands given to `ExecCommand`, and those whose promise was got, the latest first
  pub sent : List ClientCommand
  pub answered : List ClientCommand

-- `math.MaxUint64`.
abbrev pub max_uint64 : ℕ
max_uint64 = 18446744073709551615

-- `New`, and the start of the two goroutines.
unfoldable pub new : ℕ → ℕ → Client
new id max_concurrent = record {
  id = id;
  max_concurrent = max_concurrent;
  pending_cmds = [];
  highest_committed = 1;
  sender = at_loop;
  num = 1;
  last_command = max_uint64;
  reads = 0;
  handler = selecting;
  executed = 0;
  failed = 0;
  sent = [];
  answered = [];
}

abbrev pub check_done : Client → Client
check_done c = record c {
  sender = if leb c.last_command c.highest_committed then finished else reading;
}

-- From the head of the loop to the read. The limiter's error is let pass when it is
-- `context.Canceled`.
unfoldable pub begin : Bool → Wait → Client → Client
begin true wait c = record c { sender = ctx_ended }
begin false may_send c = check_done c
begin false wait_canceled c = check_done c
begin false wait_failed c = record c { sender = failed_with_error }

abbrev pub at_end : ReadResult → Bool
at_end read = elim read.error [ eof ↦ length read.bytes == 0 | _ ↦ false ]

abbrev pub new_command : ReadResult → Client → ClientCommand
new_command read c = record { client_id = c.id; sequence_number = c.num; payload = read.bytes }

-- The number in the channel is already the next one.
unfoldable pub send_data : ReadResult → Client → Client
send_data read c =
    let cmd = new_command read c in
    let num = (c.num + 1) % 18446744073709551616 in
    record c {
      last_command = if at_end read && ltb c.num c.last_command then c.num else c.last_command;
      sent = cmd ∷ c.sent;
      num = num;
      reads = suc c.reads;
      sender = pushing (record { sequence_number = num; promise = cmd });
    }

-- From the read to the send on the channel.
unfoldable pub send : ReadError → ReadResult → Client → Client
unfolding send_data
send read_failed read c = record c { sender = failed_with_error; reads = suc c.reads }
send no_error read c = send_data read c
send eof read c = send_data read c

-- To the goroutine that waits at an empty buffer.
abbrev pub hand_over : PendingCmd → Client → List PendingCmd → Handler → Client
hand_over p c [] selecting = record c { handler = getting p; sender = at_loop }
hand_over p c _ _ = c

-- `c.pendingCmds <- cmd`: into the buffer, or to the other goroutine if that waits.
unfoldable pub push : PendingCmd → Client → Client
push p c =
    if ltb (length c.pending_cmds) c.max_concurrent
    then record c { pending_cmds = c.pending_cmds ++ (p ∷ []); sender = at_loop }
    else hand_over p c c.pending_cmds c.handler

unfoldable pub receive : List PendingCmd → Client → Client
receive [] c = c
receive (p ∷ ps) c = record c { pending_cmds = ps; handler = getting p }

abbrev pub counted : Reply → Client → Client
counted replied c = record c { executed = suc c.executed }
counted canceled c = c
counted call_failed c = record c { failed = suc c.failed }

-- From `promise.Get` to the end of the loop: the number is raised whatever the reply.
unfoldable pub get : Reply → PendingCmd → Client → Client
get reply cmd c = record (counted reply c) {
  highest_committed =
      if ltb c.highest_committed cmd.sequence_number
      then cmd.sequence_number
      else c.highest_committed;
  handler = selecting;
  answered = cmd.promise ∷ c.answered;
}

-- The two goroutines' stretches. `begins` has what `ctx.Err` and the limiter answer.
pub data Action : Type 0 where
  begins : Bool → Wait → Action
  sends : Action
  pushes : Action
  receives : Action
  gets : Reply → Action
  ends : Action

abbrev pub begins_at : Sender → Bool → Wait → Client → Client
begins_at at_loop ctx_err wait c = begin ctx_err wait c
begins_at _ ctx_err wait c = c

abbrev pub sends_at : Sender → ReadResult → Client → Client
sends_at reading read c = send read.error read c
sends_at _ read c = c

abbrev pub pushes_at : Sender → Client → Client
pushes_at (pushing p) c = push p c
pushes_at _ c = c

abbrev pub receives_at : Handler → Client → Client
receives_at selecting c = receive c.pending_cmds c
receives_at _ c = c

abbrev pub gets_at : Handler → Reply → Client → Client
gets_at (getting cmd) reply c = get reply cmd c
gets_at _ reply c = c

abbrev pub ends_at : Handler → Client → Client
ends_at selecting c = record c { handler = returned }
ends_at _ c = c

-- `input n` is what the reader's read number `n` returns.
unfoldable pub act : (ℕ → ReadResult) → Action → Client → Client
unfolding begin send push receive get
act input (begins ctx_err wait) c = begins_at c.sender ctx_err wait c
act input sends c = sends_at c.sender (input c.reads) c
act input pushes c = pushes_at c.sender c
act input receives c = receives_at c.handler c
act input (gets reply) c = gets_at c.handler reply c
act input ends c = ends_at c.handler c

unfoldable pub run : (ℕ → ReadResult) → List Action → Client → Client
unfolding act
run input [] c = c
run input (a ∷ actions) c = run input actions (act input a c)

-- ===== src/Lib.antt =====
-- Verification of mujina-miner, the Bitcoin mining firmware for the Avalon Nano3s and other boards.
--
-- The miner talks to chains of BM13xx mining chips over a serial line, takes work from a job source
-- (a Stratum pool), divides the search space of a job among its hash threads, and manages the
-- board's peripherals over a control channel. The parts modelled here, with their sources below
-- mujina-miner/src, are these.
--
-- - Asic.Bm13xx: asic/bm13xx/protocol.rs and crc.rs. Pll, Ticket and Fields are the values of
--   registers, Register the fourteen registers with `decode` and `encode_data`, and Register.Address
--   their addresses. Command is `Command::encode`, Response is `Response::decode`, Frame is the
--   encoder and decoder `FrameCodec` that puts both on the wire, with the checksums of Crc. Hash is
--   the byte order of hashes in jobs. Protocol is `BM13xxProtocol`, which builds sequences of commands
--   for one chip or a chain. A register, a command and a response have the constructors of the
--   source's enums; a byte buffer is the list of its bytes, and an operation that consumes a buffer
--   returns what is left.
-- - Asic.Bm13xx.Thread: asic/bm13xx/thread.rs, the actor that drives a chain of chips. Thread is the
--   table of jobs and the conversion of a task to a job, Ramp the search for PLL dividers and the
--   raising of the frequency, Init the bring-up of the chips, and Actor one function for each arm of
--   the actor's `select!`, on a record of its variables. An event carries what the sink and the board
--   answer to what the actor does, and the outputs are the commands that the sink took, the responses
--   to the scheduler and the shares. The other modules prove: Tracker the table, Search and Ladder the
--   ramp, Commands, Answers, Invariant and Jobs the jobs and their nonces, Holds and Shares where
--   shares come from, Idle and FirstJob the phases of the actor.
-- - Scheduler: scheduler.rs, between the job sources and the hash threads. Scheduler is its state,
--   Gate the startup gate, Slots the maps by key, Assign the assignment of jobs to threads, Handlers
--   the handlers and one round of the loop. It hands a thread the tasks that Thread works on, and gets
--   the shares that Thread puts on a task's channel, by the number of the channel. Slices, Submit,
--   Cleared and Opening have the proofs.
-- - JobSource.Job: job_source/job.rs and merkle.rs, the templates of jobs and their merkle roots.
-- - JobSource.ForcedRate: job_source/forced_rate.rs, the wrapper between a source and the scheduler
--   that replaces the targets of jobs. Its inputs and outputs are the scheduler's events and commands.
-- - JobSource.StratumV1: job_source/stratum_v1.rs, the source that works with a Stratum pool, with the
--   messages of stratum_v1/messages.rs. StratumV1 has the conversions of jobs and shares and the
--   handler of the client's events, Connection the suggestions of a difficulty and the loop of one
--   connection, whose events the scheduler takes. Connection.Rounds, Throttle and UpToDate have the
--   proofs.
-- - JobSource.Extranonce2: job_source/extranonce2.rs. Value, Range and Iter are the three types, with
--   the u64 arithmetic of a build without overflow checks written out.
-- - JobSource.Version: job_source/version.rs, the rolling of bits 13 to 28 of a block version.
-- - Types.DebouncedAlarm: types/debounced_alarm.rs, a state machine; the time of a check is an
--   argument of it.
-- - Types.HashrateEstimator: types/hashrate_estimator.rs, the sliding window of shares. Window has the
--   invariant of its state, Batch compares it with a function of all shares.
-- - Types.U256 and Types.Difficulty: u256.rs, types/share_rate.rs and types/difficulty.rs, the
--   arithmetic of targets. Types.Bitcoin is what the code uses of the crate bitcoin.
-- - Board.Pattern: board/pattern.rs and the registry in backplane.rs, which choose the handler of a
--   USB device.
-- - MgmtProtocol.BitaxeRaw: mgmt_protocol/bitaxe_raw, the control protocol. Packet and Response are
--   the messages, Codec is `ControlCodec`, Channel is `ControlChannel`, with Channel.Gpio and
--   Channel.I2c the pins and the bus on it, and Channel.System the reboots. A call of the channel is
--   one step on its state, since it holds the channel's lock; its inputs are whether the
--   framed writer is ready, what its flush returns, and which items the framed reader has within the
--   timeout.
--
-- Fallible code returns an Outcome: a value, the source's error, or a panic. Code outside the
-- repository is a parameter: the crate crc_all (Crc.CrcAll), the arithmetic on f32 and f64 (Pll.Float32,
-- StratumV1.Float64, with the conversion of a difficulty to an f64), and Unicode's lower case with
-- the crate regex (Pattern.Strings), without any law assumed, and the
-- 256-bit integers of the crate ruint (HashrateEstimator.Ruint, U256.WideRuint) with the laws that they
-- wrap around, the hashes and transactions of the crate bitcoin (Types.Bitcoin), without any law, and
-- the exactness of f32 on quarters (Ladder.IsExact), which only the ramp's theorem uses.
-- Loops over ranges recur on the rounds that are left, and loops over literal arrays and queues on
-- the list. Fuel stands in two helpers for stating theorems, the repeated calls of Frame.Resync, where
-- more calls than bytes are enough (poll-Ends), and the repeated calls of Iter.Drain, where the
-- number of values and one more call are enough; and in the loop of Thread.Ramp, whose 2000 rounds are
-- shown to be enough for the ramp in Ladder. An interleaving of the actor's or the scheduler's events
-- is a list of events in the order in which the select takes them.
--
-- Not modelled: logging, Display implementations, the tasks and channels of tokio, serial ports and
-- sockets, the Stratum clients, the reconnection of the Stratum source and the dummy source, board
-- bring-up and peripheral drivers, floating-point conversions, the HTTP interface, the C firmware and
-- the vendored user interface library.
pub mod Prelude
pub mod Asic
pub mod Board
pub mod Fixtures
pub mod JobSource
pub mod MgmtProtocol
pub mod Scheduler
pub mod Types

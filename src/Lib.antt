-- ===== src/Lib.antt =====
-- switch-manager runs operations on network switches: a request becomes a task in the database, a
-- worker claims it, runs it through a vendor plugin under the locks of the device, and stores its
-- final state. This library models the parts that decide, over native numbers and texts as lists of
-- code points.
--
-- The parts, with the files of the repository and those of this library:
--   internal/concurrency/semaphore.go: Concurrency/Semaphore. The critical sections of Acquire (enter,
--     wake, abandon), release and the grant loop act on the state of one semaphore; Step is any
--     one of them by any goroutine.
--   internal/concurrency/device_locks.go: Concurrency/DeviceLocks. The map of entries with a heap of
--     entries by address; Protocol/Step is one critical section of one goroutine on its way
--     through Acquire and DevicePermit.Release.
--   internal/domain/auth: Auth. Actors, bindings and Principal.Authorize.
--   internal/apperror: AppError. Codes, New, Wrap, Normalize; Go's error trees are a data type.
--   internal/domain/operation: Operation. The checks of requests, plans and results.
--   internal/domain/task: Task. Task.States holds the life cycle, Task the validation and Transition,
--     Task.Batch the batch aggregate and the snapshot of a batch.
--   internal/infrastructure/postgres/task_repository.go: Store. The table of tasks as a list of rows,
--     each SQL statement as one step on it (Queue, Cancel, Claim, Save, Interrupt, Create).
--   internal/scheduler/scheduler.go: Scheduler. Outcome has the handler's result and the decision
--     of execute, Scheduler the attempts of finalize among other writers and execute, Requests
--     has Recover, Queue, Cancel and Retry; Writers says what the other writers of the table
--     keep, and that the calls of the store are such writers.
--   internal/commandsecurity/engine.go with pkg/pluginapi/custom_commands.go: CommandSecurity. Policies
--     and the evaluation of an operator's own commands.
--   internal/concurrency/controller.go: Concurrency/Controller. Calls of Acquire over the device locks and
--     the global semaphore; Step is a step of the locks, or of a call that has its device.
--   internal/domain/device: Device. Host names and the checks of managed switches.
--   internal/domain/vlan, switchinterface, route, acl: Network. The values that operations carry, with
--     their checks and normal forms (Vlan, Interface, Route, Acl).
--   internal/domain/telemetry: Network/Telemetry. MAC and ARP table entries and their normal forms.
--   internal/domain/credential and audit: Credential and Audit. The checks of what is stored.
--   pkg/pluginapi: Plugin. Version and Metadata hold what a plugin says of itself, Plans the plans,
--     results and transcripts with their checks.
--   internal/pluginregistry: Plugin/Registry (Register, Resolve, LookupCapability) and
--     Plugin/Plans/Adapters (PlanToDomain, ResultToDomain).
--   internal/operationsvc/planner.go: OperationService/Checks and Planner. The preflight of an operation.
--   internal/operationsvc/executor.go: OperationService/Executor. The run of a prepared operation in a
--     session, and the status and code that its task ends with.
-- The planner asks the registry for the plugin of a device, has custom commands decided by the command
-- security, and checks what the plugin plans; the executor runs these plans and has the plugin
-- parse the transcripts, and the scheduler takes the status that it answers.
-- The scheduler calls the store, which checks rows with the task domain and answers codes of the
-- application errors; the task domain uses the modes and names of operations.
--
-- Base has the shared notation: lists, sorting, results, texts, integers, decimals and Boolean tests.
--
-- Bounds: `finalize` runs its loop with the three attempts of the source; digits are printed with
-- one round more than the number, which is enough, and nothing else runs on fuel. Times are numbers
-- with 0 for Go's zero time; a slice is a list; a pointer is an option. Versions and counts are
-- unbounded. An error is its kind, without the text that wraps it.
--
-- Parameters: what constraints and triggers of the database answer to a write (Store.Guard), which
-- rows other transactions lock, the clock, the task handler, JSON validity, the moments at
-- which contexts end, IP and MAC addresses (net and net/netip, with laws), what json.Marshal
-- takes, the inventory, and what plugins and sessions answer.
--
-- Not modelled: the HTTP server, authentication, cryptography, SSH, configuration and wiring, which
-- are input and output around these parts; the worker pool and its channels; the
-- submission of operations and batches, and the remaining domains and repositories.
pub mod Base
pub mod Credential
pub mod Audit
pub mod Device
pub mod OperationService
pub mod Plugin
pub mod Network
pub mod Concurrency
pub mod Auth
pub mod AppError
pub mod Operation
pub mod Task
pub mod Store
pub mod Scheduler
pub mod CommandSecurity

-- ===== src/Lib.antt =====
-- Kikimora orchestrates several VPN tunnels ("roles") on one machine. Its core process observes the
-- physical underlay, drives one Toad process for each role, owns the routes that lead destinations into
-- the tunnels, and recovers a role when the underlay or its Toad changes. This development models the Go
-- code of toad/internal that decides: the ownership registry of selected routes and its planner, the
-- identity of the underlay, the controller with its recovery transactions, and the manager that carries
-- the selected routes and parks through the registry, the checkpoint file and the kernel.
--
-- Files and code:
--   Netip.antt                net/netip, as far as it is used: addresses, prefixes, Masked.
--   Routing/Identity.antt     toad/internal/routing/selected_registry.go: both identities and their
--                             Validate methods; prefix.go.
--   Routing/Record.antt       the registered record, its park transaction and their states.
--   Routing/Machine.antt      what each transition method does to one record.
--   Routing/Registry.antt     MemorySelectedRegistry: one function for each method.
--   Routing/Restore.antt      RestoreRole, validateParkTransaction.
--   Routing/Snapshot.antt     Snapshot, SnapshotFamily and their order.
--   Routing/History.antt      the registry's interface as a type of calls, and runs of calls.
--   Routing/Executor.antt     toad/internal/routing/transaction.go, executor.go, fake.go: route transactions.
--   Routing/Ownership.antt    toad/internal/routing/ownership.go: MemoryOwnership.
--   Routing/Plan.antt         toad/internal/routing/selected_plan.go: PlanSelectedRoute.
--   Netstate.antt             toad/internal/netstate: snapshots, IdentityEqual, Compare.
--   Netstate/Coalescer.antt   toad/internal/netstate/coalescer.go: Run, a step for each received value.
--   Toadctl.antt              toad/internal/toadctl/protocol.go: what a Toad reports.
--   Core/Model.antt           toad/internal/core/model.go, events.go, recovery.go.
--   Core/Controller.antt      toad/internal/core/controller.go: the methods on one role.
--   Core/Observe.antt         toad/internal/core/snapshot.go: SetUnderlay, ObserveToad.
--   Core/Events.antt          toad/internal/core/snapshot.go: apply and the loop of Run.
--   Core/Aggregate.antt       toad/internal/core/snapshot.go: snapshotLocked.
--   Core/Reconciler.antt      toad/internal/core/reconciler.go: DecideRole.
--   Core/Recovery.antt        toad/internal/core/recovery_runner.go: sequences and runner.
--   Core/Engine.antt          toad/internal/core/engine.go: Recover.
--   Core/RoleExecutor.antt    toad/internal/core/role_executor.go: the executor and its workers, as events.
--   Parking.antt              toad/internal/parking/manager.go, checkpoint.go, ownership.go: Manager.
--   Endpoint.antt             toad/internal/endpoint/manager.go, resolver.go, policy.go.
--   Control/World.antt        toad/internal/control/selected_routes.go: the selected-route manager's state, its
--                             requests to the outside, registryEntry and writeCheckpoint.
--   Control/Transactions.antt toad/internal/control/selected_transactions.go: apply, repair, retirement,
--                             FlushZone; the tokens of selected_reconcile_support.go.
--   Control/Parking.antt      toad/internal/control/selected_parking.go: ParkRegistered, WithdrawSelected.
--   Control/Withdrawal.antt   what WithdrawSelected has seen of the parks before it deletes a route.
--   Control/Stuck.antt        going on with a park that is Applying.
--   Control/Protection.antt   what parkingState reports.
--   Control/Restore.antt      toad/internal/control/selected_routes.go: Restore.
--   Control/Ensure.antt       toad/internal/control/selected_routes.go: Ensure from the intent to the verdict;
--                             leshy_routes_api.go.
--   Control/Startup.antt      the same file: Freeze, Unfreeze and the startup restore.
--   Control/Unpark.antt       toad/internal/control/selected_parking.go: ObserveRestoration.
--   Control/Forget.antt       toad/internal/control/selected_transactions.go: Forget, FlushZone by name.
--   Control/Invalidate.antt   toad/internal/control/selected_reconcile_support.go: the invalidation handlers
--                             and the quarantine.
--   Control/Ownership.antt    toad/internal/control/recovery_driver.go: the ownership of routes that Leshy
--                             writes itself, its baseline and its checkpoint;
--                             Ownership/Steps.antt the recovery steps over it.
--   Control/WriteAhead.antt   what the kernel may be asked for by what the checkpoint file holds; its
--                             children state it of each transaction, by rules for single calls.
--   Supervisor/Backoff.antt   toad/internal/supervisor/backoff.go: Backoff.
--   Prelude.antt              shared names, maps, errors, lists; Tests.antt runs concrete inputs.
--
-- How they interact: the coalescer feeds observations of the underlay to the controller, which decides
-- which roles must recover; the engine asks DecideRole for an action and runs its step sequence; its
-- steps reserve, mark, park and retire destinations in the registry, whose records the planner compares
-- with the rows of the kernel before an executor changes them. The selected-route manager drives each
-- record through the registry, the checkpoint file and the platform, in that order. Where Leshy writes
-- its routes itself, the recovery driver keeps what a role owns, and the parking manager parks it through
-- the route executor.
--
-- Conventions. A method that holds a mutex is one function from the old state to the new one; an error
-- is a value. A Go map is an association list with distinct keys. uint64 counters wrap at 2^64; a Go
-- int is an integer, and the one that is counted up wraps at 2^63. Times are nanoseconds, the zero time
-- is 0. Loops over slices are structural, so no fuel is needed. Parameters stand
-- for code that is not here: `parse_addr` and `show_prefix` are netip.ParseAddr and Prefix.String, `Env` holds the clock, the snapshot builder,
-- the context's error and the change handler of the coalescer, and `driver`, `aborted` and `managed` are
-- the engine's RecoveryDriver and callbacks over any world. The manager's `Env` answers each call of the
-- platform, of the checkpoint writer and of the failpoint by all that was asked before, so a theorem for
-- every `Env` holds for every behaviour of them; the history keeps the requests with their success. The
-- route executor is a record of operations over any state of the outside, with the Fake as an instance.
-- Of the role executor's goroutines each locked section, each end of a work and each choice of the select
-- is an event, in any order.
--
-- Not modelled: system calls, sockets, processes and files (platform, backend, toadruntime, the encoding
-- of checkpoint files); goroutines and channels, where each locked section is a step instead; what other
-- calls do between two steps of one manager's method under its lock; the manager's counters, its wait for
-- calls in flight and the managed-mode marker; the texts of denials; context
-- cancellation inside a driver's step, which is an error that the driver returns; the parsers and
-- providers of endpoints; the rest of the recovery driver and of control, and the packages leshy, underlay
-- and the parsers of configuration, except for the records that the controller stores. The one
-- aliasing that matters is kept: a record that was read before a park transition shows its park as it is after it.
pub mod Prelude
pub mod Netip
pub mod Routing
pub mod Netstate
pub mod Toadctl
pub mod Core
pub mod Parking
pub mod Endpoint
pub mod Control
pub mod Supervisor
pub mod Tests

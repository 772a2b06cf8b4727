-- ===== src/Lib.antt =====
-- MCVirt: who may do what on a node, how a call runs on the nodes of a cluster and is rolled back,
-- in which order tasks run, when a virtual machine is reset, where it is registered after a migration,
-- and which states a DRBD resource and a storage backend can get into.
--
-- All paths are below source/mcvirt-daemon/usr/lib/python2.7/dist-packages/mcvirt of the repository,
-- which the files call `mcvirt`. A client's call arrives as a request in a Pyro4 context (auth/session.py
-- and auth/auth.py), is checked for permissions (auth/auth.py, auth/group, auth/user_types), is put
-- into the queue of tasks of the whole cluster (task_scheduler), and runs as a `Function`
-- (rpc/expose_method.py), which calls the method on each node and undoes it when one fails. Timers
-- (thread) make internal requests of the same methods.
--
--   ArgumentValidator   argument_validator.py: the validators of names, on the codes of characters
--   Base, Exceptions    Python's lists, dictionaries, tests and exceptions, as the models use them
--   Auth.Session        auth/session.py: `SessionInfo` and `Session`, with the table of sessions
--   Auth.Users          auth/user_types and the lookups of auth/factory.py
--   Auth.Groups         the lookups of auth/group and `UserBase.get_groups` and `get_permissions`
--   Auth.Permission     auth/auth.py: checks, assertions, and the superusers of a cluster
--   Auth.Elevation      `ElevatePermission` of auth/auth.py
--   Auth.Membership     the operations of auth/group/group.py
--   Auth.Removal        the deletion of a user, of auth/user_types/user_base.py
--   Rpc.State           the objects of rpc/expose_method.py, by reference
--   Rpc.Transaction     class `Transaction`; Rpc.Function: class `Function`, and `Expose.__call__`
--                       (Rpc.Function.Reachable: every order of what happens to transactions)
--   Drbd.States, Drbd.Resource, Drbd.Roles, Drbd.Sync, Drbd.Allocation
--                       virtual_machine/hard_drive/drbd.py: the states that `drbdadm` prints, the
--                       commands and checks of a resource, its primaries and migrations, verification
--                       and resynchronisation, and the minors, ports and metadata of the drives
--   Storage.Backend, Storage.Cluster, Storage.Nodes, Storage.Volume, Storage.Factory
--                       storage/base.py, factory.py, lvm.py and file.py: what is read from the
--                       configuration of storage backends, how it changes on all nodes, adding and
--                       removing nodes, the directories and volumes, and the list with its filters
--   TaskScheduler.Node  task_scheduler: the queue of one node; TaskScheduler.Cluster: `add_task` and
--                       `distribute_task` as the adding node sees them; TaskScheduler.Completion: the
--                       end of a task and its cancellation
--   Cluster             cluster/cluster.py: the nodes that suit a virtual machine
--   VirtualMachine      virtual_machine/virtual_machine.py: stop, shutdown and reset, lock, delete
--                       protection; VirtualMachine.Registration and VirtualMachine.Migration: the
--                       registration with libvirt, and the offline and online migration
--   Watchdog            the class `Watchdog` of thread/watchdog.py, with `RepeatTimer.repeat_run`
--
-- A method that changes state is a function from the state to a result and the state in which it ends,
-- also where it raises (Base.Exec). An object that is shared or compared by identity has a reference:
-- transactions, their lists and functions, and task pointers. A list that changes while a loop runs
-- over it is modelled by the index that Python keeps, with the length of the list at the start as fuel:
-- each such loop removes an element or nothing in a round, and stops at the end of the list.
--
-- Calls of third-party code are parameters: the methods and the remote objects of a `Function` are
-- fields of `World`, and what a virtual machine and its agent answer is an `Observation`. Times are
-- natural numbers of seconds. Permissions are their names. Left out are logging, the registration
-- of objects with Pyro4, the global lock, the cache of user and group objects, and the password
-- hashes.
--
-- What a call of libvirt comes back with is a `DomainCall`. The program `drbdadm` is the parameter
-- `Drbdadm`, a function of the node, the command and a state of the kernels, and the theorem on the
-- end of a migration takes what DRBD documents of it as the record `IsDrbd`, by which a node that is
-- not connected to its peer does not know the peer's role. The loops that poll
-- DRBD have fuel, and answer `false` where they would go on; the search for a free port or minor
-- has one round for each number that can be taken, and one more. The programs of LVM, `dd` and the
-- calls of `os` are the parameter `Node`, and `IsPosix` says what is documented of chown and chmod.
-- Libvirt and the parts of a virtual machine are the interface `Services` of a migration, whose
-- wait for a machine that shuts down has fuel too. A question to libvirt may raise, as where a
-- remote node does not answer, and `KeepsDomains` says that it is answered truly where it is, and
-- that demoting a hard drive in DRBD changes no domain; a sleep may change everything.
--
-- Each node has its own configuration of storage backends, and the theorems on them take a request
-- that may manage them and has been checked before: then a further check changes nothing. Where a
-- method of a backend runs on several nodes, all of them can be reached.
--
-- Not modelled is the rest of the daemon. The creation, start, deletion and cloning of virtual
-- machines, the creation and growth of hard drives, and networks drive libvirt, LVM and DRBD
-- through a lot of XML and many commands; sockets, certificates and the database are third-party
-- code; and the parsers and the client print and read text.
pub mod Base
pub mod Exceptions
pub mod Auth
pub mod Rpc
pub mod TaskScheduler
pub mod Watchdog
pub mod VirtualMachine
pub mod ArgumentValidator
pub mod Drbd
pub mod Storage
pub mod Cluster

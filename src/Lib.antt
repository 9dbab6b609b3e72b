-- ===== src/Lib.antt =====
-- Yunxia: a model of the core of the server in backend/, a file manager that mounts storage sources
-- into one tree of virtual paths, and what holds of it.
--
-- The parts, and where they are modelled:
--   Prelude      names of the libraries, lists, texts as lists of bytes, results of Go functions that
--                return a value and an error.
--   Vfs.Clean    Go's `path.Clean`, from its documentation, for absolute and relative paths.
--   Vfs.Path     normalizing, splitting, joining and comparing virtual paths
--                (backend/internal/application/service/vfs_path.go and local_storage_helpers.go).
--   Vfs.Mounts   the resolution of a path to the mount with the longest prefix, and name conflicts
--                (vfs_types.go, vfs_path.go and vfs_conflict.go beside it).
--   Vfs.Registry mount entries made from the sources, and virtual directories (vfs_registry.go).
--   Permission   roles, capabilities and the checks of the middleware
--                (backend/internal/domain/permission and backend/internal/interfaces/middleware).
--   Acl          rules, the evaluator that judges a path by them, and the authorizer that makes the
--                evaluator for a request (acl_authorizer.go).
--   Users        the table of users (backend/internal/infrastructure/persistence/gorm/user_repo_impl.go)
--                and the service over it (user_service.go).
--   Auth         login, refresh tokens and their rotation, logout (`AuthService` in setup_service.go,
--                refresh_token_repo_impl.go beside the users' table), and the check of a request's token
--                (backend/internal/interfaces/middleware/auth_middleware.go).
--   Local        where a path of a local source lies on the disk, and the pages of a listing
--                (local_storage_helpers.go beside vfs_path.go).
--   Uploads      uploads in chunks: the sessions, the chunk files, the start (Init), and the end of an
--                upload in a local source (Finish, Commit) or another (Drivers)
--                (upload_service.go, and upload_session_repo_impl.go beside the users' table).
--   Shares       public shares: expiry, password, what a visitor may open (share_service.go, and
--                share_repo_impl.go beside the users' table).
--   Journal      the journal of operations on the virtual file system, its retries and leases
--                (vfs_operation_journal_service.go, and vfs_operation_repo_impl.go beside the users' table).
--
-- A request's authentication (`RequestAuth`) is made by the middleware (Auth), checked against capabilities
-- (Permission), used by the authorizer (Acl), which asks the paths (Vfs.Path) for what a rule covers,
-- and by the service for users, which asks Permission for the roles that may be handed on. Uploads ask
-- the authorizer whether a session's directory may be written, and Local where its target lies; shares
-- ask the paths and Local what they stand for. Auth reads the users' table, whose token versions the
-- service for users advances.
--
-- Go functions keep their names in snake case and their guards in order. A function that returns an
-- error returns a `Result`; a service that writes the database takes a store and returns the new one.
-- What the program takes from elsewhere is a parameter: whether a path exists in a source, the
-- repositories of the authorizer, the hasher of passwords, the signing of tokens, the drivers of
-- remote sources, the committer of an upload's metadata, and the faults of the database and the disk.
-- Loops over slices are recursion on lists, so there is no fuel and every loop ends. Keys are natural
-- numbers (Go's `uint`, on which the code only compares); the priorities of rules are integers, and
-- the numbers of pages are integers of 64 bits that wrap around. The version of a user's tokens and
-- the sizes and the number of chunks of an upload session are natural numbers without a bound, where
-- Go has `int` and `int64`: that a version turns negative after 2^63 changes, and that a size near
-- 2^63 overflows, is not modelled.
--
-- Times are seconds (nanoseconds for shares), and each call is given the time; a transaction is one
-- step, and the calls of a service come one after another. A call is also given what goes wrong in the database and on the disk
-- while it runs, so that the theorems hold whatever fails, where they do not say otherwise.
--
-- Not modelled: the times of creation and update of records, the cleaning of the journal's payloads,
-- the node cache of the evaluator (asking the reader again gives the same node), logging, the parts
-- of the server that are mostly input and output or remote clients (files, tasks,
-- RSS, drivers, handlers), and the web client.
pub mod Prelude
pub mod Vfs
pub mod Permission
pub mod Acl
pub mod Journal
pub mod Users
pub mod Auth
pub mod Local
pub mod Uploads
pub mod Shares

-- ===== src/Lib.antt =====
-- pulpcore: the tasking system, the content of repository versions and the paths of entitlements.
--
-- The program runs work as tasks. Dispatching a task writes a row with the names of the resources
-- that it reserves; workers find the rows that no earlier task stands in the way of, mark them as
-- unblocked, run them and write how they ended. Tasks add content to repositories and remove it: a
-- repository has numbered versions, and one table of memberships tells which content each has.
-- Workers that coordinate through Redis take locks there in place of the unblocking step. A guard of
-- content reads from the certificate of a client which paths the client may have.
--
-- Files, and the code they are about:
--   Prelude           shared names; Tests, Lists and Rows hold Boolean tests, lists and tables
--   Tasking/Task      the methods of Task in pulpcore/app/models/task.py, the states of
--                     pulpcore/constants.py; a method is a function of the process (its identity and
--                     clock), the Python object and the database, and returns an outcome, the object
--                     and the database, so that what an exception leaves behind is visible
--   Tasking/Resources the names of resources: get_resources of pulpcore/tasking/tasks.py, the
--                     records that pulpcore/tasking/worker.py reads, extract_task_resources of
--                     pulpcore/tasking/redis_locks.py
--   Tasking/Unblock   Worker._unblock_tasks of pulpcore/tasking/worker.py; its Queue adds the other
--                     processes as steps: dispatch, the query of fetch_task, the methods of tasks and
--                     further passes; Changes has what a step does to the order of the queue,
--                     Progress and Oldest how a pass ends and what it does for the oldest task
--   Tasking/Redis     the Redis server, a parameter: observations, commands and what the server
--                     documents of them; Memory is a server that satisfies it
--   Tasking/Locks     the Lua scripts of pulpcore/tasking/redis_locks.py; Client has the Python
--                     functions around them, Keys the names of keys, Loops the loops; Acquire and
--                     Exclusion are about the acquire script, Release, Leave and ReleaseScript about
--                     the release script, RoundTrip about the one after the other
--   Tasking/RedisWorker  count_waiting_tasks_for_metric, RedisWorker.fetch_task and
--                     RedisWorker.cleanup_redis_locks_for_worker of pulpcore/tasking/redis_worker.py,
--                     on the tables and the server together; Metric, Claim, Walk, Taken, Rounds and
--                     Cleanup have what each of them does; Ignored has cleanup_ignored_tasks
--   Repository        RepositoryVersion of pulpcore/app/models/repository.py: add_content,
--                     remove_content, set_content over the table RepositoryContent, a file each for
--                     what each of them does, Members for the table and Readd for the loop that
--                     takes back removals; Delete has next, previous, _squash and delete, and
--                     Readding, Preserve and Deletion what they do to the other versions
--   Repository/Overwrite   Repository.check_content_overwrite of pulpcore/app/models/repository.py, and
--                     batch_qs of pulpcore/app/util.py, where the order in which the database
--                     answers the query of each batch is an argument
--   Repository/Retention   Repository.protected_versions and Repository.cleanup_old_versions of the same
--                     file, with the publications and distributions that they read; Keep and Count
--                     have what stays and how much
--   Repository/Duplicates  validate_duplicate_content of pulpcore/plugin/repo_version_utils.py
--   Certguard         the entitlements of pulp_certguard/rhsm/rhsm_check_path.py: Der the lengths and
--                     bits, Huffman the trees of codes, PathTree the tree of paths, its reading and
--                     the check of a path, Entitlement the way from a certificate to the tree;
--                     Failure has the exceptions
--   Progress          ProgressReport of pulpcore/app/models/progress.py: the object, its row, the
--                     rate limit of save and the rows that the columns refuse; Block has the saves of
--                     a block that does not raise, Saving what the row shows
--
-- Conventions. A table is the list of its rows, and a query with filter, update, delete, count or
-- exists acts on the rows that pass its test; one database statement, and one Lua script, is one
-- step. Larger steps are the passes and checks of Tasking/Unblock/Queue, as it says there. A process
-- without a row of AppStatus gets the RuntimeError of current() in pulpcore/app/models/status.py, and
-- nothing has been written then. Primary keys, times and process identities are numbers, JSON values
-- are text, names of resources and Redis keys are text. A Python set is a list that is read by
-- membership; the order in which the program lists a set is not specified, and the lists here have
-- one of its orders. The rows of memberships are those of one repository, and a version is named by
-- its number.
--
-- Bounds and fuel. The loop of add_content over batches runs on fuel, the number of removed
-- memberships that it reads before it starts: each round moves the start of the batch by the batch
-- size, at least one, so that the start has passed that number when the fuel is used up.
-- The loop of fetch_task runs on fuel that counts its rounds, and says where the fuel has ended: the
-- program's loop has no bound of its own. The loop that reads a node of a path tree has the number of
-- bits that are left as its fuel, and takes at least one in each round; the loop that merges a heap
-- has the number of its entries, which goes down by one.
-- The loop of batch_qs runs on fuel too, the number of rows that it counts before it starts.
-- All other loops recurse on lists. The counts of a progress report are columns of 32 bits: a save
-- of a larger one raises. They do not go down, so the lower bound of the columns is not met.
--
-- Not modelled: the worker's processes, signals and notifications; the REST interface; the
-- downloaders, the content application and the other plugins; zlib and the decoding of text, which
-- are arguments; regular expressions and the certificates of the first version;
-- SCAN of Redis, whose result is an argument; the constraints of the table of memberships, that a
-- version adds a content unit once and removes it once;
-- the workaround for lists of more than 65535 keys in get_content; logging and telemetry.
mod Prelude
pub mod Tasking
pub mod Repository
pub mod Progress
pub mod Certguard

-- ===== src/Lib.antt =====
-- ldf: a server (ldfd) that builds Linux distributions from upstream sources, and its client. This
-- library models the server's own logic and proves what it does.
--
-- The parts and how they interact. A build is submitted to the build manager (ldfd/build/manager.go),
-- which writes a row of the table of build jobs (ldfd/db/build_jobs.go) and puts the job into a
-- queue. A worker (ldfd/build/worker.go) takes it, checks the machine (ldfd/build/arch.go), runs
-- the stages one by one and writes what becomes of them into the tables. Kernel stages merge, print
-- and parse kernel options (ldfd/build/kernel/config.go). The sources come from forges, whose
-- versions are filtered and ordered (ldfd/forge), by URLs that are made from templates
-- (ldfd/download/url_builder.go). A rate limiter (ldfd/api/ratelimit.go) stands before the handlers. What a distribution needs is selected from
-- its configuration by the download manager (ldfd/download/manager.go), loaded by download workers
-- (ldfd/download/worker.go) into the storage, and selected again by the resolve stage of a build
-- (ldfd/build/stages/resolve.go), which looks for the completed downloads. Users, roles and tokens
-- (ldfd/auth) stand before all of it.
--
-- Paths are below the repository's folder src.
--
-- Prelude: shared names, tests of numbers, lists, Go strings as lists of bytes, and Go's float64 with its
-- rounding.
-- Forge/Filter, Forge/Glob: ldfd/forge/filter.go. `matches` is Matches, `glob_match_internal` is
-- globMatchInternal; its meaning with no search in it is the relation `Matches`.
-- Forge/Version: compareVersions and splitVersionPart of ldfd/forge/github.go. An int is a word of 64
-- bits that wraps; `sign` reads it.
-- RateLimit: ldfd/api/ratelimit.go. The map of windows is a function, the clock is an argument.
-- Build/Types, Build/Repository: the rows of ldfd/db/models.go, the operations of
-- ldfd/db/build_jobs.go, and UpdateStatus of ldfd/db/distribution.go, each a function from the tables
-- to the tables and its error.
-- Build/Arch: ldfd/build/arch.go and the runtimes of ldfd/build/engine/container.go. What the code
-- asks of the machine is the record `HostSystem`.
-- Build/Manager: the operations of ldfd/build/manager.go on the tables and the queue.
-- Build/Worker, Build/Worker/Steps: processJob of ldfd/build/worker.go. A `JobRun` says what the stages answer and which
-- cancellations and retries the handlers write in between; the run is a function of it.
-- Kernel/Options, Fragment, Parse, Recommended: ldfd/build/kernel/config.go. A Go map is an
-- association list with each key once.
-- Download/Url: ldfd/download/url_builder.go. Download/Url/Numbers reads the numbers of a version off its
-- text.
-- Download/Mirror: the mirrors of ldfd/download/mirror.go. `sort.Slice` is an argument that is given
-- the code's comparison; the theorem asks of it what it promises for any strict weak order. Paths of a local mirror are
-- joined and cleaned by Prelude/Paths, the functions of the packages path and path/filepath.
-- Download/Jobs: the operations of ldfd/db/download_jobs.go. Prelude/Table is what a keyed table is to
-- them: select, update and delete by id.
-- Download/Downloader: what a transfer of ldfd/download/downloader.go writes into the table.
-- Download/Control: CancelJob and RetryJob of ldfd/download/manager.go.
-- Download/Cache: ldfd/download/cache.go with the rows of ldfd/db/artifact_cache.go. `evict` also gives the
-- keys that it deletes in the storage.
-- Download/Creation, Download/Creation/Reuse: CreateJobsForDistribution of ldfd/download/manager.go. A
-- `Candidate` says what the queries find for one required component, a `State` holds the tables, the
-- cache and the map of the created jobs.
-- Download/Throttle: ldfd/download/throttle.go. `take_tokens` is what a round of Wait does under the mutex.
-- Download/Manager: Start, Stop, SubmitJob and dispatchPendingJobs of ldfd/download/manager.go. A `Call` is
-- one of them or a worker's taking of a job; none is a panic.
-- Download/Worker: processJob of ldfd/download/worker.go. A `Round` says what the verifier, the network
-- and the files answer in one round of the loop, and what the handlers call meanwhile; `verdict` tells
-- from the answers alone how the job must end.
-- Select: the configuration of ldfd/db/models.go. Select/Manager is the selection in
-- ldfd/download/manager.go, Select/Stage the one in ldfd/build/stages/resolve.go with the loop of
-- its Execute. Select/Wanted says what the resolve stage looks for, without the code's tests.
-- Auth: the tables of ldfd/auth. Auth/Users, Auth/Roles and Auth/Tokens are users.go, roles.go and
-- tokens.go, with RefreshAccessToken of jwt.go.
-- Tests: runs of all of these on concrete inputs.
--
-- Bounds. Texts are ASCII: ToLower and TrimSpace treat ASCII letters and spaces only. The queue holds
-- twice as many jobs as there are workers. The only fuel is that of `print_nat`, which has more of it
-- than the number has digits; that of the two loops of `round`, which is above the number of doublings they
-- make; the number of rounds of `compare_parts`, which is the source's own;
-- that of the rounds of a download, which is the source's count of retries and one more; and that of the
-- rounds of an eviction, which are at most as many as there are rows, and one more.
--
-- Not modelled: errors of the database driver (a missing row, a key that exists and a missing parent
-- row are); that a stage reads the clock several times (it has one reading); negative limits of the
-- limiter and negative priorities of mirrors; the 64 KiB limit on a scanned line; image formats other than the three named ones; that
-- the runtime's name is read from the configuration twice in one job (it is read once); goroutines
-- beyond the interleavings of the handlers with a running job; commands, files, HTTP, storage and
-- cryptography (SHA-256 is an argument); the range of a float's exponent; that a row is deleted while a worker has its job; two requests
-- that refresh the same token at the same time; the web interface and the command line client.
pub mod Prelude
pub mod Forge
pub mod RateLimit
pub mod Build
pub mod Kernel
pub mod Download
pub mod Select
pub mod Auth
pub mod Tests

-- ===== src/Lib.antt =====
-- ts-restic-server: a REST server for restic repositories, reachable over plain HTTP or Tailscale, with
-- access rules per repository path and several storage backends. The files here model its own logic.
--
-- A request passes the middleware and reaches a handler, which calls a storage backend:
--   Middleware/RepoPrefix   internal/middleware/repoprefix.go: the URL path is checked, split at its
--                           first API segment and rewritten; `rewrite_path` is the pure part.
--   Middleware/Identity     internal/middleware/identity.go: the addresses and names of the client,
--                           with the FIFO cache `Cache` of the rDNS and WhoIs answers.
--   Middleware/Access       internal/middleware/acl.go: `acl` asks the engine and refuses or goes on.
--   Middleware/Outer        internal/middleware/recover.go: the reply to a panic.
--   Middleware/Metrics      internal/middleware/metrics.go: what is told to Prometheus, as a list of
--                           updates.
--   Middleware/Chain        the prefix and the access check composed, as in internal/api/router.go.
--   Acl                     internal/acl/acl.go: `new`, `resolve`, `allowed`, `match_path`.
--   Api                     internal/api: the ten handlers over any backend; Api/Range is parseRange
--                           and the clamping in GetBlob, Api/Server the table of the routes.
--   ApiError, Http          internal/apierror/apierror.go, and requests and replies as values.
--   Storage                 internal/storage/types.go, backend.go: the interface `Backend S`, a record
--                           of operations on a state S, and its state-changing calls as data.
--   Memory                  internal/storage/memory/memory.go: the backend in memory. A method runs
--                           under the mutex, so that it is one step of the state.
--   Files                   the calls of an operating system, or of the client of a share, as a parameter
--                           `Files S`; Files/Program has programs of such calls, which keep the states
--                           between them, Files/Laws what is relied on, Files/Disk an instance.
--   Filesystem              internal/storage/filesystem/filesystem.go: the backend on a directory tree.
--                           A write is a program of calls, so that a crash or a failure may come
--                           between any two of them.
--   Remote                  internal/storage/smb/smb.go and internal/storage/nfs/nfs.go: the backends on
--                           a share, whose methods are the same code, over a record `Client` of what
--                           differs; Remote/Smb and Remote/Nfs fill it, Remote/Export names the methods
--                           of the NFS backend.
--   S3                      internal/storage/s3/s3.go: the backend on a bucket, over a record `Bucket` of
--                           the calls of the AWS client.
--   Webdav                  internal/storage/webdav/webdav.go: the backend on a WebDAV server, over a
--                           record `DavClient` of the calls of its client.
--   Rclone                  internal/storage/rclone/rclone.go: the backend that is a client of another
--                           server with the same protocol; Rclone/Numbers and Rclone/Ranges have the
--                           range header, Rclone/Urls the URLs.
--   Tracked, Stats          internal/storage/tracked/tracked.go, internal/stats/store.go: a backend
--                           around another one that counts the traffic of each repository, and the
--                           queries of the counters.
--   Instrumented            internal/storage/instrumented/instrumented.go: a backend around another one
--                           that observes each call. Storage/Wrapper is the interface of both to the
--                           backend inside, and Api/Wrapped what the API shows of them.
-- Beside the API, on the same backend:
--   Ui                      internal/ui/handler.go: the pages as the data of their templates; Ui/Routes
--                           has the lock form, the credentials and the routes.
-- At the start of the program:
--   Settings, Config        internal/config: the records of the configuration, its checks, the search
--                           for its file; Config/EnvVars and Config/Resolve are envsubst.go, Config/Load
--                           is Load.
--   TsAuth                  internal/tsauth: where the auth key comes from, and waiting for the node.
--   Commands                cmd/serve.go: what serve builds of the configuration; Commands/Node is
--                           startTailscale, Commands/Serve is runServe with internal/server/server.go,
--                           Commands/Init is cmd/init.go.
-- Common has the names, lists, texts, maps and integers that these share, Tests the runs at concrete
-- inputs.
--
-- Conventions. A Go string is a list of bytes; lowering a text, trimming and folding its case are those
-- of ASCII. An int64 is its bit pattern, a number below 2^64, and its sums wrap. A Go map is an
-- association list. An error is a value, and a panic is the third outcome of a call next to its value
-- and its error. All loops are recursive on their list, but for mkdirAll of the NFS backend, which has
-- the length of its path as a bound on its calls of itself: each is for a shorter path. An int64 is
-- printed with at most 20 digits, and has at most 19. An io.Reader is the bytes that it delivers and
-- whether it fails after them. Common/Paths has Clean, Join, Dir and Base of Go's packages path and
-- path/filepath on a system with slashes.
--
-- Parameters: the handler behind a middleware, the resolver and the WhoIs call, net.ParseCIDR,
-- net.SplitHostPort and the size parser of gommon, os.Stat and filepath.Join in the search for the
-- config file, the calls on files, on a WebDAV server, on a bucket and on the connection to a share,
-- http.Client.Do and the JSON decoder of the rclone backend, and the backend that is wrapped; what
-- viper has unmarshalled, the YAML parser, os.LookupEnv, the calls of tsnet and of its local client,
-- what echo tells of an exchange to the metrics, what a browser sends to the web interface and the path
-- to which it sends a form, the embedded templates and random bytes. Which route a path matches is
-- decided by echo, so a request comes with its endpoint.
--
-- Not modelled: how the AWS client is configured; how a connection to a share is made and closed;
-- logging, the collectors of metrics, security headers and request ids; the rendering of templates; the
-- listeners, the flags of the commands and the version command; opening the database.
pub mod Common
pub mod Acl
pub mod Storage
pub mod Memory
pub mod Files
pub mod Filesystem
pub mod Rclone
pub mod Remote
pub mod Http
pub mod ApiError
pub mod Middleware
pub mod Api
pub mod TsAuth
pub mod S3
pub mod Webdav
pub mod Settings
pub mod Config
pub mod Commands
pub mod Stats
pub mod Tracked
pub mod Instrumented
pub mod Ui
pub mod Tests

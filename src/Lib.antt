-- ===== src/Lib.antt =====
-- A model of the Go program vkftpd, an FTP and SFTP server over the files of a MUD, and theorems
-- about it. Go strings are lists of bytes, int values stand in ℤ, maps with string keys are
-- association lists or, in Users/Repository, functions; an operation on a struct passes the state
-- explicitly, and an error is a value.
--
-- pkg/lpc/oparser.go reads the MUD's saved objects, one line of key and value at a time.
-- Lpc/Value: the values; Lpc/Cursor: lineParser and its byte tests; Lpc/Decimal, Lpc/Rune:
-- strconv.Atoi and Itoa, and the runes behind a backslash; Lpc/Scalars: parseString, parseNumber,
-- parseCount, parseIdentifier; Lpc/Parser: parseValue, parseArray, parseMap, parseMapEntry,
-- parseLine; Lpc/Object: ParseObject. Lpc/Printer: the texts of docs/lpc_object_format.md, written
-- down without a look at the parser, but for floats; Lpc/Reads: what the parsers read of them. The
-- recursion from parseValue into arrays and mappings runs on fuel: the length of the line plus
-- one, and every recursive call stands behind a byte that was consumed. float64 with
-- strconv.ParseFloat and FormatFloat is the parameter Float64. Not modelled: the deferred recover,
-- and the wording of errors.
--
-- pkg/authorization decides who may do what to which path. Authorization/Permission: the levels
-- (types.go); Authorization/Tree: access_tree_builder.go, and permInt, starVal, dotVal;
-- Authorization/Resolve: resolveAccess and evalMap of authorizer.go; Authorization/Authorizer: the
-- cache, the groups and every method of Authorizer. The clock, AccessSource.LoadAccessData and
-- users.Source.LoadUser are what a call reads from its Surroundings. The mutex is not modelled: a
-- call is one step. Authorization/Reference is the MUD's own resolver, resources/access.c, from
-- the evaluation loop of _get_access on, and eval_map. Paths: path.Clean, filepath.Join and
-- strings.Split of Go's library, and splitPath.
--
-- pkg/vfs/vfs.go is the one place where both servers touch files. Vfs/Session: the FS, its
-- interface Authorizer and afero.Fs as parameters, the access log; Vfs/Operations: every method
-- and ResolveHome; Vfs/Bits: isWriteFlag and clampPerm; Vfs/Listing: the order of a listing. A
-- flag is an int of 64 bits and a mode a uint32, so 64 and 32 bits are enough for the bitwise and.
-- The Authorizer of pkg/authorization is what fills the interface in the program: Vfs/Outage.
--
-- pkg/users gives the user of a name. Users/Types: the record User and the levels;
-- Users/FileSource: IsValidUsername, getCharacterPath and LoadUser of file_source.go, with
-- os.ReadFile as a parameter, and ParseUserFile of parser.go; Users/Repository: the cache of
-- repository.go, whose calls read the clock and the source from their Surroundings.
--
-- pkg/authentication/authenticator.go lets a client in: Authentication/Authenticator.
-- pkg/authorization/access_source.go reads the access tree: Authorization/Source.
--
-- pkg/sftpserver turns SFTP into calls of pkg/vfs. Sftp/Flags, Sftp/Handlers, Sftp/Paging:
-- handlers.go; Sftp/ReadOnly: the handlers for a user without write access; Sftp/Channels:
-- handleChannels, handleSession and subsystemName of server.go; Sftp/Connections: ListenAndServe,
-- handleConn, untrackConn, the sessions of handleChannels and Stop as steps of goroutines and of
-- clients that interleave in any order, with the counters of pkg/status/conn_metrics.go, whose
-- atomic integers stay in their range and so stand in ℕ; Sftp/Timeouts: the accept loop's delays
-- and timeoutConn; Sftp/AuthorizedKeys: authorizedkeys.go; Sftp/Login: passwordCallback and
-- serveSFTP. Of golang.org/x/crypto/ssh and github.com/pkg/sftp there are only the data that they
-- hand over: requests, channels, keys. The reading client of Sftp/Paging runs on fuel, one more
-- than there are entries. Not modelled: the SSH handshake, and the log lines of the server.
-- Sftp/HostKey: hostkey.go, over package os and the encodings of keys as parameters; Sftp/Server:
-- New.
--
-- pkg/ftpserver/server.go turns FTP into calls of pkg/vfs. Ftp/Client: ftpClient; Ftp/Names: the
-- file that a name means; Ftp/Driver: New, and ClientConnected, ClientDisconnected, AuthUser,
-- GetSettings and GetTLSConfig of ftpDriver; Ftp/Counters: the calls that the library makes of it,
-- as steps. Status/ConnMetrics: pkg/status/conn_metrics.go.
--
-- pkg/authentication/multiverifier.go, argon2id.go and unixcrypt.go check a password:
-- Authentication/Verifiers, with crypt, argon2 and base64 as parameters, and
-- Authentication/Verifiers/Phc, the printer of the PHC format.
--
-- cmd/vkftpd/config.go reads the configuration: Command/Config, with os.ReadFile and
-- json.Unmarshal as parameters. Command/Main: RunE of main.go, which makes the parts, waits for an
-- error or a signal and stops them; Command/Main/Orderly: an automaton for the order of its calls.
--
-- pkg/logging: Logging/RotatingWriter: rotating_writer.go, each method as one step under the lock,
-- with package os as a parameter and sizes in ℕ; Logging/Settings and Logging/Handles: what its
-- calls keep, and the files that it has open; Logging/Lines: formatValue, LogAccess, LogAuth and
-- the lines of AppLogger; Logging/Reader: a reader of access lines; Logging/Loggers: the global
-- loggers of types.go. pkg/status: Status/MultiProvider, and Status/Writer for writer.go, with the
-- clock and the runtime's statistics as Surroundings; Status/Heartbeat: StartHeartbeat and
-- Shutdown as steps, where a write is one step, which may fail. Users/MemorySource:
-- memory_source.go.
--
-- Not modelled: ListenAndServe and Stop of pkg/ftpserver, which only call ftpserverlib, Stop of
-- the status writer, which only tests call, the log lines of cmd/vkftpd/main.go and its flags.
pub mod Prelude
pub mod Paths
pub mod Lpc
pub mod Users
pub mod Authorization
pub mod Authentication
pub mod Vfs
pub mod Logging
pub mod Status
pub mod Sftp
pub mod Ftp
pub mod Command

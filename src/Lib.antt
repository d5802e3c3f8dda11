-- ===== src/Lib.antt =====
-- bscp-go, the client of the configuration service bscp: a library and a command that fetch an
-- app's configuration, keep files and key values up to date, and run hooks when a release
-- changes. This library models the core of the Go program.
--
-- The parts and how they interact. A client (client/) holds one connection to a feed server
-- (internal/upstream). A watcher receives release events over it and hands them to the
-- subscribers; each subscriber has a queue of one event. A callback executes a release
-- (client/types.go): its steps fetch files with the downloader (internal/downloader), and what
-- became of it is recorded in files (internal/util/eventmeta) and reported to the server. Key
-- values are read through a memory cache.
--
-- Upstream.antt: internal/upstream. Upstream/Balancer is balancer.go (newBalancer, PickOne).
-- Upstream/Blocker is wait.go (initBlocker, TryBlock, Unblock, WaitMS, WaitWithContext); a
-- channel is its number, and `closed` tells which channels are closed. Upstream/Client is
-- upstream.go and api.go (dial, ReconnectUpstreamServer, Close, the requests) and the loops of
-- dials of bounce.go and client/reconnect.go.
--
-- Watch.antt: client/watch.go. Watch/Queue is the queue of a subscriber: enqueueLatestEvent,
-- processEvents, closeEventQueue and resetForReconnect, each as steps on one record, which
-- interleave in any order. Watch/Stream is loopReceiveWatchedEvent, client/reconnect.go's
-- NotifyReconnect and client/heartbeat.go; Watch/Subscribers is handleReleaseChangeEvent,
-- CheckConfigItemsChanged, ResetConfigItems and ResetLabels; Watch/Session is the watcher with
-- its subscribers: Subscribe, OnReleaseChange, StartWatch, StopWatch and the reconnection, each
-- run to its end.
--
-- Download.antt: internal/downloader. Download/Body is `write` of http.go, Download/Ranges the
-- cut into parts, Download/Http the requests and retries, Download/Http/Ranged
-- downloadWithRange with its goroutines, Download/Exec `download`, `do` and Download, and the
-- choice in downloader.go; Download/Async is async.go.
--
-- Client.antt: client/client.go and internal/cache. Client/Construct is New, AddWatcher,
-- ResetLabels and Close, Client/Requests the requests of GetFile, PullFiles, PullKvs and
-- ListApps with the report of a failed pull, and Client/Reader the FileStreamReader of
-- client/types.go. Client/Kv is Get with the memory cache; Client/Cache is the cache of files
-- with its cleanup, and SaveToFile of client/types.go.
--
-- Release.antt: client/types.go, internal/util/eventmeta, internal/util. Release/Log is the
-- files of records, Release/Steps is compareRelease, Execute and the reports, StrSlicesEqual
-- and TruncateString, Release/Files is clearOldFiles, Release/Updates is updateFiles with its
-- counters and Release/Folder the same with the contents of the files and checkFileExists,
-- Release/Callback watchCallback of cmd/bscp/watch.go: the comparison of Execute, and the steps
-- on the folder, the hooks and the records, Release/Hooks is internal/util/hook.go and the two
-- strategies that run hooks, and Release/Breaks and Release/Permission are ConvertTextLineBreak
-- and SetFilePermission of internal/util/file.go.
--
-- Config.antt: internal/config/config.go. Config is the validation with its defaults, and
-- Config/Update is Update, which merges flags, environment and files. Options.antt:
-- client/options.go. Labels.antt: internal/util/labels.go, and maps as lists of entries, of
-- which no two have one key (IsMap).
--
-- Cmd.antt: cmd/bscp. Cmd/Watch is the labels and options of Watch and the watch of the labels
-- file in common.go, Cmd/Get the gathering of contents and values and the destinations of a
-- download in get.go. Plugin.antt: build/nodemanPlugin/main.go, its validation, pid file and
-- the errors of Watch. Usage.antt: internal/util/process_collect, the figures of the memory.
--
-- Retry.antt: the retry policy of the services' tools. Prelude.antt: tests, lists, byte strings
-- and options that the modules share.
--
-- Numbers are natural numbers; a uint64 that can wrap has its `% 2 ^ 64` written out, and an
-- int that is made of one is negative from 2 ^ 63 on. Texts are lists of code points or byte
-- strings, and a text that is only compared is a number; a float is a fraction, an infinity or
-- not a number. An error is a value that names its branch, without the words of its message,
-- and log lines are left out. A goroutine's step is a transition of the shared state, and
-- schedules are lists of such steps. A loop takes as a list what its rounds meet (reads of a
-- body, attempts of a download, results of steps); the loop of dials is on fuel, and as many
-- rounds as there are endpoints are enough when one of them accepts every dial; the reader's
-- loop is on fuel, and one round for each byte and message and one for the end are enough.
--
-- Code of other packages is a parameter: gRPC (Upstream.Client.Grpc), the retry policy of the
-- services' tools (Retry.antt, whose count grows by one with each sleep), the memory cache
-- (Client.Kv.MemCache), JSON (Release.Log.Codec), the provider that answers HTTP requests (the
-- lists of attempts), the md5 and SHA256 (`digest`, `sha256`), what viper and encoding/json
-- read from a file or text (Config.Update.Outside), the name of a type of hooks
-- (Release.Hooks.System), and whether a process is alive (`process` of Plugin).
--
-- Not modelled: the flags of the commands, their tables and other output, and the HTTP servers;
-- the wait of StopWatch for the goroutines, and the payload of the heartbeat; the sleep of the
-- cleanup loop and the timer of the bounce; the figures of the processor, which are floats, and
-- host information, which call the operating system; logging and metrics; the set-up of TLS and
-- HTTP clients.
pub mod Prelude
pub mod Client
pub mod Cmd
pub mod Config
pub mod Download
pub mod Labels
pub mod Options
pub mod Plugin
pub mod Release
pub mod Retry
pub mod Upstream
pub mod Usage
pub mod Watch

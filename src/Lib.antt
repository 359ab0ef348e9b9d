-- ===== src/Lib.antt =====
-- The runtime of FrankenPHP, as far as it is Go: how requests name a script, how they find a PHP
-- thread, how the threads are counted, created, scaled and stopped, and what the metrics, the watch
-- patterns, the extension generator and the Caddy module decide.
--
-- A request enters with a URL path; cgi.go cuts it into the script and the rest. The dispatch gives
-- the request to a thread of a worker or to a regular one, and puts it into a queue while none is
-- free. Queued requests ask for scaling, which adds threads; a sweep takes idle ones away again.
-- Each thread has a state machine that the goroutines share, and a worker thread runs its script
-- again and again. The number of threads is settled when the configuration is read. While a request
-- runs, PHP calls back for its body and for what it sends, until the context of the request is
-- closed. Init and Shutdown bring all of this up and down; in Caddy, the configuration file is
-- parsed into their options, and a php_server into routes.
--
--   Base          shared names, tests and lists over the native numbers, integers (Base/Int) and
--                 Go's int (Base/GoInt)
--   Text          byte strings and the functions of Go's strings and path packages that are called
--   ThreadState   internal/state/state.go: Defs has one function for each method of ThreadState, or for
--                 each of its critical sections; goroutines are sequences of these
--   Cgi           cgi.go and requestoptions.go: RequestPath is cleanRequestPath and
--                 sanitizedPathJoin, SplitPos is splitPos and normalizeSplitPath, Context is splitCgiPath;
--                 the build is that for a system other than Windows
--   Init          frankenphp.go: MaxThreads is calculateMaxThreads; Lifecycle is Init, Shutdown and what
--                 they call, over one record of the globals; the other components answer as arguments
--   Dispatch      threadregular.go and worker.go: Regular is handleRequestWithRegularPHPThreads, Worker
--                 is handleRequest of a worker; what the selects meet is a list
--   Threads       Pool: the slices of threads; Scaling: scaling.go; Creation: phpthread.go;
--                 WorkerScript: threadworker.go;
--                 Handoff: setHandler, transitionToNewHandler, shutdown and reboot of phpthread.go as
--                 steps of the parties over one state, a wait is a guard; RegularThread: the handler of
--                 threadregular.go; MainThread: inactivePHPThread and the limit of phpmainthread.go
--   Workers       worker.go, server.go and frankenphp.go: Declaration is resolveWorkerFile,
--                 checkWorkerDeclaration and the loop of Validate, Registry is newWorker, addWorker and
--                 the first loop of initWorkers, Servers is registerServers, activateServers and
--                 unregisterServers
--   Sapi          context.go: Context is closeContext, reject and validate; frankenphp.go: Header is
--                 splitRawHeader, Output is go_ub_write, go_write_headers and go_sapi_flush, Body is
--                 go_read_post; effects on the response writer are a list
--   Values        types.go: Convert is phpValueInto and goValue with their arrays, a zval is a tree
--   Metrics       metrics.go: PrometheusMetrics, a collector vector is a function of the label
--   Watcher       internal/watcher/pattern.go: Braces, Match, Parse and Reload
--   Caddy         caddy/module.go: Routes is the list of routes that parsePhpServer makes, Serving is what is
--                 relied on of Caddy, which serves them; caddy/workerconfig.go: WorkerConfig;
--                 caddy/app.go: AppConfig is the parser of the frankenphp option, Names is
--                 createUniqueWorkerName, Collect is collectOptions; ModuleConfig is the parser of the php
--                 directive, Provision its Provision and ServeHTTP, ServerName is caddy/servername.go,
--                 Start is Start over the runtime of Init;
--                 Dispenser is what the parsers rely on
--   Extgen        internal/extgen: Validator is validator.go, Constants is constparser.go over lines whose
--                 matches of the regular expressions are given
--
-- Each part has its laws in modules of their own and its examples in a module Examples.
--
-- Fuel: the expansion of curly braces takes one unit more than the length of the pattern, since
-- each round takes a pair of braces away; the retries of the creation of a thread take ten, since
-- the tenth sleep would be longer than the limit; the loop over a body takes one more than the
-- bytes asked for, since each read but the last brings a byte; the parsers of the Caddyfile take
-- the number of the tokens left, which each round consumes; the search for a worker name takes
-- three more than the names used. The other loops are structural.
--
-- Parameters: filepath.Match, the absolute path, symbolic links, Go's parser, the numbers of the
-- watcher library's events, the workers by path, the functions of the Zend engine on arrays,
-- strconv, regular expressions, the reader of a body, the answers of C calls, Caddy's dispenser,
-- matchers and subroutes, and in Init what the threads, workers and watchers answer. In the thread
-- budget the numbers that Go keeps in an int wrap as it does (Base/GoInt); elsewhere they are
-- integers without its bound; counts, times and indexes are natural numbers.
--
-- Not modelled: C code (frankenphp.c), the callbacks that fill CGI variables or only log, the force
-- kill of a thread, the generic variants of types.go, Caddy's commands and admin endpoint, the
-- reading of the subdirectives of php_server, Mercure, the embedded application, the file watcher's
-- library, logging. The handler of inactive threads, the creation of a request context and the
-- generator's other parsers are left for later.
pub mod Base
pub mod Text
pub mod Cgi
pub mod Init
pub mod Caddy
pub mod Watcher
pub mod Metrics
pub mod Dispatch
pub mod Extgen
pub mod Threads
pub mod Workers
pub mod Sapi
pub mod Values
pub mod ThreadState

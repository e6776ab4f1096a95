-- ===== src/Lib.antt =====
-- The LUSTRO node agent: it pulls signed work units from one edge server, checks that the core
-- signed them, classifies their text, and posts the signed result back.
--
-- The parts of the program, and the files that model them:
--
-- - Base and the files below it: the Python that the source uses. A `str` is a list of code points
--   (Base/Text, with `strip`, `splitlines` and the UTF-8 encoder), a JSON value is `Value` and an
--   object its fields in order (Base/Value), an exception is an `Exn` (Base/Result), and a method is
--   a function from its state to what it returns or raises with the state it leaves (Base/Exec).
-- - Platform: the standard library and the `cryptography` package as one record of functions
--   (`urlparse`, `json.loads`, `json.dumps`, base64, the clock, Ed25519 keys). What a theorem needs
--   of them is a hypothesis of that theorem.
-- - Egress: node_agent/egress.py. `EgressGuard` has the attributes that `__init__` sets; `check` has
--   the tests of the method in their order.
-- - Keys: node_agent/keys.py. What the key path names is an `Entry`; another process may change it
--   between the test and the creation of the file.
-- - Keyring: `PureKeyring` of node_agent/crypto.py, over Ed25519.
-- - CorePin: node_agent/core_pin.py, and `pure_verify_wu_signature` of node_agent/crypto.py.
-- - Ed25519: node_agent/_ed25519_pure.py over natural numbers. A difference, which the source takes
--   under a `% P` only, has a multiple of P added that keeps it from being negative.
-- - JobLog: node_agent/joblog.py, over the text of the file. JobLog/Tail is `iter_lines`: its reads and
--   the appends of others are one sequence of events.
-- - Seen: `_load_seen`, `_persist_seen`, `_seen` and `_mark_seen` of node_agent/client.py. A Python
--   set is a list without repetition whose iteration order is a parameter.
-- - Storage: node_agent/storage.py. The IndexedDB helpers of the page are an interface, `ObjectStore`,
--   whose laws are `StoreLaws`; `read_rows` and `append_row` are `read_all` and `append`.
-- - LogWall: `_host_allowed`, `do_GET` and `_serve_api_log` of node_agent/logwall.py, up to the answer.
--   LogWall/Handler is what the answer writes to the connection, with `_send_json`, `_serve_html`,
--   `do_POST` and the frames of `_serve_events`, over `http.server`; LogWall/Live is the live tails at once, a step
--   relation on the semaphore that all their handlers share.
-- - Client: the rest of node_agent/client.py. Client has the state (`Node`: the anti-replay record,
--   the job log, the requests made, the clients open), Client/Wire the HTTP client and its
--   validation, Client/Payload and Client/Validate what is read from a work unit, and
--   Client/Process, Client/Register, Client/Pull and Client/Ship (with Client/Batch) one method each.
--   The network is a function from the requests so far and the next request to a reply, so that a
--   theorem holds for every edge.
-- - Client/Session: the calls of the methods in any order, and restarts, as a step relation.
-- - Transport: `FetchBackend` and `_FetchResponse` of node_agent/transport.py, as an HTTP client over
--   the `fetch` of the page. Transport/Options is what `fetch` is called with, and `_to_js_object`;
--   Transport/Httpx is `HttpxBackend`, over a client of `httpx`.
-- - Classifier: node_agent/classifier.py. Classifier/Model is `ModelClassifier`, over the files of its
--   artifact and the packages that it calls, and the verdict that cli.py prints. Classifier/Features
--   is `_lexical_features`, the inference of `classify`, and `_sha256`.
-- - Browser: node_agent/wasm.py. `BrowserNode` is a `_BrowserNode` with what its page keeps: the
--   values of the store, the client's node, and the messages of `on_step`. Browser/Shipping is its
--   `_ship_logs`, Browser/Session its methods in any order, Browser/Refines says what `run_once`
--   does call by call, and Browser/Stored that the values are an object store.
-- - Cli: node_agent/cli.py. `Agent` is the state directory with a process that works in it; Cli has
--   `cmd_run`, Cli/Dump `cmd_dump_log`, Cli/Leave `cmd_leave`, Cli/Serve `cmd_serve_log`, and Cli/Main
--   `build_parser` and `main`, over `argparse`. Cli/Run says what `cmd_run` does call
--   by call, and Cli/Closed joins it and `ModelClassifier`.
--
-- Where a file has children that are not named above, they hold its proofs. Samples and the modules
-- named Tests have concrete data.
--
-- Bounds and fuel: the registration loop runs on the number of attempts that remain, from the
-- source's constant, the loop of `_scalarmult` on its scalar, which it halves in each round, the
-- lines of a file that `iter_lines` reads on the number of its code points, as each line has one, the
-- chunks of `_sha256` on the number of bytes, and every other loop is structural recursion on the data
-- it reads. The live tail, whose loop does not end, is seen up to any moment.
--
-- Not modelled: file permissions and locks, the sleeps between attempts, the clock beyond a value in
-- each entry, the text of the page of logwall.py and the server loop of `http.server`, the banner and
-- the progress that `run` prints, `argparse`, and the arithmetic of floats (a feature is a quotient,
-- and the packages that infer are parameters). A failure of the page's IndexedDB helpers or of its
-- `on_step`, and a failed write of the file `registered`, are not modelled. But for the key file and
-- the followed job log, several processes that write the same file at once are not modelled.
pub mod Base
pub mod Platform
pub mod Keys
pub mod Keyring
pub mod Egress
pub mod CorePin
pub mod Ed25519
pub mod JobLog
pub mod LogWall
pub mod Seen
pub mod Storage
pub mod Client
pub mod Transport
pub mod Classifier
pub mod Browser
pub mod Cli
mod Samples

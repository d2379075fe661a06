-- ===== src/Lib.antt =====
-- Models of the C++ programs of the workload manager, and theorems about them.
--
-- The programs. swm-porter (c_src/porter) starts a job on a node: it reads the job from the
-- Erlang side on its standard input, writes the job's files, runs the job, and meanwhile relays
-- requests of the job and sends metrics. swm-task (c_src/task) runs inside a job; it asks the
-- porter over a Unix socket to spawn a command on every node, and waits for the exit code.
-- swm-pmix (c_src/pmix) is the PMIx server of a node; the fences of its clients are completed by
-- the Erlang side, over lines of text. c_src/lib holds what they share: reading from streams,
-- private files, and the C++ classes of the database's entities, which are made from Erlang
-- terms.
--
-- The files.
--   Prelude, Prelude/Lists, Prelude/Strings, Prelude/Int, Prelude/Tests: native numbers, lists,
--     byte texts, integers and Boolean tests. A `char` is a number below 256, a std::string a
--     list of them.
--   Numbers, Numbers/RoundTrip: std::to_string, std::stoi and std::stoul.
--   WriteLoop: the loop over write(2) of c_src/task/task.cpp and c_src/porter/wm_porter_ctrl.cpp.
--   Ctrl: `porter_ctrl_parse_spawn` of c_src/porter/wm_porter_ctrl.cpp; Ctrl/RoundTrip: with the
--     request that swm-task writes; Ctrl/Request: `send_porter_req`; Ctrl/Listen:
--     `porter_ctrl_listen`; Ctrl/Write: `porter_ctrl_write_line`; Ctrl/Listen/Held: proofs.
--   Relay: `try_read_ctrl_client` and `handle_ctrl_line` in `main` of c_src/porter/porter.cpp;
--     Relay/Stdin and Relay/Reply: `try_read_stdin_reply`, its frame and what the frame does;
--     Relay/Framing, Relay/Stdin/Frame, Relay/Reply/Done and Relay/Session: proofs, the last one
--     on swm-task and the relay together.
--   Porter: the loop of the parent process in the same `main`; Porter/Info: `send_process_info`;
--     Porter/Rounds, Porter/Life and Porter/Final: what the Erlang side sees of a job;
--     Porter/Samples: its metrics.
--   Porter/Environment: `set_env` and its helpers, and the path of `open_job_log_fd`, of the same
--     file; Porter/Text: the calls on texts that it uses; Porter/Environment/Path and
--     Porter/Environment/Precedence: proofs.
--   Privileges: `drop_privileges` of c_src/porter/wm_porter_priv.cpp.
--   Task: the request of c_src/task/task.cpp; Task/Args: its command line; Task/Reply:
--     `read_line` and the reply loop; Task/Run: `run_via_porter` and `main`; Task/Session: whole
--     runs.
--   Pmix/Base64, Pmix/Fence: `b64_encode`, `b64_decode`, `fencenb`, `complete_fence`,
--     `handle_fence_out` and the end of `main` of c_src/pmix/pmix_server_main.cpp; Pmix/Register:
--     the arguments of REGISTER; Pmix/Server: `register_nspace`, `register_clients`,
--     `server_fork_env` and the commands; Pmix/Server/Life: the loop over them; the other modules
--     hold the proofs.
--   Metrics/Config, Metrics/Window, Metrics/Sample, Metrics/Report, Metrics/Cycle:
--     c_src/porter/wm_porter_metrics.cpp, from the configuration to the reports.
--   Io: `swm_read_exact` and `swm_read_length` of c_src/lib/wm_io.cpp.
--   Data: `get_porter_data` of c_src/porter/wm_porter_data.cpp.
--   SafeFile: c_src/lib/wm_safe_file.cpp.
--   Ei: the Erlang interface library, a parameter of Data, Decode, Entity and Relay/Reply;
--     Ei/Tag: its tags; Ei/Item: the calls of its encoder.
--   Decode, Decode/Vectors, Decode/Maps: c_src/lib/wm_entity_utils.cpp; Decode/Terms and
--     Decode/Tuples: what it means that a buffer holds a term.
--   Entity: one module for each of the twenty-two entities, from c_src/lib/wm_<entity>.cpp: the
--     record, the constructor, and `ei_buffer_to_<entity>` for one and for a list.
--   Tests: runs on concrete inputs.
--
-- How code becomes definitions. A system call, a library or the host answers by an argument: a
-- list of results for calls in a loop, a record (Task.Run.Env, SafeFile.Os, Ctrl.Listen.Net,
-- Metrics.Sample.Host, Ei.Ei, Privileges.Calls, Porter.Round, Metrics.Window.Doubles) for the
-- others. A list of results that ends leaves the program in its last call, which is `none`. Out
-- parameters and members are part of the result. Numbers of the source wrap where it lets them:
-- 32 bits for the counters of a window, for the marker of a chunk and for the accumulator of
-- base64, 64 bits for the numbers of fences.
--
-- How the parts meet. In the loop of the porter a round accepts a client (Porter.accept), reads
-- from it (Relay) and from the Erlang side (Relay/Reply), looks at the child and sends a process
-- info (Porter/Info) and metrics (Metrics/Cycle); all of it works on one state. An event
-- of the relay is one call of porter_ctrl_write_line, whose answer the porter does not look at;
-- what the call writes is Ctrl/Write, and a call for a client that is gone ends the porter by
-- SIGPIPE (Porter.deliver). Behind the loop the porter waits for a child that was only stopped
-- (Porter.wait_returns). The bytes that
-- Task/Run writes are those that Relay reads, and the lines that the relay answers are those that
-- Task/Reply reads; Relay/Session follows a request through all of them.
--
-- Loops are structural, but for three on fuel. The chunks of a block have `len / 32 + 2` rounds,
-- which is enough where the marker does not wrap. The reply loop has one round more than there
-- are results of read(2); each line takes at least one result. A resource holds resources: its
-- constructor has a unit of fuel for each level, which is enough for terms with fewer levels
-- (Entity/Resource).
--
-- Concurrency. The two threads of swm-pmix meet in the map of pending fences, under a mutex; a
-- history is a list of whole calls, in any order, so the line that announces a fence goes with
-- the entry in the map.
--
-- Not modelled: messages on stderr and logging; sleeping; memory that runs out, but for the
-- encoders; the start of the porter's `main`, which reads its options and its job and
-- forks, and of its child, which looks up the user, makes the files and directories of the job
-- and calls execve (c_src/porter/porter.cpp); a standard output of the porter that is closed; the
-- start of swm-pmix up to its READY line, its temporary directory and the waiting for the
-- callbacks of the PMIx library, whose answers are parameters;
-- the Erlang side, which is another language.
pub mod Prelude
pub mod Numbers
pub mod WriteLoop
pub mod Ctrl
pub mod Ei
pub mod Io
pub mod Data
pub mod SafeFile
pub mod Decode
pub mod Entity
pub mod Task
pub mod Pmix
pub mod Metrics
pub mod Relay
pub mod Privileges
pub mod Porter
pub mod Tests

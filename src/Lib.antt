-- ===== src/Lib.antt =====
-- CodeMentat: a model of the core of a desktop mentor that reads a repository, lets a language model
-- call tools on it, and sends excerpts to a provider only under the user's consent.
--
-- The parts and how they interact. A scan (`Repository`) walks the repository under limits and gives
-- a snapshot with the records of its files. The tool gateway (`Gateway`) holds a snapshot and answers
-- the calls of the model. The consent (`Consent`) guards a packet of files that the user reviews.
-- What a tool returned is sent under a receipt: the sealer (`ToolEgress`) prepares
-- it under a consent scope, bound to a provider (`Core.Binding`), and the store (`Storage.Receipts`)
-- keeps it and moves its status. The agent loop (`Agent`) runs the rounds of a turn over a backend and
-- the gateway. An answer of the model is checked against the sources that the tools gave (`Audit`) or
-- against the files of the snapshot (`Answer`). Turns and messages are kept by `Storage.Conversations`.
--
-- Which file models what:
--   Base and its children: lists, texts, paths, numbers, equality, sorting and encodings, as the
--     standard library of Rust has them.
--   Core.Models, Core.Tools, Core.Egress, Core.Error: crates/mentat-core/src/models.rs and error.rs,
--     the types by their names there; `Result` with the `?` operator as `>>=`.
--   Core.Binding: `ProviderBinding::new` (`bind_provider`) and `verify_target_digest` of models.rs.
--   Repository.Scan: `scan_tree` of crates/mentat-repository/src/session.rs, `Repository.Session`
--     its `read_file_lines` and the functions that create a snapshot.
--   Consent: crates/mentat-analysis/src/consent.rs; Consent.Trace runs it among assemblies.
--   Egress.Filename: `is_sensitive_filename` of crates/mentat-analysis/src/egress.rs.
--   Gateway.Types, Gateway.Tools, Gateway.Search, Gateway.Execute:
--     crates/mentat-analysis/src/repository_tools.rs, one function per tool and `execute`.
--   ToolEgress: crates/mentat-analysis/src/tool_egress.rs.
--   Inference.Types, Inference.Catalog: crates/mentat-inference/src/types.rs. Core.Conversation:
--     the conversations of crates/mentat-core/src/models.rs.
--   Agent.State, Agent.Round, Agent.Calls, Agent.Loop: crates/mentat-analysis/src/agent_loop.rs, with
--     one function for each part of `run_bounded`, whose local variables are a `LoopState`.
--   Gate: crates/mentat-app/src/tool_egress_gate.rs.
--   Audit: `validate_audit_bundle` of crates/mentat-analysis/src/agent_loop.rs and
--     `compose_verified_answer` of answer_bundle.rs.
--   Answer: `validate_citations` of crates/mentat-analysis/src/answer_bundle.rs.
--   Storage.Receipts: the receipts of crates/mentat-storage/src/grounding_store.rs, and their
--     recovery in db.rs.
--   Storage.Conversations.Rows: the tables of crates/mentat-storage/src/db.rs; Messages, Turns and
--     Deletion beside it: conversation.rs in that folder; Grounding: the end of a turn with its trace,
--     and `write_grounding_trace_in_transaction` of grounding_store.rs; Snapshots: the mark of a changed
--     snapshot and a trace that is prepared before its turn ends, in that file.
-- The modules below a component hold its proofs, named for what they prove, and `Examples` its runs
-- on concrete data.
--
-- How the code is read. A method that changes `self` takes the state and returns the new one. An
-- error is its variant and its code, without the text for the reader. A `String` is the list of its
-- code points, with `byte_len` for its length in UTF-8; a path is the list of its components. A
-- `Uuid` and a time are numbers. `usize`, `u32` and `u64` are natural numbers, and where the code
-- adds with a wrap, a check or a saturation, so does the model. The clock, a new `Uuid`, the cancel
-- token and what the file system and SQLite answer are arguments. SHA-256, JSON, the URL parser,
-- Unicode lower case, the walk of a directory and the redaction of secrets are parameters.
--
-- Bounds and fuel. Most loops recurse on the list that they walk; `back_to_boundary` recurses
-- on the index, and `digits_of` takes the number and one more as fuel, which is enough since each
-- digit divides the number by ten. The rounds of a turn recurse on `max_rounds`. `bound_content_to` takes the limit of 64 KiB as an argument.
--
-- What is not modelled: the assembly of packets, the prompts, the search
-- and the evidence index, the watcher and the provider adapters, the migrations of the store, the user
-- interface and the access to the operating system. The time limit of a turn is an argument that says
-- whether it strikes, and an event sink is the list of the events.
pub mod Base
pub mod Core
pub mod Repository
pub mod Consent
pub mod Egress
pub mod Gateway
pub mod ToolEgress
pub mod Storage
pub mod Audit
pub mod Answer
pub mod Inference
pub mod Agent
pub mod Gate

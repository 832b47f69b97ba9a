-- ===== src/Lib.antt =====
-- Ephemora-cell: the host-side components that decide and record what a sandboxed run may do.
--
-- The parts and how they meet. A guest keeps named values in a store on the host, through three host
-- functions (State). Its requests to the network go through a mediator (Egress), which holds them to an
-- allowlist and charges the book of the grant they are made under (GrantLedger). Grants are signed by
-- keys that the operator trusts (Trust), and the receipts of runs are checked in Receipts. A tenant's
-- runs are admitted against a cumulative budget and settled in a second book (Tenant). Each finished run
-- is chained into a third (Ledger). The books are files that only grow (AppendLog), and what is signed
-- or chained has a canonical text (Canonical).
-- Compiled code is kept in a pool of engines (EnginePool). What directories a guest may be granted, and
-- how much it may write, is decided in Sandbox. A server (Mcp) reads messages line by line and runs the
-- tools that they call.
--
-- State        ephemora_cell/state.py: `StateStore` and `make_state_imports`. The memory of the guest is
--              an interface. Numbers are naturals, and the total is shown to cover what is subtracted.
-- GrantLedger  ephemora_cell/grant_ledger.py: `GrantLedger`. `record_call` and `revoke` take the book and
--              return the one they leave; `Book` holds the replay, `Gates` to `Evidence` the proofs.
-- Tenant       ephemora_cell/tenant.py: `TenantStore` in Tenant.antt, `_Replay` in Tenant/Book.antt,
--              `Charge`, `CumulativeBudget` and `TenantId` in Tenant/Values.antt.
-- Ledger       ephemora_cell/ledger.py, and `ExecutionReport.verify` of
--              ephemora_cell/execution_report.py, to which it passes an entry's signature.
-- Egress       ephemora_cell/egress_sidecar.py: addresses, paths, the allowlist, requests, redirects and
--              `mediate_with_grant`.
-- EnginePool   ephemora_cell/engine_pool.py: `engine_for`, eviction, leases and the module cache.
-- Sandbox      ephemora_cell/_sandbox_common.py: the directory policy (Sandbox/Dirs, with what is
--              allowed in Allowed and what is granted in Granted), the output sinks,
--              the capped read and the fuel account (Sandbox/Output).
-- AppendLog    ephemora_cell/_appendlog.py: `tail_line`, `read_lines`, `decide_and_append` on bytes.
-- Mcp          ephemora_cell_mcp/transport.py (Mcp/Transport, the reader of lines from chunks),
--              protocol.py (Mcp/Protocol) and server.py (Mcp/Server, from `handle_line` to the replies).
--              The registry, the engine and the report of get-policy are the interface `Backend`.
-- Canonical    ephemora_cell/execution_report.py: the canonical JSON of RFC 8785, from `_jcs_number` to
--              `jcs_canonicalize`. A float is given by its sign and the `repr` of its absolute value.
-- Trust        ephemora_cell/grant_trust.py: loading a trust root (Trust/Root) and its
--              `verify_envelope` (Trust), with `dsse_pae` of ephemora_cell/execution_report.py
--              (Trust/Dsse).
-- Receipts     ephemora_cell/execution_report.py: `dsse_verify` and `verify_execution_attestation`.
-- Common       what these share: exceptions as a sum (Raising), dicts in insertion order (Dict), decoded
--              JSON (Json), moments and their texts (Moment), bytes and UTF-8 (Bytes), `int()` (Decimal).
--
-- A book is the list of its decoded lines in file order, `none` for a line that is not JSON; an
-- operation runs under the lock of the file and is one step. The bytes of a book, the window in which its
-- last line is sought included, are those of AppendLog; the books above it do not look at them. The reader
-- of Mcp/Transport is on fuel, one round for each line and one more. The rounds of eviction are bounded
-- by the number of entries, and each takes one away. `int()` of a text is that of ASCII.
--
-- The parser and printer of `datetime`, `urllib.parse`, `ipaddress`, `json.loads`, the case of a text,
-- the redirect handler of the standard library, which makes the next request, base64, `realpath` and
-- `isdir`, the hash functions, the compiler of modules, the signers and the verifiers of public keys are
-- parameters, with what is relied on named where a theorem needs it. So are, of the program itself,
-- the canonical text of an entry in Ledger and of an execution in Receipts, since Canonical has it for
-- Python values and not for decoded JSON, and `_grant_from_payload` in Trust.
--
-- Not modelled: the sandbox itself and the inspector, which drive wasmtime; processes, sockets and
-- files; the command line; the tool registry, the engine and the results of calls of the MCP server;
-- reading and signing grant documents; the fields, the digests and the signing of execution reports.
pub mod Common
pub mod State
pub mod GrantLedger
pub mod Tenant
pub mod Ledger
pub mod Egress
pub mod EnginePool
pub mod Mcp
pub mod Sandbox
pub mod AppendLog
pub mod Canonical
pub mod Trust
pub mod Receipts
mod Tests

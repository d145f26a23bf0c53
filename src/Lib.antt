-- ===== src/Lib.antt =====
-- memory-system keeps documents for agents, in tenants, behind relationship-based authorization. This
-- library models the parts of the server that decide: who may do what, which rules a document's type is
-- under, what a path means, and a few bounded helpers of the service.
--
-- Authz (internal/authz, internal/authzseed): a caller may do something to an object when the check
-- engine finds that it holds a relation there. Authz/Tuple and Authz/Namespace are the tuples and the
-- fixed model (tuple.go, config.go), Authz/Store the store in memory (store.go), Authz/Check the engine
-- (check.go), with a cache and a path that are passed on explicitly, and Authz/Seed the tuples that the
-- program writes (authzseed.go). Authz/Membership says what holding a relation is, by rules that know
-- nothing of the engine; Authz/Check/ proves the engine sound and complete for them, Authz/Model/ proves
-- of the fixed model what access it gives, and Authz/Store/ proves the store's reads and writes. The
-- number of levels left is the engine's MaxDepth + 1 - depth, so that the recursion is structural and the
-- depth error is its end; a theorem shows that the default cap is never met.
--
-- Models (internal/models): Models/Path is the validation, building and parsing of a document's path
-- (validation.go, document.go); Models/Slug the formats of a slug and the type that a path stands for
-- (doc_type_policy.go, staleness.go); Models/Policy and Models/Policy/Rows the rules of a document type,
-- as rows that inherit from the reference row and as resolved policies (doc_type_policy.go). A Go string
-- is the list of its bytes, a map an association list, an int whose sign matters an integer. Where the
-- source iterates over a map, in no fixed order, and returns the first error, the model goes in the
-- order of the list; no theorem depends on which error it is.
--
-- Staleness (internal/staleness, internal/service/write_path.go): the store that serves the resolved
-- policies from a snapshot, and the operation that patches a row. The table of rows and the snapshot are
-- one state; which calls of the database fail is a parameter, and the JSON decoder is another. The audit
-- entry that a patch leaves is not modelled.
--
-- Service (internal/service): Service/ListOptions the browse parameters (list_options.go),
-- Service/Sections what a write does to the sections of a document that exists (write_path.go), with the
-- calls of the repository as operations on a table of rows, an error rolling the table back
-- (Service/Sections/Matched tells which section an incoming one replaces, with none of the loop's counters),
-- Service/Handoff the chain of prior handoffs (memory.go), Service/Includes the walk over the documents
-- that one includes (includes.go), Service/Snippet the window around a match
-- (snippet.go), over runes where the source goes between bytes and runes. The loop of the chain is
-- recursion on the number of references that still fit, and the walk is recursion on the depth that is left;
-- the reading of one included document, with the condition on its scope, is a parameter of the walk.
--
-- Service/Access (memory.go, internal/auth/context.go) is the gate of the service, over the check engine,
-- and the tenants that a read or a write spans; Service/Grants (memory.go) the grants on tenants and
-- documents, and Service/Users (memory.go) the users of tenants, whose roles have tuples. The state is a
-- record of the tables, the tuple store in memory, and which of the reads that a check makes of that store
-- fail, with what error. Every other call that may fail is named, and whether it fails is a parameter; a transaction covers the rows but not the tuples, as in the source. Service/Access
-- and Service/Grants prove what the checks amount to in terms of Authz/Membership.
--
-- Middleware/RateLimit (internal/middleware/ratelimit.go): the visitors of the rate limiter and their
-- eviction. The clock is an argument and the token bucket a parameter.
--
-- Authlet (internal/authletstore): the tables of the authorization server. Authlet/Codes are the
-- authorization codes (codes.go), Authlet/Refresh the refresh tokens and the revocations of their
-- families (refresh.go), Authlet/Keys the signing keys (signing_keys.go), Authlet/Errors the errors
-- (errors.go). A table is the list of its rows and a statement a function of it, by the conditions that
-- the source writes (Prelude/Rows); whether a statement fails is a parameter, the record Database, and a
-- statement that fails has no effect. A transaction whose body returns an error leaves the table as it
-- was. Authlet/Codes/Grants lets other operations come between the two statements of a redemption; the
-- deletion is one step, as the row's lock makes it.
--
-- Prelude holds what the others share: Boolean tests, texts and their splitting, maps, results, tables
-- as lists of rows (Prelude/Rows) and sets as lists (Prelude/Distinct).
--
-- Not modelled: the repositories and the store of tuples in PostgreSQL, which are SQL; the HTTP server
-- and the MCP tools, which decode and encode; configuration, migrations, notifications and the commands,
-- which are input and output. Of the service, the conditions of includes (globMatch), the listing of
-- grants, the life cycle of API keys, the parsing of markdown and the audit of reads are not modelled.
-- The mutexes are left out, each operation being one step.
mod Prelude
pub mod Authz
pub mod Models
pub mod Staleness
pub mod Service
pub mod Middleware
pub mod Authlet

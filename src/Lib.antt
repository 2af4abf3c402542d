-- ===== src/Lib.antt =====
-- docsclaw: an agent runtime in Go, seen from the request that comes in to the answer that goes out.
--
-- A message reaches the agent by A2A or by the Chat Completions endpoint. Where it is configured, a
-- middleware stands in front of both, and verifies a bearer token against keys fetched from the
-- issuer. The executor, or the endpoint, puts the conversation together, from a session store or from
-- the request, under a system prompt that holds the workspace's context files. The tool loop then asks
-- the provider, runs the tools that it calls for, and asks again, until an answer comes or the rounds
-- are used up. The runtime puts all of this together from the files of a directory: which tools an
-- agent has, which provider, which sessions, and what stands in front.
--
-- Where each part stands, with the paths in the repository:
--   Llm           pkg/llm/types.go, pkg/llm/provider.go: messages, tool calls, the provider
--   Tools         pkg/tools: Registry (registry.go), RunToolLoop, executeTool, truncateResult (loop.go)
--   Auth.Policy   pkg/inboundauth/config.go, errors.go, callerAllowed and containsAny of verify.go
--   Auth.Keys     pkg/inboundauth/keys.go: `begin`, `awaited` and `finish` are the sections of `key`
--                 under the mutex; Auth.Keys.Flight runs them for concurrent requests
--   Auth.Verify   pkg/inboundauth/verify.go: verifyToken
--   Auth.Middleware  pkg/inboundauth/middleware.go: Middleware, isExempt, parseBearer
--   Session       internal/session/store.go: MemoryStore
--   Session.Sqlite  internal/session/sqlite_store.go: SQLiteStore over its two tables; a statement of
--                 the SQL text is a function of the tables
--   Bridge        internal/bridge/executor.go: Execute, sessionKey, Cancel
--   OpenAiApi     internal/openaiapi: handler.go, types.go, stream.go
--   FileTools     internal/workspace, internal/readfile, internal/writefile: the file tools
--   Providers     pkg/llm/config.go and factory.go (Providers.Config); internal/openai/openai.go:
--                 Providers.OpenAi.Wire is the conversion of messages, Providers.OpenAi.Reading the
--                 loop over the lines of a stream, Providers.OpenAi.Client the requests and responses;
--                 internal/anthropic/anthropic.go (Providers.Anthropic). Providers.Honest is what a
--                 provider promises of the events that it passes on
--   Peers         internal/a2acall/cardverify.go (Peers.Card), a2acall.go (Peers.Call),
--                 internal/bridge/client.go (Peers.Invoke), internal/egress/denial.go (Peers.Denials)
--   FetchTools    internal/webfetch (FetchTools.Web), internal/fetchdoc (FetchTools.Docs),
--                 internal/exec (FetchTools.Exec)
--   Memory        pkg/memory, internal/memorytool
--   Batch         internal/cmd/batch.go: runBatch and what it calls
--   Catalog       pkg/catalog, and CheckCompatibility of pkg/manifest/check.go
--   SkillSource   internal/skillpuller/source/url.go; SkillSource.GitHub is github.go there, and
--                 SkillSource.Server the handlers of internal/skillpuller/server.go
--   McpClient     internal/mcpclient
--   Retrieval     pkg/rag, internal/ragsearch
--   Manifests     pkg/manifest: types.go, parse.go, toolsjson.go, agentconfig.go;
--                 Manifests.Containerfile is containerfile.go; Manifests.Kubernetes is k8s.go, and
--                 Manifests.Deployment its largest template
--   Runtime       internal/cmd: Runtime.AgentConfig is agentconfig.go; Runtime.ConfigDir the files of
--                 serve.go; Runtime.Build is buildRuntime of runtime.go, over Runtime.Toolset, the
--                 registry, and Runtime.BuiltIns, the names and schemas of the tools;
--                 Runtime.Build.Conversation is Run, and Runtime.Serve newServeHandler
--   AgentContext  pkg/agentcontext: Load, ResolveProfile, truncateRunes
--   Skills        pkg/skills: loader.go (Skills.Loader; LoadContent is Skills.Loader.Content) and a2a.go
--                 (Skills.Cards)
--   Json, Utf8, Text, Base  what the code uses of Go's packages, and the helpers of the proofs
--
-- How the code is rendered. A string is its bytes. A Go map is an association list in which a key
-- stands once. An error is the text of its Error(). Durations and instants are nanoseconds, and not
-- negative. Everything outside the process is one state W, which providers, tools and hooks read and
-- change; so the store of a session is a W as well. A method that holds its mutex throughout is one
-- step. The goroutines of a round of the tool loop are steps in an order that a parameter gives; a
-- goroutine is one step, so two tools of a round do not interleave. In the key cache, where the mutex
-- is released in the middle, the steps are the sections between, and any sequence of them is a run.
--
-- Parameters, as they are not code of the repository: the JSON, time and base64 codecs, the signature
-- check of a token, net/http, the Anthropic SDK, the A2A SDK, regexp (but for the
-- patterns of githubRawURL, documentServiceName and toolNameAllowed, which are written out), encoding/csv, the shell, jws.Verify and JCS,
-- url.Parse, package net, the YAML parser, path/filepath, the file system, the clock, the
-- provider, the MCP SDK, the sorting of names, and which SQL statements the driver fails. What the
-- templates of pkg/manifest give is written out line by line. What the code calls of Go's packages
-- strings, path and utf8 is written out over bytes, as documented: white space is that of unicode.IsSpace, and
-- EqualFold is used with an ASCII word only. filepath.Base is written out for the names of skills.
--
-- Fuel. `tokenize` has the length of the text as fuel, and each round takes a byte at least; `decimal`
-- has the number itself, and each digit makes it smaller (`decimal_lem` in Base.Strings). The rounds
-- of the tool loop are the limit of its configuration. All else is structural.
--
-- Not modelled: the parser of skill cards in pkg/skills/card, the commands but for serve and batch,
-- flags, the start and stop of servers, the dashboard under demo, telemetry and logs. Of the modelled
-- files: log lines, spans, response headers of streams, the opening of a database, and the routes of
-- the mux.
pub mod Base
pub mod Json
pub mod Llm
pub mod Utf8
pub mod Text
pub mod Tools
pub mod Auth
pub mod OpenAiApi
pub mod AgentContext
pub mod Session
pub mod Bridge
pub mod Skills
pub mod FileTools
pub mod Providers
pub mod Peers
pub mod FetchTools
pub mod Memory
pub mod Batch
pub mod Catalog
pub mod SkillSource
pub mod McpClient
pub mod Retrieval
pub mod Manifests
pub mod Runtime

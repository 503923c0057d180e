-- ===== src/Lib.antt =====
-- kuery: one query API over the objects of many Kubernetes clusters. Informers copy the clusters'
-- objects into a SQL database; a query is validated, turned into SQL, run, and its rows are assembled
-- into nested results; a collector removes clusters that have been gone for longer than their TTL.
--
-- Parts, each with the code that it models:
--   Api            apis/query/v1alpha1/types.go: the request and the response
--   Engine         internal/engine
--     Validate     validate.go: Validate and countRelationBlocks
--     Order        generator.go: buildOrderBy, buildCursorFilter, BuildCursorToken
--     Filter       generator.go: buildObjectFilterWithRT; its labels in Filter/Labels
--     Projection   projection.go, and buildProjection of generator.go
--     Root         generator.go: generateRootOnly; its WHERE and JOINs in Root/Conditions
--     Refs         refs.go: the table and the registry of reference paths, and their subqueries
--     Relations    relations.go: the JOIN for each type of relation; half of it in Relations/Joins
--     Tree         tree.go: AssembleTree, with rowToResult of engine.go and MutablePath of
--                  generator.go
--     Transitive   transitive.go: buildTransitiveCTE
--     Relational   generator.go: Generate and generateWithRelations; the nodes of the queue in
--                  Relational/Queue, the body of the loop in Relational/Visit
--     Execution    engine.go: executeFlat and executeWithRelations, with scanFlatRows and
--                  ExtractLastRowForCursor of tree.go
--     Execute      engine.go: Execute
--     Sql, Codec   SQL text with its placeholders and arguments; encoding/json and base64 as called
--   Store          internal/store: models.go and the statements of store.go
--   Gc             internal/gc/gc.go: collect
--   Sync.Handler   internal/sync/handler.go: OnAdd, OnUpdate and OnDelete; the events of several
--                  informers in Handler/Informers
--   Sync.Discovery internal/sync/discovery.go and blacklist.go: RunDiscovery, Blacklist
--   Sync.Identities internal/sync/kcp.go: RunKCPDiscovery, EnrichWithKCPIdentity
--   Sync.Controller internal/sync/controller.go: Engage and Disengage; watchCRDs in
--                  Controller/Debounce
--   Server         internal/server/handler.go: Create
--   Common         integers, texts, lists and maps; Tests holds concrete runs of the theorems
--
-- How code corresponds to definitions. A function or method has the same name in snake case; a
-- method that reads a field of its receiver takes it as an argument, such as the dialect of
-- Generator or the store of GarbageCollector. A Go string is a list of bytes, whose letters are
-- lowered in ASCII only, a map a list of entries in the order in which a range visits it, a pointer
-- an Option, an int32 or int64 an integer of Common.Int, with the wrap-around of int64 written out
-- where a product can leave its range (the TTL in nanoseconds). An error is `none`, or for
-- validation the error itself. Code that changes its argument returns it: Validate returns the
-- error and the query as it then stands. A statement on the database takes a state and returns a
-- new one, or `none` for an error; the handler and the collector thread that state through every
-- call and go on after an error as the code does.
--
-- Parameters. The database is the record Store.Interface.Table: what INSERT ... ON CONFLICT, DELETE and
-- SELECT do to the rows when they succeed are its laws, and an error leaves the rows as they were;
-- Tests.Database fills it with lists. JSON and base64 are the record Engine.Codec.Codec, without laws.
-- The SHA-1 UUID of an object's key is a function without laws. Unstructured objects are what the
-- handler reads of them. The rows of a query are those that sql.Rows reaches, with what Scan and Err
-- report; the count query's result and the RFC 3339 format of a time are arguments too.
--
-- A SQL text is built of its pieces: WITH, the CTEs, the columns, the joins, WHERE, LIMIT, in the order in
-- which the code writes them; what the database makes of a text is a parameter of Execute.
--
-- The controller's calls are functions on a state with the map of registered contexts, everything that
-- was started, each with its context and whether it is cancelled, and the three tables. The defaults
-- that the database layer fills into a model, the statements of kcp.go that update and look up
-- identities, and what a cluster's server offers are parameters.
--
-- Recursion. Loops over slices are structural recursion. nodeToResult follows pointers from a node to
-- its children; nodes stand in a list here, where a child comes behind its parent, and the recursion is
-- on fuel: the number of all nodes, as no chain of children is longer. The loop over the queue of
-- relations is on fuel too: the number of relations of the query, as each is queued at most once.
--
-- Not modelled: what the database computes from the SQL; calls of Engage for one cluster at the same
-- time, and the context that a caller cancels; the timeout of a query; the reads GetObject and
-- GetCluster; opening and migrating the database; the setup of the API server, metrics, logging and
-- main, which are glue; generated code.
pub mod Common
pub mod Api
pub mod Engine
pub mod Store
pub mod Gc
pub mod Sync
pub mod Server
pub mod Tests

-- ===== src/Lib.antt =====
-- Verification library of systemlens, an indexer that reads the sources of a set of services and
-- draws the graph of their interactions.
--
-- The parts and how they interact. The scanners find integration points (a produced or consumed
-- topic, a served or called route). Their ids are made unique, they are grouped by module, and
-- build_graph joins the points of different services to edges: a REST call to the route of the
-- service that its evidence names, a producer to the consumers of its topic. Facts that a user or
-- an agent adds are merged with the ones that are known. A flow is the list of the sites of one
-- topic or route. A flow of code starts at a point of a method and goes over the effects of the
-- method, or over its calls; the flows of both passes are merged, one for each pair of ends, and
-- reconciled with the edges of build_graph.
--
-- Where the parts are:
-- Models.antt and below: src/systemlens/domain/models.py. MessageEndpoint, ArchitectureRelation
-- and GraphFact are the source's dataclasses, with `in_module` for the field `module`.
-- UniqueIds.antt is the loop of ensure_unique_endpoint_ids, which ensure_unique_code_flow_ids of
-- domain/code_flows.py shares; Facts.antt is merge_graph_facts.
-- MessageTypes.antt: src/systemlens/domain/message_types.py.
-- Graph.antt and below: src/systemlens/domain/graph.py. Paths is paths_match and its helpers,
-- Hosts and Evidence read the target of a call from its snippet, Targets is
-- resolve_rest_target_service, Routes is select_matching_routes, Edges is build_graph with one
-- step for each of its loops, Handlers is find_outbound_calls_in_consumers, Relations is
-- graph_edges_from_relations and Messaging is graph_edges_from_facts.
-- Flow.antt: src/systemlens/application/flow.py.
-- CodeFlows.antt and below: src/systemlens/domain/code_flows.py and
-- src/systemlens/application/code_flows.py. Search is _shortest_method_path over the persisted call
-- graph, with the dispatch rule entry_dispatch_allowed; Internal is _is_internal_module_flow and
-- internal_flow_stats; Tree is _flow_children and _flow_root_ids; Modules is _target_modules and
-- internal_flow_stats_by_module; Summary is _endpoint_summary and _is_root_flow.
-- FlowSet.antt and below: src/systemlens/indexing/code_flows.py. SameMethod is
-- materialize_code_flows, over what the Java parser reads of a file; Steps is _endpoint_step and
-- _operation_step; Anchors and Dedup are _deduplicate_code_flows; Combine is combine_code_flows;
-- Reconcile is reconcile_code_flows.
-- ArchitectureRelations.antt and below: src/systemlens/indexing/relations.py. The file has the loops
-- of build_architecture_relations and the relations of edges, Relation, Points and Inventory the
-- relations of the other loops, and Adding the function `add` with the order of the result.
-- Materialized is about the whole construction; Roundtrip and Faithful compare build_graph with what
-- graph_edges_from_relations of Graph.antt reads back.
-- DataOperations.antt and below: src/systemlens/domain/data_operations.py, and Projection is
-- src/systemlens/domain/data_operation_projection.py.
-- DependencyAnalysis.antt: src/systemlens/application/dependency_analysis.py.
-- Complexity.antt: src/systemlens/render/complexity.py.
-- Freshness.antt: src/systemlens/indexing/freshness.py.
-- MongoOperations.antt: src/systemlens/domain/mongo_operations.py.
-- Prelude.antt and Text.antt: lists, Python's dict and str, and the shapes of regular expressions
-- that the parts share.
--
-- Conventions. A text is the list of its code points; case and character classes are those of
-- ASCII. A set is a list without repetitions, and is sorted wherever the source sorts it. A dict
-- keeps the order of insertion. An exception is `none`. `Compile` stands for the matching of a
-- regular expression of a path template by Python's re, and `digest` for the first characters of a
-- SHA-256: the theorems hold for any. A parameter is what the Java parser gives for a file, too.
--
-- Two look-ups of a dict that would raise a KeyError on a damaged index are total here: an output
-- step whose endpoint has another role than call or produce is answered by consumers, and a method
-- that an edge of the call graph names but no method has is the empty name.
--
-- Fuel. The search for a free id in UniqueIds, which Adding shares, tries one candidate more than
-- there are used ids, which is enough since its candidates are pairwise different. The search of the
-- call graph has one round for the start and one for each edge, and queues no method twice.
--
-- Not modelled: the trace to stderr, the command line, the web server, the renderers, the storage
-- and the scanners, which are I/O or walk the trees of third-party parsers.
pub mod ArchitectureRelations
pub mod CodeFlows
pub mod Complexity
pub mod DataOperations
pub mod DependencyAnalysis
pub mod Flow
pub mod FlowSet
pub mod Freshness
pub mod Graph
pub mod MessageTypes
pub mod Models
pub mod MongoOperations
pub mod Prelude
pub mod Text

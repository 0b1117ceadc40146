-- ===== src/Netmap.antt =====
-- netmap: placement of a container on the nodes of a network map. `Netmap/Node` has what is read of a
-- node (node_info.go), `Netmap/Filter` the filters of a policy and the context (filter.go, context.go).
pub mod Node
pub mod Filter
pub mod Select
pub mod Container
pub mod NetworkInfo
pub mod Text

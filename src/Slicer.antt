-- ===== src/Slicer.antt =====
-- object/slicer: the stream of one object's payload, cut into objects of a limited size.
-- `Slicer/Object` has the fields of an object that the slicer sets, `Slicer/Writer` the limited writer,
-- the metadata and `PayloadWriter` with its methods; the proofs stand below `Slicer/Writer`.
pub mod Object
pub mod Writer

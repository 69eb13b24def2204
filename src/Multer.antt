-- ===== src/Multer.antt =====
-- The multipart parser that both ends call, by what they see of it: a body is a list of parts. The
-- crate is `multer`; the server reaches it through `axum`.
use rs_detritus.Common.{Str, Option, none, some, List, [], ◌∷◌, ◌++◌}

-- What `Field::chunk` returns in turn: bytes, or the error of a broken body.
pub data Chunk : Type 0 where
  data_chunk : Str → Chunk
  broken_chunk : Chunk

-- A `multer::Field`; a header that is no visible text reads as none.
pub record Field : Type 0 where
  pub name : Option Str
  pub content_type : Option Str
  pub content_encoding : Option Str
  pub chunks : List Chunk

-- What `Multipart::next_field` returns in turn.
pub data Part : Type 0 where
  part : Field → Part
  broken_part : Part

-- The bytes of a part, if it arrives whole: `Field::bytes`.
abbrev pub part_bytes : List Chunk → Option Str
part_bytes [] = some []
part_bytes (broken_chunk ∷ cs) = none
part_bytes (data_chunk b ∷ cs) = elim (part_bytes cs) [ none ↦ none | some r ↦ some (b ++ r) ]

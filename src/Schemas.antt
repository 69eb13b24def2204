-- ===== src/Schemas.antt =====
-- crates/detritus-server/src/schemas.rs, validation: the registry of the tenants' schemas. A compiled
-- schema of the `jsonschema` crate is the function that lists the violations of a value, each as the
-- text that `validate` formats.
pub mod Default
pub mod Loading
use rs_detritus.Common.{
  ℕ, Str, Option, none, some, List, [], ◌∷◌, nat_eq, list_eq, pair_eq, Result, ok, err,
}
use rs_detritus.Common.Table.{Table, lookup}
use rs_detritus.FilePath.{FilePath}
use rs_detritus.Storage.{IoError}
use rs_detritus.Protocol.{SchemaKind, schema_kind_eq}

pub data SchemaError : Type 0 where
  io : FilePath → IoError → SchemaError
  parse : FilePath → Str → SchemaError
  validation : SchemaKind → List Str → SchemaError
  unknown_schema : Str → SchemaKind → SchemaError

module _ (J : Type 0) where
  abbrev pub CompiledSchema : Type 0
  CompiledSchema = J → List Str

  abbrev pub SchemaRegistry : Type 0
  SchemaRegistry = Table (Str × SchemaKind) CompiledSchema

  -- `SchemaRegistry::empty`
  abbrev pub empty_registry : SchemaRegistry
  empty_registry = []

  report : SchemaKind → List Str → Result SchemaError (Unit {0})
  report kind [] = ok tt
  report kind (e ∷ es) = err (validation kind (e ∷ es))

  check_compiled : SchemaKind → J → Option CompiledSchema → Result SchemaError (Unit {0})
  unfolding report
  check_compiled kind payload none = ok tt
  check_compiled kind payload (some compiled) = report kind (compiled payload)

  -- `SchemaRegistry::validate`: a pair without a schema accepts everything.
  unfoldable pub validate : SchemaRegistry → Str → SchemaKind → J → Result SchemaError (Unit {0})
  unfolding check_compiled
  validate registry project kind payload =
      check_compiled kind payload (lookup (project, kind) registry)

-- ===== src/Schemas/Loading.antt =====
-- crates/detritus-server/src/schemas.rs: the reading of schema files, with the files and the crate
-- `jsonschema` as parameters.
use rs_detritus.Common.{
  Str, Bool, true, false, Option, none, some, List, [], ◌∷◌, bytes, nat_eq, list_eq, pair_eq, ◌==◌,
  if◌then◌else◌, contains, Result, ok, err, and_then, map_err, ◌≡◌, sym, ap, ◌∙◌, inl, inr,
  Bool-cases,
}
use rs_detritus.Common.Ends.{and_then-ok}
use rs_detritus.Common.Table.{lookup, insert, lookup-insert}
use rs_detritus.FilePath.{FilePath}
use rs_detritus.Storage.{IoError}
use rs_detritus.Protocol.{SchemaKind, schema_kind_eq}
use rs_detritus.Schemas.{SchemaError, io, parse, CompiledSchema, SchemaRegistry}

pub record ProjectSchemaEntry : Type 0 where
  pub project : Str
  pub kind : SchemaKind
  pub path : FilePath

pub record SchemaResourceEntry : Type 0 where
  pub uri : Str
  pub path : FilePath

pub record SchemaOptions : Type 0 where
  pub validate_formats : Option Bool
  pub ignore_unknown_formats : Option Bool
  pub resources : List SchemaResourceEntry

-- `SchemaOptions::default`
unfoldable pub default_schema_options : SchemaOptions
default_schema_options = record {
  validate_formats = none;
  ignore_unknown_formats = none;
  resources = [];
}

-- The files on the disk, the JSON of serde and the crate `jsonschema`; an error is its text.
pub record SchemaLibraries (J : Type 0) : Type 1 where
  pub read : FilePath → Result IoError Str
  pub from_slice : Str → Result Str J
  pub Registry : Type 0
  pub Prepared : Type 0
  pub empty_resources : Registry
  pub add : Registry → Str → J → Result Str Registry
  pub prepare : Registry → Result Str Prepared
  -- the validator with these overrides of the format policy
  pub build : Prepared → Option Bool → Option Bool → J → Result Str (CompiledSchema J)

module _ (J : Type 0) (L : SchemaLibraries J) where
  unfoldable pub read_schema : FilePath → Result SchemaError J
  read_schema path =
      and_then (map_err (io path) (L.read path)) λ raw. map_err (parse path) (L.from_slice raw)

  -- The loop over the resources, with the addresses seen.
  unfoldable pub add_resources :
      List SchemaResourceEntry → List Str → L.Registry → Result SchemaError L.Registry
  add_resources [] uris resources = ok resources
  add_resources (r ∷ rest) uris resources = elim (contains uris r.uri) [
    | true ↦ err (parse r.path (bytes "duplicate schema resource URI"))
    | false ↦ and_then (read_schema r.path) λ value.
        and_then (map_err (parse r.path) (L.add resources r.uri value))
          λ more. add_resources rest (r.uri ∷ uris) more
  ]

  resource_path : List SchemaResourceEntry → FilePath
  resource_path [] = bytes "<schema resources>" ∷ []
  resource_path (r ∷ rest) = r.path

  module _ (options : SchemaOptions) (resources : L.Prepared) where
    -- The validator of an entry.
    unfoldable pub compile_entry : ProjectSchemaEntry → Result SchemaError (CompiledSchema J)
    compile_entry entry = and_then (read_schema entry.path) λ value.
        map_err (parse entry.path)
          (L.build resources options.validate_formats options.ignore_unknown_formats value)

    -- The loop over the entries.
    unfoldable pub insert_schemas :
        List ProjectSchemaEntry → SchemaRegistry J → Result SchemaError (SchemaRegistry J)
    insert_schemas [] schemas = ok schemas
    insert_schemas (entry ∷ rest) schemas =
        and_then (compile_entry entry)
          λ validator. insert_schemas rest (insert (entry.project, entry.kind) validator schemas)

  -- `SchemaRegistry::load_with_options`
  unfoldable pub load_with_options :
      List ProjectSchemaEntry → SchemaOptions → Result SchemaError (SchemaRegistry J)
  unfolding resource_path
  load_with_options entries options =
      and_then (add_resources options.resources [] L.empty_resources) λ resources.
        and_then (map_err (parse (resource_path options.resources)) (L.prepare resources))
          λ prepared. insert_schemas options prepared entries []

  -- `SchemaRegistry::load`
  unfoldable pub load : List ProjectSchemaEntry → Result SchemaError (SchemaRegistry J)
  load entries = load_with_options entries default_schema_options

  -- Some entry is of this project and kind.
  unfoldable pub is_declared : List ProjectSchemaEntry → Str × SchemaKind → Bool
  is_declared [] pair = false
  is_declared (entry ∷ rest) pair =
      let later = is_declared rest pair in
      if (entry.project, entry.kind) == pair then true else later

  module _ (options : SchemaOptions) (resources : L.Prepared) where
    insert_schemas-declared :
        (entries : List ProjectSchemaEntry) (schemas registry : SchemaRegistry J)
        (pair : Str × SchemaKind)
        → insert_schemas options resources entries schemas ≡ ok registry
        → is_declared entries pair ≡ false
        → lookup pair registry ≡ lookup pair schemas
    unfolding insert_schemas is_declared
    insert_schemas-declared [] schemas registry pair e d = ap (lookup pair) (sym (cc e))
    insert_schemas-declared (entry ∷ rest) schemas registry pair e d =
        let (validator, compiled, loop) = and_then-ok (compile_entry options resources entry) _ e in
        let inserted : (v : CompiledSchema J)
            → lookup pair (insert (entry.project, entry.kind) v schemas)
              ≡ (if (entry.project, entry.kind) == pair then some v else lookup pair schemas) =
          (λ v. lookup-insert (entry.project, entry.kind) pair v schemas) in
        elim (Bool-cases ((entry.project, entry.kind) == pair)) [
          | inl same ↦ absurd (cc (rw same at d))
          | inr differs ↦
              insert_schemas-declared rest (insert (entry.project, entry.kind) validator schemas)
                registry pair loop (rw differs at d)
              ∙ (rw differs at inserted validator)
        ]

  -- A registry that loads has schemas only for the pairs of project and kind of its entries.
  pub load_with_options-declared :
      (entries : List ProjectSchemaEntry) (options : SchemaOptions) (registry : SchemaRegistry J)
      (pair : Str × SchemaKind)
      → load_with_options entries options ≡ ok registry
      → is_declared entries pair ≡ false
      → lookup pair registry ≡ none
  unfolding load_with_options lookup
  load_with_options-declared entries options registry pair e d =
      let (added, a, e') = and_then-ok (add_resources options.resources [] L.empty_resources) _ e in
      let (prepared, b, e'') =
        and_then-ok (map_err (parse (resource_path options.resources)) (L.prepare added)) _ e' in
      insert_schemas-declared options prepared entries [] registry pair e'' d

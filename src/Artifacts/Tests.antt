-- ===== src/Artifacts/Tests.antt =====
-- The export table of src/server.rs at concrete inputs.
use postgres_mcp.Prelude.{
  ℕ, ◌-◌, ◌*◌, ◌≡◌, refl, none, some, [], ◌∷◌, ◌++◌, ◌==◌, if◌then◌else◌, Text, text_Eq, text_eq,
  codes, length, lookup, insert, remove, elem, drop,
}
use postgres_mcp.Artifacts.{
  ExportArtifactRecord, ExportArtifactRegistry, with_limit, register, evict, list_artifacts,
  get_by_uri, last_segment,
}
use postgres_mcp.Artifacts.Fifo.{IsValid, with_limit-IsValid}
use postgres_mcp.Artifacts.Register.{queued, register_order, lookup-register, register-IsValid}

abbrev artifact : Text → ℕ → ExportArtifactRecord
artifact handle rows = record {
  handle = handle;
  uri = codes "postgres-mcp://export/" ++ handle;
  format = codes "csv";
  mime_type = codes "text/csv";
  bytes = 10 * rows;
  row_count = rows;
  path = codes "/tmp/" ++ handle;
}

abbrev xa : Text
xa = codes "xa"

abbrev xb : Text
xb = codes "xb"

abbrev xc : Text
xc = codes "xc"

abbrev two : ExportArtifactRegistry
two = register (artifact xb 2) (register (artifact xa 1) (with_limit 2))

two-IsValid : IsValid two
two-IsValid =
    register-IsValid (artifact xb 2) (register (artifact xa 1) (with_limit 2))
      (register-IsValid (artifact xa 1) (with_limit 2) (with_limit-IsValid 2))

-- The oldest file goes when a third one comes, and a handle that returns becomes the youngest.
order_test : (register (artifact xc 3) two).order ≡ xb ∷ xc ∷ []
unfolding register evict with_limit lookup insert remove text_eq
order_test = refl

files_test : (register (artifact xc 3) two).removed_files ≡ codes "/tmp/xa" ∷ []
unfolding register evict with_limit lookup insert remove text_eq
files_test = refl

again_test : (register (artifact xa 9) two).order ≡ xb ∷ xa ∷ []
unfolding register evict with_limit lookup insert remove text_eq
again_test = refl

list_test : list_artifacts two ≡ artifact xb 2 ∷ artifact xa 1 ∷ []
unfolding list_artifacts register evict with_limit lookup insert remove text_eq
list_test = refl

uri_test : get_by_uri (codes "postgres-mcp://export/xb") two ≡ some (artifact xb 2)
unfolding get_by_uri last_segment register evict with_limit lookup insert remove text_eq
uri_test = refl

register_order_test :
    (register (artifact xc 3) two).order
    ≡ drop (length (queued xc two) - two.max_entries) (queued xc two)
unfolding register evict with_limit lookup insert remove text_eq
register_order_test = register_order (artifact xc 3) two refl two-IsValid

lookup-register_example : lookup xb (register (artifact xc 3) two).artifacts ≡ (
    if elem xb (register (artifact xc 3) two).order
    then if xc == xb then some (artifact xc 3) else lookup xb two.artifacts
    else none)
unfolding register evict with_limit lookup insert remove text_eq
lookup-register_example = lookup-register (artifact xc 3) two xb refl two-IsValid

register-IsValid_test : IsValid (register (artifact xc 3) two)
register-IsValid_test = register-IsValid (artifact xc 3) two two-IsValid

-- ===== src/Artifacts.antt =====
-- The table of exported files: src/server.rs, `ExportArtifactRecord` and
-- `ExportArtifactRegistry`. The calls of `std::fs::remove_file`, whose result the source ignores,
-- are logged by the path that they name.
pub mod Sync
pub mod Fifo
pub mod Register
mod Tests
use mathlib.Core.List.{reverse}
use postgres_mcp.Prelude.{
  ℕ, zero, suc, ◌<◌, max, Bool, true, false, not, Option, none, some, List, [], ◌∷◌, ◌++◌, ◌==◌,
  if◌then◌else◌, ltb, nat_eq, Text, text_Eq, length, filter, lookup, insert, remove, is_some,
}

pub record ExportArtifactRecord : Type 0 where
  pub handle : Text
  pub uri : Text
  pub format : Text
  pub mime_type : Text
  pub bytes : ℕ
  pub row_count : ℕ
  pub path : Text

abbrev pub Artifacts : Type 0
Artifacts = List (Text × ExportArtifactRecord)

-- `order` lists the handles, the oldest first.
pub record ExportArtifactRegistry : Type 0 where
  pub poisoned : Bool
  pub artifacts : Artifacts
  pub order : List Text
  pub max_entries : ℕ
  pub removed_files : List Text

unfoldable pub with_limit : ℕ → ExportArtifactRegistry
with_limit max_entries = record {
  poisoned = false;
  artifacts = [];
  order = [];
  max_entries = max max_entries 1;
  removed_files = [];
}

abbrev log_removal : Option ExportArtifactRecord → List Text → List Text
log_removal none files = files
log_removal (some r) files = r.path ∷ files

-- The `while` loop: the order that is left, the artifacts and the log.
unfoldable pub evict : ℕ → List Text → Artifacts → List Text → List Text × Artifacts × List Text
evict limit [] artifacts files = ([], artifacts, files)
evict limit (oldest ∷ order) artifacts files =
    let rest =
      evict limit order (remove oldest artifacts) (log_removal (lookup oldest artifacts) files) in
    if ltb limit (length artifacts) then rest else (oldest ∷ order, artifacts, files)

abbrev pub others : Text → List Text → List Text
others handle = filter (λ h. not (h == handle))

unfoldable pub register : ExportArtifactRecord → ExportArtifactRegistry → ExportArtifactRegistry
unfolding evict
register a r =
    let existing = lookup a.handle r.artifacts in
    let order = (if is_some existing then others a.handle r.order else r.order) ++ a.handle ∷ [] in
    let artifacts = insert a.handle a (remove a.handle r.artifacts) in
    let (order', artifacts', files) =
      evict r.max_entries order artifacts (log_removal existing r.removed_files) in
    if r.poisoned
    then r
    else record r { artifacts = artifacts'; order = order'; removed_files = files }

-- `filter_map(|handle| state.artifacts.get(handle).cloned())`
abbrev pub found : Artifacts → List Text → List ExportArtifactRecord
found m [] = []
found m (h ∷ hs) = elim (lookup h m) [ none ↦ found m hs | some a ↦ a ∷ found m hs ]

-- Newest first.
unfoldable pub list_artifacts : ExportArtifactRegistry → List ExportArtifactRecord
list_artifacts r = if r.poisoned then [] else found r.artifacts (reverse r.order)

-- `uri.rsplit('/').next()`: what follows the last slash.
unfoldable pub last_segment : Text → Text → Text
last_segment seen [] = reverse seen
last_segment seen (c ∷ cs) = last_segment (if nat_eq c b'/' then [] else c ∷ seen) cs

unfoldable pub get_by_uri : Text → ExportArtifactRegistry → Option ExportArtifactRecord
unfolding last_segment
get_by_uri uri r = if r.poisoned then none else lookup (last_segment [] uri) r.artifacts

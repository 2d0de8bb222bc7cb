-- ===== src/Artifacts/Register.antt =====
-- Registrations in the export table of src/server.rs: a bounded queue of files.
use postgres_mcp.Prelude.{
  ◌-◌, ◌≡◌, sym, ap, subst, ◌∙◌, true, false, none, some, List, [], ◌∷◌, ◌++◌, ◌==◌, if◌then◌else◌,
  Text, text_Eq, length, elem, drop, length-drop, lookup, insert, remove, lookup-insert,
  lookup-remove, lookup-remove_self, is_some, Option-cases, Bool-cases, inl, inr, ◌⊎◌, arith,
}
use postgres_mcp.Artifacts.{
  ExportArtifactRecord, ExportArtifactRegistry, Artifacts, evict, register, others, log_removal,
}
use postgres_mcp.Artifacts.Fifo.{IsValid, EvictsTo, evict-EvictsTo}
use postgres_mcp.Artifacts.Sync.{Synced, Synced-others, Synced-push, requeue_lem}

abbrev pub queued : Text → ExportArtifactRegistry → List Text
queued handle r = others handle r.order ++ handle ∷ []

abbrev stored : ExportArtifactRecord → ExportArtifactRegistry → Artifacts
stored a r = insert a.handle a (remove a.handle r.artifacts)

queued-Synced :
    (a : ExportArtifactRecord) (r : ExportArtifactRegistry)
    → Synced r.order r.artifacts
    → Synced (queued a.handle r) (stored a r)
queued-Synced a r v =
    Synced-push a.handle a _ _ (Synced-others a.handle r.order r.artifacts v)
      (lookup-remove_self a.handle r.artifacts)

register_sound :
    (a : ExportArtifactRecord) (r : ExportArtifactRegistry)
    → r.poisoned ≡ false
    → Synced r.order r.artifacts
    → (let out =
          evict r.max_entries
            (queued a.handle r)
            (stored a r)
            (log_removal (lookup a.handle r.artifacts) r.removed_files) in
        register a r ≡ record r { artifacts = out.1; order = out.0; removed_files = out.2 })
unfolding register
register_sound a r sound v =
    rw (sym (requeue_lem a.handle r.order r.artifacts v)) (ground (arith, sound))

register_evicts :
    (a : ExportArtifactRecord) (r : ExportArtifactRegistry)
    → r.poisoned ≡ false
    → Synced r.order r.artifacts
    → EvictsTo r.max_entries
        (queued a.handle r)
        (stored a r)
        ((register a r).order, (register a r).artifacts, (register a r).removed_files)
register_evicts a r sound v =
    subst
      (λ (s : ExportArtifactRegistry).
        EvictsTo r.max_entries (queued a.handle r) (stored a r)
          (s.order, s.artifacts, s.removed_files))
      (sym (register_sound a r sound v))
      (evict-EvictsTo r.max_entries (queued a.handle r) (stored a r)
        (log_removal (lookup a.handle r.artifacts) r.removed_files) (queued-Synced a r v))

-- Under a sound lock a registration puts the handle at the young end of the queue, also one that
-- stood elsewhere in it, and then drops the oldest handles beyond the limit.
pub register_order :
    (a : ExportArtifactRecord) (r : ExportArtifactRegistry)
    → r.poisoned ≡ false
    → IsValid r
    → (register a r).order ≡ drop (length (queued a.handle r) - r.max_entries) (queued a.handle r)
register_order a r sound v = (register_evicts a r sound v.synced).order_is

-- After a registration into a valid table, under a sound lock, the table answers for exactly the
-- handles of its queue: with the new record for the registered handle, and for every other
-- handle with the record that it had.
pub lookup-register :
    (a : ExportArtifactRecord) (r : ExportArtifactRegistry) (h : Text)
    → r.poisoned ≡ false
    → IsValid r
    → lookup h (register a r).artifacts ≡ (
        if elem h (register a r).order
        then if a.handle == h then some a else lookup h r.artifacts
        else none)
lookup-register a r h sound v = elim (Bool-cases (elem h (register a r).order)) [
  | inl stays ↦
      w.kept h stays
      ∙ lookup-insert a.handle h a (remove a.handle r.artifacts)
      ∙ ground (arith, stays, lookup-remove a.handle h r.artifacts)
  | inr gone ↦ rw gone (absent (Option-cases (lookup h (register a r).artifacts)) gone)
]
  where
    w :
        EvictsTo r.max_entries
          (queued a.handle r)
          (stored a r)
          ((register a r).order, (register a r).artifacts, (register a r).removed_files)
    w = register_evicts a r sound v.synced

    absent :
        (lookup h (register a r).artifacts ≡ none)
          ⊎ ((b : ExportArtifactRecord) × (lookup h (register a r).artifacts ≡ some b))
        → elem h (register a r).order ≡ false
        → lookup h (register a r).artifacts ≡ none
    absent (inl e) gone = e
    absent (inr (b, e)) gone = absurd (ground (arith, ap is_some e, w.synced.agree h, gone))

register_poisoned :
    (a : ExportArtifactRecord) (r : ExportArtifactRegistry) → r.poisoned ≡ true → register a r ≡ r
unfolding register
register_poisoned a r p = ground (arith, p)

limit-register :
    (a : ExportArtifactRecord) (r : ExportArtifactRegistry)
    → (register a r).max_entries ≡ r.max_entries
unfolding register
limit-register a r = ground arith

-- A registration keeps a valid table valid: its map and its queue hold the same handles, each
-- once, and no more of them than the limit.
pub register-IsValid :
    (a : ExportArtifactRecord) (r : ExportArtifactRegistry) → IsValid r → IsValid (register a r)
register-IsValid a r v = elim (Bool-cases r.poisoned) [
  | inl p ↦ subst IsValid (sym (register_poisoned a r p)) v
  | inr sound ↦ record {
    room = omega (arith, v.room, limit-register a r);
    synced = (register_evicts a r sound v.synced).synced;
    bounded = omega (
      arith,
      v.room,
      limit-register a r,
      ap length (register_order a r sound v),
      length-drop (length (queued a.handle r) - r.max_entries) (queued a.handle r),
    );
  }
]

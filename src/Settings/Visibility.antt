-- ===== src/Settings/Visibility.antt =====
-- `metadata_schema_visible` of src/server.rs on the lists that src/config.rs gives it.
use postgres_mcp.Prelude.{
  ◌≡◌, refl, sym, ap, ◌∙◌, Bool, false, not, ◌&&◌, ◌||◌, List, [], ◌∷◌, if_split, Bool-cases, inl,
  inr, ◌==◌, Text, text_Eq, text_eq, any, is_empty, trim, to_ascii_lowercase, arith,
}
use postgres_mcp.Settings.{
  normalize_schema_list, MetadataPolicyMode, full, limited, denied, metadata_schema_visible,
}

abbrev pub normal : Text → Text
normal name = to_ascii_lowercase (trim name)

-- Two names of one schema: they differ in blanks around them and in case only.
abbrev pub is_listed : Text → List Text → Bool
is_listed name raws = any (λ raw. normal raw == normal name) raws

-- What an operator asks for: no schema without a name, none that the raw deny list names, and in
-- the limited mode only those that the raw allow list names.
abbrev pub shows : MetadataPolicyMode → List Text → List Text → Text → Bool
shows full allow deny name = not (is_empty (normal name)) && not (is_listed name deny)
shows limited allow deny name =
    not (is_empty (normal name)) && not (is_listed name deny) && is_listed name allow
shows denied allow deny name = false

empty_apart : (s t : Text) → not (is_empty s) ≡ false → is_empty t ≡ false → text_eq s t ≡ false
unfolding is_empty text_eq
empty_apart [] [] h k = cc
empty_apart [] (c ∷ t) h k = refl
empty_apart (c ∷ s) t h k = cc

any-normalized :
    (n : Text) (raws : List Text)
    → is_empty n ≡ false
    → any (λ schema. schema == n) (normalize_schema_list raws) ≡ any (λ raw. normal raw == n) raws
unfolding normalize_schema_list
any-normalized n [] h = refl
any-normalized n (raw ∷ raws) h =
    if_split (λ t. any (λ schema. schema == n) t ≡ any (λ r. normal r == n) (raw ∷ raws))
      (not (is_empty (normal raw)))
      (λ e. ap (λ t. (normal raw == n) || t) (any-normalized n raws h))
      (λ e. any-normalized n raws h ∙ sym (rw (empty_apart (normal raw) n e h) refl))

-- With the lists that the settings give for raw lists, the schemas that are visible are just
-- those that the raw lists and the mode ask for, up to case and the blanks around a name.
pub visible_as_listed :
    (mode : MetadataPolicyMode) (allow deny : List Text) (name : Text)
    → metadata_schema_visible
        (record {
          metadata_policy_mode = mode;
          metadata_schema_allow = normalize_schema_list allow;
          metadata_schema_deny = normalize_schema_list deny;
        })
        name
      ≡ shows mode allow deny name
unfolding metadata_schema_visible
visible_as_listed denied allow deny name = refl
visible_as_listed full allow deny name = elim (Bool-cases (is_empty (normal name))) [
  | inl e ↦ rw (e) refl
  | inr e ↦ ground (arith, e, any-normalized (normal name) deny e)
]
visible_as_listed limited allow deny name = elim (Bool-cases (is_empty (normal name))) [
  | inl e ↦ rw (e) refl
  | inr e ↦
      ground (arith, e, any-normalized (normal name) deny e, any-normalized (normal name) allow e)
]

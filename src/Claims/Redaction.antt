-- ===== src/Claims/Redaction.antt =====
-- The redaction of metadata (code_index/lease_manager.py) leaves no sensitive key at any depth, and
-- nothing else to redact.
use memory_network.Prelude.{◌≡◌, ◌↔◌, subst, refl, ap, ap₂, false, inl, inr, Bool-cases}
use memory_network.Text.{Unicode}
use memory_network.Claims.Metadata.{
  Json, Items, Entries, null, boolean, number, text, array, object, no_items, item, no_entries,
  entry, is_sensitive_metadata_key, redact_public_metadata, redact_items, redact_entries,
}

module _ ⦃u : Unicode⦄ where
  -- No key of the objects of a value is sensitive.
  mutual
    pub Clean : Json → Type 0
    Clean (object entries) = CleanEntries entries
    Clean (array items) = CleanItems items
    Clean value = Unit

    pub CleanItems : Items → Type 0
    CleanItems no_items = Unit
    CleanItems (item value items) = Clean value × CleanItems items

    pub CleanEntries : Entries → Type 0
    CleanEntries no_entries = Unit
    CleanEntries (entry key value entries) =
        (is_sensitive_metadata_key key ≡ false) × Clean value × CleanEntries entries

  mutual
    unfolding redact_public_metadata Clean

    redact-Clean : (j : Json) → Clean (redact_public_metadata j)
    redact-Clean (object entries) = redact_entries-Clean entries
    redact-Clean (array items) = redact_items-Clean items
    redact-Clean null = tt
    redact-Clean (boolean b) = tt
    redact-Clean (number s) = tt
    redact-Clean (text s) = tt

    redact_items-Clean : (items : Items) → CleanItems (redact_items items)
    redact_items-Clean no_items = tt
    redact_items-Clean (item value items) = (redact-Clean value, redact_items-Clean items)

    redact_entries-Clean : (entries : Entries) → CleanEntries (redact_entries entries)
    redact_entries-Clean no_entries = tt
    redact_entries-Clean (entry key value entries) =
        let rest = redact_entries-Clean entries in
        let kept = redact-Clean value in
        elim (Bool-cases (is_sensitive_metadata_key key)) [
          | inl e ↦ rw (redact_entries, e) rest
          | inr e ↦ rw (redact_entries, e) (e, kept, rest)
        ]

  mutual
    unfolding redact_public_metadata Clean

    Clean-redact : (j : Json) → Clean j → redact_public_metadata j ≡ j
    Clean-redact (object entries) h = ap object (CleanEntries-redact entries h)
    Clean-redact (array items) h = ap array (CleanItems-redact items h)
    Clean-redact null h = refl
    Clean-redact (boolean b) h = refl
    Clean-redact (number s) h = refl
    Clean-redact (text s) h = refl

    CleanItems-redact : (items : Items) → CleanItems items → redact_items items ≡ items
    CleanItems-redact no_items h = refl
    CleanItems-redact (item value items) (h, hs) =
        ap₂ item (Clean-redact value h) (CleanItems-redact items hs)

    CleanEntries-redact :
        (entries : Entries) → CleanEntries entries → redact_entries entries ≡ entries
    CleanEntries-redact no_entries h = refl
    CleanEntries-redact (entry key value entries) (clear, h, hs) =
        let rest = CleanEntries-redact entries hs in
        let kept = Clean-redact value h in rw (redact_entries, clear, kept, rest) refl

  -- A redacted value has no sensitive key in any of its objects, at any depth.
  pub redact_public_metadata-Clean : (j : Json) → Clean (redact_public_metadata j)
  redact_public_metadata-Clean j = redact-Clean j

  -- The redaction leaves a value as it is exactly if no key of its objects is sensitive, at any
  -- depth.
  pub redact_public_metadata-fixed : (j : Json) → (redact_public_metadata j ≡ j) ↔ Clean j
  redact_public_metadata-fixed j = (λ e. subst Clean e (redact-Clean j), Clean-redact j)

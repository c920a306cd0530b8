-- ===== src/Claims/Metadata.antt =====
-- `redact_public_metadata` of code_index/lease_manager.py, over JSON values.
use Prim.Native.String.{String}
use memory_network.Prelude.{
  Char, code, Bool, not, ◌&&◌, ◌||◌, List, [], ◌∷◌, nat_beq, if◌then◌else◌,
}
use memory_network.Prelude.Equality.{string_eq}
use memory_network.Prelude.Lists.{contains, filter}
use memory_network.Text.{Unicode, is_empty, is_space, strip, replace, has_part, split_from}

-- The keys of an object are texts; a number is its own text.
mutual
  pub data Json : Type 0 where
    null : Json
    boolean : Bool → Json
    number : String → Json
    text : String → Json
    array : Items → Json
    object : Entries → Json

  pub data Items : Type 0 where
    no_items : Items
    item : Json → Items → Items

  pub data Entries : Type 0 where
    no_entries : Entries
    entry : String → Json → Entries → Entries

-- `SENSITIVE_METADATA_KEY_NAMES`
abbrev pub sensitive_metadata_key_names : List String
sensitive_metadata_key_names =
    "access_key" ∷ "api_key" ∷ "apikey" ∷ "auth" ∷ "authorization" ∷ "bearer" ∷ "bearer_token"
    ∷ "cookie" ∷ "key" ∷ "lease_token" ∷ "lease_token_hash" ∷ "passwd" ∷ "password"
    ∷ "session_cookie" ∷ []

abbrev pub sensitive_compact_names : List String
sensitive_compact_names =
    "accesskey" ∷ "apikey" ∷ "authheader" ∷ "bearertoken" ∷ "leasehash" ∷ "leasetoken"
    ∷ "leasetokenhash" ∷ "privatekey" ∷ "sessioncookie" ∷ []

unfoldable pub is_char : Char → Char → Bool
is_char c d = nat_beq (code c) (code d)

-- `s.replace(c, w)`, for the one character of the text `c`
unfoldable pub replace_one : String → String → String → String
unfolding replace is_char
replace_one String.[] w s = s
replace_one (String.◌∷◌ c cs) w s = replace (is_char c) w s

-- `s.split("_")`
unfoldable pub split_words : String → List String
unfolding split_from
split_words s = split_from (λ c. nat_beq (code c) b'_') String.[] s

module _ ⦃u : Unicode⦄ where
  -- `str(key).strip().lower().replace("-", "_")`
  unfoldable pub normalized_key : String → String
  unfolding strip is_space replace_one
  normalized_key key = replace_one "-" "_" (u.lower (strip is_space key))

  -- `_is_sensitive_metadata_key(key)`
  unfoldable pub is_sensitive_metadata_key : String → Bool
  unfolding normalized_key replace_one split_words is_empty has_part
  is_sensitive_metadata_key key =
      let normalized = normalized_key key in
      let compact = replace_one "." "" (replace_one "_" "" normalized) in
      let parts =
        filter (λ part. not (is_empty part)) (split_words (replace_one "." "_" normalized)) in
      contains normalized sensitive_metadata_key_names
      || contains compact sensitive_compact_names
      || has_part "token" compact
      || has_part "secret" compact
      || has_part "authorization" compact
      || contains "token" parts
      || contains "secret" parts
      || contains "authorization" parts
      || (contains "key" parts
          && (contains "api" parts || contains "access" parts || contains "private" parts))

  -- `redact_public_metadata(value)`
  unfoldable mutual
    unfolding is_sensitive_metadata_key

    pub redact_public_metadata : Json → Json
    redact_public_metadata (object entries) = object (redact_entries entries)
    redact_public_metadata (array items) = array (redact_items items)
    redact_public_metadata value = value

    pub redact_items : Items → Items
    redact_items no_items = no_items
    redact_items (item value items) = item (redact_public_metadata value) (redact_items items)

    pub redact_entries : Entries → Entries
    redact_entries no_entries = no_entries
    redact_entries (entry key value entries) =
        let rest = redact_entries entries in
        let kept = redact_public_metadata value in
        if is_sensitive_metadata_key key then rest else entry key kept rest

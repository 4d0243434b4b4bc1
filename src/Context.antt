-- ===== src/Context.antt =====
-- What enters a model prompt, backend/context_manager.py: the budget, the truncation of a text, the
-- compact form of an artifact reference and the recap of older messages. A text is the list of its
-- code points. `json.loads`, `json.dumps` and `str` of a JSON value are the operations of a codec.
pub mod Prompt
pub mod Bounds
pub mod Recap
mod Tests
use ambient_agent.Prelude.{
  ℕ, zero, suc, ◌+◌, ◌-◌, String, Bool, true, false, not, ◌&&◌, ◌||◌, Option, none, some, List, [],
  ◌∷◌, ◌++◌, length, take, select, ltb, leb, ◌==◌, ◌=ₛ◌, if◌then◌else◌,
}
use mathlib.Core.List.{reverse}
use ambient_agent.Prelude.Texts.{Text, codes, decimal, same_text, join_texts}
use ambient_agent.Json.{Json, Fields, str, obj, null, get_or, truthy}

pub record ContextBudget : Type 0 where
  pub max_messages : ℕ
  pub max_total_chars : ℕ
  pub max_artifact_chars : ℕ
  pub max_message_chars : ℕ

abbrev pub max : ℕ → ℕ → ℕ
max a b = if leb a b then b else a

abbrev pub min : ℕ → ℕ → ℕ
min a b = if leb a b then a else b

abbrev pub default_budget : ContextBudget
default_budget = record {
  max_messages = 40;
  max_total_chars = 48000;
  max_artifact_chars = 24000;
  max_message_chars = 8000;
}

-- `ContextBudget.defaults`, from the four environment variables; a value that is not set is its
-- default, and a negative one is 0.
pub defaults : Option ℕ → Option ℕ → Option ℕ → Option ℕ → ContextBudget
defaults messages chars artifact_chars message_chars = record {
  max_messages = max 1 (or_default messages 40);
  max_total_chars = max 4000 (or_default chars 48000);
  max_artifact_chars = max 0 (or_default artifact_chars 24000);
  max_message_chars = max 500 (or_default message_chars 8000);
}
  where
    or_default : Option ℕ → ℕ → ℕ
    or_default none n = n
    or_default (some m) n = m

pub record ChatMessage : Type 0 where
  pub role : String
  pub content : Text
  pub context_policy : String

-- `message_allows_prompt_reuse` (backend/models.py)
unfoldable pub message_allows_prompt_reuse : ChatMessage → Bool
message_allows_prompt_reuse m = m.context_policy =ₛ "reusable"

-- The operations of the standard library on JSON: `loads` is `none` where it raises, `dumps` sorts
-- the keys and keeps non-ASCII characters, `show` is `str`.
pub record Codec : Type 0 where
  pub loads : Text → Option Json
  pub dumps : List (String × Text) → Text
  pub show : Json → Text

-- The suffix of `_truncate`.
unfoldable pub omitted_suffix : Text → ℕ → Text
unfolding decimal
omitted_suffix label omitted =
    codes "\n\n["
    ++ (label
        ++ (codes ": "
            ++ (decimal omitted
                ++ codes " characters omitted; retrieve the artifact when needed]")))

-- `_truncate`
unfoldable pub truncate : Text → ℕ → Text → Text
unfolding omitted_suffix
truncate value limit label =
    if leb (length value) limit
    then value
    else if leb limit 0
    then []
    else let suffix = omitted_suffix label (length value - limit) in
      if leb limit (length suffix)
      then take limit value
      else take (limit - length suffix) value ++ suffix

-- ASCII white space, as `str.strip` sees it.
unfoldable pub is_space : ℕ → Bool
is_space c = (leb 9 c && leb c 13) || (leb 28 c && leb c 32)

unfoldable pub strip_left : Text → Text
unfolding is_space
strip_left [] = []
strip_left (c ∷ cs) = let rest = strip_left cs in if is_space c then rest else c ∷ cs

-- `text.strip()`
unfoldable pub strip : Text → Text
unfolding strip_left
strip t = reverse (strip_left (reverse (strip_left t)))

pub record Reference : Type 0 where
  pub app_id : Text
  pub manifest_revision : Option Text
  pub grants_digest : Option Text

-- The first selected line is cut to what remains; a later line is kept whole or skipped.
unfoldable pub fitted_line : ℕ → List Text → Text → Text
unfolding truncate
fitted_line remaining [] line =
    if ltb remaining (length line) then truncate line remaining (codes "summary") else line
fitted_line remaining (s ∷ selected) line = line

-- Whether the loop skips a line that would not fit behind those that are selected.
unfoldable pub does_not_fit : ℕ → ℕ → List Text → Text → Bool
does_not_fit remaining used [] line = false
does_not_fit remaining used (s ∷ selected) line = ltb remaining (used + length line + 1)

abbrev pub recap_header : ℕ → Text
recap_header n = codes "Extractive recap of " ++ (decimal n ++ codes " earlier messages:")

module _ (codec : Codec) where
  open codec use {loads, dumps, show}

  abbrev unless_null : Json → Option Text
  unless_null null = none
  unless_null v = some (show v)

  unfoldable pub reference_to : Text → Fields → Option Reference
  unfolding strip
  reference_to app_id payload =
      if same_text (strip app_id) []
      then none
      else some (record {
        app_id = strip app_id;
        manifest_revision = unless_null (get_or payload "manifest_revision" null);
        grants_digest =
            if truthy (get_or payload "grants_digest" null)
            then some (show (get_or payload "grants_digest" null))
            else none;
      })

  abbrev id_of : Json → Fields → Option Reference
  id_of (str app_id) payload = reference_to (codes app_id) payload
  id_of v payload = none

  abbrev is_app : Json → Bool
  is_app (str s) = s =ₛ "app"
  is_app v = false

  -- The reference in a decoded payload.
  unfoldable pub reference_of : Option Json → Option Reference
  unfolding reference_to
  reference_of (some (obj payload)) =
      if is_app (get_or payload "artifact" null)
      then id_of (get_or payload "app_id" null) payload
      else none
  reference_of _ = none

  -- `_artifact_reference`
  unfoldable pub artifact_reference : Text → Option Reference
  unfolding reference_of
  artifact_reference content = reference_of (loads content)

  abbrev optional_field : String → Option Text → List (String × Text)
  optional_field k none = []
  optional_field k (some v) = (k, v) ∷ []

  -- `_compact_message_content`
  unfoldable pub compact_message_content : Text → Text
  unfolding artifact_reference
  compact_message_content content = elim (artifact_reference content) [
    | none ↦ content
    | some r ↦ dumps (
        ("artifact", codes "app")
        ∷ ("app_id", r.app_id)
        ∷ (optional_field "manifest_revision" r.manifest_revision
            ++ optional_field "grants_digest" r.grants_digest))
  ]

  -- The line of a message in the recap.
  unfoldable pub recap_line : ChatMessage → Text
  unfolding compact_message_content truncate
  recap_line m =
      codes "- ["
      ++ (codes (if m.role =ₛ "user" then "user" else "assistant")
          ++ (codes "] "
              ++ truncate (compact_message_content m.content) 600 (codes "summary item")))

  -- The loop of `build_persistent_summary` over the omitted messages, the newest first; the lines
  -- that it selects, the oldest first.
  unfoldable pub select_lines : ℕ → ℕ → List Text → List ChatMessage → List Text
  select_lines remaining used selected [] = selected
  select_lines remaining used selected (m ∷ ms) =
      let skipped = select_lines remaining used selected ms in
      let line = fitted_line remaining selected (recap_line m) in
      let kept = select_lines remaining (used + length line + 1) (line ∷ selected) ms in
      if does_not_fit remaining used selected (recap_line m)
      then skipped
      else if same_text line []
      then skipped
      else kept

  -- `build_persistent_summary`
  unfoldable pub build_persistent_summary : List ChatMessage → ContextBudget → ℕ → Option Text
  unfolding select_lines recap_line fitted_line does_not_fit same_text
  build_persistent_summary stored limits max_summary_chars =
      let messages = select message_allows_prompt_reuse stored in
      let omitted = take (length messages - limits.max_messages) messages in
      let header = recap_header (length omitted) in
      let remaining = max_summary_chars - length header - 1 in
      if length omitted == 0 || leb max_summary_chars 0
      then none
      else some (join_texts (codes "\n") (header ∷ select_lines remaining 0 [] (reverse omitted)))

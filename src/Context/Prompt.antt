-- ===== src/Context/Prompt.antt =====
-- `build_llm_prompt` of backend/context_manager.py. The files of an App come from the App manager,
-- which is an argument.
use Prim.Native.Nat.{◌/◌}
use ambient_agent.Prelude.{
  ℕ, suc, ◌+◌, ◌-◌, String, Bool, true, false, ◌||◌, Option, none, some, List, [], ◌∷◌, ◌++◌,
  length, drop, select, ltb, leb, ◌==◌, ◌=ₛ◌, if◌then◌else◌,
}
use mathlib.Core.List.{reverse}
use ambient_agent.Prelude.Texts.{Text, codes, decimal, same_text, sorted_set, join_texts}
use ambient_agent.Context.{
  ContextBudget, ChatMessage, Codec, min, message_allows_prompt_reuse, truncate, artifact_reference,
  compact_message_content,
}

-- What `get_app_files` returns, the capabilities by their printed list.
pub record AppFiles : Type 0 where
  pub title : Text
  pub manifest_revision : Text
  pub grants_digest : Text
  pub capabilities : Text
  pub js : Text

pub record PromptMessage : Type 0 where
  pub role : String
  pub content : Text

abbrev line : String → Text → Text
line label value = codes label ++ (value ++ codes "\n")

-- The snapshot of one App.
unfoldable pub artifact_text : Text → AppFiles → Text
artifact_text app_id files =
    codes "[Active App: "
    ++ (app_id
        ++ (codes "]\nFormat: Manifest V2 React/HTM\n"
            ++ (line "Title: " files.title
                ++ (line "Manifest revision: " files.manifest_revision
                    ++ (line "Capability digest: " files.grants_digest
                        ++ (line "Capabilities: " files.capabilities
                            ++ (codes "--- controller.js ---\n"
                                ++ (files.js ++ codes "\n-------------------------"))))))))

-- The loop over the App ids: the snapshots, each cut to what is left of `max_artifact_chars`; it
-- ends where nothing is left.
unfoldable pub collect_artifacts : (Text → Option AppFiles) → ℕ → ℕ → List Text → List Text
unfolding artifact_text truncate
collect_artifacts get_app_files limit used [] = []
collect_artifacts get_app_files limit used (id ∷ ids) =
    let skipped = collect_artifacts get_app_files limit used ids in
    elim (get_app_files id) [
      | none ↦ skipped
      | some files ↦
          let artifact =
            truncate (artifact_text id files) (limit - used) (codes "artifact " ++ id) in
          let rest = collect_artifacts get_app_files limit (used + length artifact) ids in
          if leb limit used then [] else artifact ∷ rest
    ]

unfoldable pub chars : List Text → ℕ
chars [] = 0
chars (t ∷ ts) = length t + chars ts

abbrev pub llm_role : String → String
llm_role role =
    if role =ₛ "user"
    then "user"
    else if (role =ₛ "agent") || (role =ₛ "code")
    then "assistant"
    else if role =ₛ "system"
    then "system"
    else "user"

-- What the loop over the recent messages has selected, the oldest first.
pub record Selection : Type 0 where
  pub selected : List PromptMessage
  pub message_chars : ℕ
  pub omitted_count : ℕ

unfoldable pub content_chars : List PromptMessage → ℕ
content_chars [] = 0
content_chars (m ∷ ms) = length m.content + content_chars ms

abbrev is_none_selected : List PromptMessage → Bool
is_none_selected [] = true
is_none_selected (m ∷ ms) = false

abbrev omit : Selection → Selection
omit s = record s { omitted_count = suc s.omitted_count }

module _ (codec : Codec) (limits : ContextBudget) (message_budget : ℕ) where
  unfoldable pub pruned_content : ℕ → ChatMessage → Text
  unfolding truncate
  pruned_content used m =
      truncate (compact_message_content codec m.content)
        (min limits.max_message_chars (message_budget - used)) (codes "message")

  -- The body of the loop for one message.
  unfoldable pub select_message : ChatMessage → Selection → Selection
  select_message m s =
      let content = pruned_content s.message_chars m in
      if same_text content []
      then omit s
      else if (if is_none_selected s.selected
          then false
          else ltb message_budget (s.message_chars + length content))
      then omit s
      else record s {
        selected = record { role = llm_role m.role; content = content } ∷ s.selected;
        message_chars = s.message_chars + length content;
      }

  -- The loop, over the messages with the newest first.
  unfoldable pub select_messages : List ChatMessage → Selection → Selection
  unfolding select_message
  select_messages [] s = s
  select_messages (m ∷ ms) s = select_messages ms (select_message m s)

-- `messages[-n:]`, where `messages[-0:]` is the whole list.
unfoldable pub last_messages : ℕ → List ChatMessage → List ChatMessage
last_messages n messages = if n == 0 then messages else drop (length messages - n) messages

unfoldable pub referenced_app_ids : Codec → List ChatMessage → List Text
unfolding artifact_reference
referenced_app_ids codec [] = []
referenced_app_ids codec (m ∷ ms) =
    let rest = referenced_app_ids codec ms in
    if message_allows_prompt_reuse m
    then elim (artifact_reference codec m.content) [ none ↦ rest | some r ↦ r.app_id ∷ rest ]
    else rest

-- `_extract_app_ids`
unfoldable pub extract_app_ids : Codec → List ChatMessage → List Text
unfolding sorted_set referenced_app_ids
extract_app_ids codec messages = sorted_set (referenced_app_ids codec messages)

abbrev pub apps_header : Text
apps_header =
    codes
      "Here are read-only snapshots of active App artifacts referenced by this conversation.\nUse them to understand current state. Any App change must go through the isolated Widget coding, verification, and atomic-promotion workflow; never return executable App source in conversation.\n\n"

abbrev pub omission_note : Text
omission_note =
    codes
      " earlier messages were omitted by the context budget. Do not infer missing details; ask for clarification or retrieve a referenced artifact."

-- The message in front of the conversation: the summary, else what was omitted.
unfoldable pub preface : Text → ℕ → ℕ → List PromptMessage
unfolding truncate decimal
preface [] reserve omitted =
    if omitted == 0
    then []
    else record { role = "system"; content = decimal omitted ++ omission_note } ∷ []
preface (c ∷ cs) reserve omitted =
    record {
      role = "system";
      content =
          codes "Durable conversation summary:\n" ++ truncate (c ∷ cs) reserve (codes "summary");
    }
    ∷ []

unfoldable pub apps_message : List Text → List PromptMessage
unfolding join_texts
apps_message [] = []
apps_message (a ∷ artifacts) =
    record { role = "system"; content = apps_header ++ join_texts (codes "\n\n") (a ∷ artifacts) }
    ∷ []

abbrev pub has_summary : Text → Bool
has_summary [] = false
has_summary (c ∷ cs) = true

-- `min(8_000, limits.max_total_chars // 4) if context_summary else 0`
unfoldable pub summary_reserve : ContextBudget → Text → ℕ
summary_reserve limits summary =
    if has_summary summary then min 8000 (limits.max_total_chars / 4) else 0

-- The prompt from the messages that may be reused; a summary that is `None` is the empty text.
unfoldable pub assemble_prompt :
    Codec
    → (Text → Option AppFiles)
    → ContextBudget
    → Text
    → List Text
    → List ChatMessage
    → List PromptMessage
unfolding collect_artifacts chars pruned_content same_text select_messages last_messages preface
    apps_message summary_reserve
assemble_prompt codec get_app_files limits summary app_ids messages =
    let artifacts = collect_artifacts get_app_files limits.max_artifact_chars 0 app_ids in
    let recent = last_messages limits.max_messages messages in
    let reserve = summary_reserve limits summary in
    let budget = limits.max_total_chars - chars artifacts - reserve - 512 in
    let s = select_messages codec limits budget (reverse recent) (record {
      selected = [];
      message_chars = 0;
      omitted_count = length messages - length recent;
    }) in
    apps_message artifacts ++ (preface summary reserve s.omitted_count ++ s.selected)

unfoldable pub chosen_ids : Codec → Option (List Text) → List ChatMessage → List Text
unfolding sorted_set extract_app_ids
chosen_ids codec none messages = extract_app_ids codec messages
chosen_ids codec (some ids) messages = sorted_set ids

-- `build_llm_prompt`; `none` is the ValueError on a budget that is not positive.
unfoldable pub build_llm_prompt :
    Codec
    → (Text → Option AppFiles)
    → ContextBudget
    → Text
    → Option (List Text)
    → List ChatMessage
    → Option (List PromptMessage)
unfolding assemble_prompt chosen_ids
build_llm_prompt codec get_app_files limits summary artifact_ids stored =
    let messages = select message_allows_prompt_reuse stored in
    if leb limits.max_total_chars 0
    then none
    else some (
        assemble_prompt codec get_app_files limits summary (chosen_ids codec artifact_ids messages)
          messages)

-- ===== src/Context/Tests.antt =====
-- A conversation in which an App was made, and prompts that are built from it.
use ambient_agent.Prelude.{
  String, List, [], ◌∷◌, Option, none, some, ◌≡◌, ◌≤◌, refl, select, length, arith,
}
use ambient_agent.Prelude.Texts.{Text, codes, same_text, join_texts}
use ambient_agent.Json.{obj, object, str, get_or, get}
use ambient_agent.Context.{
  ContextBudget, ChatMessage, Codec, default_budget, truncate, compact_message_content,
  message_allows_prompt_reuse, build_persistent_summary,
}
use ambient_agent.Context.Prompt.{
  AppFiles, PromptMessage, content_chars, build_llm_prompt, chosen_ids,
}
use ambient_agent.Context.Bounds.{build_llm_prompt_fits}
use ambient_agent.Context.Recap.{build_persistent_summary_fits}

-- A codec that reads one text as the reference to an App.
abbrev one_reference : Codec
one_reference = record {
  loads = λ t. elim t [
    | [] ↦ none
    | c ∷ cs ↦ elim cs [
      | [] ↦ some (obj (object (("artifact", str "app") ∷ ("app_id", str " notes ") ∷ [])))
      | d ∷ ds ↦ none
    ]
  ];
  dumps = λ d. codes "{}";
  show = λ v. [];
}

abbrev said : String → String → ChatMessage
said role content = record { role = role; content = codes content; context_policy = "reusable" }

abbrev conversation : List ChatMessage
conversation =
    said "user" "make a list"
    ∷ said "agent" "made"
    ∷ record { role = "user"; content = codes "secret"; context_policy = "never" }
    ∷ said "code" "x"
    ∷ said "user" "thanks"
    ∷ []

abbrev files_of : Text → Option AppFiles
files_of id = some (record {
  title = codes "Notes";
  manifest_revision = codes "1";
  grants_digest = [];
  capabilities = codes "[]";
  js = codes "render()";
})

abbrev two_messages : ContextBudget
two_messages = record default_budget { max_messages = 2 }

cut_text : truncate (codes "abcdef") 4 (codes "message") ≡ codes "abcd"
unfolding truncate
cut_text = refl

last_two :
    build_llm_prompt one_reference (λ id. none) two_messages [] (some []) conversation
    ≡ some (
        record {
          role = "system";
          content =
              codes
                "2 earlier messages were omitted by the context budget. Do not infer missing details; ask for clarification or retrieve a referenced artifact.";
        }
        ∷ record { role = "assistant"; content = codes "{}" }
        ∷ record { role = "user"; content = codes "thanks" }
        ∷ [])
unfolding build_llm_prompt select message_allows_prompt_reuse compact_message_content get_or get
last_two = refl

referenced :
    chosen_ids one_reference none (select message_allows_prompt_reuse conversation)
    ≡ codes "notes" ∷ []
unfolding chosen_ids select message_allows_prompt_reuse get_or get same_text
referenced = refl

build_llm_prompt_fits_example :
    (prompt : List PromptMessage) × (build_llm_prompt one_reference files_of two_messages [] none
        conversation
      ≡ some prompt)
    × (content_chars prompt ≤ 48000)
unfolding chosen_ids select message_allows_prompt_reuse get_or get same_text
build_llm_prompt_fits_example =
    build_llm_prompt_fits one_reference files_of two_messages [] none conversation (omega arith)
      (omega arith) (omega arith)

abbrev recap_text : Text
recap_text =
    codes "Extractive recap of 2 earlier messages:\n- [user] make a list\n- [assistant] made"

build_persistent_summary_fits_example : length recap_text ≤ 100
unfolding build_persistent_summary select message_allows_prompt_reuse join_texts
build_persistent_summary_fits_example =
    build_persistent_summary_fits one_reference conversation two_messages 100 recap_text
      (omega arith) (omega arith) refl

-- ===== src/Context/Bounds.antt =====
-- The sizes of what enters a prompt.
use Prim.Native.Nat.{◌*◌, ◌/◌, ◌%◌}
use mathlib.Core.List.{reverse, reverse-cons}
use ambient_agent.Prelude.{
  ℕ, zero, suc, ◌+◌, ◌-◌, ◌≤◌, ◌<◌, ◌≡◌, refl, Bool, Option, some, List, [], ◌∷◌, ◌++◌, length,
  take, drop, select, arith, inl, inr, Option-cases,
}
use ambient_agent.Prelude.Texts.{Text, codes, decimal, digits_before, join_texts}
use ambient_agent.Context.{
  ContextBudget, ChatMessage, Codec, min, message_allows_prompt_reuse, compact_message_content,
  truncate, omitted_suffix,
}
use ambient_agent.Context.Prompt.{
  AppFiles, PromptMessage, Selection, collect_artifacts, artifact_text, chars, content_chars,
  select_message, select_messages, pruned_content, last_messages, preface, apps_message,
  apps_header, omission_note, summary_reserve, assemble_prompt, chosen_ids, build_llm_prompt,
}

module _ {ℓ} {A : Type ℓ} where
  pub length-append : (xs ys : List A) → length (xs ++ ys) ≡ length xs + length ys
  length-append [] ys = omega arith
  length-append (x ∷ xs) ys = omega (arith, length-append xs ys)

  pub length-take-le : (n : ℕ) (xs : List A) → length (take n xs) ≤ n
  length-take-le zero xs = omega arith
  length-take-le (suc n) [] = omega arith
  length-take-le (suc n) (x ∷ xs) = omega (arith, length-take-le n xs)

  pub length-drop-le : (n : ℕ) (xs : List A) → length (drop n xs) ≤ length xs
  length-drop-le zero xs = omega arith
  length-drop-le (suc n) [] = omega arith
  length-drop-le (suc n) (x ∷ xs) = omega (arith, length-drop-le n xs)

  pub length-reverse : (xs : List A) → length (reverse xs) ≡ length xs
  length-reverse [] = refl
  length-reverse (x ∷ xs) =
      rw (reverse-cons x xs) (omega (arith, length-append (reverse xs) (x ∷ []), length-reverse xs))

  pub length-select-le : (p : A → Bool) (xs : List A) → length (select p xs) ≤ length xs
  unfolding select
  length-select-le p [] = omega arith
  length-select-le p (x ∷ xs) = ground (arith, length-select-le p xs)

-- A truncated text keeps its limit.
pub length-truncate-le :
    (value : Text) (limit : ℕ) (label : Text) → length (truncate value limit label) ≤ limit
unfolding truncate
length-truncate-le value limit label =
    let suffix = omitted_suffix label (length value - limit) in
    ground (
      arith,
      length-take-le limit value,
      length-take-le (limit - length suffix) value,
      length-append (take (limit - length suffix) value) suffix,
    )

-- 10 to the k.
pow10 : ℕ → ℕ
pow10 zero = 1
pow10 (suc k) = 10 * pow10 k

length-digits_before :
    (k fuel n : ℕ) (text : Text)
    → n < pow10 (suc k)
    → length (digits_before fuel n text) ≤ suc k + length text
unfolding pow10 digits_before
length-digits_before k zero n text h = omega arith
length-digits_before zero (suc fuel) n text h = ground arith
length-digits_before (suc k) (suc fuel) n text h =
    ground (arith, length-digits_before k fuel (n / 10) ((48 + n % 10) ∷ text))

pub length-decimal : (n : ℕ) → n < 1000000000 → length (decimal n) ≤ 9
unfolding decimal pow10
length-decimal n h = omega (arith, length-digits_before 8 (suc n) n [] h)

pub length-join_texts :
    (separator : Text) (ts : List Text)
    → length (join_texts separator ts) ≤ chars ts + length separator * length ts
unfolding join_texts chars
length-join_texts separator [] = omega arith
length-join_texts separator (t ∷ []) = grind arith
length-join_texts separator (t ∷ s ∷ ts) = grind (
  arith,
  length-append t (separator ++ join_texts separator (s ∷ ts)),
  length-append separator (join_texts separator (s ∷ ts)),
  length-join_texts separator (s ∷ ts),
)

module _ (get_app_files : Text → Option AppFiles) (limit : ℕ) where
  chars-collect_artifacts :
      (used : ℕ) (ids : List Text)
      → used ≤ limit
      → used + chars (collect_artifacts get_app_files limit used ids) ≤ limit
  unfolding collect_artifacts chars
  chars-collect_artifacts used [] h = omega arith
  chars-collect_artifacts used (id ∷ ids) h = elim (Option-cases (get_app_files id)) [
    | inl e ↦ ground (arith, e, chars-collect_artifacts used ids h)
    | inr (files, e) ↦
        let label = codes "artifact " ++ id in
        let artifact = truncate (artifact_text id files) (limit - used) label in
        ground (
          arith,
          e,
          length-truncate-le (artifact_text id files) (limit - used) label,
          chars-collect_artifacts (used + length artifact) ids,
        )
  ]

  length-collect_artifacts :
      (used : ℕ) (ids : List Text)
      → length (collect_artifacts get_app_files limit used ids) ≤ length ids
  unfolding collect_artifacts
  length-collect_artifacts used [] = omega arith
  length-collect_artifacts used (id ∷ ids) = elim (Option-cases (get_app_files id)) [
    | inl e ↦ ground (arith, e, length-collect_artifacts used ids)
    | inr (files, e) ↦
        let artifact = truncate (artifact_text id files) (limit - used) (codes "artifact " ++ id) in
        ground (arith, e, length-collect_artifacts (used + length artifact) ids)
  ]

-- What holds of a selection all through the loop, over at most `total` messages.
record Fits (budget : ℕ) (s : Selection) : Type 0 where
  counted : content_chars s.selected ≡ s.message_chars
  within : s.message_chars ≤ budget

module _ (codec : Codec) (limits : ContextBudget) (budget : ℕ) where
  length-pruned_content-le :
      (used : ℕ) (m : ChatMessage)
      → length (pruned_content codec limits budget used m) ≤ budget - used
  unfolding pruned_content
  length-pruned_content-le used m =
      let content = compact_message_content codec m.content in
      let limit = min limits.max_message_chars (budget - used) in
      ground (arith, length-truncate-le content limit (codes "message"))

  select_message-Fits :
      (m : ChatMessage) (s : Selection)
      → Fits budget s
      → Fits budget (select_message codec limits budget m s)
  unfolding select_message content_chars
  select_message-Fits m s h = ground (arith, length-pruned_content-le s.message_chars m)

  omitted_count-select_message :
      (m : ChatMessage) (s : Selection)
      → (select_message codec limits budget m s).omitted_count ≤ s.omitted_count + 1
  unfolding select_message
  omitted_count-select_message m s = ground arith

  select_messages-Fits :
      (ms : List ChatMessage) (s : Selection)
      → Fits budget s
      → Fits budget (select_messages codec limits budget ms s)
  unfolding select_messages
  select_messages-Fits [] s h = h
  select_messages-Fits (m ∷ ms) s h = select_messages-Fits ms _ (select_message-Fits m s h)

  omitted_count-select_messages :
      (ms : List ChatMessage) (s : Selection)
      → (select_messages codec limits budget ms s).omitted_count ≤ s.omitted_count + length ms
  unfolding select_messages
  omitted_count-select_messages [] s = omega arith
  omitted_count-select_messages (m ∷ ms) s = omega (
    arith,
    omitted_count-select_message m s,
    omitted_count-select_messages ms (select_message codec limits budget m s),
  )

chars-apps_message :
    (artifacts : List Text)
    → content_chars (apps_message artifacts) ≤ 281 + chars artifacts + 2 * length artifacts
unfolding apps_message content_chars
chars-apps_message [] = omega arith
chars-apps_message (a ∷ artifacts) = omega (
  arith,
  length-append apps_header (join_texts (codes "\n\n") (a ∷ artifacts)),
  length-join_texts (codes "\n\n") (a ∷ artifacts),
)

chars-preface :
    (summary : Text) (reserve omitted : ℕ)
    → omitted < 1000000000
    → content_chars (preface summary reserve omitted) ≤ 149 + reserve
unfolding preface content_chars
chars-preface [] reserve omitted h =
    ground (arith, length-append (decimal omitted) omission_note, length-decimal omitted h)
chars-preface (c ∷ cs) reserve omitted h = omega (
  arith,
  length-append (codes "Durable conversation summary:\n")
      (truncate (c ∷ cs) reserve (codes "summary")),
  length-truncate-le (c ∷ cs) reserve (codes "summary"),
)

content_chars-append :
    (xs ys : List PromptMessage) → content_chars (xs ++ ys) ≡ content_chars xs + content_chars ys
unfolding content_chars
content_chars-append [] ys = omega arith
content_chars-append (x ∷ xs) ys = omega (arith, content_chars-append xs ys)

length-last_messages-le :
    (n : ℕ) (messages : List ChatMessage) → length (last_messages n messages) ≤ length messages
unfolding last_messages
length-last_messages-le n messages = ground (arith, length-drop-le (length messages - n) messages)

summary_reserve-le :
    (limits : ContextBudget) (summary : Text) → summary_reserve limits summary ≤ 8000
unfolding summary_reserve
summary_reserve-le limits summary = ground arith

module _ (codec : Codec) (get_app_files : Text → Option AppFiles) (limits : ContextBudget)
    (summary : Text) (room : limits.max_artifact_chars + 8512 ≤ limits.max_total_chars) where
  chars-assemble_prompt :
      (ids : List Text) (messages : List ChatMessage)
      → length ids ≤ 40
      → length messages < 1000000000
      → content_chars (assemble_prompt codec get_app_files limits summary ids messages)
        ≤ limits.max_total_chars
  unfolding assemble_prompt content_chars
  chars-assemble_prompt ids messages few short =
      let artifacts = collect_artifacts get_app_files limits.max_artifact_chars 0 ids in
      let recent = last_messages limits.max_messages messages in
      let reserve = summary_reserve limits summary in
      let budget = limits.max_total_chars - chars artifacts - reserve - 512 in
      let start : Selection = record {
        selected = [];
        message_chars = 0;
        omitted_count = length messages - length recent;
      } in
      let s = select_messages codec limits budget (reverse recent) start in
      let fits : Fits budget s =
        select_messages-Fits codec limits budget (reverse recent) start
          (record { counted = refl; within = omega arith }) in
      omega (
        arith,
        content_chars-append (apps_message artifacts)
            (preface summary reserve s.omitted_count ++ s.selected),
        content_chars-append (preface summary reserve s.omitted_count) s.selected,
        chars-apps_message artifacts,
        chars-collect_artifacts get_app_files limits.max_artifact_chars 0 ids (omega arith),
        length-collect_artifacts get_app_files limits.max_artifact_chars 0 ids,
        chars-preface summary reserve s.omitted_count (
            omega (
              arith,
              omitted_count-select_messages codec limits budget (reverse recent) start,
              length-reverse recent,
              length-last_messages-le limits.max_messages messages,
            )),
        summary_reserve-le limits summary,
        fits.counted,
        fits.within,
      )

-- A prompt is always built, and it never holds more characters than the budget's total, the headers
-- and notes that are added included, if the total leaves 8512 characters besides the artifacts, at
-- most 40 Apps are chosen and fewer than 10^9 messages are stored.
pub build_llm_prompt_fits :
    (codec : Codec) (get_app_files : Text → Option AppFiles) (limits : ContextBudget)
    (summary : Text) (ids : Option (List Text)) (stored : List ChatMessage)
    → limits.max_artifact_chars + 8512 ≤ limits.max_total_chars
    → length (chosen_ids codec ids (select message_allows_prompt_reuse stored)) ≤ 40
    → length stored < 1000000000
    → (prompt : List PromptMessage) × (build_llm_prompt codec get_app_files limits summary ids
          stored
        ≡ some prompt)
      × (content_chars prompt ≤ limits.max_total_chars)
unfolding build_llm_prompt
build_llm_prompt_fits codec get_app_files limits summary ids stored room few short =
    let messages = select message_allows_prompt_reuse stored in
    let chosen = chosen_ids codec ids messages in
    (
      assemble_prompt codec get_app_files limits summary chosen messages,
      ground arith,
      chars-assemble_prompt codec get_app_files limits summary room chosen messages few
          (omega (arith, length-select-le message_allows_prompt_reuse stored)),
    )

-- ===== src/Context/Recap.antt =====
-- The size of the recap of older messages.
use mathlib.Core.List.{reverse}
use ambient_agent.Prelude.{
  ℕ, ◌+◌, ◌-◌, ◌≤◌, ◌<◌, ◌≡◌, refl, false, some, List, [], ◌∷◌, ◌++◌, length, take, select, arith,
}
use ambient_agent.Prelude.Texts.{Text, codes, decimal, join_texts}
use ambient_agent.Context.{
  ContextBudget, ChatMessage, Codec, message_allows_prompt_reuse, recap_line, fitted_line,
  does_not_fit, select_lines, recap_header, build_persistent_summary,
}
use ambient_agent.Context.Bounds.{
  length-append, length-take-le, length-select-le, length-truncate-le, length-decimal,
}

-- The characters of lines that each start on a new line.
line_chars : List Text → ℕ
line_chars [] = 0
line_chars (t ∷ ts) = length t + 1 + line_chars ts

length-join_lines :
    (header : Text) (ts : List Text)
    → length (join_texts (codes "\n") (header ∷ ts)) ≡ length header + line_chars ts
unfolding join_texts line_chars
length-join_lines header [] = omega arith
length-join_lines header (t ∷ ts) = omega (
  arith,
  length-append header (codes "\n" ++ join_texts (codes "\n") (t ∷ ts)),
  length-append (codes "\n") (join_texts (codes "\n") (t ∷ ts)),
  length-join_lines t ts,
)

-- The lines that are selected, and what the loop has counted.
record Counted (remaining used : ℕ) (selected : List Text) : Type 0 where
  counted : line_chars selected ≡ used
  within : used ≤ remaining + 1

length-fitted_line :
    (remaining used : ℕ) (selected : List Text) (line : Text)
    → Counted remaining used selected
    → does_not_fit remaining used selected line ≡ false
    → used + length (fitted_line remaining selected line) ≤ remaining
unfolding fitted_line does_not_fit line_chars
length-fitted_line remaining used [] line h fits =
    ground (arith, length-truncate-le line remaining (codes "summary"))
length-fitted_line remaining used (s ∷ selected) line h fits = ground arith

line_chars-select_lines :
    (codec : Codec) (remaining used : ℕ) (selected : List Text) (ms : List ChatMessage)
    → Counted remaining used selected
    → line_chars (select_lines codec remaining used selected ms) ≤ remaining + 1
unfolding select_lines line_chars
line_chars-select_lines codec remaining used selected [] h = omega (arith, h.counted, h.within)
line_chars-select_lines codec remaining used selected (m ∷ ms) h =
    let line = fitted_line remaining selected (recap_line codec m) in
    let skipped = line_chars-select_lines codec remaining used selected ms h in
    ground (
      arith,
      skipped,
      length-fitted_line remaining used selected (recap_line codec m) h,
      line_chars-select_lines codec remaining (used + length line + 1) (line ∷ selected) ms,
    )

length-recap_header : (n : ℕ) → n < 1000000000 → length (recap_header n) ≤ 47
length-recap_header n h = omega (
  arith,
  length-append (codes "Extractive recap of ") (decimal n ++ codes " earlier messages:"),
  length-append (decimal n) (codes " earlier messages:"),
  length-decimal n h,
)

-- A recap is never longer than the limit that is asked for, if that is at least 48 characters and
-- fewer than 10^9 messages are stored.
pub build_persistent_summary_fits :
    (codec : Codec) (stored : List ChatMessage) (limits : ContextBudget) (max_summary_chars : ℕ)
    (recap : Text)
    → 48 ≤ max_summary_chars
    → length stored < 1000000000
    → build_persistent_summary codec stored limits max_summary_chars ≡ some recap
    → length recap ≤ max_summary_chars
unfolding build_persistent_summary line_chars
build_persistent_summary_fits codec stored limits max_summary_chars recap large short built =
    let messages = select message_allows_prompt_reuse stored in
    let omitted = take (length messages - limits.max_messages) messages in
    let header = recap_header (length omitted) in
    let remaining = max_summary_chars - length header - 1 in
    let lines = select_lines codec remaining 0 [] (reverse omitted) in
    ground (
      arith,
      length-recap_header (length omitted),
      length-take-le (length messages - limits.max_messages) messages,
      length-select-le message_allows_prompt_reuse stored,
      length-join_lines header lines,
      line_chars-select_lines codec remaining 0 [] (reverse omitted)
          (record { counted = refl; within = omega arith }),
    )

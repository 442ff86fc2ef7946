-- ===== src/Engine/ContextManager.antt =====
-- services/agent-runtime/app/engine/context_manager.py: the size of one run's context window.
-- `owner` is the agent of the memory; the `agent_id` arguments serve the log alone and are left out.
pub mod Compaction
use Prim.Native.String.{◌++◌}
use agentcompany.Prelude.{
  String, ℕ, List, ◌*◌, ◌/◌, max, length, ◌-◌, map, take, drop, ◌∷◌, if◌then◌else◌, leb, [], true,
  none, some,
}
use agentcompany.Json.{Builtins, join, take_chars}
use agentcompany.Engine.Llm.{Message, Adapter}
use agentcompany.Engine.Memory.{MemoryServices, store, text, flag, int}
use agentcompany.Exec.{Exec, otherwise, pure, ◌>>=◌, ◌>>◌, total}
use agentcompany.Prelude.Int.{pos}

abbrev pub min_messages_to_keep : ℕ
min_messages_to_keep = 4

-- `int(max_tokens * 0.80)`: below 2 ^ 50 the product of doubles, cut off, is this quotient.
abbrev pub compaction_limit : ℕ → ℕ
compaction_limit max_tokens = max_tokens * 4 / 5

-- `max(1, len(messages) - MIN_MESSAGES_TO_KEEP)`; cut off at 0, the difference gives the same.
abbrev pub split_point : List Message → ℕ
split_point messages = max 1 (length messages - min_messages_to_keep)

module _ {F E W : Type 0} (py : Builtins) (adapter : Adapter F W) (memory : MemoryServices F E W)
    (owner : String) where
  -- `f"{role}: {content}"` for each message, on lines of their own.
  transcript : List Message → String
  transcript messages =
      join "\n" (map (λ (m : Message). py.upper m.role ++ (": " ++ m.content)) messages)

  unfoldable pub summarize : List Message → Exec W String
  unfolding transcript
  summarize messages = do
    response ←
        adapter.complete
          (record {
            role = "user";
            content =
                "Summarize the following conversation excerpt in 3–5 sentences. "
                ++ ("Preserve: key decisions made, action items, important facts, and "
                    ++ ("current task status. Omit pleasantries and redundant information.\n\n"
                        ++ transcript messages));
            tool_call_id = none;
          }
            ∷ [])
          "You are a concise summarizer. Output only the summary, with no preamble." none
          (some (500, 1))
    pure response.content

  -- Every exception is caught here.
  unfoldable pub archive_to_memory : List Message → String → ℕ → Exec W Unit
  unfolding transcript
  archive_to_memory messages run message_count =
      otherwise
        (do
          u ← total memory.new_uuid
          store memory owner (take_chars 4000 (transcript messages))
              (("run_id", text run)
                ∷ ("compacted", flag true)
                ∷ ("message_count", int (pos (length messages)))
                ∷ ("total_messages_at_compact", int (pos message_count))
                ∷ [])
              "conversation"
              (some (
                "compact_"
                ++ (run ++ ("_" ++ (py.int_text (pos message_count) ++ ("_" ++ take_chars 8 u))))))
          pure tt)
        tt

  -- The message that replaces the summarized ones.
  abbrev pub summary_message : String → Message
  summary_message summary = record {
    role = "user";
    content = "[Compressed context from earlier in this conversation]\n\n" ++ summary;
    tool_call_id = none;
  }

  -- The list that replaces the conversation.
  abbrev pub compacted : String → List Message → List Message
  compacted summary to_keep = summary_message summary ∷ to_keep

  unfoldable pub compact : List Message → String → Exec W (List Message)
  compact messages run =
      let to_summarize = take (split_point messages) messages in
      let to_keep = drop (split_point messages) messages in
      (do
        archive_to_memory to_summarize run (length messages)
        summary ← summarize to_summarize
        pure (compacted summary to_keep))

  unfoldable pub maybe_compact : List Message → String → String → Exec W (List Message)
  maybe_compact [] system run = pure []
  maybe_compact (m ∷ ms) system run =
      let messages = m ∷ ms in
      if leb (adapter.count_tokens messages system) (compaction_limit adapter.max_context_tokens)
      then pure messages
      else compact messages run

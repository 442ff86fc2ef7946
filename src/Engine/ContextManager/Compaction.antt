-- ===== src/Engine/ContextManager/Compaction.antt =====
-- What `maybe_compact` keeps.
use agentcompany.Prelude.{
  ◌≡◌, List, String, ◌≢◌, ◌≤◌, [], ◌<◌, arith, ◌∷◌, drop, length, min, ◌-◌, sym, leb, false, take,
  take-append-drop, length-drop, refl,
}
use agentcompany.Engine.Llm.{Message, Adapter}
use agentcompany.Engine.ContextManager.{
  maybe_compact, compact, compacted, compaction_limit, split_point,
}
use agentcompany.Json.{Builtins}
use agentcompany.Engine.Memory.{MemoryServices}
use agentcompany.Exec.{◌>>=◌, ok, bind_inversion, pure_inversion}
use mathlib.Core.List.{◌++◌}

module _ {F E W : Type 0} (py : Builtins) (adapter : Adapter F W) (memory : MemoryServices F E W)
    (owner : String) where
  -- A conversation within the limit comes back as it is, and no service is called.
  pub maybe_compact_within :
      (messages : List Message) (system run : String) (w : W)
      → adapter.count_tokens messages system ≤ compaction_limit adapter.max_context_tokens
      → maybe_compact py adapter memory owner messages system run w ≡ (ok messages, w)
  unfolding maybe_compact ◌>>=◌
  maybe_compact_within [] system run w h = refl
  maybe_compact_within (m ∷ ms) system run w h = ground arith

  compact_lem :
      (messages kept : List Message) (run : String) (w : W)
      → (compact py adapter memory owner messages run w).0 ≡ ok kept
      → (summary : String) × (kept
          ≡ compacted py adapter memory owner summary (drop (split_point messages) messages))
  unfolding compact
  compact_lem messages kept run w h =
      let (_, _, h₁) = bind_inversion _ _ _ h in
      let (summary, _, h₂) = bind_inversion _ _ _ h₁ in (summary, sym (pure_inversion _ _ h₂))

  -- Past the limit, a call that returns gives one summary message and then the last four messages of
  -- the conversation unchanged, however long it is; of a conversation of four or fewer it keeps all
  -- but the first. So all but four messages are summarised, not the oldest half.
  pub maybe_compact_past :
      (messages kept : List Message) (system run : String) (w : W)
      → messages ≢ []
      → compaction_limit adapter.max_context_tokens < adapter.count_tokens messages system
      → (maybe_compact py adapter memory owner messages system run w).0 ≡ ok kept
      → (summary : String) × (dropped : List Message) × (tail : List Message) × (kept
          ≡ compacted py adapter memory owner summary tail)
        × (messages ≡ dropped ++ tail)
        × (length tail ≡ min 4 (length messages - 1))
  unfolding maybe_compact
  maybe_compact_past [] kept system run w ne past h = absurd (ne refl)
  maybe_compact_past (m ∷ ms) kept system run w ne past h =
      let messages = m ∷ ms in
      let over : leb (adapter.count_tokens messages system)
            (compaction_limit adapter.max_context_tokens)
          ≡ false =
        ground arith in
      let (summary, e) = compact_lem messages kept run w (rw over at h) in
      (
        summary,
        take (split_point messages) messages,
        drop (split_point messages) messages,
        e,
        sym (take-append-drop (split_point messages) messages),
        omega (arith, length-drop (split_point messages) messages),
      )

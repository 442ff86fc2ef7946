-- ===== src/Engine/Llm/Alternation.antt =====
-- engine/llm/anthropic.py: which conversations keep to the turns that Anthropic asks for.
use mathlib.Core.List.{◌++◌}
use agentcompany.Prelude.{
  ◌≡◌, refl, String, Bool, true, false, not, if◌then◌else◌, List, [], ◌∷◌, ◌==◌, ◌⊎◌, inl, inr, ◌∙◌,
  ℕ, drop, suc, zero,
}
use agentcompany.Engine.Llm.{Message}
use agentcompany.Engine.Llm.Anthropic.{
  WireMessage, add_result, normalize_from, normalize_messages, Block,
}

-- Whose turn it is.
abbrev pub role_of : Bool → String
role_of users_turn = if users_turn then "user" else "assistant"

-- The turns change with every message, from the one that is given on.
abbrev pub Alternates : Bool → List WireMessage → Type 0
Alternates turn [] = Unit
Alternates turn (m ∷ ms) = (m.role ≡ role_of turn) × Alternates (not turn) ms

-- Whose turn it is after the messages.
abbrev pub next : Bool → List WireMessage → Bool
next turn [] = turn
next turn (m ∷ ms) = next (not turn) ms

-- What follows the first message of a conversation: answers of the assistant, no two of them side by
-- side, and results of tools. `answered` says that the message before is an answer.
abbrev pub Follows : Bool → List Message → Type 0
Follows answered [] = Unit
Follows answered (m ∷ ms) =
    ((m.role ≡ "assistant") × (answered ≡ false) × Follows true ms)
    ⊎ ((m.role ≡ "tool") × Follows false ms)

-- A conversation is opened by the user.
abbrev pub IsConversation : List Message → Type 0
IsConversation [] = ⊥
IsConversation (m ∷ ms) = (m.role ≡ "user") × Follows false ms

snoc-Alternates :
    (turn : Bool) (ms : List WireMessage) (m : WireMessage)
    → Alternates turn ms
    → m.role ≡ role_of (next turn ms)
    → Alternates turn (ms ++ m ∷ []) × (next turn (ms ++ m ∷ []) ≡ not (next turn ms))
snoc-Alternates turn [] m a e = ((e, tt), refl)
snoc-Alternates turn (n ∷ ms) m (a, as') e =
    let (b, k) = snoc-Alternates (not turn) ms m as' e in ((a, b), k)

-- A tool result leaves the turn with the assistant.
add_result-Alternates :
    (turn : Bool) (b : Block) (m : WireMessage) (ms : List WireMessage)
    → Alternates turn (m ∷ ms)
    → Alternates turn (add_result b (m ∷ ms)) × (next turn (add_result b (m ∷ ms)) ≡ false)
add_result-Alternates true b m [] (a, tt) = rw a ((refl, tt), refl)
add_result-Alternates false b m [] (a, tt) = rw a ((refl, (refl, tt)), refl)
add_result-Alternates turn b m (n ∷ ms) (a, as') =
    let (c, k) = add_result-Alternates (not turn) b n ms as' in ((a, c), k)

-- Also where it is the first message.
first_result-Alternates :
    (b : Block) (ms : List WireMessage)
    → Alternates true ms
    → Alternates true (add_result b ms) × (next true (add_result b ms) ≡ false)
first_result-Alternates b [] a = ((refl, tt), refl)
first_result-Alternates b (m ∷ ms) a = add_result-Alternates true b m ms a

-- One after the other.
normalize_from-Alternates :
    (answered : Bool) (ws : List WireMessage) (ms : List Message)
    → Alternates true ws
    → next true ws ≡ answered
    → Follows answered ms
    → Alternates true (normalize_from ws ms)
normalize_from-Alternates answered ws [] a e f = a
normalize_from-Alternates answered ws (m ∷ ms) a e (inl (r, n, f)) = rw r (
    let (b, k) = snoc-Alternates true ws _ a (rw (e, n) refl) in
    normalize_from-Alternates true _ ms b (k ∙ rw (e, n) refl) f)
normalize_from-Alternates answered ws (m ∷ ms) a e (inr (r, f)) =
    rw r (let (b, k) = first_result-Alternates _ ws a in normalize_from-Alternates false _ ms b k f)

-- Where a conversation is opened by the user, and then has only answers of the assistant, no two of
-- them side by side, and results of tools, its Anthropic form alternates between the user and the
-- assistant, from the user on.
pub normalize_messages-Alternates :
    (messages : List Message)
    → IsConversation messages
    → Alternates true (normalize_messages messages)
unfolding normalize_messages
normalize_messages-Alternates (m ∷ ms) (r, f) =
    rw r (normalize_from-Alternates false _ ms (refl, tt) refl f)
normalize_messages-Alternates [] f = elim f [ ]

-- Whether the last message is an answer.
abbrev pub answered_after : Bool → List Message → Bool
answered_after answered [] = answered
answered_after answered (m ∷ ms) = answered_after (m.role == "assistant") ms

-- The assistant may speak: the conversation does not end with an answer.
abbrev pub IsWaiting : List Message → Type 0
IsWaiting [] = ⊥
IsWaiting (m ∷ ms) = (m.role ≡ "user") × Follows false ms × (answered_after false ms ≡ false)

pub IsWaiting-IsConversation : (ms : List Message) → IsWaiting ms → IsConversation ms
IsWaiting-IsConversation (m ∷ ms) (r, f, e) = (r, f)
IsWaiting-IsConversation [] h = elim h [ ]

answer-Follows :
    (answered : Bool) (ms : List Message) (m : Message)
    → Follows answered ms
    → answered_after answered ms ≡ false
    → m.role ≡ "assistant"
    → Follows answered (ms ++ m ∷ [])
answer-Follows answered [] m f e r = inl (r, e, tt)
answer-Follows answered (n ∷ ms) m (inl (q, a, f)) e r =
    inl (q, a, answer-Follows true ms m f (rw q at e) r)
answer-Follows answered (n ∷ ms) m (inr (q, f)) e r =
    inr (q, answer-Follows false ms m f (rw q at e) r)

result-Follows :
    (answered : Bool) (ms : List Message) (m : Message)
    → Follows answered ms
    → m.role ≡ "tool"
    → Follows answered (ms ++ m ∷ []) × (answered_after answered (ms ++ m ∷ []) ≡ false)
result-Follows answered [] m f r = (inr (r, tt), rw r refl)
result-Follows answered (n ∷ ms) m (inl (q, a, f)) r =
    let (g, e) = result-Follows true ms m f r in (inl (q, a, g), rw q e)
result-Follows answered (n ∷ ms) m (inr (q, f)) r =
    let (g, e) = result-Follows false ms m f r in (inr (q, g), rw q e)

-- An answer to a conversation that waits for one.
pub answer-IsConversation :
    (ms : List Message) (m : Message)
    → IsWaiting ms
    → m.role ≡ "assistant"
    → IsConversation (ms ++ m ∷ [])
answer-IsConversation (n ∷ ms) m (q, f, e) r = (q, answer-Follows false ms m f e r)
answer-IsConversation [] m h r = elim h [ ]

-- The result of a tool.
pub result-IsWaiting :
    (ms : List Message) (m : Message)
    → IsConversation ms
    → m.role ≡ "tool"
    → IsWaiting (ms ++ m ∷ [])
result-IsWaiting (n ∷ ms) m (q, f) r = let (g, e) = result-Follows false ms m f r in (q, g, e)
result-IsWaiting [] m h r = elim h [ ]

Follows-answered_after :
    (answered : Bool) (ms : List Message)
    → Follows answered ms
    → answered_after answered ms ≡ false
    → Follows false ms × (answered_after false ms ≡ false)
Follows-answered_after false ms f e = (f, e)
Follows-answered_after true [] f e = (tt, refl)
Follows-answered_after true (m ∷ ms) (inl (q, a, f)) e = cc
Follows-answered_after true (m ∷ ms) (inr f) e = (inr f, e)

-- The end of a conversation, after a message that opens it anew.
drop-Follows :
    (k : ℕ) (answered : Bool) (ms : List Message)
    → Follows answered ms
    → answered_after answered ms ≡ false
    → Follows false (drop k ms) × (answered_after false (drop k ms) ≡ false)
drop-Follows zero answered ms f e = Follows-answered_after answered ms f e
drop-Follows (suc k) answered [] f e = (tt, refl)
drop-Follows (suc k) answered (m ∷ ms) (inl (q, a, f)) e = drop-Follows k true ms f (rw q at e)
drop-Follows (suc k) answered (m ∷ ms) (inr (q, f)) e = drop-Follows k false ms f (rw q at e)

pub drop-IsWaiting :
    (k : ℕ) (ms : List Message) (m : Message)
    → IsWaiting ms
    → m.role ≡ "user"
    → IsWaiting (m ∷ drop (suc k) ms)
drop-IsWaiting k (n ∷ ms) m (q, f, e) r = let (g, d) = drop-Follows k false ms f e in (r, g, d)
drop-IsWaiting k [] m h r = elim h [ ]

-- ===== src/Provider/Anthropic/Laws.antt =====
-- What the conversion of internal/router/adapters/anthropic.go keeps and what it loses.
use aegis_ai_gateway.Prelude.{
  refl, inr, ap, inl, str_eq, [], if◌then◌else◌, Bool-cases, ◌≡◌, ◌∷◌, String, List,
}
use aegis_ai_gateway.Types.{Message}
use aegis_ai_gateway.Provider.Anthropic.{AnthropicMessage, split_messages}

-- The messages of other roles than "system", with their names left out.
abbrev pub others : List Message → List AnthropicMessage
others [] = []
others (m ∷ ms) =
    if str_eq m.role "system"
    then others ms
    else record { role = m.role; content = m.content } ∷ others ms

-- The contents of the system messages, in order.
abbrev pub system_texts : List Message → List String
system_texts [] = []
system_texts (m ∷ ms) =
    if str_eq m.role "system" then m.content ∷ system_texts ms else system_texts ms

-- The last of the texts, or the first argument if there is none.
abbrev pub last_or : String → List String → String
last_or s [] = s
last_or s (t ∷ ts) = last_or t ts

-- The conversion sends the messages of the other roles in their order, and as the system prompt the
-- last system message alone: the system messages before it are dropped.
pub split_messages_lem :
    (system : String) (ms : List Message)
    → split_messages system ms ≡ (last_or system (system_texts ms), others ms)
unfolding split_messages
split_messages_lem system [] = refl
split_messages_lem system (m ∷ ms) = elim (Bool-cases (str_eq m.role "system")) [
  | inl is_system ↦ rw is_system (split_messages_lem m.content ms)
  | inr not_system ↦ rw not_system (
      ap (λ z. (z.0, record { role = m.role; content = m.content } ∷ z.1))
        (split_messages_lem system ms))
]

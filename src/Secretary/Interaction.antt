-- ===== src/Secretary/Interaction.antt =====
-- internal/secretary/interaction.go: the events of an interaction and the texts that go with them.
-- Whether a text holds one of some phrases (containsAny) is for the router, an argument here.
use ia_lab.Prelude.{
  ℕ, zero, suc, String, Bool, true, false, is_empty, str_append, trim_space, if◌then◌else◌,
}

pub data Meaning : Type 0 where
  lookup agreement action neutral : Meaning

pub data EventKind : Type 0 where
  intent_recognized stage_changed lookup_started action_recognized action_started work_delayed
        completed blocked :
      EventKind

pub record InteractionEvent : Type 0 where
  pub kind : EventKind
  pub meaning : Meaning
  pub source : String
  pub action : String
  pub stage : String

-- The first n runes; a rune is a character of the text.
unfoldable pub take_runes : ℕ → String → String
take_runes zero s = String.[]
take_runes (suc n) String.[] = String.[]
take_runes (suc n) (String.◌∷◌ c s) = String.◌∷◌ c (take_runes n s)

-- boundedLabel: at most 80 runes, whatever the source. Taking 80 leaves a shorter label as it is.
unfoldable pub bounded_label : String → String
unfolding take_runes
bounded_label value = take_runes 80 (trim_space value)

emoji_of : Meaning → String
emoji_of lookup = "🔍"
emoji_of agreement = "✅"
emoji_of action = "👍"
emoji_of neutral = ""

unfoldable pub interaction_emoji : InteractionEvent → String
unfolding emoji_of
interaction_emoji event = elim event.kind [ intent_recognized ↦ emoji_of event.meaning | _ ↦ "" ]

abbrev is_action : Meaning → Bool
is_action action = true
is_action _ = false

unfoldable pub interaction_progress_text : InteractionEvent → String
unfolding bounded_label
interaction_progress_text event = elim event.kind [
  | lookup_started ↦
      let source = bounded_label event.source in
      if is_empty source
      then ""
      else if is_action event.meaning
      then str_append "Buscando en " (str_append source "; esta conexión solo permite consultar.")
      else str_append "Déjame revisar " (str_append source ".")
  | work_delayed ↦
      let stage = trim_space event.stage in
      if is_empty stage
      then ""
      else str_append "Esto está tardando más de lo previsto; sigo " (str_append stage ".")
  | _ ↦ ""
]

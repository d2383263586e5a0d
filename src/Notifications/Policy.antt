-- ===== src/Notifications/Policy.antt =====
-- The policy of push events: PUSH_EVENTS (zzz/settings.py) and `get_push_event_config`
-- (core/notifications.py).
use wikikracja.Common.{Bool, true, false, Option, none, some}

-- `_PUSH_FIELDS`: the categories that a citizen may turn off.
pub data Category : Type 0 where
  obywatele glosowania chat events post task survey bookkeeping : Category

unfoldable pub same_category : Category → Category → Bool
same_category Category.obywatele Category.obywatele = true
same_category Category.glosowania Category.glosowania = true
same_category Category.chat Category.chat = true
same_category Category.events Category.events = true
same_category Category.post Category.post = true
same_category Category.task Category.task = true
same_category Category.survey Category.survey = true
same_category Category.bookkeeping Category.bookkeeping = true
same_category _ _ = false

pub data PushEvent : Type 0 where
  task_created task_helper_joined task_status_changed : PushEvent
  citizen_proposed citizen_accepted citizen_blocked : PushEvent
  document_created document_important_updated : PushEvent
  event_created event_updated event_starting : PushEvent
  vote_proposed vote_modified vote_argument_added vote_discussion_started : PushEvent
  vote_started vote_approved vote_rejected vote_rejected_no_signatures : PushEvent
  vote_last_day vote_buffer_restarted : PushEvent
  transaction_created transaction_updated survey_created survey_updated : PushEvent
  chat_message chat_mention : PushEvent

-- An entry of the settings: a module that is no key of `_PUSH_FIELDS`, and a channel that is no
-- Boolean, are absent.
pub record Entry : Type 0 where
  pub module_key : Option Category
  pub fcm : Option Bool
  pub websocket : Option Bool

pub record Config : Type 0 where
  pub category : Category
  pub fcm : Bool
  pub websocket : Bool

abbrev both : Category → Option Entry
both c = some (record { module_key = some c; fcm = some true; websocket = some true })

abbrev neither : Category → Option Entry
neither c = some (record { module_key = some c; fcm = some false; websocket = some false })

unfoldable pub push_events : PushEvent → Option Entry
push_events PushEvent.task_created = both Category.task
push_events PushEvent.task_helper_joined = both Category.task
push_events PushEvent.task_status_changed = both Category.task
push_events PushEvent.citizen_proposed = both Category.obywatele
push_events PushEvent.citizen_accepted = neither Category.obywatele
push_events PushEvent.citizen_blocked = neither Category.obywatele
push_events PushEvent.document_created = both Category.post
push_events PushEvent.document_important_updated = neither Category.post
push_events PushEvent.event_created = both Category.events
push_events PushEvent.event_updated = neither Category.events
push_events PushEvent.event_starting = both Category.events
push_events PushEvent.vote_proposed = both Category.glosowania
push_events PushEvent.vote_modified = neither Category.glosowania
push_events PushEvent.vote_argument_added = both Category.glosowania
push_events PushEvent.vote_discussion_started = both Category.glosowania
push_events PushEvent.vote_started = both Category.glosowania
push_events PushEvent.vote_approved = both Category.glosowania
push_events PushEvent.vote_rejected = both Category.glosowania
push_events PushEvent.vote_rejected_no_signatures = both Category.glosowania
push_events PushEvent.vote_last_day = both Category.glosowania
push_events PushEvent.vote_buffer_restarted = both Category.glosowania
push_events PushEvent.transaction_created = both Category.bookkeeping
push_events PushEvent.transaction_updated = neither Category.bookkeeping
push_events PushEvent.survey_created = both Category.survey
push_events PushEvent.survey_updated = neither Category.survey
push_events PushEvent.chat_message = both Category.chat
push_events PushEvent.chat_mention = both Category.chat

unfoldable pub validated : Entry → Option Config
validated e = elim e.module_key [
  | none ↦ none
  | some c ↦ elim e.fcm [
    | none ↦ none
    | some f ↦ elim e.websocket [
      | none ↦ none
      | some w ↦ some (record { category = c; fcm = f; websocket = w })
    ]
  ]
]

-- The policy of an event, or none: an unknown or invalid one fails closed.
unfoldable pub get_push_event_config : (PushEvent → Option Entry) → PushEvent → Option Config
unfolding validated
get_push_event_config policy key = elim (policy key) [ none ↦ none | some e ↦ validated e ]

-- ===== src/Notifications/Receivers.antt =====
-- The receivers of core/notifications.py: what each signal asks `_dispatch_notification` for, with the
-- window of updates of a post. A receiver that returns early asks for nothing.
use wikikracja.Common.{
  ℕ, ◌+◌, Bool, true, false, ◌&&◌, not, Option, none, some, List, [], ◌∷◌, ◌==◌, if◌then◌else◌, leb,
  reject_by, assign,
}
use wikikracja.Notifications.Policy.{Category, PushEvent, Entry}
use wikikracja.Notifications.Model.{World, Notification, Topic, push_user_ids}
use wikikracja.Notifications.Broadcast.{Sent, Request, nothing, dispatch}

unfoldable pub of_kind : Category → PushEvent → Option (List ℕ) → Request
of_kind c key recipients = record {
  topic = some (Topic.known c);
  push_event = some key;
  recipient_ids = recipients;
  send_push = true;
  send_websocket = true;
}

unfoldable pub of_event : PushEvent → Request
of_event key = record {
  topic = none;
  push_event = some key;
  recipient_ids = none;
  send_push = true;
  send_websocket = true;
}

unfoldable pub on_citizen_proposed : Option Request
unfolding of_event
on_citizen_proposed = some (of_event PushEvent.citizen_proposed)

-- `texts` tells whether the address, the subject and the body are given.
unfoldable pub on_citizen_accepted : Bool → ℕ → Option Request
unfolding of_kind
on_citizen_accepted texts user =
    if texts
    then some (of_kind Category.obywatele PushEvent.citizen_accepted (some (user ∷ [])))
    else none

abbrev without : ℕ → Option (List ℕ) → Option (List ℕ)
without k none = none
without k (some ids) = some (reject_by (λ i. i == k) ids)

unfoldable pub on_citizen_blocked : World → Bool → Bool → ℕ → Option Request
unfolding of_kind push_user_ids
on_citizen_blocked w was_previously_active texts user =
    if was_previously_active && texts
    then some (
        of_kind Category.obywatele PushEvent.citizen_blocked
          (without user (push_user_ids w (some (Topic.known Category.obywatele)))))
    else none

-- The transitions of a referendum that have a push event, and any other.
pub data Transition : Type 0 where
  proposed modified discussion_started started approved rejected : Transition
  rejected_no_signatures last_day buffer_restart unlisted : Transition

-- `_VOTE_PUSH_EVENTS`
unfoldable pub vote_push_event : Transition → Option PushEvent
vote_push_event Transition.proposed = some PushEvent.vote_proposed
vote_push_event Transition.modified = some PushEvent.vote_modified
vote_push_event Transition.discussion_started = some PushEvent.vote_discussion_started
vote_push_event Transition.started = some PushEvent.vote_started
vote_push_event Transition.approved = some PushEvent.vote_approved
vote_push_event Transition.rejected = some PushEvent.vote_rejected
vote_push_event Transition.rejected_no_signatures = some PushEvent.vote_rejected_no_signatures
vote_push_event Transition.last_day = some PushEvent.vote_last_day
vote_push_event Transition.buffer_restart = some PushEvent.vote_buffer_restarted
vote_push_event Transition.unlisted = none

unfoldable pub on_vote_notification : Transition → Bool → Option Request
unfolding of_kind vote_push_event
on_vote_notification transition texts =
    if texts
    then elim (vote_push_event transition) [
      | some key ↦ some (of_kind Category.glosowania key none)
      | none ↦ some (record {
        topic = some (Topic.known Category.glosowania);
        push_event = none;
        recipient_ids = none;
        send_push = false;
        send_websocket = false;
      })
    ]
    else none

unfoldable pub on_vote_argument_added : Option Request
unfolding of_kind
on_vote_argument_added = some (of_kind Category.glosowania PushEvent.vote_argument_added none)

unfoldable pub on_event_created : Option Request
unfolding of_event
on_event_created = some (of_event PushEvent.event_created)

unfoldable pub on_event_updated : Option Request
unfolding of_event
on_event_updated = some (of_event PushEvent.event_updated)

unfoldable pub on_event_starting : Option Request
unfolding of_kind
on_event_starting = some (of_kind Category.events PushEvent.event_starting none)

unfoldable pub on_task_created : Option Request
unfolding of_kind
on_task_created = some (of_kind Category.task PushEvent.task_created none)

unfoldable pub on_task_helper_joined : ℕ → ℕ → Option Request
unfolding of_kind
on_task_helper_joined coordinator helper =
    if coordinator == helper
    then none
    else some (of_kind Category.task PushEvent.task_helper_joined (some (coordinator ∷ [])))

-- `if not task.assigned_to_id`: a primary key of 0 counts as absent.
unfoldable pub on_task_status_changed : Option ℕ → Option Request
unfolding of_kind
on_task_status_changed none = none
on_task_status_changed (some assigned) =
    if assigned == 0
    then none
    else some (of_kind Category.task PushEvent.task_status_changed (some (assigned ∷ [])))

unfoldable pub on_document_created : Option Request
unfolding of_kind
on_document_created = some (of_kind Category.post PushEvent.document_created none)

-- The cache of claimed windows: until when each post is claimed. A cache that fails lets through.
abbrev pub Windows : Type 0
Windows = ℕ → Option ℕ

abbrev pub throttle_seconds : ℕ
throttle_seconds = 5400

abbrev pub is_open : Option ℕ → ℕ → Bool
is_open none now = true
is_open (some expiry) now = leb expiry now

-- `_claim_post_update_notification`
unfoldable pub claim_post_update : Bool → ℕ → ℕ → Windows → Bool × Windows
claim_post_update cache_works now post windows =
    if not cache_works
    then (true, windows)
    else if is_open (windows post) now
    then (true, assign windows post (some (now + throttle_seconds)))
    else (false, windows)

abbrev pub important_post : Bool → Request
important_post created = record {
  topic = some (Topic.known Category.post);
  push_event = if created then none else some PushEvent.document_important_updated;
  recipient_ids = none;
  send_push = not created;
  send_websocket = not created;
}

unfoldable pub on_important_post_published :
    Bool → Bool → ℕ → ℕ → Windows → Option Request × Windows
unfolding claim_post_update
on_important_post_published true cache_works now post windows =
    (some (important_post true), windows)
on_important_post_published false cache_works now post windows =
    let claim = claim_post_update cache_works now post windows in
    (if claim.0 then some (important_post false) else none, claim.1)

unfoldable pub on_transaction_created : Option Request
unfolding of_kind
on_transaction_created = some (of_kind Category.bookkeeping PushEvent.transaction_created none)

unfoldable pub on_transaction_updated : Option Request
unfolding of_kind
on_transaction_updated = some (of_kind Category.bookkeeping PushEvent.transaction_updated none)

unfoldable pub on_survey_created : Option Request
unfolding of_kind
on_survey_created = some (of_kind Category.survey PushEvent.survey_created none)

unfoldable pub on_survey_updated : Option Request
unfolding of_kind
on_survey_updated = some (of_kind Category.survey PushEvent.survey_updated none)

-- What a receiver sends.
unfoldable pub dispatched :
    (PushEvent → Option Entry) → World → Notification → Option Request → Sent
unfolding dispatch
dispatched policy w n none = nothing
dispatched policy w n (some r) = dispatch policy w n r

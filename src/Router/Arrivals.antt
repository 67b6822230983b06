-- ===== src/Router/Arrivals.antt =====
-- The updates of a chat, as they arrive, in a history with its commands, forms and favourites.
use korail_ktx_macro_telegra.Common.{
  All, Bool, List, Option, false, none, not, refl, some, true, ℕ, ◌∷◌, ◌≡◌, if◌then◌else◌, [],
}
use korail_ktx_macro_telegra.Conversation.{
  Outside, Sent, Step, UserSession, World, delete_onboarded_account,
}
use korail_ktx_macro_telegra.Conversation.Dialogue.{handle_message}
use korail_ktx_macro_telegra.Conversation.Histories.{
  Event, IsStripped, delivered, handle_event, new_world, run, run_sound, says,
}
use korail_ktx_macro_telegra.Conversation.Ready.{IsSound, Stands}
use korail_ktx_macro_telegra.Router.{
  Button, Call, Update, Waiting, access_asked, answer_text, answers, approvals, ask, callback_query,
  cancel_command, cancels, chat_fallback, dead_search, edited_message, favourite, is_command,
  is_in_progress, manual, message, my_chat_member, named_in, next_seat, notify, partition,
  pending_payment, press_access, press_answer, press_button, press_data, press_list, process,
  process_callback_query, process_membership_change, route_text, stands_at_step, step_table, users,
  web_app_data,
}
use korail_ktx_macro_telegra.Text.{Text, same, strip}
use korail_ktx_macro_telegra.Text.Strip.{strip_twice}

-- An update, with what the chat is asked for then; or what a command, a form or a favourite starts
pub data Arrival : Type 0 where
  arrives : Bool → Waiting → Update → Arrival
  does : Event → Arrival

unfoldable pub handle_arrival : Outside → Arrival → World → World
unfolding process handle_event
handle_arrival o (arrives a waiting u) w = (process o a waiting u w).1
handle_arrival o (does e) w = handle_event o e w

unfoldable pub run_arrivals : List (Outside × Arrival) → World → World
unfolding handle_arrival delivered
run_arrivals [] w = w
run_arrivals ((o, a) ∷ rest) w = run_arrivals rest (handle_arrival o a (delivered w))

-- The answer of a button has no white space around it.
abbrev pub IsTidyData : Outside → Option Text → Type 0
IsTidyData o none = Unit
IsTidyData o (some text) = strip o.unicode (partition text).1 ≡ (partition text).1

abbrev pub IsTidy : Outside → Arrival → Type 0
IsTidy o (does e) = IsStripped o e
IsTidy o (arrives a waiting (callback_query q)) = IsTidyData o q.data_given
IsTidy o (arrives a waiting _) = Unit

delivered-IsSound : (w : World) → IsSound w → IsSound (delivered w)
unfolding delivered
delivered-IsSound w h = (h.0, stands_silent w.session w.sent h.1)
  where
    stands_silent : (r : Option UserSession) (sent : List Sent) → Stands r sent → Stands r []
    stands_silent none sent k = tt
    stands_silent (some s) sent k = (k.0, tt)

-- Either way of a branch is sound.
either_call :
    (b : Bool) (x y : List Call × World)
    → IsSound x.1
    → IsSound y.1
    → IsSound (if b then x else y).1
either_call true x y h k = h
either_call false x y h k = k

message-IsSound :
    (o : Outside) (text : Text) (w : World)
    → strip o.unicode text ≡ text
    → IsSound w
    → IsSound (handle_message o text (delivered w))
unfolding run handle_event
message-IsSound o text w t h = run_sound ((o, says text) ∷ []) w (t, tt) h

seat_first :
    (r : Option ℕ) (w : World) (y : List Call × World)
    → IsSound w
    → IsSound y.1
    → (let z : List Call × World = elim r [ some seat ↦ (next_seat seat ∷ [], w) | none ↦ y ] in
        IsSound z.1)
seat_first none w y h k = k
seat_first (some seat) w y h k = h

answer-IsSound :
    (o : Outside) (a : Waiting) (text : Text) (w : World)
    → strip o.unicode text ≡ text
    → IsSound w
    → IsSound (answer_text o a text (delivered w)).1
unfolding answer_text
answer-IsSound o a text w t h =
    let k = delivered-IsSound w h in
    seat_first a.current_seat (delivered w) _ k (
      either_call a.for_admin_password _ _ k (
        either_call a.for_rename _ _ k (
          either_call a.for_interval _ _ k (
            either_call (is_in_progress (delivered w).session) _ _ (message-IsSound o text w t h)
              k))))

text-IsSound :
    (o : Outside) (a : Waiting) (text : Text) (w : World)
    → strip o.unicode text ≡ text
    → IsSound w
    → IsSound (route_text o a text (delivered w)).1
unfolding route_text
text-IsSound o a text w t h =
    let k = delivered-IsSound w h in
    either_call (a.claims text) _ _ k (
      either_call (same text chat_fallback) _ _ k (
        either_call (same text cancel_command) _ _ k
          (either_call (is_command text) _ _ k (answer-IsSound o a text w t h))))

-- Dropping the accounts and the favourites of a chat
membership-IsSound :
    (gone : Bool) (w : World) → IsSound w → IsSound (process_membership_change gone w)
unfolding process_membership_change delete_onboarded_account
membership-IsSound true w h = h
membership-IsSound false w h = h

question-IsSound :
    (o : Outside) (st : Step) (text : Text) (w : World)
    → strip o.unicode text ≡ text
    → IsSound w
    → IsSound (press_answer o st text (delivered w)).1
unfolding press_answer
question-IsSound o st text w t h =
    let k = delivered-IsSound w h in
    either_call (not (stands_at_step st (delivered w).session)) _ _ k
      (either_call (same text manual) _ _ k (message-IsSound o text w t h))

button-IsSound :
    (o : Outside) (a : Bool) (b : Option Button) (text : Text) (w : World)
    → strip o.unicode text ≡ text
    → IsSound w
    → IsSound (press_button o a b text (delivered w)).1
unfolding press_button press_list press_access
button-IsSound o a none text w t h = delivered-IsSound w h
button-IsSound o a (some (answers st)) text w t h = question-IsSound o st text w t h
button-IsSound o a (some favourite) text w t h = delivered-IsSound w h
button-IsSound o a (some approvals) text w t h =
    let k = delivered-IsSound w h in either_call a _ _ k k
button-IsSound o a (some users) text w t h = let k = delivered-IsSound w h in either_call a _ _ k k
button-IsSound o a (some access_asked) text w t h =
    let k = delivered-IsSound w h in either_call (same text ask) _ _ k k
button-IsSound o a (some cancels) text w t h = delivered-IsSound w h
button-IsSound o a (some dead_search) text w t h = delivered-IsSound w h
button-IsSound o a (some pending_payment) text w t h = delivered-IsSound w h
button-IsSound o a (some notify) text w t h = delivered-IsSound w h

data-IsSound :
    (o : Outside) (a has_chat : Bool) (d : Option Text) (w : World)
    → IsTidyData o d
    → IsSound w
    → IsSound (press_data o a has_chat d (delivered w)).1
unfolding press_data
data-IsSound o a has_chat none w t h = delivered-IsSound w h
data-IsSound o a has_chat (some text) w t h =
    either_call has_chat _ _
      (button-IsSound o a (named_in (partition text).0 step_table) (partition text).1 w t h)
      (delivered-IsSound w h)

process-IsSound :
    (o : Outside) (administers : Bool) (a : Waiting) (u : Update) (w : World)
    → IsTidy o (arrives administers a u)
    → IsSound w
    → IsSound (process o administers a u (delivered w)).1
unfolding process process_callback_query
process-IsSound o s a edited_message w t h = delivered-IsSound w h
process-IsSound o s a (my_chat_member gone) w t h =
    membership-IsSound gone (delivered w) (delivered-IsSound w h)
process-IsSound o s a (callback_query q) w t h =
    either_call q.has_id _ _ (data-IsSound o s q.has_chat q.data_given w t h)
      (delivered-IsSound w h)
process-IsSound o s a web_app_data w t h = delivered-IsSound w h
process-IsSound o s a (message none) w t h = delivered-IsSound w h
process-IsSound o s a (message (some text)) w t h =
    text-IsSound o a (strip o.unicode text) w (strip_twice o.unicode text) h

arrivals_sound :
    (arrivals : List (Outside × Arrival)) (w : World)
    → All (λ a. IsTidy a.0 a.1) arrivals
    → IsSound w
    → IsSound (run_arrivals arrivals w)
unfolding run_arrivals handle_arrival run
arrivals_sound [] w t h = h
arrivals_sound ((o, arrives s a u) ∷ arrivals) w t h =
    arrivals_sound arrivals _ t.1 (process-IsSound o s a u w t.0 h)
arrivals_sound ((o, does e) ∷ arrivals) w t h =
    arrivals_sound arrivals _ t.1 (run_sound ((o, e) ∷ []) w (t.0, tt) h)

-- Whatever updates reach a chat, in any order and with any text, between the commands, forms and
-- favourites that start a booking: no handler raises KeyError, the stored session holds the answers
-- that its state says, and the buttons of what was said last answer the question of that state. It is
-- taken that the answer of a button has no white space around it.
pub arrivals-IsSound :
    (arrivals : List (Outside × Arrival))
    → All (λ a. IsTidy a.0 a.1) arrivals
    → IsSound (run_arrivals arrivals new_world)
arrivals-IsSound arrivals t = arrivals_sound arrivals new_world t (refl, tt)

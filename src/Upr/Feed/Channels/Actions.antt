-- ===== src/Upr/Feed/Channels/Actions.antt =====
-- The events and the commands among what a turn of runFeed sends.
use gomemcached.Prelude.{◌≡◌, refl, ap, ◌∙◌, Option, none, some, List, [], ◌∷◌, ◌++◌, map}
use gomemcached.GoMap.{nat_eq}
use gomemcached.Wire.Request.{McRequest}
use gomemcached.Upr.{UprEvent}
use gomemcached.Upr.Feed.Channels.{Action, command, event, event_list, actions}

abbrev pub events_of : List Action → List UprEvent
events_of [] = []
events_of (command req ∷ rest) = events_of rest
events_of (event e ∷ rest) = e ∷ events_of rest

abbrev pub commands_of : List Action → List McRequest
commands_of [] = []
commands_of (command req ∷ rest) = req ∷ commands_of rest
commands_of (event e ∷ rest) = commands_of rest

events_of-commands :
    (reqs : List McRequest) (rest : List Action)
    → events_of (map command reqs ++ rest) ≡ events_of rest
events_of-commands [] rest = refl
events_of-commands (r ∷ reqs) rest = events_of-commands reqs rest

commands_of-commands :
    (reqs : List McRequest) (rest : List Action)
    → commands_of (map command reqs ++ rest) ≡ reqs ++ commands_of rest
commands_of-commands [] rest = refl
commands_of-commands (r ∷ reqs) rest = ap (λ l. r ∷ l) (commands_of-commands reqs rest)

events_of-only : (reqs : List McRequest) → events_of (map command reqs) ≡ []
events_of-only [] = refl
events_of-only (r ∷ reqs) = events_of-only reqs

commands_of-only : (reqs : List McRequest) → commands_of (map command reqs) ≡ reqs
commands_of-only [] = refl
commands_of-only (r ∷ reqs) = ap (λ l. r ∷ l) (commands_of-only reqs)

pub events_of-actions :
    (noops acks : List McRequest) (ev : Option UprEvent)
    → events_of (actions noops ev acks) ≡ event_list ev
events_of-actions noops acks none =
    events_of-commands noops (map command acks) ∙ events_of-only acks
events_of-actions noops acks (some e) =
    events_of-commands noops (event e ∷ map command acks) ∙ ap (λ l. e ∷ l) (events_of-only acks)

pub commands_of-actions :
    (noops acks : List McRequest) (ev : Option UprEvent)
    → commands_of (actions noops ev acks) ≡ noops ++ acks
commands_of-actions noops acks none =
    commands_of-commands noops (map command acks) ∙ ap (λ l. noops ++ l) (commands_of-only acks)
commands_of-actions noops acks (some e) =
    commands_of-commands noops (event e ∷ map command acks)
    ∙ ap (λ l. noops ++ l) (commands_of-only acks)

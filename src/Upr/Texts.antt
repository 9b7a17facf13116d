-- ===== src/Upr/Texts.antt =====
-- The text of an event in client/upr_feed.go.
use gomemcached.Prelude.{◌≡◌, refl, ap, true, some, Bytes, ◌++◌, arith, IsByte}
use gomemcached.GoMap.{bytes_beq}
use gomemcached.Text.{codes, decimal, name_or}
use gomemcached.Text.Numbers.{value-decimal}
use gomemcached.Text.Names.{code_of, parse_number, are_names, code_of-name_or}
use gomemcached.Wire.Opcode.Names.{command_names}
use gomemcached.Upr.{UprEvent}

-- String of an UprEvent.
unfoldable pub event_text : UprEvent → Bytes
event_text event = name_or command_names (codes "#" ++ decimal event.opcode) event.opcode

commands-are_names : are_names b'#' command_names ≡ true
unfolding bytes_beq
commands-are_names = refl

-- The text of an event tells its opcode.
pub code_of-upr_event_text :
    (event : UprEvent)
    → IsByte event.opcode
    → code_of command_names parse_number (event_text event) ≡ some event.opcode
unfolding event_text
code_of-upr_event_text event h =
    code_of-name_or b'#' (decimal event.opcode) command_names parse_number event.opcode
      commands-are_names (ap some (value-decimal event.opcode (omega arith)))

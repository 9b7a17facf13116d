-- ===== src/Tests/TextTests.antt =====
-- Texts of mc_constants_test.go and tap_test.go, and the theorems on texts at concrete inputs.
use gomemcached.Prelude.{◌≡◌, refl, some, Bytes, [], ◌∷◌, arith}
use gomemcached.GoMap.{bytes_eq}
use gomemcached.Text.{codes, digits, digit, name_in, join}
use gomemcached.Wire.Opcode
use gomemcached.Wire.Texts.{command_text, status_text, request_text}
use gomemcached.Wire.Request.{empty_request}
use gomemcached.Tap
use gomemcached.Tap.Texts.{flags_text, flags_of, flags_of-flags_text, flag_part}

get_text : command_text Opcode.get ≡ codes "GET"
unfolding command_text name_in
get_text = refl

number_text : command_text 0x80 ≡ codes "0x80"
unfolding command_text name_in digits digit
number_text = refl

status_number_text : status_text 0x80 ≡ codes "0x80"
unfolding status_text name_in digits digit
status_number_text = refl

printed_request :
    request_text (record empty_request { opcode = Opcode.get; key = codes "k"; body = 1 ∷ 2 ∷ [] })
    ≡ codes "{MCRequest opcode=GET, bodylen=2, key='k'}"
unfolding request_text command_text name_in digits digit
printed_request = refl

-- 0x212 of TestTapConnectFlagNameString.
flags_of-flags_text_example :
    (text : Bytes) × (flags_text 0x212 ≡ some text) × (flags_of text ≡ some 0x212)
flags_of-flags_text_example = flags_of-flags_text 0x212 (omega arith)

printed_flags : flags_text 0x212 ≡ some (codes "DUMP|SUPPORT_ACK|0x200")
unfolding flags_text Tap.split_flags Tap.split_loop flag_part name_in digits digit join
printed_flags = refl

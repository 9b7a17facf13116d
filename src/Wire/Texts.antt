-- ===== src/Wire/Texts.antt =====
-- The texts of mc_constants.go, mc_req.go and mc_res.go, and that the text of a command or of a
-- status tells which it is. A request's, a response's and an error's texts are left in their parts.
use gomemcached.Prelude.{
  ℕ, ◌^◌, ◌<◌, ◌≡◌, refl, ap, true, some, Bytes, ◌∷◌, ◌++◌, length, arith, IsByte, IsU16,
}
use gomemcached.GoMap.{bytes_beq}
use gomemcached.Text.{codes, decimal, hex_two, name_or}
use gomemcached.Text.Numbers.{value-hex_two}
use gomemcached.Text.Names.{code_of, parse_hex, are_names, code_of-name_or}
use gomemcached.Wire.Opcode.Names.{command_names}
use gomemcached.Wire.Status.{status_names}
use gomemcached.Wire.Request.{McRequest}
use gomemcached.Wire.Response.{McResponse}

-- String of a CommandCode.
unfoldable pub command_text : ℕ → Bytes
command_text o = name_or command_names (codes "0x" ++ hex_two o) o

-- String of a Status.
unfoldable pub status_text : ℕ → Bytes
status_text s = name_or status_names (codes "0x" ++ hex_two s) s

-- String of an MCRequest.
unfoldable pub request_text : McRequest → Bytes
request_text req =
    codes "{MCRequest opcode="
    ++ (command_text req.opcode
        ++ (codes ", bodylen="
            ++ (decimal (length req.body) ++ (codes ", key='" ++ (req.key ++ codes "'}")))))

-- String of an MCResponse.
unfoldable pub response_text : McResponse → Bytes
response_text res =
    codes "{MCResponse status="
    ++ (status_text res.status
        ++ (codes " keylen="
            ++ (decimal (length res.key)
                ++ (codes ", extralen="
                    ++ (decimal (length res.extras)
                        ++ (codes ", bodylen=" ++ (decimal (length res.body) ++ codes "}")))))))

-- Error of an MCResponse.
unfoldable pub error_text : McResponse → Bytes
error_text res =
    codes "MCResponse status="
    ++ (status_text res.status
        ++ (codes ", opcode="
            ++ (command_text res.opcode
                ++ (codes ", opaque=" ++ (decimal res.opaque ++ (codes ", msg: " ++ res.body))))))

command_names-are_names : are_names b'0' command_names ≡ true
unfolding bytes_beq
command_names-are_names = refl

status_names-are_names : are_names b'0' status_names ≡ true
unfolding bytes_beq
status_names-are_names = refl

parse_hex_two : (n : ℕ) → n < 16 ^ 17 → parse_hex (codes "0x" ++ hex_two n) ≡ some n
parse_hex_two n h = ap some (value-hex_two n h)

-- The text of an opcode, a command's name or the number of a code without a name, is no other
-- opcode's: it can be read back.
pub code_of-command_text :
    (o : ℕ) → IsByte o → code_of command_names parse_hex (command_text o) ≡ some o
unfolding command_text
code_of-command_text o h =
    code_of-name_or b'0' (b'x' ∷ hex_two o) command_names parse_hex o command_names-are_names
      (parse_hex_two o (omega arith))

-- The text of a status, its name or its number, can be read back.
pub code_of-status_text :
    (s : ℕ) → IsU16 s → code_of status_names parse_hex (status_text s) ≡ some s
unfolding status_text
code_of-status_text s h =
    code_of-name_or b'0' (b'x' ∷ hex_two s) status_names parse_hex s status_names-are_names
      (parse_hex_two s (omega arith))

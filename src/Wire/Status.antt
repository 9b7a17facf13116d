-- ===== src/Wire/Status.antt =====
-- The status codes of mc_constants.go and the names that they print as.
use Prim.Native.String.{String}
use gomemcached.Prelude.{ℕ, List, [], ◌∷◌}

abbrev pub success : ℕ
success = 0x00

abbrev pub key_enoent : ℕ
key_enoent = 0x01

abbrev pub key_eexists : ℕ
key_eexists = 0x02

abbrev pub e2big : ℕ
e2big = 0x03

abbrev pub einval : ℕ
einval = 0x04

abbrev pub not_stored : ℕ
not_stored = 0x05

abbrev pub delta_badval : ℕ
delta_badval = 0x06

abbrev pub not_my_vbucket : ℕ
not_my_vbucket = 0x07

abbrev pub erange : ℕ
erange = 0x22

abbrev pub rollback : ℕ
rollback = 0x23

abbrev pub unknown_command : ℕ
unknown_command = 0x81

abbrev pub enomem : ℕ
enomem = 0x82

abbrev pub tmpfail : ℕ
tmpfail = 0x86

-- StatusNames, in the order of its assignments.
abbrev pub status_names : List (ℕ × String)
status_names =
    (success, "SUCCESS")
    ∷ (key_enoent, "KEY_ENOENT")
    ∷ (key_eexists, "KEY_EEXISTS")
    ∷ (e2big, "E2BIG")
    ∷ (einval, "EINVAL")
    ∷ (not_stored, "NOT_STORED")
    ∷ (delta_badval, "DELTA_BADVAL")
    ∷ (not_my_vbucket, "NOT_MY_VBUCKET")
    ∷ (unknown_command, "UNKNOWN_COMMAND")
    ∷ (erange, "ERANGE")
    ∷ (rollback, "ROLLBACK")
    ∷ (enomem, "ENOMEM")
    ∷ (tmpfail, "TMPFAIL")
    ∷ []

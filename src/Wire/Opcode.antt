-- ===== src/Wire/Opcode.antt =====
-- The command codes of mc_constants.go and the quiet commands.
pub mod Names
use gomemcached.Prelude.{ℕ, Bool, ◌||◌, ◌==◌}

abbrev pub get : ℕ
get = 0x00

abbrev pub set : ℕ
set = 0x01

abbrev pub add : ℕ
add = 0x02

abbrev pub replace : ℕ
replace = 0x03

abbrev pub delete : ℕ
delete = 0x04

abbrev pub increment : ℕ
increment = 0x05

abbrev pub decrement : ℕ
decrement = 0x06

abbrev pub quit : ℕ
quit = 0x07

abbrev pub flush : ℕ
flush = 0x08

abbrev pub getq : ℕ
getq = 0x09

abbrev pub noop : ℕ
noop = 0x0a

abbrev pub version : ℕ
version = 0x0b

abbrev pub getk : ℕ
getk = 0x0c

abbrev pub getkq : ℕ
getkq = 0x0d

abbrev pub append : ℕ
append = 0x0e

abbrev pub prepend : ℕ
prepend = 0x0f

abbrev pub stat : ℕ
stat = 0x10

abbrev pub setq : ℕ
setq = 0x11

abbrev pub addq : ℕ
addq = 0x12

abbrev pub replaceq : ℕ
replaceq = 0x13

abbrev pub deleteq : ℕ
deleteq = 0x14

abbrev pub incrementq : ℕ
incrementq = 0x15

abbrev pub decrementq : ℕ
decrementq = 0x16

abbrev pub quitq : ℕ
quitq = 0x17

abbrev pub flushq : ℕ
flushq = 0x18

abbrev pub appendq : ℕ
appendq = 0x19

abbrev pub prependq : ℕ
prependq = 0x1a

abbrev pub rget : ℕ
rget = 0x30

abbrev pub rset : ℕ
rset = 0x31

abbrev pub rsetq : ℕ
rsetq = 0x32

abbrev pub rappend : ℕ
rappend = 0x33

abbrev pub rappendq : ℕ
rappendq = 0x34

abbrev pub rprepend : ℕ
rprepend = 0x35

abbrev pub rprependq : ℕ
rprependq = 0x36

abbrev pub rdelete : ℕ
rdelete = 0x37

abbrev pub rdeleteq : ℕ
rdeleteq = 0x38

abbrev pub rincr : ℕ
rincr = 0x39

abbrev pub rincrq : ℕ
rincrq = 0x3a

abbrev pub rdecr : ℕ
rdecr = 0x3b

abbrev pub rdecrq : ℕ
rdecrq = 0x3c

abbrev pub sasl_list_mechs : ℕ
sasl_list_mechs = 0x20

abbrev pub sasl_auth : ℕ
sasl_auth = 0x21

abbrev pub sasl_step : ℕ
sasl_step = 0x22

abbrev pub tap_connect : ℕ
tap_connect = 0x40

abbrev pub tap_mutation : ℕ
tap_mutation = 0x41

abbrev pub tap_delete : ℕ
tap_delete = 0x42

abbrev pub tap_flush : ℕ
tap_flush = 0x43

abbrev pub tap_opaque : ℕ
tap_opaque = 0x44

abbrev pub tap_vbucket_set : ℕ
tap_vbucket_set = 0x45

abbrev pub tap_checkpoint_start : ℕ
tap_checkpoint_start = 0x46

abbrev pub tap_checkpoint_end : ℕ
tap_checkpoint_end = 0x47

abbrev pub upr_open : ℕ
upr_open = 0x50

abbrev pub upr_addstream : ℕ
upr_addstream = 0x51

abbrev pub upr_closestream : ℕ
upr_closestream = 0x52

abbrev pub upr_failoverlog : ℕ
upr_failoverlog = 0x54

abbrev pub upr_streamreq : ℕ
upr_streamreq = 0x53

abbrev pub upr_streamend : ℕ
upr_streamend = 0x55

abbrev pub upr_snapshot : ℕ
upr_snapshot = 0x56

abbrev pub upr_mutation : ℕ
upr_mutation = 0x57

abbrev pub upr_deletion : ℕ
upr_deletion = 0x58

abbrev pub upr_expiration : ℕ
upr_expiration = 0x59

abbrev pub upr_flush : ℕ
upr_flush = 0x5a

abbrev pub upr_noop : ℕ
upr_noop = 0x5c

abbrev pub upr_bufferack : ℕ
upr_bufferack = 0x5d

abbrev pub upr_control : ℕ
upr_control = 0x5e

abbrev pub select_bucket : ℕ
select_bucket = 0x89

abbrev pub observe : ℕ
observe = 0x92

-- switch o { case … : return true }
unfoldable pub is_quiet : ℕ → Bool
is_quiet o =
    o == getq
    || o == getkq
    || o == setq
    || o == addq
    || o == replaceq
    || o == deleteq
    || o == incrementq
    || o == decrementq
    || o == quitq
    || o == flushq
    || o == appendq
    || o == prependq
    || o == rsetq
    || o == rappendq
    || o == rprependq
    || o == rdeleteq
    || o == rincrq
    || o == rdecrq

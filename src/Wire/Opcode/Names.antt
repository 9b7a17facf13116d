-- ===== src/Wire/Opcode/Names.antt =====
-- The names of the command codes in mc_constants.go.
use Prim.Native.String.{String}
use gomemcached.Prelude.{ℕ, List, [], ◌∷◌}
use gomemcached.Wire.Opcode.{
  get, set, add, replace, delete, increment, decrement, quit, flush, getq, noop, version, getk,
  getkq, append, prepend, stat, setq, addq, replaceq, deleteq, incrementq, decrementq, quitq,
  flushq, appendq, prependq, rget, rset, rsetq, rappend, rappendq, rprepend, rprependq, rdelete,
  rdeleteq, rincr, rincrq, rdecr, rdecrq, sasl_list_mechs, sasl_auth, sasl_step, tap_connect,
  tap_mutation, tap_delete, tap_flush, tap_opaque, tap_vbucket_set, tap_checkpoint_start,
  tap_checkpoint_end, upr_open, upr_addstream, upr_closestream, upr_failoverlog, upr_streamreq,
  upr_streamend, upr_snapshot, upr_mutation, upr_deletion, upr_expiration, upr_flush, upr_noop,
  upr_bufferack, upr_control,
}

-- CommandNames, in the order of its assignments.
abbrev pub command_names : List (ℕ × String)
command_names =
    (get, "GET")
    ∷ (set, "SET")
    ∷ (add, "ADD")
    ∷ (replace, "REPLACE")
    ∷ (delete, "DELETE")
    ∷ (increment, "INCREMENT")
    ∷ (decrement, "DECREMENT")
    ∷ (quit, "QUIT")
    ∷ (flush, "FLUSH")
    ∷ (getq, "GETQ")
    ∷ (noop, "NOOP")
    ∷ (version, "VERSION")
    ∷ (getk, "GETK")
    ∷ (getkq, "GETKQ")
    ∷ (append, "APPEND")
    ∷ (prepend, "PREPEND")
    ∷ (stat, "STAT")
    ∷ (setq, "SETQ")
    ∷ (addq, "ADDQ")
    ∷ (replaceq, "REPLACEQ")
    ∷ (deleteq, "DELETEQ")
    ∷ (incrementq, "INCREMENTQ")
    ∷ (decrementq, "DECREMENTQ")
    ∷ (quitq, "QUITQ")
    ∷ (flushq, "FLUSHQ")
    ∷ (appendq, "APPENDQ")
    ∷ (prependq, "PREPENDQ")
    ∷ (rget, "RGET")
    ∷ (rset, "RSET")
    ∷ (rsetq, "RSETQ")
    ∷ (rappend, "RAPPEND")
    ∷ (rappendq, "RAPPENDQ")
    ∷ (rprepend, "RPREPEND")
    ∷ (rprependq, "RPREPENDQ")
    ∷ (rdelete, "RDELETE")
    ∷ (rdeleteq, "RDELETEQ")
    ∷ (rincr, "RINCR")
    ∷ (rincrq, "RINCRQ")
    ∷ (rdecr, "RDECR")
    ∷ (rdecrq, "RDECRQ")
    ∷ (sasl_list_mechs, "SASL_LIST_MECHS")
    ∷ (sasl_auth, "SASL_AUTH")
    ∷ (sasl_step, "SASL_STEP")
    ∷ (tap_connect, "TAP_CONNECT")
    ∷ (tap_mutation, "TAP_MUTATION")
    ∷ (tap_delete, "TAP_DELETE")
    ∷ (tap_flush, "TAP_FLUSH")
    ∷ (tap_opaque, "TAP_OPAQUE")
    ∷ (tap_vbucket_set, "TAP_VBUCKET_SET")
    ∷ (tap_checkpoint_start, "TAP_CHECKPOINT_START")
    ∷ (tap_checkpoint_end, "TAP_CHECKPOINT_END")
    ∷ (upr_open, "UPR_OPEN")
    ∷ (upr_addstream, "UPR_ADDSTREAM")
    ∷ (upr_closestream, "UPR_CLOSESTREAM")
    ∷ (upr_failoverlog, "UPR_FAILOVERLOG")
    ∷ (upr_streamreq, "UPR_STREAMREQ")
    ∷ (upr_streamend, "UPR_STREAMEND")
    ∷ (upr_snapshot, "UPR_SNAPSHOT")
    ∷ (upr_mutation, "UPR_MUTATION")
    ∷ (upr_deletion, "UPR_DELETION")
    ∷ (upr_expiration, "UPR_EXPIRATION")
    ∷ (upr_flush, "UPR_FLUSH")
    ∷ (upr_noop, "UPR_NOOP")
    ∷ (upr_bufferack, "UPR_BUFFERACK")
    ∷ (upr_control, "UPR_CONTROL")
    ∷ []

-- ===== src/Upr/Feed/Unknown.antt =====
-- A packet for a stream that a feed does not have.
use gomemcached.Prelude.{◌≡◌, none, some, Bytes, ◌++◌, arith, ◌⊎◌, length-replicate, ℕ}
use gomemcached.Io.{IoError}
use gomemcached.GoMap.{lookup, nat_eq}
use gomemcached.Wire.Buffer.{make_bytes}
use gomemcached.Wire.Layout.{hdr_len}
use gomemcached.Wire.Opcode
use gomemcached.Wire.Request.{McRequest, size, empty_request}
use gomemcached.Wire.Request.Encoding.{wire}
use gomemcached.Wire.Request.RoundTrip.{Fits, HasNoPrivate, receive-wire}
use gomemcached.Upr.{vb_opaque}
use gomemcached.Upr.Feed.{
  UprFeed, ended, count_bytes, handle_packet, with_stream, run_feed, feed_loop, after_receive,
  after_error, after_packet, break_loop,
}

-- The packets about a stream.
abbrev pub IsStreamPacket : ℕ → Type 0
IsStreamPacket opcode =
    (opcode ≡ Opcode.upr_streamreq)
    ⊎ ((opcode ≡ Opcode.upr_mutation)
        ⊎ ((opcode ≡ Opcode.upr_deletion)
            ⊎ ((opcode ≡ Opcode.upr_expiration)
                ⊎ ((opcode ≡ Opcode.upr_streamend)
                    ⊎ ((opcode ≡ Opcode.upr_snapshot)
                        ⊎ ((opcode ≡ Opcode.upr_flush) ⊎ (opcode ≡ Opcode.upr_closestream)))))))

unknown_breaks :
    (feed : UprFeed) (pkt : McRequest)
    → IsStreamPacket pkt.opcode
    → lookup (vb_opaque pkt.opaque) feed.vbstreams ≡ none
    → handle_packet feed pkt ≡ some (break_loop feed)
unfolding handle_packet with_stream
unknown_breaks feed pkt o l = rw l (ground arith)

-- A well-formed packet about a stream that the feed does not have ends the whole feed, whatever
-- follows it: no stream gets an end, and no error is set.
pub unknown_stream_ends_feed :
    (feed : UprFeed) (pkt : McRequest) (rest : Bytes) (e : IoError)
    → Fits pkt
    → HasNoPrivate pkt
    → IsStreamPacket pkt.opcode
    → lookup (vb_opaque pkt.opaque) feed.vbstreams ≡ none
    → run_feed feed (record { input = wire pkt ++ rest; ending = e })
      ≡ ended (count_bytes feed (size pkt))
unfolding run_feed feed_loop after_receive after_error after_packet count_bytes
unknown_stream_ends_feed feed pkt rest e f p o l = rw (
  receive-wire pkt f empty_request rest e (make_bytes hdr_len) p
      (omega (arith, length-replicate {A = ℕ} hdr_len 0)),
  unknown_breaks (count_bytes feed (size pkt)) pkt o l,
)

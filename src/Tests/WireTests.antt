-- ===== src/Tests/WireTests.antt =====
-- Packets of mc_req_test.go and mc_res_test.go, and the theorems on packets at concrete inputs.
use gomemcached.Prelude.{
  ℕ, ◌+◌, ◌≡◌, refl, none, some, Bytes, [], ◌∷◌, ◌++◌, length, inl, arith, replicate,
}
use gomemcached.Io.{eof, unexpected_eof, fault, Reader, Writer, short_read, write}
use gomemcached.Wire.Buffer.{write_at, copy_field}
use gomemcached.Wire.Layout.{Fields, io}
use gomemcached.Wire.Opcode
use gomemcached.Wire.Request
use gomemcached.Wire.Request.{McRequest, empty_request, has_engine_private}
use gomemcached.Wire.Request.Encoding as ReqEncoding
use gomemcached.Wire.Request.Encoding.{bytes-layout, payload}
use gomemcached.Wire.Request.RoundTrip.{receive-bytes}
use gomemcached.Wire.Request.Faults.{receive_short_header}
use gomemcached.Wire.Request.Consumption.{IsAccounted, receive-IsAccounted}
use gomemcached.Wire.Request.Transmission.{Sent, transmit-Sent}
use gomemcached.Wire.Response
use gomemcached.Wire.Response.Transmission.{response_transmit_undercounts}
use gomemcached.Wire.Response.{McResponse, empty_response}
use gomemcached.Wire.Response.Encoding as ResEncoding
use gomemcached.Wire.Response.Decoding.{response_receive-bytes}

-- The request of TestEncodingRequest.
abbrev somekey : McRequest
somekey = record {
  opcode = Opcode.set;
  cas = 938424885;
  opaque = 7242;
  vbucket = 824;
  extras = [];
  key = b's' ∷ b'o' ∷ b'm' ∷ b'e' ∷ b'k' ∷ b'e' ∷ b'y' ∷ [];
  body = b's' ∷ b'o' ∷ b'm' ∷ b'e' ∷ b'v' ∷ b'a' ∷ b'l' ∷ b'u' ∷ b'e' ∷ [];
}

-- The bytes that TestEncodingRequest expects.
somekey-bytes :
    Request.bytes somekey
    ≡ some (
        0x80 ∷ 0x01 ∷ 0x0 ∷ 0x7 ∷ 0x0 ∷ 0x0 ∷ 0x3 ∷ 0x38 ∷ 0x0 ∷ 0x0 ∷ 0x0 ∷ 0x10 ∷ 0x0 ∷ 0x0 ∷ 0x1c
        ∷ 0x4a ∷ 0x0 ∷ 0x0 ∷ 0x0 ∷ 0x0 ∷ 0x37 ∷ 0xef ∷ 0x3a ∷ 0x35 ∷ b's' ∷ b'o' ∷ b'm' ∷ b'e'
        ∷ b'k' ∷ b'e' ∷ b'y' ∷ b's' ∷ b'o' ∷ b'm' ∷ b'e' ∷ b'v' ∷ b'a' ∷ b'l' ∷ b'u' ∷ b'e' ∷ [])
unfolding Request.bytes Request.fill_header_bytes Request.size write_at copy_field
somekey-bytes = refl

receive-bytes_example :
    (bs : Bytes) × (Request.bytes somekey ≡ some bs)
    × (length bs ≡ Request.size somekey)
    × (Request.receive empty_request (record { input = bs ++ (7 ∷ []); ending = eof }) []
        ≡ some (record {
          n = Request.size somekey;
          err = none;
          req = somekey;
          reader = record { input = 7 ∷ []; ending = eof };
        }))
unfolding has_engine_private
receive-bytes_example =
    receive-bytes somekey empty_request (7 ∷ []) eof [] (omega arith) (inl refl) (omega arith)

-- A writer that takes 30 bytes.
abbrev narrow : Writer
narrow = record { sent = []; room = some 30; failure = fault 1 }

transmit-Sent_example :
    (t : Request.Transmitted) × (Request.transmit somekey narrow ≡ some t)
    × Sent narrow (ReqEncoding.wire somekey) t
transmit-Sent_example = transmit-Sent somekey narrow

-- A header that announces one byte of key and one of extras.
abbrev small_header : ℕ → ℕ → Fields
small_header magic total = record {
  magic = magic;
  opcode = Opcode.get;
  klen = 1;
  elen = 1;
  reserved = 0;
  word = 0;
  total = total;
  opaque = 5;
  cas = 0;
}

-- A total of 1 under a key and extras of 2 bytes together wraps to 2 ^ 32 - 1.
-- Nothing follows the header: the error is a plain EOF.
-- A TAP notification with 2 bytes of body, which are taken for a length of 256.
abbrev tap_header : Fields
tap_header = record (small_header 0x80 2) { opcode = Opcode.tap_mutation }

-- A TAP mutation with one byte of private data behind two bytes of extras.
abbrev tap_request : McRequest
tap_request = record {
  opcode = Opcode.tap_mutation;
  cas = 3;
  opaque = 4;
  vbucket = 5;
  extras = 0 ∷ 1 ∷ 99 ∷ [];
  key = 107 ∷ [];
  body = 1 ∷ 2 ∷ [];
}

abbrev cut_stream : Reader
cut_stream = record { input = 0x80 ∷ 0 ∷ []; ending = eof }

short_header_run :
    Request.receive empty_request (record { input = 0x80 ∷ 0 ∷ []; ending = eof }) []
    ≡ some (record {
      n = 2;
      err = some (io unexpected_eof);
      req = empty_request;
      reader = record { input = []; ending = eof };
    })
unfolding short_read
short_header_run =
    receive_short_header empty_request (record { input = 0x80 ∷ 0 ∷ []; ending = eof }) []
      (omega arith) (omega arith)

receive-IsAccounted_example : IsAccounted 2 (record {
  n = 2;
  err = some (io unexpected_eof);
  req = empty_request;
  reader = record { input = []; ending = eof };
})
receive-IsAccounted_example =
    receive-IsAccounted empty_request cut_stream []
      (record {
        n = 2;
        err = some (io unexpected_eof);
        req = empty_request;
        reader = record { input = []; ending = eof };
      })
      (omega arith) short_header_run

abbrev value_response : McResponse
value_response = record empty_response {
  opcode = Opcode.get;
  opaque = 5;
  cas = 938424885;
  extras = 0 ∷ 0 ∷ 0 ∷ 7 ∷ [];
  body = 1 ∷ 2 ∷ [];
}

response_receive-bytes_example :
    (bs : Bytes) × (Response.bytes value_response ≡ some bs)
    × (length bs ≡ Response.size value_response)
    × (Response.receive empty_response (record { input = bs ++ (7 ∷ []); ending = eof }) []
        ≡ some (record {
          n = Response.size value_response;
          err = none;
          res = value_response;
          reader = record { input = 7 ∷ []; ending = eof };
        }))
response_receive-bytes_example =
    response_receive-bytes value_response empty_response (7 ∷ []) eof [] (omega arith) (omega arith)

abbrev large_response : McResponse
large_response = record empty_response { body = replicate 128 0 }

abbrev open_writer : Writer
open_writer = record { sent = []; room = none; failure = eof }

large_sent :
    Response.transmit large_response open_writer
    ≡ some (record {
      n = 24;
      err = none;
      writer = record { sent = ResEncoding.wire large_response; room = none; failure = eof };
    })
unfolding Response.transmit Response.header_bytes Response.fill_header_bytes Response.transmit_rest
    write_at copy_field write
large_sent = refl

-- A count of 24 for 152 bytes.
response_transmit_undercounts_example :
    24 + length large_response.body ≡ Response.size large_response
response_transmit_undercounts_example =
    response_transmit_undercounts large_response open_writer
      (record {
        n = 24;
        err = none;
        writer = record { sent = ResEncoding.wire large_response; room = none; failure = eof };
      })
      (omega arith) large_sent refl
